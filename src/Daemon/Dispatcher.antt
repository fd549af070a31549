-- ===== src/Daemon/Dispatcher.antt =====
-- src/daemon/command_dispatcher.h and command_dispatcher.cpp, but for the body that the worker runs.
-- A reply's sink is a number; `none` is the empty sink.
pub mod Answers
pub mod Parking
use cec_control.Prelude.{
  ℕ, Bool, true, false, ◌&&◌, Option, none, some, List, [], ◌∷◌, if◌then◌else◌,
}
use cec_control.Message.{Message, message, resp_success, resp_error}
use cec_control.Dispatch.{
  DispatchSpec, DispatchClass, find_dispatch_by_type, supervisor_intercepted, state_only,
  adapter_call,
}
use cec_control.Standby
use cec_control.Daemon.State.{World, Job, command_job, submit, reply}
use cec_control.Daemon.Lifecycle.{enqueue, is_suspended}

module _ {S : Type 0} where
  unfoldable pub shutdown : World S → World S
  shutdown w = if w.dispatcher_shutdown then w else record w { dispatcher_shutdown = true }

  unfoldable pub handle_suspended_inline : Message → DispatchSpec → World S → World S × Message
  handle_suspended_inline command spec w =
      if w.queue_commands && spec.queueable_while_suspended
      then (enqueue command w, message resp_success)
      else (w, message resp_error)

  unfoldable pub apply_standby : Message → ℕ → World S → World S
  apply_standby command sink w =
      let (policy, m) = Standby.apply w.standby command in
      reply sink m (record w { standby = policy })

  unfoldable pub submit_adapter_work : DispatchSpec → Message → ℕ → World S → World S
  submit_adapter_work spec command sink w = submit (command_job spec command (some sink)) w

  -- The switch on the class of a command that is not suspended.
  unfoldable pub by_class : DispatchClass → DispatchSpec → Message → ℕ → World S → World S
  unfolding apply_standby submit_adapter_work
  by_class state_only spec command sink w = apply_standby command sink w
  by_class adapter_call spec command sink w = submit_adapter_work spec command sink w
  by_class supervisor_intercepted spec command sink w = reply sink (message resp_error) w

  unfoldable pub by_spec : Option DispatchSpec → Message → ℕ → World S → World S
  unfolding by_class handle_suspended_inline
  by_spec none command sink w = reply sink (message resp_error) w
  by_spec (some spec) command sink w = elim spec.class [
    | supervisor_intercepted ↦ reply sink (message resp_error) w
    | _ ↦
        if is_suspended w
        then (let (w', m) = handle_suspended_inline command spec w in reply sink m w')
        else by_class spec.class spec command sink w
  ]

  unfoldable pub dispatch : Message → Option ℕ → World S → World S
  unfolding by_spec
  dispatch command none w = w
  dispatch command (some sink) w =
      if w.dispatcher_shutdown
      then reply sink (message resp_error) w
      else by_spec (find_dispatch_by_type command.type) command sink w

  unfoldable pub replay_spec : Option DispatchSpec → Message → World S → World S
  replay_spec none command w = w
  replay_spec (some spec) command w = elim spec.class [
    | adapter_call ↦ submit (command_job spec command none) w
    | _ ↦ w
  ]

  unfoldable pub replay : List Message → World S → World S
  unfolding replay_spec
  replay [] w = w
  replay (command ∷ rest) w =
      replay rest (replay_spec (find_dispatch_by_type command.type) command w)
