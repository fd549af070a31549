-- ===== src/Daemon/Dispatcher/Answers.antt =====
-- command_dispatcher.cpp, the main thread's part: which replies its operations give.
use cec_control.Prelude.{
  ℕ, ◌≡◌, refl, false, Option, none, some, List, [], ◌∷◌, arith, ◌&&◌, ◌∙◌, ◌==◌,
}
use cec_control.Message.{Message, message, resp_success, resp_error}
use cec_control.Dispatch.{
  DispatchSpec, DispatchClass, find_dispatch_by_type, supervisor_intercepted, state_only,
  adapter_call,
}
use cec_control.Standby
use cec_control.Daemon.State.{World, command_job, reply}
use cec_control.Daemon.Sinks.{ledger, ledger-submit, Gains, one_if, reply-Gains, submit-Gains}
use cec_control.Daemon.Lifecycle.{enqueue}
use cec_control.Daemon.Dispatcher.{
  dispatch, by_spec, by_class, replay, replay_spec, handle_suspended_inline, apply_standby,
  submit_adapter_work,
}
use cec_control.Daemon.Supervisor.Retrying.{if_pick}

module _ {S : Type 0} (k : ℕ) where
  -- The call of a sink, now or later, is one more reply owed to it.
  abbrev pub Answered : ℕ → World S → World S → Type 0
  Answered sink w w' = Gains k (one_if (sink == k)) w w'

  by_class-Answered :
      (c : DispatchClass) (spec : DispatchSpec) (command : Message) (sink : ℕ) (w : World S)
      → w.stop_requested ≡ false
      → Answered sink w (by_class c spec command sink w)
  unfolding by_class apply_standby submit_adapter_work
  by_class-Answered state_only spec command sink w up =
      let (policy, m) = Standby.apply w.standby command in
      reply-Gains k sink m (record w { standby = policy })
  by_class-Answered adapter_call spec command sink w up =
      submit-Gains k (command_job spec command (some sink)) w up
  by_class-Answered supervisor_intercepted spec command sink w up =
      reply-Gains k sink (message resp_error) w

  inline-Answered :
      (command : Message) (spec : DispatchSpec) (sink : ℕ) (w : World S)
      → (let (w', m) = handle_suspended_inline command spec w in Answered sink w (reply sink m w'))
  unfolding handle_suspended_inline enqueue
  inline-Answered command spec sink w =
      if_pick Inline (w.queue_commands && spec.queueable_while_suspended)
        (reply-Gains k sink (message resp_success) (enqueue command w))
        (reply-Gains k sink (message resp_error) w)
    where
      Inline : World S × Message → Type 0
      Inline x = Answered sink w (reply sink x.1 x.0)

  by_spec-Answered :
      (spec : Option DispatchSpec) (command : Message) (sink : ℕ) (w : World S)
      → w.stop_requested ≡ false
      → Answered sink w (by_spec spec command sink w)
  unfolding by_spec
  by_spec-Answered none command sink w up = reply-Gains k sink (message resp_error) w
  by_spec-Answered (some spec) command sink w up = ground (
    arith,
    reply-Gains k sink (message resp_error) w,
    inline-Answered command spec sink w,
    by_class-Answered spec.class spec command sink w up,
  )

  -- A command that is dispatched with a sink, while the worker takes jobs, has it called once: at
  -- once, or by the job that it becomes.
  pub dispatch-Answered :
      (command : Message) (sink : ℕ) (w : World S)
      → w.stop_requested ≡ false
      → Answered sink w (dispatch command (some sink) w)
  unfolding dispatch
  dispatch-Answered command sink w up =
      if_pick (Answered sink w) w.dispatcher_shutdown (reply-Gains k sink (message resp_error) w)
        (by_spec-Answered (find_dispatch_by_type command.type) command sink w up)

  replay_spec-ledger :
      (spec : Option DispatchSpec) (command : Message) (w : World S)
      → ledger k (replay_spec spec command w) ≡ ledger k w
  unfolding replay_spec
  replay_spec-ledger none command w = refl
  replay_spec-ledger (some spec) command w =
      ground (arith, ledger-submit k (command_job spec command none) w refl)

  pub replay-ledger : (queue : List Message) (w : World S) → ledger k (replay queue w) ≡ ledger k w
  unfolding replay
  replay-ledger [] w = refl
  replay-ledger (command ∷ rest) w =
      let next = replay_spec (find_dispatch_by_type command.type) command w in
      replay-ledger rest next ∙ replay_spec-ledger (find_dispatch_by_type command.type) command w
