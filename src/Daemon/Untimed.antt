-- ===== src/Daemon/Untimed.antt =====
-- src/daemon: what does not reach the reconnect cycle leaves its timer as it was.
use cec_control.Prelude.{
  ℕ, Bool, Option, none, some, List, [], ◌∷◌, if◌then◌else◌, arith, if_ind, ◌&&◌,
}
use cec_control.Adapter.{Backend, Outcome, returned, threw, Device, perform, reopen_connection}
use cec_control.Throttler.{ThrottlerConfig}
use cec_control.Operations.{CecConstants}
use cec_control.Message.{Message, message, resp_error}
use cec_control.Dispatch.{
  DispatchClass, DispatchSpec, state_only, adapter_call, supervisor_intercepted,
  find_dispatch_by_type,
}
use cec_control.Daemon.State.{
  World, Job, suspend_job, resume_job, reconnect_job, command_job, submit, post, reply,
}
use cec_control.Daemon.Lifecycle.{suspend_async, resume_async, is_suspended, enqueue}
use cec_control.Daemon.Dispatcher.{
  dispatch, by_spec, by_class, handle_suspended_inline, apply_standby, submit_adapter_work, replay,
  replay_spec,
}
use cec_control.Daemon.Worker.{
  work_once, next_job, run_job, unless_thrown, run_suspend, execute_on_adapter, suspended, resumed,
  reconnected, answer_to,
}
use cec_control.Daemon.Supervisor.Timed.{IsTimed}

module _ {S : Type 0} where
  submit-IsTimed : (job : Job) (w : World S) → IsTimed w → IsTimed (submit job w)
  unfolding submit
  submit-IsTimed job w h = if_ind IsTimed w.stop_requested (λ e. h) (λ e. h)

  pub suspend_async-IsTimed : (w : World S) → IsTimed w → IsTimed (suspend_async w).0
  unfolding suspend_async submit
  suspend_async-IsTimed w h = ground (arith, h)

  pub resume_async-IsTimed : (w : World S) → IsTimed w → IsTimed (resume_async w).0
  unfolding resume_async submit
  resume_async-IsTimed w h = ground (arith, h)

  handle_suspended_inline-IsTimed :
      (command : Message) (spec : DispatchSpec) (w : World S)
      → IsTimed w
      → IsTimed (handle_suspended_inline command spec w).0
  unfolding handle_suspended_inline enqueue
  handle_suspended_inline-IsTimed command spec w h =
      if_ind (λ (x : World S × Message). IsTimed x.0)
        (w.queue_commands && spec.queueable_while_suspended) (λ e. h) (λ e. h)

  by_class-IsTimed :
      (c : DispatchClass) (spec : DispatchSpec) (command : Message) (sink : ℕ) (w : World S)
      → IsTimed w
      → IsTimed (by_class c spec command sink w)
  unfolding by_class apply_standby submit_adapter_work reply
  by_class-IsTimed state_only spec command sink w h = h
  by_class-IsTimed adapter_call spec command sink w h =
      submit-IsTimed (command_job spec command (some sink)) w h
  by_class-IsTimed supervisor_intercepted spec command sink w h = h

  -- A command that is not the supervisor's.
  unless_suspended-IsTimed :
      (spec : DispatchSpec) (command : Message) (sink : ℕ) (w : World S)
      → IsTimed w
      → IsTimed (
          if is_suspended w
          then (let (w', m) = handle_suspended_inline command spec w in reply sink m w')
          else by_class spec.class spec command sink w)
  unfolding reply
  unless_suspended-IsTimed spec command sink w h =
      if_ind IsTimed (is_suspended w) (λ e. handle_suspended_inline-IsTimed command spec w h)
        (λ e. by_class-IsTimed spec.class spec command sink w h)

  by_spec-IsTimed :
      (spec : Option DispatchSpec) (command : Message) (sink : ℕ) (w : World S)
      → IsTimed w
      → IsTimed (by_spec spec command sink w)
  unfolding by_spec reply
  by_spec-IsTimed none command sink w h = h
  by_spec-IsTimed (some spec) command sink w h =
      (elim spec.class
        as (λ c. IsTimed (elim c [
          | supervisor_intercepted ↦ reply sink (message resp_error) w
          | _ ↦
              if is_suspended w
              then (let (w', m) = handle_suspended_inline command spec w in reply sink m w')
              else by_class spec.class spec command sink w
        ])) [
          | supervisor_intercepted ↦ h
          | state_only ↦ unless_suspended-IsTimed spec command sink w h
          | adapter_call ↦ unless_suspended-IsTimed spec command sink w h
        ])

  pub dispatch-IsTimed :
      (command : Message) (sink : Option ℕ) (w : World S)
      → IsTimed w
      → IsTimed (dispatch command sink w)
  unfolding dispatch reply
  dispatch-IsTimed command none w h = h
  dispatch-IsTimed command (some sink) w h =
      if_ind IsTimed w.dispatcher_shutdown (λ e. h)
        (λ e. by_spec-IsTimed (find_dispatch_by_type command.type) command sink w h)

  replay_spec-IsTimed :
      (spec : Option DispatchSpec) (command : Message) (w : World S)
      → IsTimed w
      → IsTimed (replay_spec spec command w)
  unfolding replay_spec
  replay_spec-IsTimed none command w h = h
  replay_spec-IsTimed (some spec) command w h =
      (elim spec.class
        as (λ c.
          IsTimed (elim c [ adapter_call ↦ submit (command_job spec command none) w | _ ↦ w ])) [
            | adapter_call ↦ submit-IsTimed (command_job spec command none) w h
            | supervisor_intercepted ↦ h
            | state_only ↦ h
          ])

  pub replay-IsTimed : (ms : List Message) (w : World S) → IsTimed w → IsTimed (replay ms w)
  unfolding replay
  replay-IsTimed [] w h = h
  replay-IsTimed (m ∷ ms) w h =
      replay-IsTimed ms (replay_spec (find_dispatch_by_type m.type) m w)
        (replay_spec-IsTimed (find_dispatch_by_type m.type) m w h)

module _ {S : Type 0} (cec : CecConstants) (backend : Backend S) (config : ThrottlerConfig) where
  unless_thrown-IsTimed :
      (go : Bool → World S → World S)
      → ((b : Bool) (w : World S) → IsTimed w → IsTimed (go b w))
      → (x : Outcome Bool × Device S) (w : World S) → IsTimed w
      → IsTimed (unless_thrown cec backend config go x w)
  unfolding unless_thrown
  unless_thrown-IsTimed go k (returned b, d) w h = k b (record w { device = d }) h
  unless_thrown-IsTimed go k (threw, d) w h = h

  answer_to-IsTimed :
      (sink : Option ℕ) (m : Message) (w : World S)
      → IsTimed w
      → IsTimed (answer_to cec backend config sink m w)
  unfolding answer_to post
  answer_to-IsTimed none m w h = h
  answer_to-IsTimed (some sink) m w h = h

  run_job-IsTimed :
      (job : Job) (w : World S) → IsTimed w → IsTimed (run_job cec backend config job w)
  unfolding run_job suspended resumed reconnected post
  run_job-IsTimed suspend_job w h =
      unless_thrown-IsTimed (suspended cec backend config) (λ b v k. k)
        (run_suspend cec backend config w.device) w h
  run_job-IsTimed resume_job w h =
      unless_thrown-IsTimed (resumed cec backend config) (λ b v k. k)
        (perform backend reopen_connection w.device) w h
  run_job-IsTimed reconnect_job w h =
      unless_thrown-IsTimed (reconnected cec backend config) (λ b v k. k)
        (perform backend reopen_connection w.device) w h
  run_job-IsTimed (command_job spec command sink) w h =
      let (m, (t, d)) =
        execute_on_adapter cec backend config command spec (w.throttler, w.device) in
      answer_to-IsTimed sink m (record w { throttler = t; device = d }) h

  next_job-IsTimed :
      (jobs : List Job) (w : World S) → IsTimed w → IsTimed (next_job cec backend config jobs w)
  unfolding next_job
  next_job-IsTimed [] w h = h
  next_job-IsTimed (job ∷ rest) w h = run_job-IsTimed job (record w { jobs = rest }) h

  pub work_once-IsTimed : (w : World S) → IsTimed w → IsTimed (work_once cec backend config w)
  unfolding work_once
  work_once-IsTimed w h =
      if_ind IsTimed w.stop_requested (λ e. h) (λ e. next_job-IsTimed w.jobs w h)
