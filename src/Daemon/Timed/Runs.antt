-- ===== src/Daemon/Timed/Runs.antt =====
-- src/daemon/cec_daemon.cpp: over a run of the daemon the retry timer is armed exactly while the
-- reconnect cycle waits for a retry.
use cec_control.Prelude.{ℕ, ◌≡◌, subst, Bool, true, false, Option, none, some, List, [], ◌∷◌}
use cec_control.Adapter.{Backend}
use cec_control.Throttler.{ThrottlerConfig}
use cec_control.Operations.{CecConstants}
use cec_control.Message.{Message, MessageType, cmd_suspend, cmd_resume}
use cec_control.Dispatch.{
  DispatchSpec, find_dispatch_by_type, supervisor_intercepted, state_only, adapter_call,
}
use cec_control.Power.Lifecycle.{Source}
use cec_control.Daemon.State.{
  World, Work, suspend_done, resume_done, reconnect_done, reply_with, power_request, observed,
  arm_standby, connection_lost_posted, reply, post,
}
use cec_control.Daemon.Dispatcher.{dispatch}
use cec_control.Daemon.Supervisor.{
  apply_lifecycle, on_suspend_requested, on_resume_requested, suspend_worker_done,
}
use cec_control.Daemon.Supervisor.Timed.{IsTimed, retry_timer-IsTimed}
use cec_control.Daemon.Untimed.{dispatch-IsTimed, work_once-IsTimed}
use cec_control.Daemon.Events.{
  Wake, received, drains, works, connection_drops, safety_timer_fires, retry_timer_fires,
  power_changes, bus_observed, handle_command, intercept, route, run_posted, run_batch, drain, wake,
  run,
}
use cec_control.Daemon.Timed.{
  Kept, Kept-bind, Returns-Kept, suspend_requested-Kept, resume_requested-Kept, safety_timer-Kept,
  resume_done-Kept, on_suspend_completed-Kept, apply_lifecycle-Kept,
}

module _ {S : Type 0} (cec : CecConstants) (backend : Backend S) (config : ThrottlerConfig)
    (arm_ok : ℕ → Bool) where
  intercept-Kept :
      (type : MessageType) (sink : ℕ) (w : World S)
      → IsTimed w
      → Kept (intercept cec backend config arm_ok type sink w)
  unfolding intercept reply
  intercept-Kept cmd_suspend sink w h =
      Kept-bind (on_suspend_requested backend arm_ok Source.wire w) _
        (suspend_requested-Kept backend arm_ok Source.wire w h) (λ a q. q)
  intercept-Kept cmd_resume sink w h =
      Kept-bind (on_resume_requested backend arm_ok Source.wire w) _
        (resume_requested-Kept backend arm_ok Source.wire w h) (λ a q. q)
  intercept-Kept _ sink w h = h

  route-Kept :
      (spec : Option DispatchSpec) (command : Message) (sink : ℕ) (w : World S)
      → IsTimed w
      → Kept (route cec backend config arm_ok spec command sink w)
  unfolding route
  route-Kept none command sink w h = dispatch-IsTimed command (some sink) w h
  route-Kept (some spec) command sink w h =
      (elim spec.class
        as (λ c. Kept (elim c [
          | supervisor_intercepted ↦ intercept cec backend config arm_ok command.type sink w
          | _ ↦ some (dispatch command (some sink) w)
        ])) [
          | supervisor_intercepted ↦ intercept-Kept command.type sink w h
          | state_only ↦ dispatch-IsTimed command (some sink) w h
          | adapter_call ↦ dispatch-IsTimed command (some sink) w h
        ])

  run_posted-Kept :
      (work : Work) (w : World S) → IsTimed w → Kept (run_posted cec backend config arm_ok work w)
  unfolding run_posted suspend_worker_done reply
  run_posted-Kept suspend_done w h =
      on_suspend_completed-Kept backend arm_ok (apply_lifecycle backend arm_ok)
        (apply_lifecycle-Kept backend arm_ok) w h
  run_posted-Kept (resume_done valid) w h = resume_done-Kept backend arm_ok valid w h
  run_posted-Kept (reconnect_done ok) w h =
      Returns-Kept _ ((retry_timer-IsTimed backend arm_ok w h).1 ok)
  run_posted-Kept (reply_with sink m) w h = h
  run_posted-Kept (power_request true) w h = suspend_requested-Kept backend arm_ok Source.dbus w h
  run_posted-Kept (power_request false) w h = resume_requested-Kept backend arm_ok Source.dbus w h
  run_posted-Kept (observed o) w h = h
  run_posted-Kept connection_lost_posted w h =
      Returns-Kept _ (retry_timer-IsTimed backend arm_ok w h).0
  run_posted-Kept arm_standby w h = h

  run_batch-Kept :
      (batch : List Work) (w : World S)
      → IsTimed w
      → Kept (run_batch cec backend config arm_ok batch w)
  unfolding run_batch
  run_batch-Kept [] w h = h
  run_batch-Kept (work ∷ rest) w h =
      Kept-bind (run_posted cec backend config arm_ok work w) _ (run_posted-Kept work w h)
        (λ a q. run_batch-Kept rest a q)

  wake-Kept : (k : Wake) (w : World S) → IsTimed w → Kept (wake cec backend config arm_ok k w)
  unfolding wake handle_command drain post
  wake-Kept (received command sink) w h =
      route-Kept (find_dispatch_by_type command.type) command sink w h
  wake-Kept drains w h = run_batch-Kept w.posted (record w { posted = [] }) h
  wake-Kept works w h = work_once-IsTimed cec backend config w h
  wake-Kept (safety_timer_fires expired) w h = safety_timer-Kept backend arm_ok expired w h
  wake-Kept (retry_timer_fires expired) w h =
      Returns-Kept _ ((retry_timer-IsTimed backend arm_ok w h).2 expired)
  wake-Kept (power_changes suspending) w h = h
  wake-Kept (bus_observed o) w h = h
  wake-Kept connection_drops w h = h

  run-Kept : (ks : List Wake) (w : World S) → IsTimed w → Kept (run cec backend config arm_ok ks w)
  unfolding run
  run-Kept [] w h = h
  run-Kept (k ∷ ks) w h =
      Kept-bind (wake cec backend config arm_ok k w) _ (wake-Kept k w h) (λ a q. run-Kept ks a q)

  -- Over any run of the daemon from a state whose retry timer is armed exactly if the reconnect cycle
  -- waits for a retry, it is so at the end: the daemon never waits for a timer that is not armed, and
  -- no timer is left armed behind a cycle that has ended. The attempts, the timers that cannot be
  -- armed and the sleep cycles on the way are whatever they are.
  pub run-IsTimed :
      (ks : List Wake) (w v : World S)
      → run cec backend config arm_ok ks w ≡ some v
      → IsTimed w
      → IsTimed v
  run-IsTimed ks w v e h = subst Kept e (run-Kept ks w h)
