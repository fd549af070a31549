-- ===== src/Daemon/Events.antt =====
-- src/daemon/cec_daemon.cpp: what wakes the daemon, and how it is handled.
pub mod Replies
pub mod Runs
use cec_control.Prelude.{
  ℕ, Bool, true, false, not, ◌&&◌, Option, none, some, List, [], ◌∷◌, if◌then◌else◌,
}
use cec_control.Message.{
  Message, MessageType, message, resp_success, resp_error, cmd_suspend, cmd_resume,
}
use cec_control.Adapter.{Backend}
use cec_control.Throttler.{ThrottlerConfig}
use cec_control.Operations.{CecConstants}
use cec_control.Dispatch.{
  DispatchSpec, DispatchClass, find_dispatch_by_type, supervisor_intercepted,
}
use cec_control.Standby.{Observation}
use cec_control.Standby
use cec_control.Power.Lifecycle.{Source, dbus, wire}
use cec_control.Daemon.State.{
  World, Job, Work, suspend_done, resume_done, reconnect_done, reply_with, power_request, observed,
  connection_lost_posted, arm_standby, post, reply,
}
use cec_control.Daemon.Dispatcher.{dispatch}
use cec_control.Daemon.Dispatcher
use cec_control.Daemon.Lifecycle
use cec_control.Daemon.Supervisor.{
  ◌>>=◌, execute, on_suspend_requested, on_resume_requested, on_safety_timer_fired,
  on_connection_lost, on_reconnect_result, on_reconnect_retry_timer_fired, resume_worker_done,
  suspend_worker_done,
}
use cec_control.Daemon.Worker.{work_once}

-- What wakes one of the two threads.
pub data Wake : Type 0 where
  received : Message → ℕ → Wake
  drains works connection_drops : Wake
  safety_timer_fires retry_timer_fires power_changes : Bool → Wake
  bus_observed : Observation → Wake

module _ {S : Type 0} (cec : CecConstants) (backend : Backend S) (config : ThrottlerConfig)
    (arm_ok : ℕ → Bool) where
  -- A command that the supervisor handles; the reply follows what it did.
  unfoldable pub intercept : MessageType → ℕ → World S → Option (World S)
  intercept cmd_suspend sink w = do
    done ← on_suspend_requested backend arm_ok wire w
    some (reply sink (message resp_success) done)
  intercept cmd_resume sink w = do
    done ← on_resume_requested backend arm_ok wire w
    some (reply sink (message resp_success) done)
  intercept _ sink w = some (reply sink (message resp_error) w)

  unfoldable pub route : Option DispatchSpec → Message → ℕ → World S → Option (World S)
  unfolding intercept
  route none command sink w = some (dispatch command (some sink) w)
  route (some spec) command sink w = elim spec.class [
    | supervisor_intercepted ↦ intercept command.type sink w
    | _ ↦ some (dispatch command (some sink) w)
  ]

  unfoldable pub handle_command : Message → ℕ → World S → Option (World S)
  unfolding route
  handle_command command sink w = route (find_dispatch_by_type command.type) command sink w

  -- A posted closure runs. The standby callback's request to the D-Bus monitor leaves the daemon.
  unfoldable pub run_posted : Work → World S → Option (World S)
  run_posted suspend_done w = suspend_worker_done backend arm_ok w
  run_posted (resume_done valid) w = resume_worker_done backend arm_ok valid w
  run_posted (reconnect_done ok) w =
      on_reconnect_result backend arm_ok (execute backend arm_ok) ok w
  run_posted (reply_with sink m) w = some (reply sink m w)
  run_posted (power_request true) w = on_suspend_requested backend arm_ok dbus w
  run_posted (power_request false) w = on_resume_requested backend arm_ok dbus w
  run_posted (observed o) w = some (record w { standby = Standby.observe w.standby o })
  run_posted connection_lost_posted w = on_connection_lost backend arm_ok w
  run_posted arm_standby w = some (record w { standby = Standby.arm w.standby })

  unfoldable pub run_batch : List Work → World S → Option (World S)
  run_batch [] w = some w
  run_batch (work ∷ rest) w = do done ← run_posted work w; run_batch rest done

  -- `MainThreadWork::drain`: what the batch posts waits for the next drain.
  unfoldable pub drain : World S → Option (World S)
  unfolding run_batch
  drain w = run_batch w.posted (record w { posted = [] })

  -- One wake-up of either thread: a command from a client, a drain of the posted closures, a turn of
  -- the worker, a timer, or a callback of logind's or the adapter's, which posts.
  unfoldable pub wake : Wake → World S → Option (World S)
  wake (received command sink) w = handle_command command sink w
  wake drains w = drain w
  wake works w = some (work_once cec backend config w)
  wake (safety_timer_fires expired) w = on_safety_timer_fired backend arm_ok expired w
  wake (retry_timer_fires expired) w = on_reconnect_retry_timer_fired backend arm_ok expired w
  wake (power_changes suspending) w = some (post (power_request suspending) w)
  wake (bus_observed o) w = some (post (observed o) w)
  wake connection_drops w = some (post connection_lost_posted w)

  unfoldable pub run : List Wake → World S → Option (World S)
  run [] w = some w
  run (k ∷ ks) w = do next ← wake k w; run ks next
