-- ===== src/Daemon/Worker.antt =====
-- src/daemon/cec/adapter_worker.cpp, `run`, with the bodies of the jobs: those of
-- adapter_lifecycle.cpp and `executeOnAdapter` of command_dispatcher.cpp.
pub mod Answers
use cec_control.Prelude.{
  ℕ, Bool, true, false, not, ◌&&◌, Option, none, some, List, [], ◌∷◌, if◌then◌else◌,
}
use cec_control.Message.{Message, message, resp_success, resp_error}
use cec_control.Adapter.{
  Backend, Device, Call, Outcome, returned, threw, perform, reopen_connection, close_connection,
  standby_devices, power_on_devices,
}
use cec_control.Throttler.{ThrottlerConfig, CommandThrottler, Throttled}
use cec_control.Operations.{CecConstants}
use cec_control.Dispatch.{DispatchSpec, Handler, run_handler}
use cec_control.Daemon.State.{
  World, Job, Work, suspend_job, resume_job, reconnect_job, command_job, suspend_done, resume_done,
  reconnect_done, reply_with, post,
}

module _ {S : Type 0} (cec : CecConstants) (backend : Backend S) (config : ThrottlerConfig) where
  -- A call whose answer and exceptions are dropped.
  abbrev attempt : Call → Device S → Device S
  attempt c d = (perform backend c d).1

  abbrev connected : Device S → Bool
  connected d = backend.is_connected d.adapter

  -- The handlers' bool as a response; an exception is a failure.
  abbrev response_of : Outcome Bool → Message
  response_of (returned true) = message resp_success
  response_of (returned false) = message resp_error
  response_of threw = message resp_error

  by_handler : Option Handler → Message → Throttled S → Message × Throttled S
  by_handler none command w = (message resp_error, w)
  by_handler (some h) command w =
      let (r, w') = run_handler cec backend config h command w in (response_of r, w')

  unfoldable pub execute_on_adapter : Message → DispatchSpec → Throttled S → Message × Throttled S
  unfolding by_handler
  execute_on_adapter command spec (t, d) =
      if spec.requires_adapter_connection && not (connected d)
      then (message resp_error, (t, d))
      else by_handler spec.adapter_handler command (t, d)

  -- The standby calls may throw, in a `try`; what the close throws leaves the job.
  unfoldable pub run_suspend : Device S → Outcome Bool × Device S
  run_suspend d =
      perform backend close_connection
        (if connected d then attempt (standby_devices cec.device_broadcast) d else d)

  unfoldable pub after_reopen : Bool → Device S → Device S
  after_reopen reconnected d =
      if reconnected then attempt (power_on_devices cec.device_broadcast) d else d

  unfoldable pub answer_to : Option ℕ → Message → World S → World S
  unfolding post
  answer_to none m w = w
  answer_to (some sink) m w = post (reply_with sink m) w

  -- A job that throws ends there, with nothing posted: the worker logs the exception.
  unfoldable pub unless_thrown :
      (Bool → World S → World S) → Outcome Bool × Device S → World S → World S
  unless_thrown go (returned b, d) w = go b (record w { device = d })
  unless_thrown go (threw, d) w = record w { device = d }

  unfoldable pub suspended : Bool → World S → World S
  suspended closed w = post suspend_done w

  -- The connection is read once more after the power-on calls.
  unfoldable pub resumed : Bool → World S → World S
  unfolding after_reopen
  resumed reopened w =
      let d = after_reopen reopened w.device in
      post (resume_done (connected d)) (record w { device = d })

  unfoldable pub reconnected : Bool → World S → World S
  reconnected ok w = post (reconnect_done ok) w

  unfoldable pub run_job : Job → World S → World S
  unfolding post run_suspend unless_thrown suspended resumed reconnected answer_to
      execute_on_adapter
  run_job suspend_job w = unless_thrown suspended (run_suspend w.device) w
  run_job resume_job w = unless_thrown resumed (perform backend reopen_connection w.device) w
  run_job reconnect_job w = unless_thrown reconnected (perform backend reopen_connection w.device) w
  run_job (command_job spec command sink) w =
      let (m, (t, d)) = execute_on_adapter command spec (w.throttler, w.device) in
      answer_to sink m (record w { throttler = t; device = d })

  unfoldable pub next_job : List Job → World S → World S
  unfolding run_job
  next_job [] w = w
  next_job (job ∷ rest) w = run_job job (record w { jobs = rest })

  -- One turn of the worker's loop. After a stop the jobs left are dropped.
  unfoldable pub work_once : World S → World S
  unfolding next_job
  work_once w = if w.stop_requested then record w { jobs = [] } else next_job w.jobs w
