-- ===== src/Daemon/Worker/Answers.antt =====
-- adapter_worker.cpp, `run`: which replies a job gives.
use cec_control.Prelude.{ℕ, ◌≡◌, refl, Bool, false, Option, none, some, List, [], ◌∷◌, arith}
use cec_control.Adapter.{Backend, Device, Outcome, returned, threw, perform, reopen_connection}
use cec_control.Message.{Message}
use cec_control.Throttler.{ThrottlerConfig}
use cec_control.Operations.{CecConstants}
use cec_control.Daemon.State.{
  World, Job, command_job, suspend_job, resume_job, reconnect_job, suspend_done, resume_done,
  reconnect_done, reply_with,
}
use cec_control.Daemon.Sinks.{of_job, of_sink, in_jobs, Gains, post-Gains}
use cec_control.Daemon.Worker.{
  work_once, next_job, run_job, execute_on_adapter, answer_to, unless_thrown, suspended, resumed,
  reconnected, run_suspend, after_reopen,
}

module _ {S : Type 0} (cec : CecConstants) (backend : Backend S) (config : ThrottlerConfig)
    (k : ℕ) where
  answer_to-Gains :
      (sink : Option ℕ) (m : Message) (w : World S)
      → Gains k (of_sink k sink) w (answer_to cec backend config sink m w)
  unfolding answer_to
  answer_to-Gains none m w = (omega arith, refl)
  answer_to-Gains (some sink) m w = post-Gains k (reply_with sink m) w

  unless_thrown-Gains :
      (go : Bool → World S → World S) (x : Outcome Bool × Device S) (w : World S)
      → ((b : Bool) (v : World S) → Gains k 0 v (go b v))
      → Gains k 0 w (unless_thrown cec backend config go x w)
  unfolding unless_thrown
  unless_thrown-Gains go (returned b, d) w h = h b (record w { device = d })
  unless_thrown-Gains go (threw, d) w h = (omega arith, refl)

  suspended-Gains : (b : Bool) (v : World S) → Gains k 0 v (suspended cec backend config b v)
  unfolding suspended
  suspended-Gains b v = post-Gains k suspend_done v

  resumed-Gains : (b : Bool) (v : World S) → Gains k 0 v (resumed cec backend config b v)
  unfolding resumed
  resumed-Gains b v =
      let d = after_reopen cec backend config b v.device in
      post-Gains k (resume_done (backend.is_connected d.adapter)) (record v { device = d })

  reconnected-Gains : (b : Bool) (v : World S) → Gains k 0 v (reconnected cec backend config b v)
  unfolding reconnected
  reconnected-Gains b v = post-Gains k (reconnect_done b) v

  -- A job gives the reply that it owes, and no other.
  run_job-Gains :
      (job : Job) (w : World S) → Gains k (of_job k job) w (run_job cec backend config job w)
  unfolding run_job
  run_job-Gains suspend_job w =
      unless_thrown-Gains (suspended cec backend config) (run_suspend cec backend config w.device) w
        suspended-Gains
  run_job-Gains resume_job w =
      unless_thrown-Gains (resumed cec backend config) (perform backend reopen_connection w.device)
        w resumed-Gains
  run_job-Gains reconnect_job w =
      unless_thrown-Gains (reconnected cec backend config)
        (perform backend reopen_connection w.device) w reconnected-Gains
  run_job-Gains (command_job spec command sink) w =
      let (m, (t, d)) =
        execute_on_adapter cec backend config command spec (w.throttler, w.device) in
      answer_to-Gains sink m (record w { throttler = t; device = d })

  next_job-Gains :
      (jobs : List Job) (w : World S)
      → in_jobs k w.jobs ≡ in_jobs k jobs
      → Gains k 0 w (next_job cec backend config jobs w)
  unfolding next_job
  next_job-Gains [] w e = (omega arith, refl)
  next_job-Gains (job ∷ rest) w e =
      let (o, s) = run_job-Gains job (record w { jobs = rest }) in (omega (arith, e, o), s)

  -- A turn of the worker, while it takes jobs, loses no reply and adds none, and leaves the stop
  -- flag as it is, whatever the adapter answers or throws.
  pub work_once-Gains :
      (w : World S) → w.stop_requested ≡ false → Gains k 0 w (work_once cec backend config w)
  unfolding work_once
  work_once-Gains w up = ground (arith, up, next_job-Gains w.jobs w refl)
