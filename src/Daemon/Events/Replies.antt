-- ===== src/Daemon/Events/Replies.antt =====
-- cec_daemon.cpp's handlers and their replies: what is owed to a response sink.
use cec_control.Prelude.{
  ℕ, ◌≡◌, refl, Bool, true, false, Option, none, some, List, [], ◌∷◌, if◌then◌else◌, arith, ◌∙◌,
}
use cec_control.Adapter.{Backend}
use cec_control.Message.{Message, MessageType, message, resp_error, cmd_suspend, cmd_resume}
use cec_control.Throttler.{ThrottlerConfig}
use cec_control.Operations.{CecConstants}
use cec_control.Dispatch.{DispatchSpec, find_dispatch_by_type}
use cec_control.Power.Lifecycle.{Source, dbus, wire}
use cec_control.Power.Lifecycle
use cec_control.Power.Reconnect.{Event, attempt_succeeded, attempt_failed, connection_lost}
use cec_control.Daemon.State.{
  World, Work, suspend_done, resume_done, reconnect_done, reply_with, power_request, observed,
  connection_lost_posted, arm_standby, reply,
}
use cec_control.Daemon.Sinks.{ledger, ledger-Gains, Gains, of_work, in_posted, reply-Gains}
use cec_control.Daemon.Lifecycle.{on_resume_worker_complete}
use cec_control.Daemon.Dispatcher.{replay}
use cec_control.Daemon.Supervisor.{
  Returns, Returns-bind, ◌>>=◌, apply_lifecycle, on_suspend_requested, on_resume_requested,
  suspend_worker_done, resume_worker_done, on_suspend_completed, on_resume_completed, execute,
  on_reconnect_result, on_connection_lost, feed,
}
use cec_control.Daemon.Supervisor.Termination.{
  Owes, Returns-map, apply_lifecycle-Returns, feed-Returns, seed-Returns,
}
use cec_control.Daemon.Dispatcher.Answers.{Answered, dispatch-Answered, replay-ledger}
use cec_control.Daemon.Events.{handle_command, intercept, route, run_posted, run_batch, drain}

module _ {S : Type 0} (cec : CecConstants) (backend : Backend S) (config : ThrottlerConfig)
    (arm_ok : ℕ → Bool) (k : ℕ) where
  suspend_requested-Owes :
      (n : ℕ × Bool) (source : Source) (w : World S)
      → ledger k w ≡ n
      → Returns (Owes backend arm_ok k n) (on_suspend_requested backend arm_ok source w)
  unfolding on_suspend_requested
  suspend_requested-Owes n source w o =
      let (p, out) = Lifecycle.on_suspend_requested w.power source in
      apply_lifecycle-Returns backend arm_ok k n out (record w { power = p })
        (unfold Lifecycle.on_suspend_requested in ground arith) o

  resume_requested-Owes :
      (n : ℕ × Bool) (source : Source) (w : World S)
      → ledger k w ≡ n
      → Returns (Owes backend arm_ok k n) (on_resume_requested backend arm_ok source w)
  unfolding on_resume_requested
  resume_requested-Owes n source w o =
      let (p, out) = Lifecycle.on_resume_requested w.power source in
      apply_lifecycle-Returns backend arm_ok k n out (record w { power = p })
        (unfold Lifecycle.on_resume_requested in ground arith) o

  replied :
      (sink : ℕ) (m : Message) (w : World S) (x : Option (World S))
      → Returns (Owes backend arm_ok k (ledger k w)) x
      → Returns (Answered k sink w) (x >>= λ done. some (reply sink m done))
  replied sink m w x h =
      Returns-bind (Owes backend arm_ok k (ledger k w)) (Answered k sink w) x _ h (λ v e.
        let (o, s) = ledger-Gains k w v e in
        let (p, t) = reply-Gains k sink m v in (omega (arith, o, p), t ∙ s))

  intercept-Answered :
      (t : MessageType) (sink : ℕ) (w : World S)
      → Returns (Answered k sink w) (intercept cec backend config arm_ok t sink w)
  unfolding intercept
  intercept-Answered cmd_suspend sink w =
      replied sink _ w _ (suspend_requested-Owes (ledger k w) wire w refl)
  intercept-Answered cmd_resume sink w =
      replied sink _ w _ (resume_requested-Owes (ledger k w) wire w refl)
  intercept-Answered _ sink w = reply-Gains k sink (message resp_error) w

  route-Answered :
      (spec : Option DispatchSpec) (command : Message) (sink : ℕ) (w : World S)
      → w.stop_requested ≡ false
      → Returns (Answered k sink w) (route cec backend config arm_ok spec command sink w)
  unfolding route
  route-Answered none command sink w up = dispatch-Answered k command sink w up
  route-Answered (some spec) command sink w up =
      ground (arith, intercept-Answered command.type sink w, dispatch-Answered k command sink w up)

  -- A command from the socket is answered exactly once: its handling ends, and, while the worker
  -- takes jobs, adds one reply to its own sink and none to any other, given at once or by the job
  -- that the command becomes; a suspend or resume request with all that it sets off included. The
  -- worker still takes jobs afterwards.
  pub handle_command-Answered :
      (command : Message) (sink : ℕ) (w : World S)
      → w.stop_requested ≡ false
      → Returns (Answered k sink w) (handle_command cec backend config arm_ok command sink w)
  unfolding handle_command
  handle_command-Answered command sink w up =
      route-Answered (find_dispatch_by_type command.type) command sink w up

  suspend_done-Owes :
      (n : ℕ × Bool) (w : World S)
      → ledger k w ≡ n
      → Returns (Owes backend arm_ok k n) (suspend_worker_done backend arm_ok w)
  unfolding suspend_worker_done on_suspend_completed
  suspend_done-Owes n w o =
      let (p, out) = Lifecycle.on_suspend_completed w.power in
      apply_lifecycle-Returns backend arm_ok k n out (record w { power = p })
        (unfold Lifecycle.on_suspend_completed in ground arith) o

  resume_done-Owes :
      (n : ℕ × Bool) (valid : Bool) (w : World S)
      → ledger k w ≡ n
      → Returns (Owes backend arm_ok k n) (resume_worker_done backend arm_ok valid w)
  unfolding resume_worker_done on_resume_completed on_resume_worker_complete
  resume_done-Owes n valid w o =
      let (w', b, queued) = on_resume_worker_complete valid w in
      let v = replay queued w' in
      let (p, out) = Lifecycle.on_resume_completed v.power valid in
      Returns-bind (Owes backend arm_ok k n) (Owes backend arm_ok k n)
        (apply_lifecycle backend arm_ok out (record v { power = p })) _
        (apply_lifecycle-Returns backend arm_ok k n out (record v { power = p })
          (unfold Lifecycle.on_resume_completed in ground arith) (replay-ledger k queued w' ∙ o))
        (λ u q. seed-Returns backend arm_ok k n valid u q)

  pub quietly :
      (w : World S) (x : Option (World S))
      → Returns (Owes backend arm_ok k (ledger k w)) x
      → Returns (Gains k 0 w) x
  quietly w x h = Returns-map _ _ x h (ledger-Gains k w)

  pub fed :
      (e : Event) (w : World S)
      → Returns (Gains k 0 w) (feed backend arm_ok (execute backend arm_ok) e w)
  fed e w =
      Returns-map _ _ (feed backend arm_ok (execute backend arm_ok) e w)
        (feed-Returns backend arm_ok k (0, false) e w) (λ v q. ledger-Gains k w v q.1)

  -- A posted closure's call ends, and gives the replies that it was to give and no other.
  pub run_posted-Gains :
      (work : Work) (w : World S)
      → Returns (Gains k (of_work k work) w) (run_posted cec backend config arm_ok work w)
  unfolding run_posted on_reconnect_result on_connection_lost
  run_posted-Gains suspend_done w = quietly w _ (suspend_done-Owes _ w refl)
  run_posted-Gains (resume_done valid) w = quietly w _ (resume_done-Owes _ valid w refl)
  run_posted-Gains (reconnect_done ok) w = fed (if ok then attempt_succeeded else attempt_failed) w
  run_posted-Gains (reply_with sink m) w = reply-Gains k sink m w
  run_posted-Gains (power_request true) w = quietly w _ (suspend_requested-Owes _ dbus w refl)
  run_posted-Gains (power_request false) w = quietly w _ (resume_requested-Owes _ dbus w refl)
  run_posted-Gains (observed o) w = (omega arith, refl)
  run_posted-Gains connection_lost_posted w = fed connection_lost w
  run_posted-Gains arm_standby w = (omega arith, refl)

  run_batch-Gains :
      (batch : List Work) (w : World S)
      → Returns (Gains k (in_posted k batch) w) (run_batch cec backend config arm_ok batch w)
  unfolding run_batch
  run_batch-Gains [] w = (omega arith, refl)
  run_batch-Gains (work ∷ rest) w =
      Returns-bind _ _ (run_posted cec backend config arm_ok work w) _ (run_posted-Gains work w)
        (λ v (o, s).
          Returns-map _ _ (run_batch cec backend config arm_ok rest v) (run_batch-Gains rest v)
            (λ u (p, t). (omega (arith, o, p), t ∙ s)))

  -- A drain of the posted closures ends, loses no reply and adds none, and leaves the stop flag
  -- as it is, whatever the closures set off.
  pub drain-Gains : (w : World S) → Returns (Gains k 0 w) (drain cec backend config arm_ok w)
  unfolding drain
  drain-Gains w =
      Returns-map _ _ (run_batch cec backend config arm_ok w.posted (record w { posted = [] }))
        (run_batch-Gains w.posted (record w { posted = [] })) (λ v (o, s). (omega (arith, o), s))
