-- ===== src/Daemon/Events/Runs.antt =====
-- Both threads of the daemon, over any sequence of wake-ups: how often each sink is called.
use cec_control.Prelude.{
  ℕ, ◌+◌, ◌≡◌, refl, Bool, false, none, some, List, [], ◌∷◌, if◌then◌else◌, arith, ◌∙◌, subst, ◌==◌,
}
use cec_control.Adapter.{Backend}
use cec_control.Throttler.{ThrottlerConfig}
use cec_control.Operations.{CecConstants}
use cec_control.Power.Lifecycle
use cec_control.Power.Reconnect.{retry_timer_fired}
use cec_control.Daemon.State.{World, power_request, observed, connection_lost_posted}
use cec_control.Daemon.Sinks.{owed, Gains, in_replies, one_if, post-Gains}
use cec_control.Daemon.Supervisor.{
  Returns, Returns-bind, on_safety_timer_fired, on_reconnect_retry_timer_fired,
}
use cec_control.Daemon.Supervisor.Termination.{Returns-map, apply_lifecycle-Returns}
use cec_control.Daemon.Dispatcher.Answers.{Answered}
use cec_control.Daemon.Worker.Answers.{work_once-Gains}
use cec_control.Daemon.Events.{
  Wake, received, drains, works, connection_drops, safety_timer_fires, retry_timer_fires,
  power_changes, bus_observed, handle_command, wake, run,
}
use cec_control.Daemon.Events.Replies.{handle_command-Answered, drain-Gains, quietly, fed}

-- How many commands name the sink `k`.
abbrev pub commands_of : ℕ → List Wake → ℕ
commands_of k [] = 0
commands_of k (received command sink ∷ ks) = one_if (sink == k) + commands_of k ks
commands_of k (_ ∷ ks) = commands_of k ks

-- Nothing is on its way to the worker or back.
abbrev pub IsSettled : {S : Type 0} → World S → Type 0
IsSettled w = (w.jobs ≡ []) × (w.posted ≡ [])

commands_cons :
    (k : ℕ) (i : Wake) (is : List Wake)
    → commands_of k (i ∷ is) ≡ commands_of k (i ∷ []) + commands_of k is
commands_cons k (received command sink) is = omega arith
commands_cons k _ is = omega arith

module _ {S : Type 0} (cec : CecConstants) (backend : Backend S) (config : ThrottlerConfig)
    (arm_ok : ℕ → Bool) (k : ℕ) where
  safety_timer-Gains :
      (expired : Bool) (w : World S)
      → Returns (Gains k 0 w) (on_safety_timer_fired backend arm_ok expired w)
  unfolding on_safety_timer_fired
  safety_timer-Gains expired w =
      let (p, out) = Lifecycle.on_safety_timer_fired w.power in
      quietly cec backend config arm_ok k w _ (
        apply_lifecycle-Returns backend arm_ok k _ out
          (record w { power = p; safety_timer = if expired then none else w.safety_timer })
          (unfold Lifecycle.on_safety_timer_fired in ground arith) refl)

  retry_timer-Gains :
      (expired : Bool) (w : World S)
      → Returns (Gains k 0 w) (on_reconnect_retry_timer_fired backend arm_ok expired w)
  unfolding on_reconnect_retry_timer_fired
  retry_timer-Gains expired w =
      fed cec backend config arm_ok k retry_timer_fired
        (record w { retry_timer = if expired then none else w.retry_timer })

  wake-Gains :
      (i : Wake) (w : World S)
      → w.stop_requested ≡ false
      → Returns (Gains k (commands_of k (i ∷ [])) w) (wake cec backend config arm_ok i w)
  unfolding wake
  wake-Gains (received command sink) w up =
      Returns-map (Answered k sink w) _ (handle_command cec backend config arm_ok command sink w)
        (handle_command-Answered cec backend config arm_ok k command sink w up)
        (λ v h. (omega (arith, h.0), h.1))
  wake-Gains drains w up = drain-Gains cec backend config arm_ok k w
  wake-Gains works w up = work_once-Gains cec backend config k w up
  wake-Gains (safety_timer_fires expired) w up = safety_timer-Gains expired w
  wake-Gains (retry_timer_fires expired) w up = retry_timer-Gains expired w
  wake-Gains (power_changes suspending) w up = post-Gains k (power_request suspending) w
  wake-Gains (bus_observed o) w up = post-Gains k (observed o) w
  wake-Gains connection_drops w up = post-Gains k connection_lost_posted w

  -- Over any sequence of wake-ups of the two threads, from a daemon whose worker takes jobs,
  -- every one is handled to its end, and each sink is owed, or has been given, one reply more for
  -- every command that named it, and no other: whatever the adapter and the timers answer, and
  -- however often the system sleeps. The worker still takes jobs afterwards.
  pub run-Gains :
      (is : List Wake) (w : World S)
      → w.stop_requested ≡ false
      → Returns (Gains k (commands_of k is) w) (run cec backend config arm_ok is w)
  unfolding run
  run-Gains [] w up = (omega arith, refl)
  run-Gains (i ∷ is) w up =
      Returns-bind _ _ (wake cec backend config arm_ok i w) _ (wake-Gains i w up) (λ v (o, s).
        Returns-map _ _ (run cec backend config arm_ok is v) (run-Gains is v (s ∙ up))
          (λ u (p, t). (omega (arith, o, p, commands_cons k i is), t ∙ s)))

  settled-owed : (w : World S) → IsSettled w → owed k w ≡ in_replies k w.replies
  settled-owed w (j, p) = rw (j, p) (omega arith)

  -- Between two moments of a run with nothing on its way to the worker or back, the worker taking
  -- jobs at the first, each sink is called once for every command that named it, and no more.
  pub run-replies :
      (is : List Wake) (w w' : World S)
      → w.stop_requested ≡ false
      → IsSettled w
      → run cec backend config arm_ok is w ≡ some w'
      → IsSettled w'
      → in_replies k w'.replies ≡ in_replies k w.replies + commands_of k is
  run-replies is w w' up q e q' =
      let (o, s) = subst (Returns (Gains k (commands_of k is) w)) e (run-Gains is w up) in
      omega (arith, o, settled-owed w q, settled-owed w' q')
