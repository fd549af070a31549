-- ===== src/Daemon/Supervisor/Retrying.antt =====
-- power_supervisor.cpp, `execute`: the reconnect effects.
use cec_control.Prelude.{
  ℕ, suc, ◌+◌, ◌≡◌, refl, Bool, true, false, Option, none, some, if◌then◌else◌, arith, not, ◌&&◌,
  ◌∙◌, Bool-cases, inl, inr,
}
use cec_control.Adapter.{Backend}
use cec_control.Power.Reconnect.{
  AdapterReconnect, Effect, Event, State, attempt_succeeded, attempt_failed, timer_arm_failed,
  on_event,
}
use cec_control.Power.Reconnect
use cec_control.Daemon.State.{World, submit, reconnect_job}
use cec_control.Daemon.Lifecycle.{reconnect_async}
use cec_control.Daemon.Sinks.{ledger, ledger-submit}
use cec_control.Daemon.Supervisor.{
  after_submit, schedule_retry, execute_effect, disarm_retry, Returns, Retry, execute,
  execute_within, feed, on_reconnect_result,
}

-- What the effects of the reconnect cycle do not touch; `k` is any response sink.
pub record Keeps {S : Type 0} (k : ℕ) (w w' : World S) : Type 0 where
  pub owes : ledger k w' ≡ ledger k w
  pub power : w'.power ≡ w.power
  pub suspend_queue : w'.suspend_queue ≡ w.suspend_queue
  pub safety_timer : w'.safety_timer ≡ w.safety_timer

-- Both branches of a test have a property.
pub if_pick :
    {A : Type 0} (P : A → Type 0) (b : Bool) {x y : A} → P x → P y → P (if b then x else y)
if_pick P true h k = h
if_pick P false h k = k

module _ {S : Type 0} (backend : Backend S) (arm_ok : ℕ → Bool) (k : ℕ) where
  abbrev Run : ℕ → Retry S
  Run = execute_within backend arm_ok

  arm_failed-Returns :
      (n : ℕ) (v w : World S)
      → Keeps k v w
      → Returns (Keeps k v) (feed backend arm_ok (Run (suc n)) timer_arm_failed w)
  unfolding execute_within on_event
  arm_failed-Returns n v w h = ground arith

  failed-Returns :
      (n : ℕ) (ok : Bool) (v w : World S)
      → Keeps k v w
      → Returns (Keeps k v) (on_reconnect_result backend arm_ok (Run (suc (suc n))) ok w)
  unfolding execute_within on_event on_reconnect_result
  failed-Returns n ok v w h = ground arith

  after_submit-Returns :
      (v : World S) (x : World S × Option Bool)
      → Keeps k v x.0
      → Returns (Keeps k v) (after_submit backend arm_ok (Run 2) x)
  unfolding after_submit
  after_submit-Returns v (w, none) h = h
  after_submit-Returns v (w, some ok) h = failed-Returns 0 ok v w h

  submit_keeps :
      (w : World S)
      → ((submit reconnect_job w).power ≡ w.power)
        × ((submit reconnect_job w).suspend_queue ≡ w.suspend_queue)
        × ((submit reconnect_job w).safety_timer ≡ w.safety_timer)
  unfolding submit
  submit_keeps w = ground arith

  submit-Keeps : (v w : World S) → Keeps k v w → Keeps k v (submit reconnect_job w)
  submit-Keeps v w h =
      let (p, q, t) = submit_keeps w in
      record {
        owes = ledger-submit k reconnect_job w refl ∙ h.owes;
        power = p ∙ h.power;
        suspend_queue = q ∙ h.suspend_queue;
        safety_timer = t ∙ h.safety_timer;
      }

  reconnect_async-Keeps : (v w : World S) → Keeps k v w → Keeps k v (reconnect_async backend w).0
  unfolding reconnect_async
  reconnect_async-Keeps v w h = if_pick Kept w.lifecycle_shutdown h (
      if_pick Kept w.suspend_queue.suspended h (
        if_pick Kept (not w.stop_requested && backend.is_connected w.device.adapter) h
          (submit-Keeps v w h)))
    where
      Kept : World S × Option Bool → Type 0
      Kept x = Keeps k v x.0

  schedule_retry-Returns :
      (delay : ℕ) (w : World S)
      → Returns (Keeps k w) (schedule_retry backend arm_ok (Run 2) delay w)
  unfolding schedule_retry
  schedule_retry-Returns delay w = elim (Bool-cases (arm_ok w.arms)) [
    | inl up ↦
        rw up (record { owes = refl; power = refl; suspend_queue = refl; safety_timer = refl })
    | inr down ↦ rw down (
        arm_failed-Returns 1 w (record w { arms = w.arms + 1 })
          (record { owes = refl; power = refl; suspend_queue = refl; safety_timer = refl }))
  ]

  effect-Returns :
      (e : Effect) (delay : ℕ) (w : World S)
      → Returns (Keeps k w) (execute_effect backend arm_ok (Run 2) e delay w)
  unfolding execute_effect
  effect-Returns Effect.none delay w = ground arith
  effect-Returns Effect.start_attempt delay w =
      after_submit-Returns w (reconnect_async backend (disarm_retry backend arm_ok w))
        (reconnect_async-Keeps w (disarm_retry backend arm_ok w) (ground arith))
  effect-Returns Effect.schedule_retry delay w = schedule_retry-Returns delay w
  effect-Returns Effect.cancel_retry delay w = ground arith
  effect-Returns Effect.abandon_cycle delay w = ground arith

  -- Every effect of the reconnect cycle is carried out within the depth given: the calls end,
  -- whatever the timers and the adapter answer, and the sleep cycle, the parked commands, the
  -- safety timer and the worker's stop flag stay as they were, and no sink gains or loses a
  -- reply.
  pub execute-Returns :
      (out : Reconnect.Output) (w : World S) → Returns (Keeps k w) (execute backend arm_ok out w)
  unfolding execute execute_within
  execute-Returns out w = effect-Returns out.effect out.delay w
