-- ===== src/Daemon/Supervisor/Timed.antt =====
-- power_supervisor.cpp: the retry timer is armed exactly while the reconnect cycle waits for a retry.
use cec_control.Prelude.{
  ℕ, suc, ◌+◌, ◌≡◌, refl, Bool, true, false, Option, none, some, if◌then◌else◌, arith, inl, inr,
  ◌⊎◌,
}
use cec_control.Adapter.{Backend}
use cec_control.Power.Reconnect.{
  AdapterReconnect, Effect, Event, State, idle, attempting, waiting_for_retry, attempt_succeeded,
  attempt_failed, timer_arm_failed, retry_timer_fired, connection_lost, system_suspend,
  system_resume, on_event, seed_cycle,
}
use cec_control.Power.Reconnect
use cec_control.Power.Lifecycle.{Notify}
use cec_control.Daemon.State.{World, submit}
use cec_control.Daemon.Lifecycle.{reconnect_async}
use cec_control.Daemon.Supervisor.{
  after_submit, schedule_retry, execute_effect, disarm_retry, Returns, Retry, execute,
  execute_within, feed, on_reconnect_result, notify, seed_unless, on_connection_lost,
  on_reconnect_retry_timer_fired,
}
use cec_control.Daemon.Supervisor.Retrying.{if_pick}

abbrev pub is_waiting : State → Bool
is_waiting waiting_for_retry = true
is_waiting _ = false

abbrev pub is_armed : Option ℕ → Bool
is_armed none = false
is_armed (some delay) = true

abbrev pub IsTimed : {S : Type 0} → World S → Type 0
IsTimed w = is_armed w.retry_timer ≡ is_waiting w.reconnect.state

-- What an effect of the cycle finds before it is carried out.
abbrev IsDue : {S : Type 0} → Effect → World S → Type 0
IsDue Effect.none w = IsTimed w
IsDue Effect.start_attempt w = w.reconnect.state ≡ attempting
IsDue Effect.schedule_retry w = (w.reconnect.state ≡ waiting_for_retry) × (w.retry_timer ≡ none)
IsDue Effect.cancel_retry w = w.reconnect.state ≡ idle
IsDue Effect.abandon_cycle w = (w.reconnect.state ≡ idle) × (w.retry_timer ≡ none)

module _ {S : Type 0} (backend : Backend S) (arm_ok : ℕ → Bool) where
  abbrev Run : ℕ → Retry S
  Run = execute_within backend arm_ok

  arm_failed-IsTimed :
      (n : ℕ) (w : World S)
      → w.reconnect.state ≡ waiting_for_retry
      → w.retry_timer ≡ none
      → Returns IsTimed (feed backend arm_ok (Run (suc n)) timer_arm_failed w)
  unfolding execute_within on_event
  arm_failed-IsTimed n w h t = ground arith

  schedule_retry-IsTimed :
      (n delay : ℕ) (w : World S)
      → w.reconnect.state ≡ waiting_for_retry
      → w.retry_timer ≡ none
      → Returns IsTimed (schedule_retry backend arm_ok (Run (suc n)) delay w)
  unfolding schedule_retry
  schedule_retry-IsTimed n delay w h t =
      if_pick (Returns IsTimed) (arm_ok w.arms) (rw h refl)
        (arm_failed-IsTimed n (record w { arms = w.arms + 1 }) h t)

  result-IsTimed :
      (n : ℕ) (ok : Bool) (w : World S)
      → w.reconnect.state ≡ attempting
      → w.retry_timer ≡ none
      → Returns IsTimed (on_reconnect_result backend arm_ok (Run (suc (suc n))) ok w)
  unfolding execute_within on_event on_reconnect_result
  result-IsTimed n ok w h t = ground arith

  -- An attempt under way without a timer.
  abbrev IsTrying : World S → Type 0
  IsTrying w = (w.reconnect.state ≡ attempting) × (w.retry_timer ≡ none)

  after_submit-IsTimed :
      (x : World S × Option Bool)
      → IsTrying x.0
      → Returns IsTimed (after_submit backend arm_ok (Run 2) x)
  unfolding after_submit
  after_submit-IsTimed (w, none) h = ground (arith, h)
  after_submit-IsTimed (w, some ok) h = result-IsTimed 0 ok w h.0 h.1

  reconnect_async-IsTrying : (w : World S) → IsTrying w → IsTrying (reconnect_async backend w).0
  unfolding reconnect_async submit
  reconnect_async-IsTrying w h = ground (arith, h)

  effect-IsTimed :
      (e : Effect) (delay : ℕ) (w : World S)
      → IsDue e w
      → Returns IsTimed (execute_effect backend arm_ok (Run 2) e delay w)
  unfolding execute_effect
  effect-IsTimed Effect.none delay w h = h
  effect-IsTimed Effect.start_attempt delay w h =
      after_submit-IsTimed (reconnect_async backend (disarm_retry backend arm_ok w))
        (reconnect_async-IsTrying (disarm_retry backend arm_ok w) (ground (arith, h)))
  effect-IsTimed Effect.schedule_retry delay w h = schedule_retry-IsTimed 1 delay w h.0 h.1
  effect-IsTimed Effect.cancel_retry delay w h = ground (arith, h)
  effect-IsTimed Effect.abandon_cycle delay w h = ground (arith, h)

  execute-IsTimed :
      (out : Reconnect.Output) (w : World S)
      → IsDue out.effect w
      → Returns IsTimed (execute backend arm_ok out w)
  unfolding execute execute_within
  execute-IsTimed out w h = effect-IsTimed out.effect out.delay w h

  -- The events of the daemon find the timer as it should be.
  connection_lost-IsDue :
      (w : World S)
      → IsTimed w
      → (let (r, out) = on_event w.reconnect connection_lost in
          IsDue out.effect (record w { reconnect = r }))
  unfolding on_event
  connection_lost-IsDue w h = ground (arith, h)

  result-IsDue :
      (ok : Bool) (w : World S)
      → IsTimed w
      → (let (r, out) = on_event w.reconnect (if ok then attempt_succeeded else attempt_failed) in
          IsDue out.effect (record w { reconnect = r }))
  unfolding on_event
  result-IsDue true w h = ground (arith, h)
  result-IsDue false w h = ground (arith, h)

  system_suspend-IsDue :
      (w : World S)
      → IsTimed w
      → (let (r, out) = on_event w.reconnect system_suspend in
          IsDue out.effect (record w { reconnect = r }))
  unfolding on_event
  system_suspend-IsDue w h = ground (arith, h)

  system_resume-IsDue :
      (w : World S)
      → IsTimed w
      → (let (r, out) = on_event w.reconnect system_resume in
          IsDue out.effect (record w { reconnect = r }))
  unfolding on_event
  system_resume-IsDue w h = ground (arith, h)

  -- The timer's own expiry may have been read off it.
  fired-IsDue :
      (t : Option ℕ) (w : World S)
      → IsTimed w
      → (t ≡ none) ⊎ (t ≡ w.retry_timer)
      → (let (r, out) = on_event w.reconnect retry_timer_fired in
          IsDue out.effect (record w { reconnect = r; retry_timer = t }))
  unfolding on_event
  fired-IsDue t w h c = ground (arith, h, c)

  seed_cycle-IsDue :
      (w : World S) (delay : ℕ)
      → IsTimed w
      → (let (r, out) = seed_cycle w.reconnect delay in
          IsDue out.effect (record w { reconnect = r }))
  unfolding seed_cycle
  seed_cycle-IsDue w delay h = ground (arith, h)

  -- While the retry timer is armed exactly when the cycle waits for a retry, so it is after each call
  -- that reaches the cycle, all of which end: a lost connection, the result of an attempt, the expiry
  -- of the timer, whether or not it is read, a notice of the sleep sequencer, and the end of a resume.
  pub retry_timer-IsTimed :
      (w : World S)
      → IsTimed w
      → Returns IsTimed (on_connection_lost backend arm_ok w)
        × ((ok : Bool)
            → Returns IsTimed (on_reconnect_result backend arm_ok (execute backend arm_ok) ok w))
        × ((expired : Bool)
            → Returns IsTimed (on_reconnect_retry_timer_fired backend arm_ok expired w))
        × ((n : Notify) → Returns IsTimed (notify backend arm_ok n w))
        × ((valid : Bool) → Returns IsTimed (seed_unless backend arm_ok valid w))
  unfolding on_connection_lost on_reconnect_result on_reconnect_retry_timer_fired notify seed_unless
      feed
  retry_timer-IsTimed w h = (
    execute-IsTimed _ _ (connection_lost-IsDue w h),
    λ ok. execute-IsTimed _ _ (result-IsDue ok w h),
    λ expired.
        elim expired as (λ x. Returns IsTimed (on_reconnect_retry_timer_fired backend arm_ok x w)) [
          | true ↦ execute-IsTimed _ _ (fired-IsDue none w h (inl refl))
          | false ↦ execute-IsTimed _ _ (fired-IsDue w.retry_timer w h (inr refl))
        ],
    λ n. elim n as (λ x. Returns IsTimed (notify backend arm_ok x w)) [
      | Notify.none ↦ h
      | Notify.system_suspend ↦ execute-IsTimed _ _ (system_suspend-IsDue w h)
      | Notify.system_resume ↦ execute-IsTimed _ _ (system_resume-IsDue w h)
    ],
    λ valid. elim valid as (λ x. Returns IsTimed (seed_unless backend arm_ok x w)) [
      | true ↦ h
      | false ↦ execute-IsTimed _ _ (seed_cycle-IsDue w _ h)
    ],
  )
