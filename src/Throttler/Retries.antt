-- ===== src/Throttler/Retries.antt =====
-- command_throttler.cpp, `executeWithThrottle`: how often a command is tried and what is counted.
use cec_control.Prelude.{
  ℕ, zero, suc, ◌+◌, ◌-◌, ◌≤◌, ◌<◌, ◌≡◌, refl, Bool, true, false, arith, length, inl, inr,
}
use cec_control.Adapter.{Device, Outcome, returned, Action, Outcome-cases}
use cec_control.Throttler.{
  ThrottlerConfig, CommandThrottler, reserve_slot_and_sleep, fail_attempt, soften, attempts,
  execute_with_throttle, u32,
}

module _ {S : Type 0} (c : ThrottlerConfig) (command : Action S Bool) where
  -- The command reports failure each time.
  abbrev pub AlwaysFails : Type 0
  AlwaysFails = (d : Device S) → (command d).0 ≡ returned false

  fail_step :
      (attempt : ℕ) (t : CommandThrottler) (d : Device S)
      → let (t1, d1) = reserve_slot_and_sleep c t d in
        let (t2, d2) = fail_attempt attempt t1 (command d1).1 in
        (t2.consecutive_failures ≡ u32 (t.consecutive_failures + 1))
        × (length t2.begun ≡ length t.begun + 1)
  unfolding reserve_slot_and_sleep fail_attempt
  fail_step attempt t d = (refl, omega arith)

  begun_once :
      (t : CommandThrottler) (d : Device S)
      → length (reserve_slot_and_sleep c t d).0.begun ≡ length t.begun + 1
  unfolding reserve_slot_and_sleep
  begun_once t d = omega arith

  soften_counts :
      (t : CommandThrottler)
      → ((soften t).consecutive_failures ≡ t.consecutive_failures - 1)
        × (length (soften t).begun ≡ length t.begun)
  unfolding soften
  soften_counts t = ground arith

  attempts_exhausted :
      (left attempt : ℕ) (t : CommandThrottler) (d : Device S)
      → AlwaysFails
      → t.consecutive_failures + left < 4294967296
      → let (r, (t', d')) = attempts c command left attempt (t, d) in
        (r ≡ returned false)
        × (t'.consecutive_failures ≡ t.consecutive_failures + left - 1)
        × (length t'.begun ≡ length t.begun + left)
  unfolding attempts
  attempts_exhausted zero attempt t d fails h =
      (refl, omega (arith, soften_counts t), omega (arith, soften_counts t))
  attempts_exhausted (suc left) attempt t d fails h =
      let (t1, d1) = reserve_slot_and_sleep c t d in
      let (t2, d2) = fail_attempt attempt t1 (command d1).1 in
      let step = fail_step attempt t d in
      let rest = attempts_exhausted left (suc attempt) t2 d2 fails (omega (arith, step)) in
      rw (fails d1, attempts) (rest.0, omega (arith, rest, step), omega (arith, rest, step))

  -- A command that always fails is tried as often as configured and no more; the call then reports
  -- failure, and the counter has grown by one less than the attempts (3 attempts count as 2).
  pub execute_with_throttle_exhausted :
      (t : CommandThrottler) (d : Device S)
      → AlwaysFails
      → t.consecutive_failures + c.max_retry_attempts < 4294967296
      → let (r, (t', d')) = execute_with_throttle c command (t, d) in
        (r ≡ returned false)
        × (t'.consecutive_failures ≡ t.consecutive_failures + c.max_retry_attempts - 1)
        × (length t'.begun ≡ length t.begun + c.max_retry_attempts)
  unfolding execute_with_throttle
  execute_with_throttle_exhausted t d fails h =
      attempts_exhausted c.max_retry_attempts 0 t d fails h

  abbrev Ends : Outcome Bool → ℕ → ℕ → ℕ → Type 0
  Ends r failures tried bound = (r ≡ returned true → failures ≡ 0) × (tried ≤ bound)

  attempts-Ends :
      (left attempt : ℕ) (t : CommandThrottler) (d : Device S)
      → let (r, (t', d')) = attempts c command left attempt (t, d) in
        Ends r t'.consecutive_failures (length t'.begun) (length t.begun + left)
  unfolding attempts
  attempts-Ends zero attempt t d = ((λ e. cc), omega (arith, soften_counts t))
  attempts-Ends (suc left) attempt t d =
      let (t1, d1) = reserve_slot_and_sleep c t d in
      let (t2, d2) = fail_attempt attempt t1 (command d1).1 in
      let step = fail_step attempt t d in
      elim (Outcome-cases (command d1).0) [
        | inl e ↦ rw (e, attempts) ((λ f. cc), omega (arith, begun_once t d))
        | inr (inl e) ↦ rw (e, attempts) ((λ f. refl), omega (arith, begun_once t d))
        | inr (inr e) ↦
            let rest = attempts-Ends left (suc attempt) t2 d2 in
            rw (e, attempts) (rest.0, omega (arith, rest.1, step))
      ]

  -- Whatever the command does, it is tried at most as often as configured, and a call that reports
  -- success leaves no failure counted.
  pub execute_with_throttle_ends :
      (t : CommandThrottler) (d : Device S)
      → let (r, (t', d')) = execute_with_throttle c command (t, d) in
        (r ≡ returned true → t'.consecutive_failures ≡ 0)
        × (length t'.begun ≤ length t.begun + c.max_retry_attempts)
  unfolding execute_with_throttle
  execute_with_throttle_ends t d = attempts-Ends c.max_retry_attempts 0 t d
