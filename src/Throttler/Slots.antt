-- ===== src/Throttler/Slots.antt =====
-- command_throttler.cpp, `reserveSlotAndSleep`: when commands begin.
use cec_control.Prelude.{
  ℕ, zero, suc, ◌+◌, ◌≤◌, ◌≡◌, Bool, List, [], ◌∷◌, arith, ltb, Bool-cases, inl, inr,
}
use cec_control.Adapter.{Device, Action, Outcome-cases}
use cec_control.Throttler.{
  ThrottlerConfig, CommandThrottler, slot_of, sleep_until, reserve_slot_and_sleep, fail_attempt,
  soften, attempts, execute_with_throttle, create,
}
use cec_control.Throttler.Interval.{IsConfig, current_interval_bounds}

-- Newest first, each instant is the gap or more after the one before it.
abbrev pub AreApart : ℕ → List ℕ → Type 0
AreApart gap [] = Unit {0}
AreApart gap (t ∷ []) = Unit {0}
AreApart gap (t ∷ u ∷ ts) = (u + gap ≤ t) × AreApart gap (u ∷ ts)

abbrev LeavesGap : ℕ → ℕ → List ℕ → Type 0
LeavesGap gap next [] = Unit {0}
LeavesGap gap next (t ∷ ts) = t + gap ≤ next

-- The commands began apart, and the next one may only begin apart from the last.
pub record IsSpaced (gap : ℕ) (t : CommandThrottler) : Type 0 where
  pub apart : AreApart gap t.begun
  pub next_apart : LeavesGap gap t.next_allowed t.begun

cons-AreApart :
    (slot next gap : ℕ) (ts : List ℕ)
    → next ≤ slot
    → AreApart gap ts
    → LeavesGap gap next ts
    → AreApart gap (slot ∷ ts)
cons-AreApart slot next gap [] h a l = tt
cons-AreApart slot next gap (t ∷ ts) h a l = (omega arith, a)

soften-IsSpaced : {gap : ℕ} (t : CommandThrottler) → IsSpaced gap t → IsSpaced gap (soften t)
unfolding soften
soften-IsSpaced t s = elim (Bool-cases (ltb 0 t.consecutive_failures)) [
  | inl e ↦ rw e (record { apart = s.apart; next_apart = s.next_apart })
  | inr e ↦ rw e s
]

module _ {S : Type 0} (c : ThrottlerConfig) (f : IsConfig c) where
  -- The sleep ends at the slot.
  now-sleep_until :
      (expected : ℕ) (d : Device S)
      → (sleep_until (slot_of expected d.now) d).now ≡ slot_of expected d.now
  now-sleep_until expected d = ground arith

  reserve-IsSpaced :
      (t : CommandThrottler) (d : Device S)
      → IsSpaced c.base_interval_ms t
      → IsSpaced c.base_interval_ms (reserve_slot_and_sleep c t d).0
  unfolding reserve_slot_and_sleep
  reserve-IsSpaced t d s =
      let awake = now-sleep_until t.next_allowed d in
      let slept = sleep_until (slot_of t.next_allowed d.now) d in
      record {
        apart =
            cons-AreApart slept.now t.next_allowed c.base_interval_ms t.begun
              (ground (arith, awake)) s.apart s.next_apart;
        next_apart = omega (arith, awake, current_interval_bounds c t.consecutive_failures f);
      }

  fail_attempt-IsSpaced :
      (attempt : ℕ) (t : CommandThrottler) (d : Device S)
      → IsSpaced c.base_interval_ms t
      → IsSpaced c.base_interval_ms (fail_attempt attempt t d).0
  unfolding fail_attempt
  fail_attempt-IsSpaced attempt t d s = record { apart = s.apart; next_apart = s.next_apart }

  attempts-IsSpaced :
      (command : Action S Bool) (left attempt : ℕ) (t : CommandThrottler) (d : Device S)
      → IsSpaced c.base_interval_ms t
      → IsSpaced c.base_interval_ms (attempts c command left attempt (t, d)).1.0
  unfolding attempts
  attempts-IsSpaced command zero attempt t d s = soften-IsSpaced t s
  attempts-IsSpaced command (suc left) attempt t d s =
      let (t1, d1) = reserve_slot_and_sleep c t d in
      let spaced = reserve-IsSpaced t d s in
      elim (Outcome-cases (command d1).0) [
        | inl e ↦ rw (e, attempts) spaced
        | inr (inl e) ↦
            rw (e, attempts) (record { apart = spaced.apart; next_apart = spaced.next_apart })
        | inr (inr e) ↦
            let (t2, d2) = fail_attempt attempt t1 (command d1).1 in
            rw (e, attempts)
              (attempts-IsSpaced command left (suc attempt) t2 d2
                (fail_attempt-IsSpaced attempt t1 (command d1).1 spaced))
      ]

  -- Whatever commands a throttler runs, and however they end, each attempt begins, by the clock after
  -- its sleep, at least the base interval after the attempt before it.
  pub execute_with_throttle-IsSpaced :
      (command : Action S Bool) (t : CommandThrottler) (d : Device S)
      → IsSpaced c.base_interval_ms t
      → IsSpaced c.base_interval_ms (execute_with_throttle c command (t, d)).1.0
  unfolding execute_with_throttle
  execute_with_throttle-IsSpaced command t d s =
      attempts-IsSpaced command c.max_retry_attempts 0 t d s

-- A new throttler satisfies it.
pub create-IsSpaced : (gap now : ℕ) → IsSpaced gap (create now)
unfolding create
create-IsSpaced gap now = record { apart = tt; next_apart = tt }
