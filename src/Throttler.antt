-- ===== src/Throttler.antt =====
-- src/daemon/command_throttler.h and command_throttler.cpp: when each command may begin, and how
-- often it is tried. `uint32_t` arithmetic wraps as written; `1u << k` is 2 ^ k, which the program
-- relies on for k < 32 only. Each compare-and-swap loop is the one update that it makes in the end.
pub mod Interval
pub mod Slots
pub mod Retries
use cec_control.Prelude.{
  ℕ, zero, suc, ◌+◌, ◌-◌, ◌*◌, ◌%◌, ◌^◌, Bool, true, false, List, [], ◌∷◌, ltb, ◌==◌, if◌then◌else◌,
  min,
}
use cec_control.Adapter.{Device, Outcome, returned, threw, Action}

pub record ThrottlerConfig : Type 0 where
  pub base_interval_ms : ℕ
  pub max_interval_ms : ℕ
  pub max_retry_attempts : ℕ

abbrev pub default_config : ThrottlerConfig
default_config = record { base_interval_ms = 200; max_interval_ms = 1000; max_retry_attempts = 3 }

-- `begun` is no field of the class: it records what the clock showed when each attempt of a command
-- began, newest first, so that statements can speak of it.
pub record CommandThrottler : Type 0 where
  pub next_allowed : ℕ
  pub consecutive_failures : ℕ
  pub begun : List ℕ

abbrev pub u32 : ℕ → ℕ
u32 n = n % 4294967296

abbrev pub failure_step_ms : ℕ
failure_step_ms = 100

unfoldable pub create : ℕ → CommandThrottler
create now = record { next_allowed = now; consecutive_failures = 0; begun = [] }

unfoldable pub current_interval : ThrottlerConfig → ℕ → ℕ
current_interval c failures =
    if failures == 0
    then c.base_interval_ms
    else (let capped = min failures 5 in
        let span : ℕ =
          if ltb c.base_interval_ms c.max_interval_ms
          then c.max_interval_ms - c.base_interval_ms
          else 0 in
        let extra = min (u32 (failure_step_ms * 2 ^ capped)) span in
        u32 (c.base_interval_ms + extra))

-- The later of the reserved instant and now.
abbrev pub slot_of : ℕ → ℕ → ℕ
slot_of expected now = if ltb now expected then expected else now

-- `sleep_until`, for a slot that lies ahead.
abbrev pub sleep_until : {S : Type 0} → ℕ → Device S → Device S
sleep_until slot d = if ltb d.now slot then record d { now = slot } else d

-- The command begins when the call returns, at what the clock shows after the sleep.
unfoldable pub reserve_slot_and_sleep :
    {S : Type 0} → ThrottlerConfig → CommandThrottler → Device S → CommandThrottler × Device S
reserve_slot_and_sleep c t d =
    let slot = slot_of t.next_allowed d.now in
    let slept = sleep_until slot d in
    (
      record t {
        next_allowed = slot + current_interval c t.consecutive_failures;
        begun = slept.now ∷ t.begun;
      },
      slept,
    )

-- The delay before the next attempt.
unfoldable pub retry_delay : ℕ → ℕ
retry_delay attempt =
    if attempt == 0 then failure_step_ms else u32 (failure_step_ms * u32 (2 ^ attempt))

-- The loop that takes one failure back.
unfoldable pub soften : CommandThrottler → CommandThrottler
soften t =
    if ltb 0 t.consecutive_failures
    then record t { consecutive_failures = t.consecutive_failures - 1 }
    else t

abbrev pub Throttled : Type 0 → Type 0
Throttled S = CommandThrottler × Device S

-- What follows a failed attempt.
unfoldable pub fail_attempt : {S : Type 0} → ℕ → CommandThrottler → Device S → Throttled S
unfolding retry_delay
fail_attempt attempt t d = (
  record t { consecutive_failures = u32 (t.consecutive_failures + 1) },
  record d { now = d.now + retry_delay attempt },
)

-- The loop of `executeWithThrottle`, by the attempts left.
unfoldable pub attempts :
    {S : Type 0}
    → ThrottlerConfig
    → Action S Bool
    → (left attempt : ℕ) → Throttled S
    → Outcome Bool × Throttled S
attempts c command zero attempt (t, d) = (returned false, (soften t, d))
attempts c command (suc left) attempt (t, d) =
    let (t1, d1) = reserve_slot_and_sleep c t d in
    let (r, d2) = command d1 in
    elim r [
      | threw ↦ (threw, (t1, d2))
      | returned true ↦ (returned true, (record t1 { consecutive_failures = 0 }, d2))
      | returned false ↦ attempts c command left (suc attempt) (fail_attempt attempt t1 d2)
    ]

unfoldable pub execute_with_throttle :
    {S : Type 0} → ThrottlerConfig → Action S Bool → Throttled S → Outcome Bool × Throttled S
execute_with_throttle c command w = attempts c command c.max_retry_attempts 0 w
