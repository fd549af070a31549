-- ===== src/Throttler/Interval.antt =====
-- command_throttler.cpp, `currentInterval`: its range and its growth.
use native.Mathlib.Nat.{pow-suc}
use cec_control.Prelude.{ℕ, zero, suc, ◌^◌, ◌≤◌, ◌<◌, arith, min, max}
use cec_control.Throttler.{ThrottlerConfig, current_interval}

-- Both settings are `uint32_t` values.
pub record IsConfig (c : ThrottlerConfig) : Type 0 where
  pub base_fits : c.base_interval_ms < 4294967296
  pub max_fits : c.max_interval_ms < 4294967296

pow_mono : (m n : ℕ) → m ≤ n → 2 ^ m ≤ 2 ^ n
pow_mono zero zero h = omega arith
pow_mono zero (suc n) h = omega (arith, pow-suc 2 n, pow_mono zero n (omega arith))
pow_mono (suc m) zero h = absurd (omega arith)
pow_mono (suc m) (suc n) h = omega (arith, pow-suc 2 n, pow-suc 2 m, pow_mono m n (omega arith))

-- The interval lies between the base and the larger of base and maximum, is the base without
-- failures, and nothing in its computation wraps.
pub current_interval_bounds :
    (c : ThrottlerConfig) (failures : ℕ)
    → IsConfig c
    → (c.base_interval_ms ≤ current_interval c failures)
      × (current_interval c failures ≤ max c.base_interval_ms c.max_interval_ms)
unfolding current_interval
current_interval_bounds c failures f = ground (arith, pow_mono (min failures 5) 5 (omega arith))

-- More failures in a row never shorten the interval.
pub current_interval_mono :
    (c : ThrottlerConfig) (m n : ℕ)
    → IsConfig c
    → m ≤ n
    → current_interval c m ≤ current_interval c n
unfolding current_interval
current_interval_mono c m n f h = ground (
  arith,
  pow_mono (min m 5) (min n 5) (omega arith),
  pow_mono (min m 5) 5 (omega arith),
  pow_mono (min n 5) 5 (omega arith),
)
