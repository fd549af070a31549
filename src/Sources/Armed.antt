-- ===== src/Sources/Armed.antt =====
-- src/common/timer_source.cpp: what a timer that was armed has been asked for.
use cec_control.Prelude.{ℕ, ◌+◌, ◌*◌, ◌<◌, ◌≡◌, Bool, true, arith}
use cec_control.Sources.{span, TimeSpec, TimerSource, zero_time, set_time, arm_once, arm_periodic}

abbrev pub nanoseconds : TimeSpec → ℕ
nanoseconds t = t.tv_sec * 1_000_000_000 + t.tv_nsec

-- A value that the system takes, that does not disarm and that is the duration, or the least there is.
pub record Asks (ms : ℕ) (t : TimeSpec) : Type 0 where
  pub normal : t.tv_nsec < 1_000_000_000
  pub fires : 0 < nanoseconds t
  pub lasts : 0 < ms → nanoseconds t ≡ ms * 1_000_000

-- A timer that `arm_once` says it has armed fires once, after the duration, or at once for a duration of
-- zero, which a setting of zero would instead disarm; one armed periodically fires again after each
-- duration, which is not zero.
pub arm-Asks :
    (ok : Bool) (ms : ℕ) (t : TimerSource)
    → ((arm_once ok (span ms) t).0 ≡ true
        → Asks ms (arm_once ok (span ms) t).1.setting.it_value
          × ((arm_once ok (span ms) t).1.setting.it_interval ≡ zero_time))
      × ((arm_periodic ok (span ms) t).0 ≡ true
          → (0 < ms)
            × Asks ms (arm_periodic ok (span ms) t).1.setting.it_value
            × Asks ms (arm_periodic ok (span ms) t).1.setting.it_interval)
unfolding arm_once arm_periodic set_time
arm-Asks ok ms t = ground arith
