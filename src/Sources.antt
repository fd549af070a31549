-- ===== src/Sources.antt =====
-- src/common/timer_source.cpp and signal_source.cpp: what the timers ask of `timerfd_settime`, and the
-- signals read. The answers of the system are arguments. A duration is the library's count of
-- milliseconds, below zero or not.
pub mod Armed
use cec_control.Prelude.{
  ℕ, ◌+◌, ◌*◌, ◌/◌, ◌%◌, ◌==◌, Bool, true, false, not, ◌||◌, Option, none, some, List, [], ◌∷◌,
  if◌then◌else◌,
}

pub data Duration : Type 0 where
  span : ℕ → Duration
  negative : ℕ → Duration

pub record TimeSpec : Type 0 where
  pub tv_sec : ℕ
  pub tv_nsec : ℕ

abbrev pub zero_time : TimeSpec
zero_time = record { tv_sec = 0; tv_nsec = 0 }

-- `itimerspec`.
pub record TimerSpec : Type 0 where
  pub it_value : TimeSpec
  pub it_interval : TimeSpec

abbrev pub disarmed : TimerSpec
disarmed = record { it_value = zero_time; it_interval = zero_time }

-- A timer: whether its descriptor exists, and what `timerfd_settime` last took.
pub record TimerSource : Type 0 where
  pub is_valid : Bool
  pub setting : TimerSpec

-- Milliseconds as seconds and nanoseconds.
abbrev pub to_time : ℕ → TimeSpec
to_time ms = record { tv_sec = ms / 1000; tv_nsec = ms % 1000 * 1_000_000 }

-- `timerfd_settime`, which answers `ok`.
unfoldable pub set_time : Bool → TimerSpec → TimerSource → Bool × TimerSource
set_time ok spec t = (ok, if ok then record t { setting = spec } else t)

unfoldable pub disarm : Bool → TimerSource → TimerSource
unfolding set_time
disarm ok t = if not t.is_valid then t else (set_time ok disarmed t).1

unfoldable pub arm_once : Bool → Duration → TimerSource → Bool × TimerSource
unfolding set_time disarm
arm_once ok (span ms) t =
    if not t.is_valid
    then (false, t)
    else if ms == 0
    then set_time ok
        (record { it_value = record { tv_sec = 0; tv_nsec = 1 }; it_interval = zero_time }) t
    else set_time ok (record { it_value = to_time ms; it_interval = zero_time }) t
arm_once ok (negative n) t = (false, disarm ok t)

unfoldable pub arm_periodic : Bool → Duration → TimerSource → Bool × TimerSource
unfolding set_time
arm_periodic ok (span ms) t =
    if not t.is_valid || ms == 0
    then (false, t)
    else set_time ok (record { it_value = to_time ms; it_interval = to_time ms }) t
arm_periodic ok (negative n) t = (false, t)

-- `consume`, with the expirations if the read gave them whole.
unfoldable pub consume : Option ℕ → TimerSource → ℕ
consume answer t = if not t.is_valid then 0 else elim answer [ none ↦ 0 | some n ↦ n ]

-- `SIGCHLD`, and the signals that ask the daemon to stop.
pub data Signal : Type 0 where
  child terminate interrupt hangup : Signal

-- The signals that wait at the descriptor.
pub record SignalSource : Type 0 where
  pub is_valid : Bool
  pub pending : List Signal

unfoldable pub read_one : SignalSource → Option Signal × SignalSource
read_one s =
    if not s.is_valid
    then (none, s)
    else elim s.pending [ [] ↦ (none, s) | x ∷ xs ↦ (some x, record s { pending = xs }) ]
