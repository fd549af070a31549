-- ===== src/Deadline.antt =====
-- src/common/deadline.h, on a clock that counts nanoseconds, below the end of its range.
use cec_control.Prelude.{
  ℕ, ◌+◌, ◌-◌, ◌*◌, ◌/◌, ◌≤◌, ◌<◌, ◌≡◌, leb, ltb, ◌==◌, Bool, Option, none, some, if◌then◌else◌,
  arith,
}

-- The last point of time, which stands for no deadline.
abbrev pub clock_max : ℕ
clock_max = 9223372036854775807

abbrev pub int_max : ℕ
int_max = 2147483647

pub record Deadline : Type 0 where
  pub expiry : ℕ

unfoldable pub deadline_in : ℕ → ℕ → Deadline
deadline_in now duration = record { expiry = now + duration * 1000000 }

unfoldable pub is_unbounded : Deadline → Bool
is_unbounded d = d.expiry == clock_max

-- The milliseconds that are left at `now`; none stands for -1.
unfoldable pub remaining : ℕ → Deadline → Option ℕ
unfolding is_unbounded
remaining now d =
    if is_unbounded d
    then none
    else if leb d.expiry now
    then some 0
    else some ((d.expiry - now) / 1000000)

unfoldable pub remaining_ms : ℕ → Deadline → Option ℕ
unfolding remaining
remaining_ms now d = elim (remaining now d) [
  | none ↦ none
  | some ms ↦ some (if ltb int_max ms then int_max else ms)
]

-- A wait of what is left, begun at any time, ends by the deadline if it was begun by then, and at once
-- otherwise; and what is left fits an `int`.
pub remaining_ms-spent :
    (start duration now ms : ℕ)
    → start + duration * 1000000 < clock_max
    → remaining_ms now (deadline_in start duration) ≡ some ms
    → (ms ≤ int_max)
      × (now ≤ start + duration * 1000000 → now + ms * 1000000 ≤ start + duration * 1000000)
      × (start + duration * 1000000 ≤ now → ms ≡ 0)
unfolding remaining_ms remaining is_unbounded deadline_in
remaining_ms-spent start duration now ms h e =
    (ground (arith, e), ground (arith, e), ground (arith, e))
