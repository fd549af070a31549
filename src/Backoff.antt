-- ===== src/Backoff.antt =====
-- src/common/backoff_schedule.h: a fixed list of delays, drawn one at a time.
use cec_control.Prelude.{ℕ, ◌+◌, Option, none, some, List, length, get_elem?}

pub record Attempt : Type 0 where
  pub delay : ℕ
  pub index : ℕ
  pub total : ℕ

pub record BackoffSchedule : Type 0 where
  pub delays : List ℕ
  pub attempt : ℕ

abbrev pub schedule : List ℕ → BackoffSchedule
schedule delays = record { delays = delays; attempt = 0 }

abbrev pub size : BackoffSchedule → ℕ
size b = length b.delays

-- `m_delays[m_attempt]` stands behind the bound check; the last case is that check.
unfoldable pub next_delay : BackoffSchedule → BackoffSchedule × Option Attempt
next_delay b = elim (get_elem? b.delays b.attempt) [
  | none ↦ (b, none)
  | some d ↦ (
    record b { attempt = b.attempt + 1 },
    some (record { delay = d; index = b.attempt + 1; total = size b }),
  )
]

unfoldable pub reset : BackoffSchedule → BackoffSchedule
reset b = record b { attempt = 0 }
