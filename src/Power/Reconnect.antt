-- ===== src/Power/Reconnect.antt =====
-- src/daemon/power/adapter_reconnect.h and adapter_reconnect.cpp: the reconnect cycle, a decision
-- type over the backoff schedule. Delays are in milliseconds.
pub mod Cycle
pub mod Quiet
use cec_control.Prelude.{ℕ, suc, ◌+◌, Option, some, List, ltb, if◌then◌else◌}
use cec_control.Backoff.{BackoffSchedule, Attempt, next_delay, reset, size}

pub data Event : Type 0 where
  connection_lost attempt_succeeded attempt_failed system_suspend : Event
  system_resume retry_timer_fired timer_arm_failed : Event

pub data Effect : Type 0 where
  none start_attempt schedule_retry cancel_retry abandon_cycle : Effect

pub record Output : Type 0 where
  pub effect : Effect
  pub delay : ℕ
  pub attempt_number : ℕ
  pub total_attempts : ℕ

pub data State : Type 0 where
  idle attempting waiting_for_retry : State

pub record AdapterReconnect : Type 0 where
  pub state : State
  pub schedule : BackoffSchedule
  pub connection_lost_delay : ℕ
  pub next_attempt_number : ℕ

-- The constructor.
unfoldable pub create : BackoffSchedule → ℕ → AdapterReconnect
create b lost_delay = record {
  state = idle;
  schedule = b;
  connection_lost_delay = lost_delay;
  next_attempt_number = 0;
}

abbrev pub total_attempts : AdapterReconnect → ℕ
total_attempts r = size r.schedule + 1

-- `Output{}`, and `return {effect, delay, attempt, total}`.
abbrev pub quiet : Output
quiet = record { effect = Effect.none; delay = 0; attempt_number = 0; total_attempts = 0 }

abbrev pub emit : Effect → ℕ → ℕ → ℕ → Output
emit e delay attempt total = record {
  effect = e;
  delay = delay;
  attempt_number = attempt;
  total_attempts = total;
}

pub reset_cycle : AdapterReconnect → AdapterReconnect
unfolding reset
reset_cycle r = record r { state = idle; schedule = reset r.schedule; next_attempt_number = 0 }

seed : State → ℕ → AdapterReconnect → AdapterReconnect × Output
unfolding reset
seed idle initial_delay r = (
  record r { state = waiting_for_retry; schedule = reset r.schedule; next_attempt_number = 1 },
  emit Effect.schedule_retry initial_delay 1 (total_attempts r),
)
seed _ initial_delay r = (r, quiet)

unfoldable pub seed_cycle : AdapterReconnect → ℕ → AdapterReconnect × Output
unfolding seed
seed_cycle r initial_delay = seed r.state initial_delay r

lost_when_idle : AdapterReconnect → AdapterReconnect × Output
unfolding reset
lost_when_idle r =
    let fresh = record r { schedule = reset r.schedule; next_attempt_number = 1 } in
    if ltb 0 r.connection_lost_delay
    then (
      record fresh { state = waiting_for_retry },
      emit Effect.schedule_retry r.connection_lost_delay 1 (total_attempts r),
    )
    else (record fresh { state = attempting }, emit Effect.start_attempt 0 1 (total_attempts r))

failed_with : AdapterReconnect → BackoffSchedule × Option Attempt → AdapterReconnect × Output
unfolding reset_cycle
failed_with r (b, Option.some a) = (
  record r { state = waiting_for_retry; schedule = b; next_attempt_number = a.index + 1 },
  emit Effect.schedule_retry a.delay (a.index + 1) (total_attempts r),
)
failed_with r (b, Option.none) = (reset_cycle r, emit Effect.abandon_cycle 0 0 (total_attempts r))

-- The two nested switches of `onEvent`.
on : State → Event → AdapterReconnect → AdapterReconnect × Output
unfolding lost_when_idle failed_with reset_cycle next_delay
on idle connection_lost r = lost_when_idle r
on idle _ r = (r, quiet)
on attempting attempt_succeeded r = (reset_cycle r, quiet)
on attempting attempt_failed r = failed_with r (next_delay r.schedule)
on attempting system_suspend r = (reset_cycle r, quiet)
on attempting system_resume r = (reset_cycle r, quiet)
on attempting _ r = (r, quiet)
on waiting_for_retry connection_lost r = (
  record r { state = attempting; schedule = reset r.schedule; next_attempt_number = 1 },
  emit Effect.start_attempt 0 1 (total_attempts r),
)
on waiting_for_retry retry_timer_fired r = (
  record r { state = attempting },
  emit Effect.start_attempt 0 r.next_attempt_number (total_attempts r),
)
on waiting_for_retry system_suspend r = (reset_cycle r, emit Effect.cancel_retry 0 0 0)
on waiting_for_retry system_resume r = (reset_cycle r, emit Effect.cancel_retry 0 0 0)
on waiting_for_retry timer_arm_failed r =
    (reset_cycle r, emit Effect.abandon_cycle 0 0 (total_attempts r))
on waiting_for_retry _ r = (r, quiet)

unfoldable pub on_event : AdapterReconnect → Event → AdapterReconnect × Output
unfolding on
on_event r e = on r.state e r
