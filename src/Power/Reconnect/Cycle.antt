-- ===== src/Power/Reconnect/Cycle.antt =====
-- adapter_reconnect.cpp: the attempts of a cycle, their numbers and their end.
use cec_control.Prelude.{
  Bool-cases, inl, inr, ◌==◌, if◌then◌else◌, ℕ, suc, ◌+◌, ◌-◌, ◌*◌, ◌≤◌, ◌<◌, ◌≡◌, refl, List, [],
  ◌∷◌, ◌++◌, get_elem?, get_elem?-cases, get_elem?-drop_nil, get_elem?-drop_cons, none, some, drop,
  arith, ap, ◌∙◌,
}
use cec_control.Backoff.{size, reset}
use cec_control.Power.Reconnect.{
  AdapterReconnect, State, Event, Effect, Output, idle, attempting, waiting_for_retry,
  attempt_failed, retry_timer_fired, connection_lost, reset_cycle, seed_cycle, on_event,
  total_attempts, emit,
}

-- What reaches the decision type: an event, or the seed of a cycle with its delay.
pub data Input : Type 0 where
  event : Event → Input
  seeds : ℕ → Input

unfoldable pub handle : AdapterReconnect → Input → AdapterReconnect × Output
unfolding on_event seed_cycle
handle r (event e) = on_event r e
handle r (seeds d) = seed_cycle r d

unfoldable pub run : AdapterReconnect → List Input → AdapterReconnect × List Output
run r [] = (r, [])
run r (i ∷ is) = let (r', out) = handle r i in let (t, outs) = run r' is in (t, out ∷ outs)

-- At rest nothing is drawn; in a cycle the attempt in hand is one more than the delays drawn.
abbrev IsNumbered : State → ℕ → ℕ → ℕ → Type 0
IsNumbered idle drawn next n = (drawn ≡ 0) × (next ≡ 0)
IsNumbered _ drawn next n = (next ≡ drawn + 1) × (drawn ≤ n)

abbrev pub IsConsistent : AdapterReconnect → Type 0
IsConsistent r = IsNumbered r.state r.schedule.attempt r.next_attempt_number (size r.schedule)

-- A start or a retry carries the number of an attempt of the cycle, from 1 to the total.
abbrev Names : Effect → ℕ → ℕ → ℕ → Type 0
Names Effect.start_attempt n shown total = (1 ≤ n) × (n ≤ total) × (shown ≡ total)
Names Effect.schedule_retry n shown total = (1 ≤ n) × (n ≤ total) × (shown ≡ total)
Names _ n shown total = Unit {0}

abbrev pub NamesAttempt : AdapterReconnect → Output → Type 0
NamesAttempt r out = Names out.effect out.attempt_number out.total_attempts (total_attempts r)

-- Every input keeps the numbering consistent, and every start or retry it emits names an attempt of
-- the cycle, from 1 to the total, with that total.
pub handle-IsConsistent :
    (r : AdapterReconnect) (i : Input)
    → IsConsistent r
    → IsConsistent (handle r i).0 × NamesAttempt r (handle r i).1
unfolding handle
handle-IsConsistent r i c = ground (arith, get_elem?-cases r.schedule.delays r.schedule.attempt)

abbrev count_start : Effect → ℕ
count_start Effect.start_attempt = 1
count_start _ = 0

-- How many attempts the outputs start, and how many inputs may open a cycle.
abbrev pub starts : List Output → ℕ
starts [] = 0
starts (o ∷ os) = count_start o.effect + starts os

abbrev opens : Input → ℕ
opens (event connection_lost) = 1
opens (seeds d) = 1
opens _ = 0

abbrev pub openings : List Input → ℕ
openings [] = 0
openings (i ∷ is) = opens i + openings is

-- The attempts that the cycle in hand may still start.
abbrev budget_at : State → ℕ → ℕ → ℕ
budget_at idle drawn n = 0
budget_at attempting drawn n = n - drawn
budget_at waiting_for_retry drawn n = n - drawn + 1

abbrev pub budget : AdapterReconnect → ℕ
budget r = budget_at r.state r.schedule.attempt (size r.schedule)

budget-handle :
    (r : AdapterReconnect) (i : Input)
    → (count_start (handle r i).1.effect + budget (handle r i).0
        ≤ opens i * total_attempts r + budget r)
      × (total_attempts (handle r i).0 ≡ total_attempts r)
unfolding handle
budget-handle r i = ground (arith, get_elem?-cases r.schedule.delays r.schedule.attempt)

-- Each lost connection or seed pays for one cycle of attempts: over any inputs, no more attempts are
-- started than the cycle in hand may still start, and the total of a cycle for each opening.
pub starts-run :
    (r : AdapterReconnect) (is : List Input)
    → starts (run r is).1 ≤ openings is * total_attempts r + budget r
unfolding run
starts-run r [] = omega arith
starts-run r (i ∷ is) =
    let (r', out) = handle r i in
    omega (
      arith,
      budget-handle r i,
      starts-run r' is,
      ap (λ (t : ℕ). openings is * t) (budget-handle r i).1,
    )

-- The events of a cycle whose attempts all fail, with a timer before each.
abbrev pub failures : List ℕ → List Input
failures [] = event retry_timer_fired ∷ event attempt_failed ∷ []
failures (d ∷ ds) = event retry_timer_fired ∷ event attempt_failed ∷ failures ds

-- What such a cycle emits: each attempt, then its retry after the next delay, until none is left.
abbrev pub attempts_from : ℕ → List ℕ → ℕ → List Output
attempts_from n [] total =
    emit Effect.start_attempt 0 n total ∷ emit Effect.abandon_cycle 0 0 total ∷ []
attempts_from n (d ∷ ds) total =
    emit Effect.start_attempt 0 n total
    ∷ emit Effect.schedule_retry d (suc n) total
    ∷ attempts_from (suc n) ds total

-- The two calls of one failed attempt.
abbrev fail_once : AdapterReconnect → AdapterReconnect × List Output
fail_once r = run r (event retry_timer_fired ∷ event attempt_failed ∷ [])

abbrev after_failure : AdapterReconnect → AdapterReconnect
after_failure r = record r {
  schedule = record r.schedule { attempt = suc r.schedule.attempt };
  next_attempt_number = suc (suc r.schedule.attempt);
}

fail_last :
    (r : AdapterReconnect)
    → r.state ≡ waiting_for_retry
    → get_elem? r.schedule.delays r.schedule.attempt ≡ none
    → fail_once r ≡ (reset_cycle r, attempts_from r.next_attempt_number [] (total_attempts r))
unfolding run handle reset_cycle
fail_last r w g = ground arith

fail_next :
    (r : AdapterReconnect) (d : ℕ)
    → r.state ≡ waiting_for_retry
    → get_elem? r.schedule.delays r.schedule.attempt ≡ some d
    → fail_once r ≡ (
      after_failure r,
      emit Effect.start_attempt 0 r.next_attempt_number (total_attempts r)
          ∷ emit Effect.schedule_retry d (suc (suc r.schedule.attempt)) (total_attempts r)
          ∷ [],
    )
unfolding run handle
fail_next r d w g = ground arith

run-two :
    (r : AdapterReconnect) (i j : Input) (is : List Input)
    → run r (i ∷ j ∷ is)
      ≡ let (r', outs) = run r (i ∷ j ∷ []) in let (t, more) = run r' is in (t, outs ++ more)
unfolding run
run-two r i j is = refl

run-failures :
    (ds : List ℕ) (r : AdapterReconnect) (n : ℕ)
    → r.state ≡ waiting_for_retry
    → r.next_attempt_number ≡ n
    → n ≡ r.schedule.attempt + 1
    → drop r.schedule.attempt r.schedule.delays ≡ ds
    → run r (failures ds) ≡ (reset_cycle r, attempts_from n ds (total_attempts r))
unfolding reset_cycle
run-failures [] r n w e k h =
    fail_last r w (get_elem?-drop_nil r.schedule.attempt r.schedule.delays h)
    ∙ ap (λ (m : ℕ). (reset_cycle r, attempts_from m [] (total_attempts r))) e
run-failures (d ∷ ds) r n w e k h =
    let at = get_elem?-drop_cons r.schedule.attempt r.schedule.delays h in
    rw (run-two r (event retry_timer_fired) (event attempt_failed) (failures ds)) (
      rw (fail_next r d w at.0) (
        rw (run-failures ds (after_failure r) (suc n) w (omega arith) (omega arith) at.1)
          (ground arith)))

-- A machine at rest in which a cycle begins to wait for its first attempt.
abbrev opened : AdapterReconnect → AdapterReconnect
opened r = record r {
  state = waiting_for_retry;
  schedule = reset r.schedule;
  next_attempt_number = 1;
}

-- The failures of a cycle whose first attempt is under way at once.
abbrev pub failures_at_once : List ℕ → List Input
failures_at_once [] = event attempt_failed ∷ []
failures_at_once (d ∷ ds) = event attempt_failed ∷ failures ds

run-opened :
    (r : AdapterReconnect)
    → run (opened r) (failures r.schedule.delays)
      ≡ (reset_cycle r, attempts_from 1 r.schedule.delays (total_attempts r))
unfolding reset_cycle reset
run-opened r = run-failures r.schedule.delays (opened r) 1 refl refl refl refl

-- The first input's output goes before those of the others.
run-cons :
    (r r' : AdapterReconnect) (i : Input) (is : List Input) (out : Output)
    → handle r i ≡ (r', out)
    → run r (i ∷ is) ≡ let (t, outs) = run r' is in (t, out ∷ outs)
unfolding run
run-cons r r' i is out e = rw e refl

waits-run :
    (r : AdapterReconnect) (i : Input) (delay : ℕ)
    → handle r i ≡ (opened r, emit Effect.schedule_retry delay 1 (total_attempts r))
    → run r (i ∷ failures r.schedule.delays) ≡ (
      reset_cycle r,
      emit Effect.schedule_retry delay 1 (total_attempts r)
          ∷ attempts_from 1 r.schedule.delays (total_attempts r),
    )
waits-run r i delay e =
    rw
      (run-cons r (opened r) i (failures r.schedule.delays)
        (emit Effect.schedule_retry delay 1 (total_attempts r)) e)
      (rw (run-opened r) refl)

-- Where there is no delay the loss starts the attempt that the timer would.
run-at_once :
    (r : AdapterReconnect) (ds : List ℕ)
    → handle r (event connection_lost) ≡ handle (opened r) (event retry_timer_fired)
    → run r (event connection_lost ∷ failures_at_once ds) ≡ run (opened r) (failures ds)
unfolding run
run-at_once r [] e = rw e refl
run-at_once r (d ∷ ds) e = rw e refl

lost-waits :
    (r : AdapterReconnect)
    → r.state ≡ idle
    → 0 < r.connection_lost_delay
    → handle r (event connection_lost)
      ≡ (opened r, emit Effect.schedule_retry r.connection_lost_delay 1 (total_attempts r))
unfolding handle on_event
lost-waits r e h = ground arith

lost_at_once :
    (r : AdapterReconnect)
    → r.state ≡ idle
    → r.connection_lost_delay ≡ 0
    → handle r (event connection_lost) ≡ handle (opened r) (event retry_timer_fired)
unfolding handle on_event
lost_at_once r e h = ground arith

-- A cycle opened by a lost connection whose attempts all fail, and what it emits: the first attempt
-- waits for the settle delay, if there is one.
abbrev pub lost_failures : ℕ → List ℕ → List Input
lost_failures delay ds =
    event connection_lost ∷ (if delay == 0 then failures_at_once ds else failures ds)

abbrev pub lost_attempts : ℕ → List ℕ → ℕ → List Output
lost_attempts delay ds total =
    if delay == 0
    then attempts_from 1 ds total
    else emit Effect.schedule_retry delay 1 total ∷ attempts_from 1 ds total

-- A seeded one waits for the delay that it is given.
abbrev pub seeded_attempts : ℕ → List ℕ → ℕ → List Output
seeded_attempts delay ds total = emit Effect.schedule_retry delay 1 total ∷ attempts_from 1 ds total

run-lost_failures :
    (r : AdapterReconnect)
    → r.state ≡ idle
    → run r (lost_failures r.connection_lost_delay r.schedule.delays)
      ≡ (reset_cycle r, lost_attempts r.connection_lost_delay r.schedule.delays (total_attempts r))
run-lost_failures r e = elim (Bool-cases (r.connection_lost_delay == 0)) [
  | inl z ↦
      simp z (run-at_once r r.schedule.delays (lost_at_once r e (grind (arith, z))) ∙ run-opened r)
  | inr z ↦ simp z (
      waits-run r (event connection_lost) r.connection_lost_delay
        (lost-waits r e (ground (arith, z))))
]

-- From any machine at rest, a cycle whose attempts all fail makes its first attempt after the delay
-- that it is opened with, or at once where a lost connection has none, and one more after each delay of
-- the schedule, in order and numbered from 1; then it gives up once, and is at rest. A cycle is opened
-- by a seed, with the delay given, or by a lost connection, with the machine's own.
pub run-failing_cycle :
    (r : AdapterReconnect) (delay : ℕ)
    → r.state ≡ idle
    → (run r (seeds delay ∷ failures r.schedule.delays)
        ≡ (reset_cycle r, seeded_attempts delay r.schedule.delays (total_attempts r)))
      × (run r (lost_failures r.connection_lost_delay r.schedule.delays) ≡ (
        reset_cycle r,
        lost_attempts r.connection_lost_delay r.schedule.delays (total_attempts r),
      ))
unfolding handle
run-failing_cycle r delay e =
    (waits-run r (seeds delay) delay (rw (e, seed_cycle) refl), run-lost_failures r e)
