-- ===== src/Power/Reconnect/Quiet.antt =====
-- adapter_reconnect.cpp: a cycle at rest stays silent.
use cec_control.Prelude.{◌≡◌, ◌⊎◌, List, [], ◌∷◌, arith, All}
use cec_control.Power.Reconnect.{
  AdapterReconnect, Event, Output, idle, connection_lost, system_suspend, system_resume, on_event,
  quiet,
}
use cec_control.Power.Reconnect.Cycle.{Input, event, seeds, handle, run}

abbrev pub IsOpening : Input → Type 0
IsOpening (event connection_lost) = Unit
IsOpening (seeds d) = Unit
IsOpening _ = ⊥

abbrev pub AreQuiet : List Output → Type 0
AreQuiet = All λ o. o ≡ quiet

idle-handle :
    (r : AdapterReconnect) (i : Input)
    → r.state ≡ idle
    → ¬ IsOpening i
    → ((handle r i).0.state ≡ idle) × ((handle r i).1 ≡ quiet)
unfolding handle
idle-handle r i e n = ground arith

idle-run :
    (r : AdapterReconnect) (is : List Input)
    → r.state ≡ idle
    → All (λ i. ¬ IsOpening i) is
    → AreQuiet (run r is).1
unfolding run
idle-run r [] e n = tt
idle-run r (i ∷ is) e n =
    let (still, silent) = idle-handle r i e n.0 in (silent, idle-run (handle r i).0 is still n.1)

-- After the system suspends or resumes the cycle emits nothing, whatever results and timers still
-- arrive, as long as no connection is lost and no cycle is seeded.
pub run-system_quiets :
    (r : AdapterReconnect) (e : Event) (is : List Input)
    → (e ≡ system_suspend) ⊎ (e ≡ system_resume)
    → All (λ i. ¬ IsOpening i) is
    → AreQuiet (run (on_event r e).0 is).1
unfolding on_event
run-system_quiets r e is h n = idle-run (unfold on_event in (on_event r e).0) is (ground arith) n
