-- ===== src/Power/Lifecycle/Pipeline.antt =====
-- power_lifecycle.cpp against its contract: one queue of events, the first of which may be running.
use cec_control.Prelude.{
  subst, sym, Bool, true, false, List, [], ◌∷◌, ◌++◌, ◌&&◌, not, if◌then◌else◌, ◌≡◌, refl, arith,
  inl, inr, Bool-cases, append_assoc,
}
use cec_control.Power.Lifecycle.{
  initial, PowerLifecycle, Pending, Phase, EventKind, Source, Input, Work, idle, suspending,
  resuming, suspend, resume, same_kind, same_source, is_idle, back_or, suspend_requested,
  resume_requested, suspend_completes, safety_fires, safety_arm_fails, pumps, resume_completes,
  handle, run, coalesces_with_effective_tail,
}

-- The contract's state: the events accepted and not finished, in order, and whether the first runs.
pub record Pipeline : Type 0 where
  pub active : Bool
  pub events : List Pending

abbrev same_event : Pending → Pending → Bool
same_event p q = same_kind p.kind q.kind && same_source p.source q.source

-- Is the last event of the list this one?
abbrev pub ends_with : List Pending → Pending → Bool
ends_with [] p = false
ends_with (q ∷ qs) p = same_event (back_or q qs) p

-- An event is accepted unless it repeats the last one.
abbrev pub accept : Pending → List Pending → List Pending
accept p es = if ends_with es p then es else es ++ p ∷ []

-- The running event ends if it is of the kind that has completed.
abbrev pub finish : EventKind → Bool → List Pending → Pipeline
finish kind true (e ∷ es) =
    if same_kind e.kind kind
    then record { active = false; events = es }
    else record { active = true; events = e ∷ es }
finish kind active es = record { active = active; events = es }

-- The contract: requests are accepted, a completion ends the running event, and the pump starts the
-- first event if none runs.
abbrev pub advance : Pipeline → Input → Pipeline
advance p (suspend_requested source) = record p {
  events = accept (record { kind = suspend; source = source }) p.events;
}
advance p (resume_requested source) = record p {
  events = accept (record { kind = resume; source = source }) p.events;
}
advance p suspend_completes = finish suspend p.active p.events
advance p (resume_completes valid) = finish resume p.active p.events
advance p pumps = record p { active = not (no_events p.events) }
  where
    no_events : List Pending → Bool
    no_events [] = true
    no_events (e ∷ es) = false
advance p _ = p

-- What the sequencer's state stands for.
abbrev pub in_flight : Phase → Source → List Pending
in_flight idle source = []
in_flight suspending source = record { kind = suspend; source = source } ∷ []
in_flight resuming source = record { kind = resume; source = source } ∷ []

abbrev pub view : PowerLifecycle → Pipeline
view s = record {
  active = not (is_idle s.phase);
  events = in_flight s.phase s.phase_source ++ s.pending;
}

module _ (kind : EventKind) (source : Source) where
  abbrev event : Pending
  event = record { kind = kind; source = source }

  request_events :
      (phase : Phase) (src : Source) (fired : Bool) (pending : List Pending)
      → let s : PowerLifecycle = record {
        phase = phase;
        phase_source = src;
        safety_fired_first = fired;
        pending = pending;
      } in
        coalesces_with_effective_tail s kind source
        ≡ ends_with (in_flight phase src ++ pending) event
  unfolding coalesces_with_effective_tail
  request_events idle src fired [] = refl
  request_events suspending src fired [] = refl
  request_events resuming src fired [] = refl
  request_events idle src fired (p ∷ ps) = refl
  request_events suspending src fired (p ∷ ps) = refl
  request_events resuming src fired (p ∷ ps) = refl

  -- Coalescing asks for the last event of the contract's queue.
  coalesces-ends_with :
      (s : PowerLifecycle)
      → coalesces_with_effective_tail s kind source ≡ ends_with (view s).events event
  coalesces-ends_with s = request_events s.phase s.phase_source s.safety_fired_first s.pending

  view-push :
      (s : PowerLifecycle)
      → view (
          if not (coalesces_with_effective_tail s kind source)
          then record s { pending = s.pending ++ event ∷ [] }
          else s)
        ≡ record { active = (view s).active; events = accept event (view s).events }
  view-push s =
      rw (coalesces-ends_with s)
        (ground (arith, append_assoc (in_flight s.phase s.phase_source) s.pending (event ∷ [])))

view-handle : (s : PowerLifecycle) (i : Input) → view (handle s i).0 ≡ advance (view s) i
unfolding handle
view-handle s (suspend_requested source) = view-push suspend source s
view-handle s (resume_requested source) = view-push resume source s
view-handle s suspend_completes = ground arith
view-handle s (resume_completes valid) = ground arith
view-handle s safety_fires = ground arith
view-handle s safety_arm_fails = refl
view-handle s pumps = ground arith

-- The work that a call starts: the first event of the queue, and only when the pump makes it run.
abbrev starts : EventKind → Work
starts suspend = Work.start_suspend
starts resume = Work.start_resume

abbrev pub started : Bool → List Pending → Input → Work
started false (e ∷ es) pumps = starts e.kind
started active es i = Work.none

work-handle :
    (s : PowerLifecycle) (i : Input)
    → (handle s i).1.work ≡ started (view s).active (view s).events i
unfolding handle
work-handle s i = ground arith

-- Every call moves the sequencer as the contract's queue moves, and starts work exactly when it is
-- the pump, nothing runs and an event waits: then the work of the event at the front.
pub handle-refines :
    (s : PowerLifecycle) (i : Input)
    → (view (handle s i).0 ≡ advance (view s) i)
      × ((handle s i).1.work ≡ started (view s).active (view s).events i)
handle-refines s i = (view-handle s i, work-handle s i)

-- No event follows one of the same kind and source.
abbrev pub IsDistinct : List Pending → Type 0
IsDistinct [] = Unit {0}
IsDistinct (e ∷ []) = Unit {0}
IsDistinct (e ∷ f ∷ es) = (same_event e f ≡ false) × IsDistinct (f ∷ es)

accept-IsDistinct :
    (p : Pending) (es : List Pending)
    → IsDistinct es
    → ends_with es p ≡ false
    → IsDistinct (es ++ p ∷ [])
accept-IsDistinct p [] d h = tt
accept-IsDistinct p (e ∷ []) d h = (h, tt)
accept-IsDistinct p (e ∷ f ∷ es) d h = (d.0, accept-IsDistinct p (f ∷ es) d.1 h)

tail-IsDistinct : (e : Pending) (es : List Pending) → IsDistinct (e ∷ es) → IsDistinct es
tail-IsDistinct e [] d = tt
tail-IsDistinct e (f ∷ es) d = d.1

finish-IsDistinct :
    (kind : EventKind) (active : Bool) (es : List Pending)
    → IsDistinct es
    → IsDistinct (finish kind active es).events
finish-IsDistinct kind false es d = d
finish-IsDistinct kind true [] d = d
finish-IsDistinct kind true (e ∷ es) d = ground (arith, tail-IsDistinct e es d)

module _ (p : Pending) (es : List Pending) (d : IsDistinct es) where
  accept_step : IsDistinct (accept p es)
  accept_step = elim (Bool-cases (ends_with es p)) [
    | inl e ↦ rw e d
    | inr e ↦ rw e (accept-IsDistinct p es d e)
  ]

advance-IsDistinct :
    (p : Pipeline) (i : Input) → IsDistinct p.events → IsDistinct (advance p i).events
advance-IsDistinct p (suspend_requested source) d = accept_step _ p.events d
advance-IsDistinct p (resume_requested source) d = accept_step _ p.events d
advance-IsDistinct p suspend_completes d = finish-IsDistinct suspend p.active p.events d
advance-IsDistinct p (resume_completes valid) d = finish-IsDistinct resume p.active p.events d
advance-IsDistinct p safety_fires d = d
advance-IsDistinct p safety_arm_fails d = d
advance-IsDistinct p pumps d = d

run-IsDistinct_from :
    (s : PowerLifecycle) (is : List Input)
    → IsDistinct (view s).events
    → IsDistinct (view (run s is).0).events
unfolding run
run-IsDistinct_from s [] d = d
run-IsDistinct_from s (i ∷ is) d =
    run-IsDistinct_from (handle s i).0 is
      (subst (λ q. IsDistinct q.events) (sym (view-handle s i)) (advance-IsDistinct (view s) i d))

-- After any calls, no event in the queue, the running one included, follows one of its own kind and
-- source.
pub run-IsDistinct : (is : List Input) → IsDistinct (view (run initial is).0).events
run-IsDistinct is = run-IsDistinct_from initial is tt
