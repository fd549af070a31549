-- ===== src/Power/Lifecycle/InhibitLock.antt =====
-- power_lifecycle.cpp: who lets go of the logind inhibit lock, and when.
use cec_control.Prelude.{ℕ, ◌+◌, Bool, false, List, [], ◌∷◌, ◌++◌, ◌≡◌, arith, All}
use cec_control.Power.Lifecycle.{
  PowerLifecycle, Source, Input, Lock, Output, suspending, dbus, suspend_completes, handle, run,
}

abbrev count_release : Lock → ℕ
count_release Lock.release = 1
count_release _ = 0

abbrev count_take : Lock → ℕ
count_take Lock.take = 1
count_take _ = 0

-- How often the outputs release, and take, the lock.
abbrev pub releases : List Output → ℕ
releases [] = 0
releases (o ∷ os) = count_release o.lock + releases os

abbrev pub takes : List Output → ℕ
takes [] = 0
takes (o ∷ os) = count_take o.lock + takes os

-- The releases that a running suspend still owes.
abbrev owed_by : Source → Bool → ℕ
owed_by dbus false = 1
owed_by _ _ = 0

abbrev pub owed : PowerLifecycle → ℕ
owed s = owed_by s.phase_source s.safety_fired_first

abbrev pub IsSuspendEnd : Input → Type 0
IsSuspendEnd suspend_completes = Unit
IsSuspendEnd _ = ⊥

suspending-handle :
    (s : PowerLifecycle) (i : Input)
    → s.phase ≡ suspending
    → ¬ IsSuspendEnd i
    → ((handle s i).0.phase ≡ suspending)
      × (count_release (handle s i).1.lock + owed (handle s i).0 ≡ owed s)
      × (count_take (handle s i).1.lock ≡ 0)
unfolding handle
suspending-handle s i p n = ground arith

suspend_end-handle :
    (s : PowerLifecycle)
    → s.phase ≡ suspending
    → (count_release (handle s suspend_completes).1.lock ≡ owed s)
      × (count_take (handle s suspend_completes).1.lock ≡ 0)
unfolding handle
suspend_end-handle s p = ground arith

-- From a running suspend, through any calls but its completion and then that, the lock is released
-- as often as was owed (once if logind asked for the suspend and the safety timer has not released
-- it, else never), and is not taken.
pub releases-run :
    (s : PowerLifecycle) (is : List Input)
    → s.phase ≡ suspending
    → All (λ i. ¬ IsSuspendEnd i) is
    → let outs = (run s (is ++ suspend_completes ∷ [])).1 in
      (releases outs ≡ owed s) × (takes outs ≡ 0)
unfolding run
releases-run s [] p n = omega (arith, suspend_end-handle s p)
releases-run s (i ∷ is) p n = omega (
  arith,
  suspending-handle s i p n.0,
  releases-run (handle s i).0 is (suspending-handle s i p n.0).0 n.1,
)
