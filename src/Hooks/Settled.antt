-- ===== src/Hooks/Settled.antt =====
-- src/daemon/hook/cec_hook_subsystem.cpp: a burst of observations settles on its last address.
use cec_control.Prelude.{
  ℕ, suc, ◌+◌, ◌≡◌, refl, true, some, List, [], ◌∷◌, if◌then◌else◌, if_ind, Bool-cases, inl, inr,
  ◌==◌, arith, ap, ◌∙◌,
}
use cec_control.Standby.{active_source}
use cec_control.Hooks.{
  Surroundings, Hooks, fired_input_switch, fire, commit_address, commit_pending, observe,
  on_debounce_timer_fired, Input, observes, timer_fires, run, same_address,
}

-- The observations of a burst, and then the expiry of the debounce timer.
abbrev pub burst : List ℕ → ℕ → ℕ → List Input
burst [] a n = observes (active_source a) ∷ timer_fires (suc n) ∷ []
burst (b ∷ bs) a n = observes (active_source b) ∷ burst bs a n

commit_address-fires :
    (e : Surroundings) (a : ℕ) (h : Hooks)
    → (commit_address e a h).fires ≡ (
        if same_address h.last_fired_physical a
        then h.fires
        else fired_input_switch a h.last_fired_physical ∷ h.fires)
unfolding commit_address fire
commit_address-fires e a h = elim (Bool-cases (same_address h.last_fired_physical a)) [
  | inl b ↦ rw b refl
  | inr b ↦ rw b refl
]

on_debounce_timer_fired-suc :
    (e : Surroundings) (n : ℕ) (h : Hooks)
    → on_debounce_timer_fired e (suc n) h ≡ commit_pending e h
unfolding on_debounce_timer_fired
on_debounce_timer_fired-suc e n h =
    if_ind (λ g. g ≡ commit_pending e h) (suc n == 0) (λ b. absurd (ground (arith, b))) (λ _. refl)

-- However many active sources are observed before the debounce timer expires, with every arming of
-- the timer a success, one input switch fires, for the last of them and with the address before; or
-- none, if that address fired last.
pub run-burst :
    (e : Surroundings) (bs : List ℕ) (a n : ℕ) (h : Hooks)
    → ((k : ℕ) → e.arm_ok k ≡ true)
    → (run e (burst bs a n) h).fires ≡ (
        if same_address h.last_fired_physical a
        then h.fires
        else fired_input_switch a h.last_fired_physical ∷ h.fires)
unfolding run observe on_debounce_timer_fired commit_pending commit_address fire
run-burst e [] a n h ok =
    let h' = record h { pending_physical = some a; arms = h.arms + 1 } in
    rw (ok h.arms) (
      ap (λ (g : Hooks). g.fires) (on_debounce_timer_fired-suc e n h')
      ∙ commit_address-fires e a h')
run-burst e (b ∷ bs) a n h ok =
    rw (run, ok h.arms)
      (run-burst e bs a n (record h { pending_physical = some b; arms = h.arms + 1 }) ok)
