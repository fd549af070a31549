-- ===== src/Hooks/Fires.antt =====
-- src/daemon/hook/cec_hook_subsystem.cpp: which events fire a hook.
use cec_control.Prelude.{
  ℕ, ◌+◌, ◌≡◌, ◌≢◌, refl, false, Option, none, some, List, [], ◌∷◌, ◌==◌, if_ind, Option_ind, arith,
  sym, ◌∙◌,
}
use cec_control.Standby.{
  Observation, tv_standby, tv_power_report, active_source, host_activated, host_deactivated,
}
use cec_control.Hooks.{
  Surroundings, Hooks, Fire, CachedPower, unknown, on, standby, fired_input_switch,
  fired_tv_standby, fired_tv_wake, fired_host_activated, fired_host_deactivated, fire,
  commit_address, commit_pending, note_standby, note_on, observe, on_debounce_timer_fired, Input,
  observes, timer_fires, run, same_address,
}

-- What the history of the fires, the newest first, says of the input and of the television.
abbrev pub last_switch : List Fire → Option ℕ
last_switch [] = none
last_switch (fired_input_switch a p ∷ fs) = some a
last_switch (_ ∷ fs) = last_switch fs

abbrev pub last_power : List Fire → CachedPower
last_power [] = unknown
last_power (fired_tv_standby p ∷ fs) = standby
last_power (fired_tv_wake p ∷ fs) = on
last_power (_ ∷ fs) = last_power fs

-- A fire tells the value before it, and it changes that value.
abbrev pub IsChange : Fire → List Fire → Type 0
IsChange (fired_input_switch a p) fs = (p ≡ last_switch fs) × (p ≢ some a)
IsChange (fired_tv_standby p) fs = (p ≡ last_power fs) × (p ≢ standby)
IsChange (fired_tv_wake p) fs = (p ≡ last_power fs) × (p ≢ on)
IsChange (fired_host_activated l) fs = Unit
IsChange (fired_host_deactivated l) fs = Unit

abbrev pub AreChanges : List Fire → Type 0
AreChanges [] = Unit
AreChanges (f ∷ fs) = IsChange f fs × AreChanges fs

pub record IsHooks (h : Hooks) : Type 0 where
  pub switch_cached : h.last_fired_physical ≡ last_switch h.fires
  pub power_cached : h.last_tv_power ≡ last_power h.fires
  pub changes : AreChanges h.fires

same_address-some : (o : Option ℕ) (a : ℕ) → same_address o a ≡ false → o ≢ some a
same_address-some none a e = λ q. cc
same_address-some (some b) a e = λ q. ground (arith, e, q)

module _ (e : Surroundings) where
  commit_address-IsHooks : (a : ℕ) (h : Hooks) → IsHooks h → IsHooks (commit_address e a h)
  unfolding commit_address fire
  commit_address-IsHooks a h i =
      if_ind IsHooks (same_address h.last_fired_physical a)
        (λ _. record {
          switch_cached = i.switch_cached;
          power_cached = i.power_cached;
          changes = i.changes;
        })
        (λ b. record {
          switch_cached = refl;
          power_cached = i.power_cached;
          changes = ((i.switch_cached, same_address-some h.last_fired_physical a b), i.changes);
        })

  commit_pending-IsHooks : (h : Hooks) → IsHooks h → IsHooks (commit_pending e h)
  unfolding commit_pending
  commit_pending-IsHooks h i =
      Option_ind IsHooks h.pending_physical (λ _. i) (λ a _. commit_address-IsHooks a h i)

  note_standby-IsHooks :
      (p : CachedPower) (h : Hooks) → h.last_tv_power ≡ p → IsHooks h → IsHooks (note_standby e p h)
  unfolding note_standby fire
  note_standby-IsHooks standby h k i = i
  note_standby-IsHooks unknown h k i = record {
    switch_cached = i.switch_cached;
    power_cached = refl;
    changes = ((sym k ∙ i.power_cached, λ q. cc), i.changes);
  }
  note_standby-IsHooks on h k i = record {
    switch_cached = i.switch_cached;
    power_cached = refl;
    changes = ((sym k ∙ i.power_cached, λ q. cc), i.changes);
  }

  note_on-IsHooks :
      (p : CachedPower) (h : Hooks) → h.last_tv_power ≡ p → IsHooks h → IsHooks (note_on e p h)
  unfolding note_on fire
  note_on-IsHooks on h k i = i
  note_on-IsHooks unknown h k i = record {
    switch_cached = i.switch_cached;
    power_cached = refl;
    changes = ((sym k ∙ i.power_cached, λ q. cc), i.changes);
  }
  note_on-IsHooks standby h k i = record {
    switch_cached = i.switch_cached;
    power_cached = refl;
    changes = ((sym k ∙ i.power_cached, λ q. cc), i.changes);
  }

  observe-IsHooks : (o : Observation) (h : Hooks) → IsHooks h → IsHooks (observe e o h)
  unfolding observe fire
  observe-IsHooks tv_standby h i = note_standby-IsHooks h.last_tv_power h refl i
  observe-IsHooks (tv_power_report power) h i =
      if_ind IsHooks (power == e.power_on) (λ _. note_on-IsHooks h.last_tv_power h refl i) (λ _. i)
  observe-IsHooks (active_source a) h i =
      let h' = record h { pending_physical = some a; arms = h.arms + 1 } in
      let i' : IsHooks h' = record {
        switch_cached = i.switch_cached;
        power_cached = i.power_cached;
        changes = i.changes;
      } in
      if_ind IsHooks (e.arm_ok h.arms) (λ _. i') (λ _. commit_pending-IsHooks h' i')
  observe-IsHooks (host_activated l) h i = record {
    switch_cached = i.switch_cached;
    power_cached = i.power_cached;
    changes = (tt, i.changes);
  }
  observe-IsHooks (host_deactivated l) h i = record {
    switch_cached = i.switch_cached;
    power_cached = i.power_cached;
    changes = (tt, i.changes);
  }

  -- Over any observations and timer expiries, every input switch that fires names the address of the
  -- input switch that fired before it and differs from it, and every standby and wake of the
  -- television names the power state of the last of either kind that fired, or none, and differs from
  -- it; the two caches hold the last of each. So a wake may come first, from no known state, and a
  -- first standby names the wake before it. It holds of the fires to come if it holds of those so far.
  pub run-IsHooks : (is : List Input) (h : Hooks) → IsHooks h → IsHooks (run e is h)
  unfolding run on_debounce_timer_fired
  run-IsHooks [] h i = i
  run-IsHooks (observes o ∷ is) h i = run-IsHooks is (observe e o h) (observe-IsHooks o h i)
  run-IsHooks (timer_fires n ∷ is) h i =
      run-IsHooks is (on_debounce_timer_fired e n h)
        (if_ind IsHooks (n == 0) (λ _. i) (λ _. commit_pending-IsHooks h i))
