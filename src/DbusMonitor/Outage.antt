-- ===== src/DbusMonitor/Outage.antt =====
-- src/daemon/dbus_monitor.cpp: the delays of an outage of the bus.
use cec_control.Prelude.{
  ℕ, zero, suc, ◌+◌, ◌≡◌, refl, sym, ap, ◌∙◌, subst, Bool, true, false, Option, none, some, List,
  [], ◌∷◌, length, if◌then◌else◌, if_ind, arith,
}
use cec_control.Backoff.{BackoffSchedule, Attempt, next_delay, reset}
use cec_control.DbusMonitor.{
  Outside, Monitor, BusState, reconnecting, disabled, Processed, reconnect_delays,
  heartbeat_interval, tick, is_operational, release_inhibit_lock, tear_down_bus_state, arm_attempt,
  disconnect, handle_bus_disconnect,
}
use cec_control.DbusMonitor.Reconnect.{
  reconnect_bus, after_connection, attempt_reconnect, after_attempt, after_heartbeat, arm_heartbeat,
  schedule_next, attempt_in, on_reconnect_timer,
}

-- Specification: the delay, the state and the delays drawn after so many attempts that failed.
abbrev pub delay_at : ℕ → ℕ
delay_at zero = 2000
delay_at (suc zero) = 10000
delay_at (suc (suc zero)) = 30000
delay_at (suc (suc (suc zero))) = 60000
delay_at (suc (suc (suc (suc k)))) = heartbeat_interval

abbrev pub state_at : ℕ → BusState
state_at (suc (suc (suc (suc k)))) = disabled
state_at _ = reconnecting

abbrev drawn_at : ℕ → ℕ
drawn_at zero = 1
drawn_at (suc zero) = 2
drawn_at (suc (suc zero)) = 3
drawn_at (suc (suc (suc k))) = 4

abbrev At : ℕ → Monitor → Type 0
At k n =
    (n.state ≡ state_at k)
    × (n.reconnect_timer ≡ some (delay_at k))
    × (n.reconnect_schedule ≡ record { delays = reconnect_delays; attempt = drawn_at k })

-- The timer fires once for each list, with nothing to process as there is no bus.
abbrev pub fire_all : Outside → List (List Processed) → Monitor → Monitor
unfolding on_reconnect_timer
fire_all os [] m = m
fire_all os (ps ∷ rest) m = fire_all os rest (on_reconnect_timer os ps m)

-- What a failed connection leaves.
abbrev failed : Monitor → Monitor
unfolding tear_down_bus_state
failed m = tear_down_bus_state (record (tick m) { bus = false })

module _ (os : Outside) (gone : (n : ℕ) → os.connects n ≡ false)
    (arms : (n : ℕ) → os.arm n ≡ true) where
  reconnect_bus-failed :
      (m : Monitor) → reconnect_bus os m ≡ (false, record (tick m) { bus = false })
  unfolding reconnect_bus
  reconnect_bus-failed m = rw (gone m.calls, reconnect_bus, tick) refl

  attempt_reconnect-failed :
      (ps : List Processed) (m : Monitor) → attempt_reconnect os ps m ≡ (false, failed m)
  unfolding attempt_reconnect after_connection failed
  attempt_reconnect-failed ps m =
      ap (λ (r : Bool × Monitor). after_connection os ps r.0 r.1) (reconnect_bus-failed m)

  schedule_next-At :
      (k : ℕ) (m : Monitor)
      → m.state ≡ reconnecting
      → At (suc k) (
          after_attempt os false (record m {
            reconnect_schedule = record { delays = reconnect_delays; attempt = drawn_at k };
          }))
  unfolding after_attempt schedule_next next_delay arm_heartbeat
  schedule_next-At zero m s = rw (arms m.calls) (s, refl, refl)
  schedule_next-At (suc zero) m s = rw (arms m.calls) (s, refl, refl)
  schedule_next-At (suc (suc zero)) m s = rw (arms m.calls) (s, refl, refl)
  schedule_next-At (suc (suc (suc k))) m s = rw (arms m.calls) (refl, refl, refl)

  scheduled-At :
      (k : ℕ) (ps : List Processed) (m : Monitor)
      → m.state ≡ reconnecting
      → m.reconnect_schedule ≡ record { delays = reconnect_delays; attempt = drawn_at k }
      → At (suc k) (attempt_in os ps reconnecting m)
  unfolding attempt_in failed tear_down_bus_state
  scheduled-At k ps m s b =
      let gave_up =
        ap (λ (r : Bool × Monitor). after_attempt os r.0 r.1) (attempt_reconnect-failed ps m) in
      let drawn =
        ap
          (λ (c : BackoffSchedule).
            after_attempt os false (record (failed m) { reconnect_schedule = c }))
          b in
      subst (At (suc k)) (sym (gave_up ∙ drawn)) (schedule_next-At k (failed m) s)

  heartbeat-At :
      (k : ℕ) (ps : List Processed) (m : Monitor)
      → m.state ≡ disabled
      → m.reconnect_schedule ≡ record { delays = reconnect_delays; attempt = 4 }
      → At (suc (suc (suc (suc k)))) (attempt_in os ps disabled m)
  unfolding attempt_in after_heartbeat arm_heartbeat failed tear_down_bus_state
  heartbeat-At k ps m s b =
      let gave_up =
        ap (λ (r : Bool × Monitor). after_heartbeat os r.0 r.1) (attempt_reconnect-failed ps m) in
      subst (At (suc (suc (suc (suc k))))) (sym gave_up) (rw (arms (m.calls + 1)) (s, refl, b))

  attempt_in-At :
      (k : ℕ) (ps : List Processed) (m : Monitor)
      → At k m
      → At (suc k) (attempt_in os ps (state_at k) (record m { reconnect_timer = none }))
  attempt_in-At zero ps m (s, t, b) = scheduled-At 0 ps (record m { reconnect_timer = none }) s b
  attempt_in-At (suc zero) ps m (s, t, b) =
      scheduled-At 1 ps (record m { reconnect_timer = none }) s b
  attempt_in-At (suc (suc zero)) ps m (s, t, b) =
      scheduled-At 2 ps (record m { reconnect_timer = none }) s b
  attempt_in-At (suc (suc (suc zero))) ps m (s, t, b) =
      scheduled-At 3 ps (record m { reconnect_timer = none }) s b
  attempt_in-At (suc (suc (suc (suc k)))) ps m (s, t, b) =
      heartbeat-At (suc k) ps (record m { reconnect_timer = none }) s b

  on_reconnect_timer-At :
      (k : ℕ) (ps : List Processed) (m : Monitor) → At k m → At (suc k) (on_reconnect_timer os ps m)
  unfolding on_reconnect_timer
  on_reconnect_timer-At k ps m h =
      subst (λ s. At (suc k) (attempt_in os ps s (record m { reconnect_timer = none }))) (sym h.0)
        (attempt_in-At k ps m h)

  fire_all-At :
      (k : ℕ) (pss : List (List Processed)) (m : Monitor)
      → At k m
      → At (length pss + k) (fire_all os pss m)
  unfolding fire_all
  fire_all-At k [] m h = subst (λ j. At j m) (omega arith) h
  fire_all-At k (ps ∷ pss) m h =
      subst (λ j. At j (fire_all os pss (on_reconnect_timer os ps m))) (omega arith)
        (fire_all-At (suc k) pss (on_reconnect_timer os ps m) (on_reconnect_timer-At k ps m h))

  handle_bus_disconnect-At :
      (m : Monitor)
      → is_operational m.state ≡ true
      → m.reconnect_schedule.delays ≡ reconnect_delays
      → At 0 (handle_bus_disconnect os m)
  unfolding handle_bus_disconnect disconnect arm_attempt next_delay reset tear_down_bus_state
  handle_bus_disconnect-At m o e =
      let d = tear_down_bus_state (record (release_inhibit_lock m) {
        registered_fd = if m.attached then none else m.registered_fd;
        registered_mask = 0;
        timer = none;
      }) in
      let drawn = ap (λ ds. next_delay (record { delays = ds; attempt = 0 })) e in
      let lost : At 0 (disconnect os m) =
        subst
          (λ (r : BackoffSchedule × Option Attempt). At 0 (
            arm_attempt os r.1
              (record d { state = reconnecting; reconnect_schedule = r.0; attempt_number = 0 })))
          (sym drawn) (rw (arms d.calls) (refl, refl, refl)) in
      if_ind (At 0) (is_operational m.state) (λ _. lost) (λ q. absurd (ground (arith, o, q)))

  -- While the bus cannot be connected and the timer can be armed, a monitor that loses its bus waits 2
  -- seconds, and after each attempt 10, 30 and 60 seconds; after the fourth it is disabled, and from
  -- then on it waits 30 minutes after every attempt.
  pub fire_all-outage :
      (pss : List (List Processed)) (m : Monitor)
      → is_operational m.state ≡ true
      → m.reconnect_schedule.delays ≡ reconnect_delays
      → ((fire_all os pss (handle_bus_disconnect os m)).state ≡ state_at (length pss))
        × ((fire_all os pss (handle_bus_disconnect os m)).reconnect_timer
            ≡ some (delay_at (length pss)))
  fire_all-outage pss m o e =
      let lost = handle_bus_disconnect os m in
      let h =
        subst (λ j. At j (fire_all os pss lost)) (omega arith)
          (fire_all-At 0 pss lost (handle_bus_disconnect-At m o e)) in
      (h.0, h.1)
