-- ===== src/DbusMonitor/Attempts.antt =====
-- src/daemon/dbus_monitor.cpp: an attempt to reconnect keeps what the monitor holds.
use cec_control.Prelude.{
  ℕ, ◌+◌, ◌≡◌, refl, sym, ap, ◌∙◌, subst, Bool, true, false, not, Option, none, some, List, ◌&&◌,
  ◌||◌, if_ind, arith,
}
use cec_control.Backoff.{reset}
use cec_control.DbusMonitor.{
  Outside, Monitor, operational, Processed, reconnect_delays, tick, is_operational,
  tear_down_bus_state, update_loop_registration, request_lock, take_inhibit_lock,
}
use cec_control.DbusMonitor.Reconnect.{
  process_bus, reconnect_bus, register_bus_fd, register_bus_with_loop, resume_operation,
  attempt_reconnect, after_registration, after_connection,
}
use cec_control.DbusMonitor.Held.{count, IsMonitor, update_loop_registration-IsMonitor}
use cec_control.DbusMonitor.Passes.{process_bus-IsMonitor}

-- During an attempt the monitor is as it was, but for the connection under way.
abbrev pub IsTrying : Monitor → Monitor → Type 0
IsTrying m n =
    (n.state ≡ m.state)
    × (n.reconnect_schedule ≡ m.reconnect_schedule)
    × (n.attempt_number ≡ m.attempt_number)
    × (n.reconnect_timer ≡ m.reconnect_timer)
    × (n.inhibit_fd ≡ false)
    × (n.open_locks ≡ 0)
    × (n.attached ≡ true)

abbrev Tries : Monitor → Bool × Monitor → Type 0
Tries m r = IsTrying m r.1

update_loop_registration-down :
    (os : Outside) (m : Monitor)
    → is_operational m.state ≡ false
    → update_loop_registration os m ≡ m
unfolding update_loop_registration
update_loop_registration-down os m e = rw e refl

take_inhibit_lock-IsTrying :
    (os : Outside) (m n : Monitor)
    → is_operational m.state ≡ false
    → IsTrying m n
    → Tries m (take_inhibit_lock os n)
unfolding take_inhibit_lock request_lock
take_inhibit_lock-IsTrying os m n d t =
    let n' = record (tick n) { inhibit_slot = true } in
    let same = update_loop_registration-down os n' (ap is_operational t.0 ∙ d) in
    if_ind (Tries m) (not n.bus) (λ _. t)
      (λ _.
        if_ind (Tries m) (n.inhibit_fd || n.inhibit_slot) (λ _. t)
          (λ _.
            subst (λ a. Tries m (request_lock os a n)) (sym t.6)
              (if_ind (Tries m) (os.async_call n.calls) (λ _. subst (IsTrying m) (sym same) t)
                (λ _. t))))

reconnect_bus-IsTrying :
    (os : Outside) (m n : Monitor)
    → is_operational m.state ≡ false
    → IsTrying m n
    → Tries m (reconnect_bus os n)
unfolding reconnect_bus
reconnect_bus-IsTrying os m n d t =
    if_ind (Tries m) (not (os.connects n.calls)) (λ _. t)
      (λ _.
        if_ind (Tries m) (not (os.matches (n.calls + 1))) (λ _. t)
          (λ _.
            take_inhibit_lock-IsTrying os m
              (record (tick (record (tick n) { bus = true })) { signal_slot = true }) d t))

-- What a registration leaves; one that succeeds has a bus.
abbrev Registers : Monitor → Bool × Monitor → Type 0
Registers m r = IsTrying m r.1 × (r.0 ≡ true → r.1.bus ≡ true)

register_bus_fd-IsTrying :
    (os : Outside) (fd : Option ℕ) (m n : Monitor)
    → n.bus ≡ true
    → IsTrying m n
    → Registers m (register_bus_fd os fd n)
unfolding register_bus_fd
register_bus_fd-IsTrying os none m n b t = (t, λ e. b)
register_bus_fd-IsTrying os (some fd) m n b t =
    if_ind (Registers m) (os.add n.calls) (λ _. (t, λ e. b)) (λ _. (t, λ e. b))

register_bus_with_loop-IsTrying :
    (os : Outside) (m n : Monitor) → IsTrying m n → Registers m (register_bus_with_loop os n)
unfolding register_bus_with_loop
register_bus_with_loop-IsTrying os m n t =
    if_ind (Registers m) (not (n.attached && n.bus)) (λ _. (t, λ e. cc))
      (λ b. register_bus_fd-IsTrying os (os.bus_fd n.calls) m (tick n) (ground (arith, b)) t)

-- The connection under way is torn down.
abbrev pub IsTorn : Monitor → Type 0
IsTorn n = (n.bus ≡ false) × (n.signal_slot ≡ false) × (n.inhibit_slot ≡ false)

-- An attempt that succeeds leaves a monitor; one that fails leaves all as it was.
abbrev pub Attempted : Monitor → Bool × Monitor → Type 0
Attempted m r = (r.0 ≡ true → IsMonitor r.1) × (r.0 ≡ false → IsTrying m r.1 × IsTorn r.1)

resume_operation-IsMonitor :
    (os : Outside) (ps : List Processed) (m n : Monitor)
    → m.reconnect_schedule.delays ≡ reconnect_delays
    → IsTrying m n
    → n.bus ≡ true
    → IsMonitor (resume_operation os ps n)
unfolding resume_operation reset
resume_operation-IsMonitor os ps m n e (s, c, a, t, f, l, x) b =
    let n' = record n {
      state = operational;
      reconnect_schedule = reset n.reconnect_schedule;
      attempt_number = 0;
    } in
    let h : IsMonitor n' = (
      (l ∙ sym (ap count f), λ q. absurd (ground (arith, b, q)), λ _. f),
      λ q. cc,
      (ap (λ k. k.delays) c ∙ e, λ q. cc),
    ) in
    update_loop_registration-IsMonitor os (process_bus os ps n') (process_bus-IsMonitor os ps n' h)

after_registration-Attempted :
    (os : Outside) (ps : List Processed) (registered : Bool) (m n : Monitor)
    → m.reconnect_schedule.delays ≡ reconnect_delays
    → Registers m (registered, n)
    → Attempted m (after_registration os ps registered n)
unfolding after_registration tear_down_bus_state
after_registration-Attempted os ps true m n e (t, b) =
    (λ _. resume_operation-IsMonitor os ps m n e t (b refl), λ q. cc)
after_registration-Attempted os ps false m n e (t, b) = (λ q. cc, λ _. (t, (refl, refl, refl)))

after_connection-Attempted :
    (os : Outside) (ps : List Processed) (connected : Bool) (m n : Monitor)
    → m.reconnect_schedule.delays ≡ reconnect_delays
    → IsTrying m n
    → Attempted m (after_connection os ps connected n)
unfolding after_connection tear_down_bus_state
after_connection-Attempted os ps true m n e t =
    let r = register_bus_with_loop os n in
    after_registration-Attempted os ps r.0 m r.1 e (register_bus_with_loop-IsTrying os m n t)
after_connection-Attempted os ps false m n e t = (λ q. cc, λ _. (t, (refl, refl, refl)))

pub attempt_reconnect-Attempted :
    (os : Outside) (ps : List Processed) (m : Monitor)
    → is_operational m.state ≡ false
    → m.reconnect_schedule.delays ≡ reconnect_delays
    → IsTrying m m
    → Attempted m (attempt_reconnect os ps m)
unfolding attempt_reconnect
attempt_reconnect-Attempted os ps m d e t =
    let r = reconnect_bus os m in
    after_connection-Attempted os ps r.0 m r.1 e (reconnect_bus-IsTrying os m m d t)
