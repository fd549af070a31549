-- ===== src/DbusMonitor/Held.antt =====
-- src/daemon/dbus_monitor.cpp: what the monitor holds of the bus, and what each operation keeps of it.
use cec_control.Prelude.{
  ℕ, suc, ◌+◌, ◌≡◌, refl, sym, ap, ◌∙◌, Bool, true, false, not, Option, none, some, ◌==◌, ◌&&◌,
  ◌||◌, ◌⊎◌, inl, inr, subst, Option-cases, get_elem?, if◌then◌else◌, if_ind, arith,
}
use cec_control.Backoff.{BackoffSchedule, Attempt, size, next_delay, reset}
use cec_control.DbusMonitor.{
  Outside, Monitor, reconnecting, Reply, reply_error, unreadable, duplicated, not_duplicated,
  Timeout, timeout_failed, no_deadline, deadline, reconnect_delays, tick, is_operational,
  release_inhibit_lock, tear_down_bus_state, arm_attempt, disconnect, handle_bus_disconnect,
  arm_bus_timer, register_fd, update_with_fd, update_loop_registration, install, take_inhibit_lock,
  same_fd, request_lock,
}

abbrev pub count : Bool → ℕ
count true = 1
count false = 0

-- The descriptors of the lock that are open are the one in hand; without a bus nothing is held; and a
-- request for the lock is in flight only while there is none.
abbrev pub IsHeld : Monitor → Type 0
IsHeld m =
    (m.open_locks ≡ count m.inhibit_fd)
    × (m.bus ≡ false → (m.signal_slot ≡ false) × (m.inhibit_slot ≡ false) × (m.inhibit_fd ≡ false))
    × (m.inhibit_slot ≡ true → m.inhibit_fd ≡ false)

abbrev pub IsDown : Monitor → Type 0
IsDown m = is_operational m.state ≡ false → m.bus ≡ false

-- The attempt that the timer waits for is the last drawn from the schedule.
abbrev pub WaitsFor : ℕ → Monitor → Type 0
WaitsFor k m =
    (m.attempt_number ≡ suc k)
    × (m.reconnect_schedule.attempt ≡ suc k)
    × ((d : ℕ) × (get_elem? reconnect_delays k ≡ some d) × (m.reconnect_timer ≡ some d))

abbrev pub IsWaiting : Monitor → Type 0
IsWaiting m =
    (m.reconnect_schedule.delays ≡ reconnect_delays)
    × (m.state ≡ reconnecting → ((k : ℕ) × WaitsFor k m))

abbrev pub IsMonitor : Monitor → Type 0
IsMonitor m = IsHeld m × IsDown m × IsWaiting m

abbrev pub Snd : Bool × Monitor → Type 0
Snd r = IsMonitor r.1

-- What a draw from the schedule gives.
pub next_delay-cases :
    (b : BackoffSchedule)
    → (next_delay b ≡ (b, none))
      ⊎ ((d : ℕ) × (get_elem? b.delays b.attempt ≡ some d)
          × (next_delay b ≡ (
            record b { attempt = b.attempt + 1 },
            some (record { delay = d; index = b.attempt + 1; total = size b }),
          )))
unfolding next_delay
next_delay-cases b = elim (Option-cases (get_elem? b.delays b.attempt)) [
  | inl e ↦ inl (rw (e, next_delay) refl)
  | inr (d, e) ↦ inr (d, e, rw (e, next_delay) refl)
]

arm_attempt-IsHeld :
    (os : Outside) (o : Option Attempt) (m : Monitor)
    → IsHeld m
    → m.bus ≡ false
    → IsHeld (arm_attempt os o m) × IsDown (arm_attempt os o m)
unfolding arm_attempt
arm_attempt-IsHeld os none m h b = (h, λ _. b)
arm_attempt-IsHeld os (some a) m h b =
    if_ind (λ (n : Monitor). IsHeld n × IsDown n) (os.arm m.calls) (λ _. (h, λ _. b))
      (λ _. (h, λ _. b))

abbrev Armed : Outside → Monitor → BackoffSchedule × Option Attempt → Type 0
unfolding arm_attempt
Armed os m r = IsWaiting (arm_attempt os r.1 (record m { reconnect_schedule = r.0 }))

-- A delay drawn and armed leaves the monitor waiting for it, or else disabled.
arm_attempt-IsWaiting :
    (os : Outside) (m : Monitor) (b : BackoffSchedule)
    → b.delays ≡ reconnect_delays
    → IsWaiting
        (arm_attempt os (next_delay b).1 (record m { reconnect_schedule = (next_delay b).0 }))
unfolding arm_attempt
arm_attempt-IsWaiting os m b e = elim (next_delay-cases b) [
  | inl n ↦ subst (Armed os m) (sym n) (e, λ q. cc)
  | inr (d, g, n) ↦ subst (Armed os m) (sym n) (
      if_ind IsWaiting (os.arm m.calls)
        (λ _. (
          e,
          λ _. (
            b.attempt,
            (omega arith, omega arith, (d, ap (λ ds. get_elem? ds b.attempt) (sym e) ∙ g, refl)),
          ),
        ))
        (λ _. (e, λ q. cc)))
]

pub release_inhibit_lock-none :
    (m : Monitor)
    → m.open_locks ≡ count m.inhibit_fd
    → ((release_inhibit_lock m).open_locks ≡ 0) × ((release_inhibit_lock m).inhibit_fd ≡ false)
unfolding release_inhibit_lock
release_inhibit_lock-none m h = ground (arith, h)

pub release_inhibit_lock-IsMonitor :
    (m : Monitor) → IsMonitor m → IsMonitor (release_inhibit_lock m)
unfolding release_inhibit_lock
release_inhibit_lock-IsMonitor m (held, down, waiting) =
    if_ind IsMonitor m.inhibit_fd
      (λ e. (
        (ground (arith, held.0, e), λ b. let (p, q, r) = held.1 b in (p, q, refl), λ _. refl),
        down,
        waiting,
      ))
      (λ _. (held, down, waiting))

disconnect-IsMonitor : (os : Outside) (m : Monitor) → IsMonitor m → IsMonitor (disconnect os m)
unfolding disconnect tear_down_bus_state reset
disconnect-IsMonitor os m (held, down, waiting) =
    let released = release_inhibit_lock m in
    let n = release_inhibit_lock-none m held.0 in
    let b = reset m.reconnect_schedule in
    let d =
      record (tear_down_bus_state (record released {
        registered_fd = if m.attached then none else m.registered_fd;
        registered_mask = 0;
        timer = none;
      })) { state = reconnecting; reconnect_schedule = (next_delay b).0; attempt_number = 0 } in
    let held' : IsHeld d = (n.0 ∙ sym (ap count n.1), λ _. (refl, refl, n.1), λ q. cc) in
    let (kept, torn) = arm_attempt-IsHeld os (next_delay b).1 d held' refl in
    (kept, torn, arm_attempt-IsWaiting os d b waiting.0)

pub handle_bus_disconnect-IsMonitor :
    (os : Outside) (m : Monitor) → IsMonitor m → IsMonitor (handle_bus_disconnect os m)
unfolding handle_bus_disconnect
handle_bus_disconnect-IsMonitor os m h =
    if_ind IsMonitor (is_operational m.state) (λ _. disconnect-IsMonitor os m h) (λ _. h)

arm_bus_timer-IsMonitor :
    (os : Outside) (t : Timeout) (m : Monitor) → IsMonitor m → IsMonitor (arm_bus_timer os t m)
unfolding arm_bus_timer
arm_bus_timer-IsMonitor os timeout_failed m h = h
arm_bus_timer-IsMonitor os no_deadline m h = h
arm_bus_timer-IsMonitor os (deadline at) m h = if_ind IsMonitor (os.arm m.calls) (λ _. h) (λ _. h)

register_fd-IsMonitor :
    (os : Outside) (fd : ℕ) (m : Monitor) → IsMonitor m → Snd (register_fd os fd m)
unfolding register_fd
register_fd-IsMonitor os fd m h =
    if_ind Snd (same_fd m.registered_fd fd)
      (λ _.
        if_ind IsMonitor (os.events m.calls == m.registered_mask) (λ _. h)
          (λ _. if_ind IsMonitor (os.modify m.calls) (λ _. h) (λ _. h)))
      (λ _. if_ind Snd (os.add m.calls) (λ _. h) (λ _. h))

update_with_fd-IsMonitor :
    (os : Outside) (fd : Option ℕ) (m : Monitor) → IsMonitor m → IsMonitor (update_with_fd os fd m)
unfolding update_with_fd
update_with_fd-IsMonitor os none m h = handle_bus_disconnect-IsMonitor os m h
update_with_fd-IsMonitor os (some fd) m h =
    let r = register_fd os fd m in
    let h' = register_fd-IsMonitor os fd m h in
    if_ind IsMonitor r.0 (λ _. arm_bus_timer-IsMonitor os (os.timeout r.1.calls) (tick r.1) h')
      (λ _. h')

pub update_loop_registration-IsMonitor :
    (os : Outside) (m : Monitor) → IsMonitor m → IsMonitor (update_loop_registration os m)
unfolding update_loop_registration
update_loop_registration-IsMonitor os m h =
    if_ind IsMonitor (is_operational m.state && m.attached && m.bus)
      (λ _. update_with_fd-IsMonitor os (os.bus_fd m.calls) (tick m) h) (λ _. h)

pub install-IsMonitor :
    (r : Reply) (m : Monitor)
    → m.bus ≡ true
    → m.inhibit_slot ≡ false
    → m.inhibit_fd ≡ false
    → IsMonitor m
    → IsMonitor (install r m)
unfolding install release_inhibit_lock
install-IsMonitor reply_error m b s f h = h
install-IsMonitor unreadable m b s f h = h
install-IsMonitor not_duplicated m b s f h = release_inhibit_lock-IsMonitor m h
install-IsMonitor duplicated m b s f (held, down, waiting) =
    if_ind
      (λ (n : Monitor). IsMonitor (record n { inhibit_fd = true; open_locks = n.open_locks + 1 }))
      m.inhibit_fd (λ e. absurd (ground (arith, e, f)))
      (λ _. (
        (
          ground (arith, held.0, f),
          λ n. absurd (ground (arith, b, n)),
          λ e. absurd (ground (arith, s, e)),
        ),
        down,
        waiting,
      ))

request_lock-IsMonitor :
    (os : Outside) (attached : Bool) (m : Monitor)
    → m.bus ≡ true
    → m.inhibit_slot ≡ false
    → m.inhibit_fd ≡ false
    → IsMonitor m
    → Snd (request_lock os attached m)
unfolding request_lock
request_lock-IsMonitor os true m b s f (held, down, waiting) =
    if_ind Snd (os.async_call m.calls)
      (λ _.
        update_loop_registration-IsMonitor os (record (tick m) { inhibit_slot = true })
          ((held.0, λ n. absurd (ground (arith, b, n)), λ _. f), down, waiting))
      (λ _. (held, down, waiting))
request_lock-IsMonitor os false m b s f h =
    install-IsMonitor (os.sync_call m.calls) (tick m) b s f h

pub take_inhibit_lock-IsMonitor :
    (os : Outside) (m : Monitor) → IsMonitor m → Snd (take_inhibit_lock os m)
unfolding take_inhibit_lock
take_inhibit_lock-IsMonitor os m h =
    if_ind Snd (not m.bus) (λ _. h)
      (λ b.
        if_ind Snd (m.inhibit_fd || m.inhibit_slot) (λ _. h)
          (λ f.
            request_lock-IsMonitor os m.attached m (ground (arith, b)) (ground (arith, f))
              (ground (arith, f)) h))
