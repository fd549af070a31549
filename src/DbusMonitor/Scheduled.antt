-- ===== src/DbusMonitor/Scheduled.antt =====
-- src/daemon/dbus_monitor.cpp: the timer of the reconnects and its schedule keep what the monitor holds.
use cec_control.Prelude.{
  ◌≡◌, ◌≢◌, refl, sym, ap, ◌∙◌, subst, Bool, true, false, Option, none, List, inl, inr, get_elem?,
  if_ind, arith,
}
use cec_control.Backoff.{BackoffSchedule, Attempt, next_delay}
use cec_control.DbusMonitor.{
  Outside, Monitor, BusState, operational, reconnecting, disabled, Processed, reconnect_delays,
  is_operational,
}
use cec_control.DbusMonitor.Reconnect.{
  attempt_reconnect, after_attempt, after_heartbeat, arm_heartbeat, schedule_next, attempt_in,
  on_reconnect_timer,
}
use cec_control.DbusMonitor.Held.{count, IsHeld, IsMonitor, next_delay-cases}
use cec_control.DbusMonitor.Attempts.{IsTrying, IsTorn, Attempted, attempt_reconnect-Attempted}

-- A failed attempt leaves nothing held, and a monitor that has lost its bus.
torn-IsHeld : (m n : Monitor) → IsTrying m n → IsTorn n → IsHeld n × (n.bus ≡ false)
torn-IsHeld m n (s, c, a, t, f, l, x) (b, g, i) =
    ((l ∙ sym (ap count f), λ _. (g, i, f), λ _. f), b)

arm_heartbeat-IsMonitor :
    (os : Outside) (n : Monitor)
    → IsHeld n × (n.bus ≡ false)
    → n.reconnect_schedule.delays ≡ reconnect_delays
    → n.state ≡ disabled
    → IsMonitor (arm_heartbeat os n)
unfolding arm_heartbeat
arm_heartbeat-IsMonitor os n (h, b) e s =
    let idle : n.state ≢ reconnecting = λ q. absurd (ground (arith, s, q)) in
    if_ind IsMonitor (os.arm n.calls) (λ _. (h, λ _. b, (e, λ q. absurd (idle q))))
      (λ _. (h, λ _. b, (e, λ q. absurd (idle q))))

abbrev Scheduled : Outside → Monitor → BackoffSchedule × Option Attempt → Type 0
unfolding schedule_next
Scheduled os n r = IsMonitor (schedule_next os r.1 (record n { reconnect_schedule = r.0 }))

schedule_next-IsMonitor :
    (os : Outside) (n : Monitor) (b : BackoffSchedule)
    → IsHeld n × (n.bus ≡ false)
    → b.delays ≡ reconnect_delays
    → Scheduled os n (next_delay b)
unfolding schedule_next
schedule_next-IsMonitor os n b (h, q) e = elim (next_delay-cases b) [
  | inl k ↦ subst (Scheduled os n) (sym k) (
      arm_heartbeat-IsMonitor os (record n { state = disabled; reconnect_schedule = b }) (h, q) e
        refl)
  | inr (d, g, k) ↦ subst (Scheduled os n) (sym k) (
      if_ind IsMonitor (os.arm n.calls)
        (λ _. (
          h,
          λ _. q,
          (
            e,
            λ _. (
              b.attempt,
              (omega arith, omega arith, (d, ap (λ ds. get_elem? ds b.attempt) (sym e) ∙ g, refl)),
            ),
          ),
        ))
        (λ _. (h, λ _. q, (e, λ z. cc))))
]

-- A monitor that has lost its bus, once its timer has fired.
fired-IsTrying :
    (m : Monitor)
    → is_operational m.state ≡ false
    → m.attached ≡ true
    → IsMonitor m
    → IsTrying (record m { reconnect_timer = none }) (record m { reconnect_timer = none })
fired-IsTrying m d a (held, down, waiting) =
    let fd = (held.1 (down d)).2 in (refl, refl, refl, refl, fd, held.0 ∙ ap count fd, a)

after_heartbeat-IsMonitor :
    (os : Outside) (ok : Bool) (m n : Monitor)
    → m.state ≡ disabled
    → m.reconnect_schedule.delays ≡ reconnect_delays
    → Attempted m (ok, n)
    → IsMonitor (after_heartbeat os ok n)
unfolding after_heartbeat
after_heartbeat-IsMonitor os true m n s e (h, k) = h refl
after_heartbeat-IsMonitor os false m n s e (h, k) =
    let (t, torn) = k refl in
    arm_heartbeat-IsMonitor os n (torn-IsHeld m n t torn) (ap (λ c. c.delays) t.1 ∙ e) (t.0 ∙ s)

after_attempt-IsMonitor :
    (os : Outside) (ok : Bool) (m n : Monitor)
    → m.reconnect_schedule.delays ≡ reconnect_delays
    → Attempted m (ok, n)
    → IsMonitor (after_attempt os ok n)
unfolding after_attempt
after_attempt-IsMonitor os true m n e (h, k) = h refl
after_attempt-IsMonitor os false m n e (h, k) =
    let (t, torn) = k refl in
    schedule_next-IsMonitor os n n.reconnect_schedule (torn-IsHeld m n t torn)
      (ap (λ c. c.delays) t.1 ∙ e)

attempt_in-IsMonitor :
    (os : Outside) (ps : List Processed) (s : BusState) (m : Monitor)
    → m.state ≡ s
    → m.attached ≡ true
    → IsMonitor m
    → IsMonitor (attempt_in os ps s (record m { reconnect_timer = none }))
unfolding attempt_in
attempt_in-IsMonitor os ps operational m e a (held, down, (ds, w)) =
    (held, down, (ds, λ q. absurd (ground (arith, e, q))))
attempt_in-IsMonitor os ps disabled m e a h =
    let m' = record m { reconnect_timer = none } in
    let d : is_operational m.state ≡ false = ap is_operational e in
    let r = attempt_reconnect os ps m' in
    after_heartbeat-IsMonitor os r.0 m' r.1 e h.2.0
      (attempt_reconnect-Attempted os ps m' d h.2.0 (fired-IsTrying m d a h))
attempt_in-IsMonitor os ps reconnecting m e a h =
    let m' = record m { reconnect_timer = none } in
    let d : is_operational m.state ≡ false = ap is_operational e in
    let r = attempt_reconnect os ps m' in
    after_attempt-IsMonitor os r.0 m' r.1 h.2.0
      (attempt_reconnect-Attempted os ps m' d h.2.0 (fired-IsTrying m d a h))

pub on_reconnect_timer-IsMonitor :
    (os : Outside) (ps : List Processed) (m : Monitor)
    → m.attached ≡ true
    → IsMonitor m
    → IsMonitor (on_reconnect_timer os ps m)
unfolding on_reconnect_timer
on_reconnect_timer-IsMonitor os ps m a h = attempt_in-IsMonitor os ps m.state m refl a h
