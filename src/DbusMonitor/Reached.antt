-- ===== src/DbusMonitor/Reached.antt =====
-- src/daemon/dbus_monitor.cpp: the monitor as the daemon and the event loop run it.
use cec_control.Prelude.{
  ℕ, ◌+◌, ◌≡◌, refl, sym, ap, ◌∙◌, Bool, true, false, not, Option, none, some, List, ◌&&◌, ◌||◌,
  if_ind, arith,
}
use cec_control.Backoff.{reset}
use cec_control.DbusMonitor.{
  Outside, Monitor, operational, Processed, new_monitor, tick, is_operational, release_inhibit_lock,
  tear_down_bus_state, take_inhibit_lock, suspend_system,
}
use cec_control.DbusMonitor.Reconnect.{
  process_bus, on_bus_readable, on_timer_fire, on_reconnect_timer,
}
use cec_control.DbusMonitor.Public.{initialize, attach_fd, attach, detach, stop}
use cec_control.DbusMonitor.Held.{
  count, IsMonitor, Snd, release_inhibit_lock-IsMonitor, release_inhibit_lock-none,
  take_inhibit_lock-IsMonitor, update_loop_registration-IsMonitor,
}
use cec_control.DbusMonitor.Passes.{process_bus-IsMonitor}
use cec_control.DbusMonitor.Scheduled.{on_reconnect_timer-IsMonitor}

initialize-IsMonitor :
    (os : Outside) (m : Monitor)
    → m.bus ≡ false
    → m.state ≡ operational
    → IsMonitor m
    → Snd (initialize os m)
unfolding initialize
initialize-IsMonitor os m b o (held, down, waiting) =
    let open_bus = record (tick (record (tick m) { bus = true })) { signal_slot = true } in
    if_ind Snd (not (os.connects m.calls))
      (λ _. ((held.0, λ _. held.1 b, held.2), λ _. refl, waiting))
      (λ _.
        if_ind Snd (not (os.matches (m.calls + 1)))
          (λ _. ((held.0, λ _. held.1 b, held.2), λ _. refl, waiting))
          (λ _.
            take_inhibit_lock-IsMonitor os open_bus
              ((held.0, λ q. cc, held.2), λ q. absurd (ground (arith, o, q)), waiting)))

attach_fd-IsMonitor :
    (os : Outside) (ps : List Processed) (fd : Option ℕ) (m : Monitor)
    → IsMonitor m
    → Snd (attach_fd os ps fd m)
unfolding attach_fd
attach_fd-IsMonitor os ps none m h = h
attach_fd-IsMonitor os ps (some fd) m h =
    let m' = tick (
      tick (record (tick m) {
        attached = true;
        registered_fd = some fd;
        registered_mask = os.events m.calls;
      })) in
    if_ind Snd (not (os.add m.calls)) (λ _. h)
      (λ _.
        if_ind Snd (not (os.add (m.calls + 1))) (λ _. h)
          (λ _.
            if_ind Snd (not (os.add (m.calls + 2))) (λ _. h)
              (λ _.
                update_loop_registration-IsMonitor os (process_bus os ps m')
                  (process_bus-IsMonitor os ps m' h))))

attach-IsMonitor :
    (os : Outside) (valid : Bool) (ps : List Processed) (m : Monitor)
    → IsMonitor m
    → Snd (attach os valid ps m)
unfolding attach
attach-IsMonitor os valid ps m h =
    if_ind Snd (not m.bus || m.attached || not valid) (λ _. h)
      (λ _. attach_fd-IsMonitor os ps (os.bus_fd m.calls) (tick m) h)

detach-IsMonitor : (m : Monitor) → IsMonitor m → IsMonitor (detach m)
unfolding detach
detach-IsMonitor m h = if_ind IsMonitor m.attached (λ _. h) (λ _. h)

stop-IsMonitor : (m : Monitor) → IsMonitor m → IsMonitor (stop m)
unfolding stop tear_down_bus_state reset
stop-IsMonitor m (held, down, waiting) =
    let n = release_inhibit_lock-none m held.0 in
    let kept = release_inhibit_lock-IsMonitor m (held, down, waiting) in
    if_ind IsMonitor (not m.bus && not m.inhibit_fd && is_operational m.state)
      (λ _. (held, down, waiting))
      (λ _.
        ((n.0 ∙ sym (ap count n.1), λ _. (refl, refl, n.1), λ q. cc), λ q. cc, (kept.2.0, λ q. cc)))

suspend_system-IsMonitor : (os : Outside) (m : Monitor) → IsMonitor m → Snd (suspend_system os m)
unfolding suspend_system
suspend_system-IsMonitor os m h =
    if_ind Snd (not m.bus) (λ _. h)
      (λ _.
        if_ind Snd (os.async_call m.calls) (λ _. update_loop_registration-IsMonitor os (tick m) h)
          (λ _. h))

on_bus_readable-IsMonitor :
    (os : Outside) (ps : List Processed) (m : Monitor)
    → IsMonitor m
    → IsMonitor (on_bus_readable os ps m)
unfolding on_bus_readable
on_bus_readable-IsMonitor os ps m h =
    update_loop_registration-IsMonitor os (process_bus os ps m) (process_bus-IsMonitor os ps m h)

-- A call of the monitor. It is initialized only at first or once it is stopped, and the reconnect
-- timer's handler runs only while it is attached to the loop, which `detach` removes it from.
pub data Step (os : Outside) : Monitor → Monitor → Type 0 where
  initializes :
      {m : Monitor} → m.bus ≡ false → m.state ≡ operational → Step os m (initialize os m).1
  attaches : {m : Monitor} (valid : Bool) (ps : List Processed) → Step os m (attach os valid ps m).1
  detaches : {m : Monitor} → Step os m (detach m)
  stops : {m : Monitor} → Step os m (stop m)
  bus_readable : {m : Monitor} (ps : List Processed) → Step os m (on_bus_readable os ps m)
  timer_fires : {m : Monitor} (ps : List Processed) → Step os m (on_timer_fire os ps m)
  reconnect_fires :
      {m : Monitor} (ps : List Processed)
      → m.attached ≡ true
      → Step os m (on_reconnect_timer os ps m)
  takes : {m : Monitor} → Step os m (take_inhibit_lock os m).1
  suspends : {m : Monitor} → Step os m (suspend_system os m).1
  releases : {m : Monitor} → Step os m (release_inhibit_lock m)

pub data Reached (os : Outside) : Monitor → Type 0 where
  at_first : Reached os new_monitor
  next : {m n : Monitor} → Reached os m → Step os m n → Reached os n

step-IsMonitor : (os : Outside) {m n : Monitor} → Step os m n → IsMonitor m → IsMonitor n
unfolding on_timer_fire
step-IsMonitor os {m = m} (initializes b o) h = initialize-IsMonitor os m b o h
step-IsMonitor os {m = m} (attaches valid ps) h = attach-IsMonitor os valid ps m h
step-IsMonitor os {m = m} detaches h = detach-IsMonitor m h
step-IsMonitor os {m = m} stops h = stop-IsMonitor m h
step-IsMonitor os {m = m} (bus_readable ps) h = on_bus_readable-IsMonitor os ps m h
step-IsMonitor os {m = m} (timer_fires ps) h =
    on_bus_readable-IsMonitor os ps (record m { timer = none }) h
step-IsMonitor os {m = m} (reconnect_fires ps a) h = on_reconnect_timer-IsMonitor os ps m a h
step-IsMonitor os {m = m} takes h = take_inhibit_lock-IsMonitor os m h
step-IsMonitor os {m = m} suspends h = suspend_system-IsMonitor os m h
step-IsMonitor os {m = m} releases h = release_inhibit_lock-IsMonitor m h

-- In every monitor that calls lead to from a new one, the descriptors of the inhibit lock that are
-- open are the one in hand, at most one; a request for the lock is in flight only while none is in
-- hand; a monitor without its bus, and so one that reconnects or is disabled, holds neither the lock,
-- nor a request, nor the signal's match; and while it reconnects the timer has the delay of the
-- attempt that it names, the last that was drawn from the schedule.
pub Reached-IsMonitor : (os : Outside) {m : Monitor} → Reached os m → IsMonitor m
Reached-IsMonitor os at_first = ((refl, λ _. (refl, refl, refl), λ q. cc), λ q. cc, (refl, λ q. cc))
Reached-IsMonitor os (next r step) = step-IsMonitor os step (Reached-IsMonitor os r)
