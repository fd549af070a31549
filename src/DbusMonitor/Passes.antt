-- ===== src/DbusMonitor/Passes.antt =====
-- src/daemon/dbus_monitor.cpp: passes over the bus keep what the monitor holds.
use cec_control.Prelude.{
  ℕ, ◌≡◌, refl, Bool, true, false, Option, none, some, List, [], ◌∷◌, ◌&&◌, if_ind, arith,
}
use cec_control.DbusMonitor.{
  Outside, Monitor, LockCall, take_lock, release_lock, Reply, Processed, prepare_for_sleep,
  inhibit_reply, suspend_reply, process_failed, tick, is_operational, release_inhibit_lock,
  take_inhibit_lock,
}
use cec_control.DbusMonitor.Reconnect.{
  lock_calls, on_prepare_for_sleep, on_inhibit_reply, process_one, process_all, process_bus,
}
use cec_control.DbusMonitor.Held.{
  IsMonitor, Snd, handle_bus_disconnect-IsMonitor, release_inhibit_lock-IsMonitor,
  take_inhibit_lock-IsMonitor, install-IsMonitor,
}

lock_calls-IsMonitor :
    (os : Outside) (cs : List LockCall) (m : Monitor) → IsMonitor m → IsMonitor (lock_calls os cs m)
unfolding lock_calls
lock_calls-IsMonitor os [] m h = h
lock_calls-IsMonitor os (take_lock ∷ cs) m h =
    lock_calls-IsMonitor os cs (take_inhibit_lock os m).1 (take_inhibit_lock-IsMonitor os m h)
lock_calls-IsMonitor os (release_lock ∷ cs) m h =
    lock_calls-IsMonitor os cs (release_inhibit_lock m) (release_inhibit_lock-IsMonitor m h)

on_prepare_for_sleep-IsMonitor :
    (os : Outside) (callback : Option (ℕ → Bool → List LockCall)) (sleeping : Bool) (m : Monitor)
    → IsMonitor m
    → IsMonitor (on_prepare_for_sleep os callback sleeping m)
unfolding on_prepare_for_sleep
on_prepare_for_sleep-IsMonitor os none sleeping m h = h
on_prepare_for_sleep-IsMonitor os (some f) sleeping m h =
    lock_calls-IsMonitor os (f m.calls sleeping) (record (tick m) { sleeps = sleeping ∷ m.sleeps })
      h

on_inhibit_reply-IsMonitor :
    (r : Reply) (m : Monitor)
    → m.inhibit_slot ≡ true
    → IsMonitor m
    → IsMonitor (on_inhibit_reply r m)
unfolding on_inhibit_reply
on_inhibit_reply-IsMonitor r m s (held, down, waiting) =
    let bus : m.bus ≡ true = ground (arith, held.1, s) in
    let fd : m.inhibit_fd ≡ false = held.2 s in
    install-IsMonitor r (record m { inhibit_slot = false }) bus refl fd
      ((held.0, λ b. let (p, q, t) = held.1 b in (p, refl, t), λ q. cc), down, waiting)

process_one-IsMonitor :
    (os : Outside) (p : Processed) (m : Monitor) → IsMonitor m → Snd (process_one os p m)
unfolding process_one
process_one-IsMonitor os (process_failed still_open) m h =
    if_ind IsMonitor still_open (λ _. h) (λ _. handle_bus_disconnect-IsMonitor os m h)
process_one-IsMonitor os (prepare_for_sleep none) m h = h
process_one-IsMonitor os (prepare_for_sleep (some sleeping)) m h =
    on_prepare_for_sleep-IsMonitor os os.callback sleeping m h
process_one-IsMonitor os (inhibit_reply r) m h =
    if_ind IsMonitor m.inhibit_slot (λ s. on_inhibit_reply-IsMonitor r m s h) (λ _. h)
process_one-IsMonitor os suspend_reply m h = h

process_all-IsMonitor :
    (os : Outside) (ps : List Processed) (m : Monitor)
    → IsMonitor m
    → IsMonitor (process_all os ps m)
unfolding process_all
process_all-IsMonitor os [] m h = h
process_all-IsMonitor os (p ∷ ps) m h =
    let r = process_one os p m in
    let h' = process_one-IsMonitor os p m h in
    if_ind IsMonitor m.bus
      (λ _. if_ind IsMonitor r.0 (λ _. process_all-IsMonitor os ps r.1 h') (λ _. h'))
      (λ _. handle_bus_disconnect-IsMonitor os m h)

pub process_bus-IsMonitor :
    (os : Outside) (ps : List Processed) (m : Monitor)
    → IsMonitor m
    → IsMonitor (process_bus os ps m)
unfolding process_bus
process_bus-IsMonitor os ps m h =
    if_ind IsMonitor (is_operational m.state && m.bus) (λ _. process_all-IsMonitor os ps m h)
      (λ _. h)
