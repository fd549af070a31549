-- ===== src/DbusMonitor/Reconnect.antt =====
-- src/daemon/dbus_monitor.cpp: the signals of the bus, and the attempts to reconnect. A pass over the
-- bus takes the list of what `sd_bus_process` does, call after call.
use cec_control.Prelude.{
  ℕ, Bool, true, false, Option, none, some, List, [], ◌∷◌, not, ◌&&◌, if◌then◌else◌,
}
use cec_control.Backoff.{Attempt, next_delay, reset}
use cec_control.DbusMonitor.{
  Outside, Monitor, Reply, BusState, operational, reconnecting, disabled, LockCall, take_lock,
  release_lock, Processed, prepare_for_sleep, inhibit_reply, suspend_reply, process_failed,
  heartbeat_interval, is_operational, tick, install, take_inhibit_lock, release_inhibit_lock,
  handle_bus_disconnect, tear_down_bus_state, update_loop_registration,
}

unfoldable pub lock_calls : Outside → List LockCall → Monitor → Monitor
unfolding take_inhibit_lock release_inhibit_lock
lock_calls os [] m = m
lock_calls os (take_lock ∷ cs) m = lock_calls os cs (take_inhibit_lock os m).1
lock_calls os (release_lock ∷ cs) m = lock_calls os cs (release_inhibit_lock m)

-- `onPrepareForSleep`, with the daemon's callback.
unfoldable pub on_prepare_for_sleep :
    Outside → Option (ℕ → Bool → List LockCall) → Bool → Monitor → Monitor
unfolding lock_calls
on_prepare_for_sleep os none sleeping m = m
on_prepare_for_sleep os (some f) sleeping m =
    lock_calls os (f m.calls sleeping) (record (tick m) { sleeps = sleeping ∷ m.sleeps })

unfoldable pub on_inhibit_reply : Reply → Monitor → Monitor
unfolding install
on_inhibit_reply r m = install r (record m { inhibit_slot = false })

-- One `sd_bus_process` on a bus, with whether the loop goes on. sd-bus delivers a reply only to a
-- request that is in flight.
unfoldable pub process_one : Outside → Processed → Monitor → Bool × Monitor
unfolding handle_bus_disconnect on_prepare_for_sleep on_inhibit_reply
process_one os (process_failed still_open) m =
    (false, if still_open then m else handle_bus_disconnect os m)
process_one os (prepare_for_sleep none) m = (true, m)
process_one os (prepare_for_sleep (some sleeping)) m =
    (true, on_prepare_for_sleep os os.callback sleeping m)
process_one os (inhibit_reply r) m = (true, if m.inhibit_slot then on_inhibit_reply r m else m)
process_one os suspend_reply m = (true, m)

-- The loop of `processBus`. A callback may have dropped the bus; the next call then fails, and a bus
-- that is not there is not open.
unfoldable pub process_all : Outside → List Processed → Monitor → Monitor
unfolding process_one handle_bus_disconnect
process_all os [] m = m
process_all os (p ∷ ps) m =
    let (goes_on, m') = process_one os p m in
    let rest = process_all os ps m' in
    if m.bus then (if goes_on then rest else m') else handle_bus_disconnect os m

unfoldable pub process_bus : Outside → List Processed → Monitor → Monitor
unfolding process_all
process_bus os ps m = if is_operational m.state && m.bus then process_all os ps m else m

unfoldable pub reconnect_bus : Outside → Monitor → Bool × Monitor
unfolding take_inhibit_lock
reconnect_bus os m =
    if not (os.connects m.calls)
    then (false, record (tick m) { bus = false })
    else let m' = record (tick m) { bus = true } in
      if not (os.matches m'.calls)
      then (false, tick m')
      else (true, (take_inhibit_lock os (record (tick m') { signal_slot = true })).1)

-- `registerBusWithLoop` with the answer of `sd_bus_get_fd`.
unfoldable pub register_bus_fd : Outside → Option ℕ → Monitor → Bool × Monitor
register_bus_fd os none m = (false, m)
register_bus_fd os (some fd) m =
    if os.add m.calls
    then (true, record (tick m) { registered_fd = some fd; registered_mask = os.events m.calls })
    else (false, record (tick m) { registered_fd = none; registered_mask = 0 })

unfoldable pub register_bus_with_loop : Outside → Monitor → Bool × Monitor
unfolding register_bus_fd
register_bus_with_loop os m =
    if not (m.attached && m.bus)
    then (false, m)
    else register_bus_fd os (os.bus_fd m.calls) (tick m)

-- A new connection that is registered.
unfoldable pub resume_operation : Outside → List Processed → Monitor → Monitor
unfolding process_bus update_loop_registration reset
resume_operation os ps m = update_loop_registration os (
    process_bus os ps (record m {
      state = operational;
      reconnect_schedule = reset m.reconnect_schedule;
      attempt_number = 0;
    }))

-- The attempt after the registration, and after the connection.
unfoldable pub after_registration : Outside → List Processed → Bool → Monitor → Bool × Monitor
unfolding resume_operation tear_down_bus_state
after_registration os ps true m = (true, resume_operation os ps m)
after_registration os ps false m = (false, tear_down_bus_state m)

unfoldable pub after_connection : Outside → List Processed → Bool → Monitor → Bool × Monitor
unfolding register_bus_with_loop after_registration tear_down_bus_state
after_connection os ps true m =
    let (registered, m') = register_bus_with_loop os m in after_registration os ps registered m'
after_connection os ps false m = (false, tear_down_bus_state m)

unfoldable pub attempt_reconnect : Outside → List Processed → Monitor → Bool × Monitor
unfolding reconnect_bus after_connection
attempt_reconnect os ps m =
    let (connected, m') = reconnect_bus os m in after_connection os ps connected m'

unfoldable pub arm_heartbeat : Outside → Monitor → Monitor
arm_heartbeat os m =
    if os.arm m.calls then record (tick m) { reconnect_timer = some heartbeat_interval } else tick m

-- After a scheduled attempt that failed.
unfoldable pub schedule_next : Outside → Option Attempt → Monitor → Monitor
unfolding arm_heartbeat
schedule_next os none m = arm_heartbeat os (record m { state = disabled })
schedule_next os (some a) m =
    if os.arm m.calls
    then record (tick m) { reconnect_timer = some a.delay; attempt_number = a.index }
    else record (tick m) { state = disabled }

-- What follows a scheduled attempt, and a heartbeat.
unfoldable pub after_attempt : Outside → Bool → Monitor → Monitor
unfolding schedule_next next_delay
after_attempt os true m = m
after_attempt os false m =
    let (drawn, attempt) = next_delay m.reconnect_schedule in
    schedule_next os attempt (record m { reconnect_schedule = drawn })

unfoldable pub after_heartbeat : Outside → Bool → Monitor → Monitor
unfolding arm_heartbeat
after_heartbeat os true m = m
after_heartbeat os false m = arm_heartbeat os m

-- The cases of `onReconnectTimer` on the state.
unfoldable pub attempt_in : Outside → List Processed → BusState → Monitor → Monitor
unfolding attempt_reconnect after_attempt after_heartbeat
attempt_in os ps operational m = m
attempt_in os ps disabled m = let (ok, m') = attempt_reconnect os ps m in after_heartbeat os ok m'
attempt_in os ps reconnecting m = let (ok, m') = attempt_reconnect os ps m in after_attempt os ok m'

-- The timer has fired.
unfoldable pub on_reconnect_timer : Outside → List Processed → Monitor → Monitor
unfolding attempt_in
on_reconnect_timer os ps m = attempt_in os ps m.state (record m { reconnect_timer = none })

unfoldable pub on_bus_readable : Outside → List Processed → Monitor → Monitor
unfolding process_bus update_loop_registration
on_bus_readable os ps m = update_loop_registration os (process_bus os ps m)

unfoldable pub on_timer_fire : Outside → List Processed → Monitor → Monitor
unfolding on_bus_readable
on_timer_fire os ps m = on_bus_readable os ps (record m { timer = none })
