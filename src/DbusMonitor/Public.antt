-- ===== src/DbusMonitor/Public.antt =====
-- src/daemon/dbus_monitor.cpp: the monitor's start and end.
use cec_control.Prelude.{
  ℕ, ◌+◌, Bool, true, false, Option, none, some, List, not, ◌&&◌, ◌||◌, if◌then◌else◌,
}
use cec_control.Backoff.{reset}
use cec_control.DbusMonitor.{
  Outside, Monitor, operational, Processed, is_operational, tick, take_inhibit_lock,
  release_inhibit_lock, tear_down_bus_state, update_loop_registration,
}
use cec_control.DbusMonitor.Reconnect.{process_bus}

-- A lock that cannot be taken is only logged.
unfoldable pub initialize : Outside → Monitor → Bool × Monitor
unfolding take_inhibit_lock
initialize os m =
    if not (os.connects m.calls)
    then (false, record (tick m) { bus = false })
    else let m' = record (tick m) { bus = true } in
      if not (os.matches m'.calls)
      then (false, record (tick m') { bus = false })
      else (true, (take_inhibit_lock os (record (tick m') { signal_slot = true })).1)

-- The three registrations of `attach`, undone if one fails; then the first pass over the bus.
unfoldable pub attach_fd : Outside → List Processed → Option ℕ → Monitor → Bool × Monitor
unfolding process_bus update_loop_registration
attach_fd os ps none m = (false, m)
attach_fd os ps (some fd) m =
    let undone = record (tick m) { attached = false; registered_fd = none; registered_mask = 0 } in
    if not (os.add m.calls)
    then (false, undone)
    else if not (os.add (m.calls + 1))
    then (false, tick undone)
    else if not (os.add (m.calls + 2))
    then (false, tick (tick undone))
    else (
      true,
      update_loop_registration os (
          process_bus os ps (
            tick (
              tick (record (tick m) {
                attached = true;
                registered_fd = some fd;
                registered_mask = os.events m.calls;
              })))),
    )

-- `timers_valid` is the answer of the timers' `valid`.
unfoldable pub attach : Outside → Bool → List Processed → Monitor → Bool × Monitor
unfolding attach_fd
attach os timers_valid ps m =
    if not m.bus || m.attached || not timers_valid
    then (false, m)
    else attach_fd os ps (os.bus_fd m.calls) (tick m)

unfoldable pub detach : Monitor → Monitor
detach m = if m.attached then record m { attached = false; registered_fd = none } else m

unfoldable pub stop : Monitor → Monitor
unfolding release_inhibit_lock tear_down_bus_state reset
stop m =
    if not m.bus && not m.inhibit_fd && is_operational m.state
    then m
    else let down =
        tear_down_bus_state
          (record (release_inhibit_lock m) { timer = none; reconnect_timer = none }) in
      record down {
        state = operational;
        reconnect_schedule = reset down.reconnect_schedule;
        attempt_number = 0;
      }
