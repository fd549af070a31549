-- ===== src/DbusMonitor.antt =====
-- src/daemon/dbus_monitor.h and dbus_monitor.cpp: the connection to logind. sd-bus, the event loop and
-- the timers are the parameter `Outside`, which answers by the number of the call; descriptors, slots
-- and the bus are flags that tell whether they are held.
pub mod Reconnect
pub mod Public
pub mod Held
pub mod Passes
pub mod Attempts
pub mod Scheduled
pub mod Reached
pub mod Outage
use cec_control.Prelude.{
  ℕ, ◌+◌, ◌-◌, ◌*◌, ◌/◌, ◌%◌, Bool, true, false, not, Option, none, some, List, [], ◌∷◌, ◌==◌, ◌&&◌,
  ◌||◌, leb, ltb, min, if◌then◌else◌,
}
use cec_control.Backoff.{BackoffSchedule, Attempt, schedule, next_delay, reset}

pub data BusState : Type 0 where
  operational reconnecting disabled : BusState

-- A call of the daemon on the inhibit lock.
pub data LockCall : Type 0 where
  take_lock release_lock : LockCall

-- The reply to `Inhibit`: an error, no descriptor in it, or one that is duplicated, or not.
pub data Reply : Type 0 where
  reply_error unreadable duplicated not_duplicated : Reply

-- What one `sd_bus_process` does: a signal with its flag or without one that can be read, a reply,
-- or a failure, which leaves the bus open or not. The end of a list of these is the answer 0.
pub data Processed : Type 0 where
  prepare_for_sleep : Option Bool → Processed
  inhibit_reply : Reply → Processed
  suspend_reply : Processed
  process_failed : Bool → Processed

-- `sd_bus_get_timeout`: a failure, `UINT64_MAX`, or a time in microseconds.
pub data Timeout : Type 0 where
  timeout_failed no_deadline : Timeout
  deadline : ℕ → Timeout

-- `callback` is the daemon's, where there is one: the calls that it makes on the lock for a flag.
pub record Outside : Type 0 where
  pub connects : ℕ → Bool
  pub matches : ℕ → Bool
  pub bus_fd : ℕ → Option ℕ
  pub events : ℕ → ℕ
  pub timeout : ℕ → Timeout
  pub now : ℕ → ℕ
  pub async_call : ℕ → Bool
  pub sync_call : ℕ → Reply
  pub add : ℕ → Bool
  pub modify : ℕ → Bool
  pub arm : ℕ → Bool
  pub callback : Option (ℕ → Bool → List LockCall)

-- `open_locks` counts the descriptors of the lock that were duplicated and not closed, `sleeps` has
-- the flags that the callback was given, the newest first.
pub record Monitor : Type 0 where
  pub bus : Bool
  pub signal_slot : Bool
  pub inhibit_slot : Bool
  pub inhibit_fd : Bool
  pub open_locks : ℕ
  pub attached : Bool
  pub registered_fd : Option ℕ
  pub registered_mask : ℕ
  pub timer : Option ℕ
  pub reconnect_timer : Option ℕ
  pub state : BusState
  pub reconnect_schedule : BackoffSchedule
  pub attempt_number : ℕ
  pub calls : ℕ
  pub sleeps : List Bool

-- 2, 10, 30 and 60 seconds, in milliseconds.
abbrev pub reconnect_delays : List ℕ
reconnect_delays = 2000 ∷ 10000 ∷ 30000 ∷ 60000 ∷ []

-- `kHeartbeatInterval`, 30 minutes.
abbrev pub heartbeat_interval : ℕ
heartbeat_interval = 1800000

abbrev pub new_monitor : Monitor
new_monitor = record {
  bus = false;
  signal_slot = false;
  inhibit_slot = false;
  inhibit_fd = false;
  open_locks = 0;
  attached = false;
  registered_fd = none;
  registered_mask = 0;
  timer = none;
  reconnect_timer = none;
  state = operational;
  reconnect_schedule = schedule reconnect_delays;
  attempt_number = 0;
  calls = 0;
  sleeps = [];
}

abbrev pub tick : Monitor → Monitor
tick m = record m { calls = m.calls + 1 }

abbrev pub is_operational : BusState → Bool
is_operational operational = true
is_operational _ = false

-- Rounded up to milliseconds, and at most `INT32_MAX`.
unfoldable pub relative_from_absolute_us : ℕ → ℕ → ℕ
relative_from_absolute_us now at =
    if leb at now
    then 0
    else let delta = at - now in
      min (delta / 1000 + (if ltb 0 (delta % 1000) then 1 else 0)) 2147483647

unfoldable pub release_inhibit_lock : Monitor → Monitor
release_inhibit_lock m =
    if m.inhibit_fd then record m { inhibit_fd = false; open_locks = m.open_locks - 1 } else m

unfoldable pub tear_down_bus_state : Monitor → Monitor
tear_down_bus_state m = record m { inhibit_slot = false; signal_slot = false; bus = false }

-- A delay of the schedule is armed, or the monitor is disabled.
unfoldable pub arm_attempt : Outside → Option Attempt → Monitor → Monitor
arm_attempt os none m = record m { state = disabled }
arm_attempt os (some a) m =
    if os.arm m.calls
    then record (tick m) { reconnect_timer = some a.delay; attempt_number = a.index }
    else record (tick m) { state = disabled }

-- The body of `handleBusDisconnect`.
unfoldable pub disconnect : Outside → Monitor → Monitor
unfolding release_inhibit_lock tear_down_bus_state arm_attempt next_delay reset
disconnect os m =
    let (drawn, attempt) = next_delay (reset m.reconnect_schedule) in
    let released = release_inhibit_lock m in
    let down = tear_down_bus_state (record released {
      registered_fd = if m.attached then none else m.registered_fd;
      registered_mask = 0;
      timer = none;
    }) in
    arm_attempt os attempt
      (record down { state = reconnecting; reconnect_schedule = drawn; attempt_number = 0 })

unfoldable pub handle_bus_disconnect : Outside → Monitor → Monitor
unfolding disconnect
handle_bus_disconnect os m = if is_operational m.state then disconnect os m else m

-- The end of `updateLoopRegistration`; a timer that cannot be armed is left as it is.
unfoldable pub arm_bus_timer : Outside → Timeout → Monitor → Monitor
unfolding relative_from_absolute_us
arm_bus_timer os timeout_failed m = record m { timer = none }
arm_bus_timer os no_deadline m = record m { timer = none }
arm_bus_timer os (deadline at) m =
    if os.arm m.calls
    then record (tick m) { timer = some (relative_from_absolute_us (os.now m.calls) at) }
    else tick m

abbrev pub same_fd : Option ℕ → ℕ → Bool
same_fd none fd = false
same_fd (some g) fd = g == fd

-- The descriptor and the mask, with false where the descriptor cannot be registered.
unfoldable pub register_fd : Outside → ℕ → Monitor → Bool × Monitor
register_fd os fd m =
    let mask = os.events m.calls in
    if same_fd m.registered_fd fd
    then (
      true,
      if mask == m.registered_mask
          then tick m
          else if os.modify m.calls
          then record (tick m) { registered_mask = mask }
          else tick m,
    )
    else if os.add m.calls
    then (true, record (tick m) { registered_fd = some fd; registered_mask = mask })
    else (false, record (tick m) { registered_fd = none; registered_mask = mask })

unfoldable pub update_with_fd : Outside → Option ℕ → Monitor → Monitor
unfolding handle_bus_disconnect register_fd arm_bus_timer
update_with_fd os none m = handle_bus_disconnect os m
update_with_fd os (some fd) m =
    let (ok, m') = register_fd os fd m in
    if ok then arm_bus_timer os (os.timeout m'.calls) (tick m') else m'

unfoldable pub update_loop_registration : Outside → Monitor → Monitor
unfolding update_with_fd
update_loop_registration os m =
    if is_operational m.state && m.attached && m.bus
    then update_with_fd os (os.bus_fd m.calls) (tick m)
    else m

-- A descriptor of the lock arrives; one that is held is closed first.
unfoldable pub install : Reply → Monitor → Monitor
unfolding release_inhibit_lock
install reply_error m = m
install unreadable m = m
install not_duplicated m = release_inhibit_lock m
install duplicated m =
    let released = release_inhibit_lock m in
    record released { inhibit_fd = true; open_locks = released.open_locks + 1 }

abbrev pub is_duplicated : Reply → Bool
is_duplicated duplicated = true
is_duplicated _ = false

-- The request: asynchronous once the monitor is attached to the loop, else synchronous.
unfoldable pub request_lock : Outside → Bool → Monitor → Bool × Monitor
unfolding update_loop_registration install
request_lock os true m =
    if os.async_call m.calls
    then (true, update_loop_registration os (record (tick m) { inhibit_slot = true }))
    else (false, tick m)
request_lock os false m =
    (is_duplicated (os.sync_call m.calls), install (os.sync_call m.calls) (tick m))

unfoldable pub take_inhibit_lock : Outside → Monitor → Bool × Monitor
unfolding request_lock
take_inhibit_lock os m =
    if not m.bus
    then (false, m)
    else if m.inhibit_fd || m.inhibit_slot
    then (true, m)
    else request_lock os m.attached m

unfoldable pub suspend_system : Outside → Monitor → Bool × Monitor
unfolding update_loop_registration
suspend_system os m =
    if not m.bus
    then (false, m)
    else if os.async_call m.calls
    then (true, update_loop_registration os (tick m))
    else (false, tick m)
