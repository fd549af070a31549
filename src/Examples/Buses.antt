-- ===== src/Examples/Buses.antt =====
-- The D-Bus monitor at concrete inputs.
use cec_control.Prelude.{◌≡◌, refl, true, false, none, some, [], ◌∷◌}
use cec_control.DbusMonitor.{
  Outside, Monitor, new_monitor, disabled, duplicated, no_deadline, prepare_for_sleep,
  process_failed, release_lock, heartbeat_interval, handle_bus_disconnect,
}
use cec_control.DbusMonitor.Reconnect.{on_bus_readable}
use cec_control.DbusMonitor.Public.{initialize, attach}
use cec_control.DbusMonitor.Held.{IsMonitor}
use cec_control.DbusMonitor.Reached.{
  at_first, next, initializes, attaches, bus_readable, Reached-IsMonitor,
}
use cec_control.DbusMonitor.Outage.{fire_all, fire_all-outage}

-- Everything succeeds, and the daemon releases the lock when the system is about to sleep.
abbrev working : Outside
working = record {
  connects = λ n. true;
  matches = λ n. true;
  bus_fd = λ n. some 7;
  events = λ n. 1;
  timeout = λ n. no_deadline;
  now = λ n. 0;
  async_call = λ n. true;
  sync_call = λ n. duplicated;
  add = λ n. true;
  modify = λ n. true;
  arm = λ n. true;
  callback = some (λ n sleeping. release_lock ∷ []);
}

abbrev initialized : Monitor
initialized = (initialize working new_monitor).1

abbrev attached : Monitor
attached = (attach working true (prepare_for_sleep (some true) ∷ []) initialized).1

Reached-IsMonitor_example :
    IsMonitor
      (on_bus_readable working (prepare_for_sleep none ∷ process_failed false ∷ []) attached)
Reached-IsMonitor_example = Reached-IsMonitor working (
    next
      (next (next at_first (initializes refl refl))
        (attaches true (prepare_for_sleep (some true) ∷ [])))
      (bus_readable (prepare_for_sleep none ∷ process_failed false ∷ [])))

abbrev gone : Outside
gone = record working { connects = λ n. false }

abbrev lost : Monitor
lost = handle_bus_disconnect gone (record new_monitor { attached = true })

fire_all-outage_example :
    ((fire_all gone ([] ∷ [] ∷ [] ∷ [] ∷ [] ∷ []) lost).state ≡ disabled)
    × ((fire_all gone ([] ∷ [] ∷ [] ∷ [] ∷ [] ∷ []) lost).reconnect_timer ≡ some heartbeat_interval)
fire_all-outage_example =
    fire_all-outage gone (λ n. refl) (λ n. refl) ([] ∷ [] ∷ [] ∷ [] ∷ [] ∷ [])
      (record new_monitor { attached = true }) refl refl
