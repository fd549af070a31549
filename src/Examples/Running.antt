-- ===== src/Examples/Running.antt =====
-- Runs of the daemon's two threads, with a device that answers `true`.
use cec_control.Examples.Commands.{backend, idle_device, fresh, cec}
use cec_control.Prelude.{List, ℕ, ◌≡◌, refl, Bool, true, false, none, some, [], ◌∷◌}
use cec_control.Standby
use cec_control.Power.SuspendQueue
use cec_control.Message.{
  Message, message, resp_success, cmd_auto_standby, cmd_volume_up, cmd_restart_adapter, cmd_suspend,
  cmd_key,
}
use cec_control.Throttler.{default_config}
use cec_control.Backoff.{schedule}
use cec_control.Power.Lifecycle
use cec_control.Power.Reconnect
use cec_control.Daemon.State.{World, suspend_job, suspend_done, reply_with, reply}
use cec_control.Daemon.Sinks.{Gains, in_replies}
use cec_control.Daemon.Supervisor.{Returns, apply_lifecycle}
use cec_control.Daemon.Supervisor.Termination.{Owes, apply_lifecycle-Returns}
use cec_control.Daemon.Dispatcher.Parking.{
  dispatch_all, parked, replayed, resumed_with, resumed_with-jobs,
}
use cec_control.Daemon.Events.{
  Wake, received, drains, works, power_changes, safety_timer_fires, wake, run, route, run_batch,
  handle_command, drain,
}
use cec_control.Dispatch.{find_dispatch_by_type}
use cec_control.Daemon.Dispatcher.{dispatch, by_spec, by_class, apply_standby}
use cec_control.Daemon.Events.Runs.{run-Gains, run-replies}

abbrev cycle : Reconnect.AdapterReconnect
cycle = record {
  state = Reconnect.State.idle;
  schedule = schedule (5000 ∷ 10000 ∷ 20000 ∷ []);
  connection_lost_delay = 1500;
  next_attempt_number = 0;
}

-- Suspended by logind, the worker at it; sink 7 has sent a suspend and its reply waits to be posted.
abbrev world : World Bool
world = record {
  device = idle_device;
  throttler = fresh;
  jobs = suspend_job ∷ [];
  stop_requested = false;
  posted = suspend_done ∷ reply_with 7 (message cmd_suspend) ∷ [];
  replies = [];
  suspend_queue = record { suspended = true; queued = message cmd_key ∷ [] };
  lifecycle_shutdown = false;
  dispatcher_shutdown = false;
  queue_commands = true;
  standby = record { enabled = true; armed = true; wired = true; requests = 0 };
  power = record Lifecycle.initial {
    phase = Lifecycle.suspending;
    pending = record { kind = Lifecycle.resume; source = Lifecycle.dbus } ∷ [];
  };
  reconnect = cycle;
  safety_timer = some 10000;
  retry_timer = none;
  arms = 1;
  monitor = true;
  lock_ops = [];
  escalations = 0;
}

abbrev pub timers_work : ℕ → Bool
timers_work n = true

-- Both threads go on from there, with a command and a logind resume.
abbrev wakes : List Wake
wakes =
    received (message cmd_suspend) 7
    ∷ works
    ∷ drains
    ∷ power_changes false
    ∷ safety_timer_fires true
    ∷ drains
    ∷ works
    ∷ received (message cmd_key) 9
    ∷ drains
    ∷ []

run-Gains_example :
    Returns (Gains 7 1 world) (run cec backend default_config timers_work wakes world)
run-Gains_example = run-Gains cec backend default_config timers_work 7 wakes world refl

-- A daemon with nothing on its way, and a client that switches the standby policy on.
abbrev pub settled : World Bool
settled = record world {
  jobs = [];
  posted = [];
  suspend_queue = SuspendQueue.empty;
  standby = record { enabled = false; armed = true; wired = true; requests = 0 };
}

abbrev switch_on : Message
switch_on = record { type = cmd_auto_standby; device_id = 0; payload = 1 ∷ [] }

abbrev switched_on : World Bool
switched_on = record settled {
  standby = record { enabled = true; armed = true; wired = true; requests = 0 };
  replies = (9, message resp_success) ∷ [];
}

switching_runs :
    run cec backend default_config timers_work (received switch_on 9 ∷ drains ∷ []) settled
    ≡ some switched_on
unfolding run wake handle_command route find_dispatch_by_type dispatch by_spec by_class
    apply_standby reply Standby.apply drain run_batch
switching_runs = refl

run-replies_example : in_replies 9 switched_on.replies ≡ 1
run-replies_example =
    run-replies cec backend default_config timers_work 9 (received switch_on 9 ∷ drains ∷ [])
      settled switched_on refl (refl, refl) switching_runs (refl, refl)

apply_lifecycle-Returns_example :
    Returns
      (Owes backend timers_work 7 (1, false))
      (apply_lifecycle backend timers_work Lifecycle.inert_output world)
apply_lifecycle-Returns_example =
    apply_lifecycle-Returns backend timers_work 7 (1, false) Lifecycle.inert_output world refl refl

-- A volume command and a restart come in while the daemon sleeps, behind a parked key.
abbrev arrivals : List (Message × ℕ)
arrivals = (message cmd_volume_up, 7) ∷ (message cmd_restart_adapter, 8) ∷ []

resumed_with-jobs_example :
    ((dispatch_all arrivals world).jobs ≡ suspend_job ∷ [])
    × ((resumed_with true (dispatch_all arrivals world)).jobs
        ≡ suspend_job ∷ replayed (message cmd_key ∷ parked arrivals))
    × ((resumed_with false (dispatch_all arrivals world)).jobs ≡ suspend_job ∷ [])
resumed_with-jobs_example =
    resumed_with-jobs arrivals world
      (record { suspended = refl; queues = refl; up = refl; works = refl })
