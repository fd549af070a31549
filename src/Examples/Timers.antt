-- ===== src/Examples/Timers.antt =====
-- The retry timer over a run of the daemon at a concrete input.
use cec_control.Prelude.{Bool, ◌≡◌, refl, some, List, [], ◌∷◌}
use cec_control.Throttler.{default_config}
use cec_control.Power.Reconnect
use cec_control.Daemon.State.{World, post}
use cec_control.Daemon.Supervisor
use cec_control.Daemon.Supervisor.Timed.{IsTimed}
use cec_control.Daemon.Events.{
  Wake, connection_drops, drains, wake, run, run_batch, run_posted, drain,
}
use cec_control.Daemon.Timed.Runs.{run-IsTimed}
use cec_control.Examples.Commands.{cec, backend}
use cec_control.Examples.Running.{settled, timers_work}

abbrev drops : List Wake
drops = connection_drops ∷ drains ∷ []

abbrev waiting : World Bool
waiting = record settled {
  reconnect = record settled.reconnect {
    state = Reconnect.State.waiting_for_retry;
    next_attempt_number = 1;
  };
  retry_timer = some 1500;
  arms = 2;
}

drops_end : run cec backend default_config timers_work drops settled ≡ some waiting
unfolding run wake drain run_batch run_posted Supervisor.on_connection_lost Supervisor.feed
    Supervisor.execute Supervisor.execute_within Reconnect.on_event post
drops_end = refl

run-IsTimed_example : IsTimed waiting
run-IsTimed_example =
    run-IsTimed cec backend default_config timers_work drops settled waiting drops_end refl
