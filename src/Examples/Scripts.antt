-- ===== src/Examples/Scripts.antt =====
-- The hooks at concrete inputs.
use cec_control.Prelude.{◌≡◌, refl, true, none, [], ◌∷◌, codes}
use cec_control.Standby.{tv_standby, tv_power_report, active_source, host_activated}
use cec_control.Hooks.{Surroundings, Hooks, unknown, fired_input_switch, observes, timer_fires, run}
use cec_control.Hooks.Fires.{IsHooks, run-IsHooks}
use cec_control.Hooks.Settled.{burst, run-burst}
use cec_control.Hooks.Queue
use cec_control.Hooks.Queue.{
  Executor, Job, idle_executor, starts, stops, rounds, submits, all_jobs, run-spawned,
}

abbrev surroundings : Surroundings
surroundings = record {
  config = record {
    input_switch = codes "/bin/switch";
    tv_standby_path = [];
    tv_wake = codes "/bin/wake";
    host_activated_path = [];
    host_deactivated_path = [];
  };
  env = λ name. none;
  timestamp = λ n. codes "2026-04-23T12:34:56Z";
  daemon_pid = 42;
  power_on = 0;
  arm_ok = λ n. true;
}

abbrev new_hooks : Hooks
new_hooks = record {
  pending_physical = none;
  last_fired_physical = none;
  last_tv_power = unknown;
  executor = idle_executor;
  fires = [];
  arms = 0;
}

run-IsHooks_example : IsHooks (
    run surroundings
      (observes (tv_power_report 0)
        ∷ observes (active_source 4096)
        ∷ observes (host_activated 4)
        ∷ timer_fires 1
        ∷ observes tv_standby
        ∷ [])
      new_hooks)
run-IsHooks_example =
    run-IsHooks surroundings
      (observes (tv_power_report 0)
        ∷ observes (active_source 4096)
        ∷ observes (host_activated 4)
        ∷ timer_fires 1
        ∷ observes tv_standby
        ∷ [])
      new_hooks (record { switch_cached = refl; power_cached = refl; changes = tt })

run-burst_example :
    (run surroundings (burst (4096 ∷ 0 ∷ []) 8192 0) new_hooks).fires
    ≡ fired_input_switch 8192 none ∷ []
run-burst_example = run-burst surroundings (4096 ∷ 0 ∷ []) 8192 0 new_hooks (λ k. refl)

abbrev job : Job
job = record { path = codes "/bin/wake"; env = [] }

run-spawned_example :
    (all_jobs (Queue.run idle_executor (starts ∷ submits job ∷ rounds ∷ submits job ∷ []))
      ≡ job ∷ job ∷ [])
    × ((Queue.run idle_executor
          (starts ∷ submits job ∷ rounds ∷ submits job ∷ stops ∷ rounds ∷ [])).spawned
        ≡ (Queue.run idle_executor (starts ∷ submits job ∷ rounds ∷ submits job ∷ [])).spawned)
run-spawned_example =
    run-spawned idle_executor (starts ∷ submits job ∷ rounds ∷ submits job ∷ []) (rounds ∷ []) refl
      tt
