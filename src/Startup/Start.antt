-- ===== src/Startup/Start.antt =====
-- src/daemon/cec_daemon.cpp: `CECDaemon::start`.
use cec_control.Prelude.{
  ℕ, ◌/◌, ◌==◌, Bool, true, false, not, ◌&&◌, ◌||◌, Option, none, some, ◌∷◌, if◌then◌else◌,
}
use cec_control.Adapter.{Outcome, returned}
use cec_control.Adapter
use cec_control.Registry.{commands}
use cec_control.Dispatch.{dispatch_table, validate_dispatch_table}
use cec_control.Configuration.Settings.{DaemonConfig}
use cec_control.Startup.{
  after, Subsystem, standby_policy, hook_executor, hooks, worker, lifecycle, dispatcher,
  socket_server, dbus_monitor, supervisor, Source, signals, work_queue, safety_timer, retry_timer,
  debounce_timer, watchdog_timer, CecDaemon, Machine, put, become, Progress, onward, refused,
  thrown, Step, ◌>>◌, require,
}

-- `SystemdNotify::watchdogEnabled`.
unfoldable pub watchdog_enabled : Option ℕ → Option ℕ
watchdog_enabled none = none
watchdog_enabled (some usec) = if usec == 0 then none else some usec

unfoldable pub post_arm : Step
post_arm d = (onward, record d { arm_posted = true })

abbrev pub concluded : Progress × CecDaemon → Bool × CecDaemon
concluded (onward, d) = (true, record d { started = true })
concluded (refused, d) = (false, d)
concluded (thrown, d) = (false, d)

module _ (os : Machine) where
  unfoldable pub make : Subsystem → Step
  unfolding put
  make s d = if os.throws s then (thrown, d) else (onward, become (put s true d.members) d)

  -- The worker's thread starts, and may be given the scan of the devices.
  unfoldable pub start_worker : DaemonConfig → Step
  start_worker config d = elim os.worker_starts [
    | Adapter.threw ↦ (thrown, d)
    | returned b ↦
        let running = become (record d.members { runs = true }) d in
        (onward, record running { scan_submitted = config.scan_devices_at_startup })
  ]

  unfoldable pub start_executor : Step
  start_executor d = elim os.executor_starts [
    | Adapter.threw ↦ (thrown, d)
    | returned b ↦ (onward, d)
  ]

  -- `setupPowerMonitor`, which catches what is thrown; its answer is only logged.
  unfoldable pub setup_power_monitor : CecDaemon → CecDaemon
  unfolding put
  setup_power_monitor d =
      if os.throws dbus_monitor
      then become (put dbus_monitor false d.members) d
      else let made = become (put dbus_monitor true d.members) d in
        elim os.monitor_initializes [
          | returned true ↦ become (record made.members { points = true }) made
          | returned false ↦ become (put dbus_monitor false made.members) made
          | Adapter.threw ↦ become (put dbus_monitor false made.members) made
        ]

  unfoldable pub set_up_power : DaemonConfig → Step
  unfolding setup_power_monitor
  set_up_power config d = (onward, if config.enable_power_monitor then setup_power_monitor d else d)

  unfoldable pub add : Source → Step
  add source d =
      if os.adds source then (onward, record d { sources = source ∷ d.sources }) else (refused, d)

  -- The monitor joins the loop, or is given up, the supervisor's pointer first.
  unfoldable pub attach : Step
  unfolding put
  attach d =
      if d.members.has_monitor
      then elim os.attaches [
        | returned true ↦ (onward, d)
        | returned false ↦
            let unpointed = become (record d.members { points = false }) d in
            (onward, become (put dbus_monitor false unpointed.members) unpointed)
        | Adapter.threw ↦ (thrown, d)
      ]
      else (onward, d)

  -- `TimerSource::armPeriodic`, in milliseconds.
  unfoldable pub arm_watchdog : ℕ → Step
  arm_watchdog ms d =
      if ms == 0 || not (os.arms ms)
      then (refused, d)
      else (onward, record d { pings_every = some ms })

  unfoldable pub set_up_watchdog : Step
  unfolding after watchdog_enabled add arm_watchdog
  set_up_watchdog d = elim (watchdog_enabled os.watchdog_usec) [
    | none ↦ (onward, d)
    | some usec ↦ (add watchdog_timer >> arm_watchdog (usec / 2 / 1000)) d
  ]

  -- The subsystems, in the order in which they are made.
  unfoldable pub build : Step
  unfolding after require make start_executor
  build = do
    require os.initialize
    require os.open_connection
    make worker
    make lifecycle
    make standby_policy
    make hook_executor
    start_executor
    make hooks
    make dispatcher
    make supervisor

  unfoldable pub register : Step
  unfolding after add
  register = do add signals; add work_queue; add safety_timer; add retry_timer; add debounce_timer

  unfoldable pub start_parts : DaemonConfig → Step
  unfolding after build start_worker post_arm make require set_up_power register attach
      set_up_watchdog
  start_parts config = do
    build
    start_worker config
    make socket_server
    require os.server_starts
    set_up_power config
    register
    attach
    set_up_watchdog
    post_arm

  unfoldable pub sources_valid : Bool
  sources_valid =
      os.signals_valid
      && os.work_valid
      && os.timer_valid safety_timer
      && os.timer_valid retry_timer
      && os.timer_valid watchdog_timer
      && os.timer_valid debounce_timer

  unfoldable pub start : DaemonConfig → CecDaemon → Bool × CecDaemon
  unfolding start_parts sources_valid
  start config d =
      if not (validate_dispatch_table dispatch_table commands) || not sources_valid
      then (false, d)
      else concluded (start_parts config d)
