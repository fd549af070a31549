-- ===== src/Bootstrap.antt =====
-- src/main.cpp, src/daemon/daemon_bootstrap.cpp and the event handlers of src/daemon/cec_daemon.cpp that
-- end the daemon. What surrounds the program is the parameter `Host`; a run is given as the list of what
-- happens while the loop runs.
pub mod Status
pub mod Input
pub mod Exchanged
use cec_control.Prelude.{
  ℕ, ◌+◌, Bool, true, false, not, Option, none, some, List, [], ◌∷◌, is_empty, if◌then◌else◌, Text,
  Option_ind,
}
use cec_control.Client.{System, Outcome, Exit, success, failure}
use cec_control.Client
use cec_control.Arguments.{
  Action, ParseError, RunDaemon, RunClient, parse_error, show_help, run_client, run_daemon, parse,
}
use cec_control.Configuration
use cec_control.Configuration.Settings.{AppConfig, load_app_config}
use cec_control.Logger.{LogConfig, debug, info, to_stdout, to_stderr}
use cec_control.SystemPaths.{Files, get_config_path, get_log_path}
use cec_control.Help.{print_help}
use cec_control.Sources.{Signal, child, terminate, interrupt, hangup, SignalSource, read_one}
use cec_control.Startup.{Machine, CecDaemon, fresh}
use cec_control.Startup.Start.{start}

pub record Host : Type 0 where
  pub files : Files
  pub machine : Machine
  pub system : System
  pub content : Text → Option Text

-- What the handlers that end the daemon change; `reaps` counts the calls of `reapChildren`.
pub record Running : Type 0 where
  pub stop_requested : Bool
  pub exit_status : Exit
  pub reaps : ℕ

abbrev pub at_start : Running
at_start = record { stop_requested = false; exit_status = success; reaps = 0 }

unfoldable pub request_unrecoverable_shutdown : Running → Running
request_unrecoverable_shutdown r = elim r.exit_status [
  | failure ↦ r
  | success ↦ record r { exit_status = failure; stop_requested = true }
]

-- The loop of `onSignalReadable`, over the signals that wait.
unfoldable pub on_signals : List Signal → Running → Running
on_signals [] r = r
on_signals (child ∷ rest) r = on_signals rest (record r { reaps = r.reaps + 1 })
on_signals (_ ∷ rest) r = on_signals rest (record r { stop_requested = true })

-- What the loop handles: signals, the supervisor's call that the adapter is lost for good, and all else.
pub data Occurrence : Type 0 where
  signalled : List Signal → Occurrence
  adapter_lost : Occurrence
  elsewhere : Occurrence

unfoldable pub handle : Occurrence → Running → Running
unfolding on_signals request_unrecoverable_shutdown
handle (signalled ss) r = on_signals ss r
handle adapter_lost r = request_unrecoverable_shutdown r
handle elsewhere r = r

-- The loop ends when a stop was requested, and else waits: none for a daemon that still runs.
unfoldable pub run_loop : List Occurrence → Running → Option Exit
unfolding handle
run_loop [] r = if r.stop_requested then some r.exit_status else none
run_loop (o ∷ os) r =
    let onwards = run_loop os (handle o r) in
    if r.stop_requested then some r.exit_status else onwards

pub data Ended : Type 0 where
  rejected : ParseError → Ended
  helped : Text → Ended
  exchanged : Outcome → Ended
  served : Exit → Ended

abbrev pub exit_code : Ended → Exit
exit_code (rejected e) = failure
exit_code (helped t) = success
exit_code (exchanged o) = o.code
exit_code (served e) = e

module _ (host : Host) where
  unfoldable pub log_config : RunDaemon → LogConfig
  log_config action = record {
    low_level_sink = to_stdout;
    high_level_sink = to_stderr;
    file_path = if is_empty action.log_file then get_log_path host.files else action.log_file;
    min_level = if action.verbose then debug else info;
  }

  unfoldable pub config_of : RunDaemon → AppConfig
  config_of action =
      let path =
        if is_empty action.config_file then get_config_path host.files else action.config_file in
      load_app_config (Configuration.load (host.content path)).1

  -- `DaemonBootstrap::runDaemon`.
  unfoldable pub serve : RunDaemon → List Occurrence → Option Exit
  unfolding config_of run_loop
  serve action happens =
      let (ok, d) = start host.machine (config_of action).daemon fresh in
      if not ok then some failure else run_loop happens at_start

  -- The visitor of `main`.
  unfoldable pub perform : Text → Action → List Occurrence → Option Ended
  unfolding serve
  perform program (parse_error e) happens = some (rejected e)
  perform program (show_help target) happens = some (helped (print_help host.files target program))
  perform program (run_client action) happens = some (exchanged (Client.run host.system action))
  perform program (run_daemon action) happens = elim (serve action happens) [
    | none ↦ none
    | some e ↦ some (served e)
  ]

  abbrev program_name : List Text → Text
  program_name [] = []
  program_name (name ∷ args) = name

  unfoldable pub main : List Text → List Occurrence → Option Ended
  unfolding perform
  main argv happens = perform (program_name argv) (parse argv) happens
