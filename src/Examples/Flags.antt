-- ===== src/Examples/Flags.antt =====
-- The command line's arguments at concrete inputs.
use cec_control.Prelude.{◌≡◌, true, [], ◌∷◌, codes}
use cec_control.Arguments.{
  behind, RunDaemon, run_daemon, parse_daemon_options, extracted, extract_client_flags,
}
use cec_control.Arguments.Daemon.{parse_daemon_options-print_daemon}
use cec_control.Arguments.Client.{extract_client_flags-judge}

abbrev options : RunDaemon
options = record { verbose = true; log_file = codes "--verbose"; config_file = codes "/etc/cec" }

parse_daemon_options-print_daemon_example :
    parse_daemon_options
      (codes "--verbose" ∷ codes "--log" ∷ codes "--verbose" ∷ codes "-c" ∷ codes "/etc/cec" ∷ [])
    ≡ run_daemon options
parse_daemon_options-print_daemon_example = parse_daemon_options-print_daemon options

extract_client_flags-judge_example :
    extract_client_flags (codes "on" ∷ codes "--socket-path=/run/s" ∷ codes "0" ∷ [])
    ≡ extracted (codes "on" ∷ codes "0" ∷ []) (codes "/run/s")
unfolding behind
extract_client_flags-judge_example =
    extract_client_flags-judge (codes "on" ∷ codes "--socket-path=/run/s" ∷ codes "0" ∷ [])
