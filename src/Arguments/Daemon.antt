-- ===== src/Arguments/Daemon.antt =====
-- src/common/argument_parser.cpp: the daemon's options, printed and read.
use cec_control.Prelude.{
  ◌≡◌, refl, Bool, true, false, List, [], ◌∷◌, ◌++◌, Text, codes, if◌then◌else◌,
}
use cec_control.Arguments.{RunDaemon, run_daemon, daemon_options, parse_daemon_options}

-- A command line for the daemon's options.
abbrev path_option : Text → Text → List Text
path_option flag [] = []
path_option flag (c ∷ cs) = flag ∷ (c ∷ cs) ∷ []

abbrev pub print_daemon : RunDaemon → List Text
print_daemon o =
    (if o.verbose then codes "--verbose" ∷ [] else [])
    ++ path_option (codes "--log") o.log_file
    ++ path_option (codes "-c") o.config_file

read_config :
    (b : Bool) (log config : Text)
    → daemon_options
        (path_option (codes "-c") config)
        (record { verbose = b; log_file = log; config_file = [] })
      ≡ run_daemon (record { verbose = b; log_file = log; config_file = config })
unfolding daemon_options
read_config b log [] = refl
read_config b log (c ∷ cs) = refl

read_log :
    (b : Bool) (log config : Text)
    → daemon_options
        (path_option (codes "--log") log ++ path_option (codes "-c") config)
        (record { verbose = b; log_file = []; config_file = [] })
      ≡ run_daemon (record { verbose = b; log_file = log; config_file = config })
unfolding daemon_options
read_log b [] config = read_config b [] config
read_log b (c ∷ cs) [] = refl
read_log b (c ∷ cs) (d ∷ ds) = refl

read_verbose :
    (b : Bool) (log config : Text)
    → parse_daemon_options
        (print_daemon (record { verbose = b; log_file = log; config_file = config }))
      ≡ run_daemon (record { verbose = b; log_file = log; config_file = config })
unfolding parse_daemon_options daemon_options
read_verbose false log config = read_log false log config
read_verbose true [] [] = refl
read_verbose true [] (d ∷ ds) = refl
read_verbose true (c ∷ cs) config = read_config true (c ∷ cs) config

-- Options printed as a command line are read back as they were, whatever the paths are.
pub parse_daemon_options-print_daemon :
    (o : RunDaemon) → parse_daemon_options (print_daemon o) ≡ run_daemon o
parse_daemon_options-print_daemon o = read_verbose o.verbose o.log_file o.config_file
