-- ===== src/Examples/Programs.antt =====
-- The whole program at concrete inputs.
use cec_control.Prelude.{
  ◌≡◌, ◌↔◌, refl, true, none, some, [], ◌∷◌, codes, arith, List, Text, ◌≤◌, length,
}
use cec_control.Adapter.{returned}
use cec_control.Message.{Message, message, resp_success, serialize, cmd_suspend}
use cec_control.Registry.{CommandSpec, find_by_name, parse_suspend, ok}
use cec_control.Arguments.{extract_client_flags, extracted}
use cec_control.Client.{System, Outcome, sent, success}
use cec_control.Client.Served.{IsServed, served}
use cec_control.SystemPaths.{Files}
use cec_control.Bootstrap.{Host, main, exchanged}
use cec_control.Bootstrap.Exchanged.{main-served}
use cec_control.Examples.Lifetimes.{machine}

abbrev files : Files
files = record {
  variable = λ name. none;
  parent = λ path. returned (codes "/run/cec-control");
  append = λ base component. returned (codes "/run/cec-control/socket");
  exists = λ path. returned true;
  create_directories = λ path. returned true;
}

-- The daemon answers each command with success.
abbrev respond : Message → Message
respond m = message resp_success

abbrev system : System
system = record {
  default_path = codes "/run/cec-control/socket";
  connect_error = λ path. none;
  timeout_error = none;
  send = λ bytes. sent (length bytes);
  recv = served respond;
  strerror = λ e. [];
}

system-IsServed : IsServed system respond
system-IsServed = record {
  connects = λ path. refl;
  limits = refl;
  sends = λ bytes. refl;
  receives = λ bytes. refl;
}

abbrev host : Host
host = record { files = files; machine = machine; system = system; content = λ path. none }

abbrev suspend_command : CommandSpec
unfolding parse_suspend
suspend_command = record {
  type = cmd_suspend;
  types = cmd_suspend ∷ [];
  name = codes "suspend";
  arg_syntax = [];
  help = codes "Prepare for system sleep (run pre-sleep CEC actions)";
  parse = parse_suspend;
}

abbrev words : List Text
words = codes "--socket-path=/tmp/s" ∷ []

suspend_found : find_by_name (codes "suspend") ≡ some suspend_command
unfolding find_by_name
suspend_found = refl

words_extracted : extract_client_flags words ≡ extracted [] (codes "/tmp/s")
unfolding extract_client_flags
words_extracted = refl

suspend_parsed : parse_suspend [] ≡ ok (message cmd_suspend)
unfolding parse_suspend
suspend_parsed = refl

response_fits : length (serialize (message resp_success)) ≤ 1024
unfolding serialize
response_fits = omega arith

main-served_example :
    (o : Outcome) × (main host (codes "cec-control" ∷ codes "suspend" ∷ words) []
      ≡ some (exchanged o))
    × ((o.code ≡ success) ↔ (resp_success ≡ resp_success))
unfolding suspend_command parse_suspend
main-served_example =
    main-served host respond system-IsServed (codes "cec-control") words [] (codes "/tmp/s")
      suspend_command (message cmd_suspend) [] suspend_found words_extracted suspend_parsed
      response_fits
