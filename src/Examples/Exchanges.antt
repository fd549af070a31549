-- ===== src/Examples/Exchanges.antt =====
-- The client at concrete inputs.
use cec_control.Prelude.{◌≤◌, ◌≡◌, refl, false, none, some, [], ◌∷◌, codes, length, ◌↔◌, arith}
use cec_control.Message.{message, cmd_volume_up, resp_success, serialize, to_raw}
use cec_control.Client.{System, SocketClient, sent, datagram, econnrefused, execute, success}
use cec_control.Client.Served.{IsServed, served}
use cec_control.Client.Success.{Acknowledged, execute-success}

-- The daemon answers a success.
abbrev answering : System
answering = record {
  default_path = codes "/run/cec-control/socket";
  connect_error = λ p. none;
  timeout_error = none;
  send = λ bytes. sent (length bytes);
  recv = λ bytes. datagram (100 ∷ 0 ∷ []);
  strerror = λ e. codes "Connection refused";
}

-- No daemon listens.
abbrev absent : System
absent = record answering { connect_error = λ p. some econnrefused }

abbrev start : SocketClient
start = record { socket_path = codes "/tmp/s"; is_connected = false }

execute-success_example :
    ((execute answering (message cmd_volume_up) start).code ≡ success)
    ↔ Acknowledged answering start.socket_path (message cmd_volume_up)
execute-success_example = execute-success answering (message cmd_volume_up) start

-- The command is acknowledged.
acknowledged : Acknowledged answering start.socket_path (message cmd_volume_up)
unfolding serialize to_raw
acknowledged = record {
  connects = refl;
  limits = refl;
  sends = refl;
  reply = message resp_success;
  receives = refl;
  fits = omega arith;
  acknowledges = refl;
}

execute_succeeds : (execute answering (message cmd_volume_up) start).code ≡ success
execute_succeeds = (execute-success answering (message cmd_volume_up) start).1 acknowledged

-- A daemon whose every response is a success.
abbrev served_by : System
served_by = record answering { recv = served (λ m. message resp_success) }

served_by-IsServed : IsServed served_by (λ m. message resp_success)
served_by-IsServed = record {
  connects = λ p. refl;
  limits = refl;
  sends = λ bytes. refl;
  receives = λ bytes. refl;
}

in_limit :
    (length (serialize (message cmd_volume_up)) ≤ 1024)
    × (length (serialize (message resp_success)) ≤ 1024)
unfolding serialize
in_limit = (omega arith, omega arith)
