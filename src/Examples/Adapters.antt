-- ===== src/Examples/Adapters.antt =====
-- The libcec adapter at concrete inputs.
use cec_control.Prelude.{◌≡◌, refl, true, some, [], ◌∷◌, codes, Text, arith}
use cec_control.Adapter.{returned, reopen_connection, volume_up}
use cec_control.LibcecAdapter.{Libcec, closed, new_adapter, reopen_connection_now}
use cec_control.LibcecAdapter.Commands.{Opcodes, AreOpcodes}
use cec_control.LibcecAdapter.Connected.{
  IsAdapter, initializes, opens, loses, calls, run, run-IsAdapter,
}
use cec_control.LibcecAdapter.Recovers.{Works, reopen_connection_now-Connects}

abbrev port : Text
port = codes "/dev/ttyACM0"

abbrev good : Libcec
good = record {
  initialise = λ n. true;
  detect = λ n. some port;
  set_configuration = λ n. returned true;
  open_port = λ n. returned true;
  audio_enable = λ n. returned true;
  set_inactive_view = λ n. returned true;
  close = λ n. closed;
  bus = λ n c. returned true;
  takes = λ n c. 10;
  wants_audio = true;
  observes = true;
  reports_loss = true;
}

good-Works : Works good port
good-Works = record {
  initialises = λ n. refl;
  detects = λ n. refl;
  named = refl;
  configures = λ n. refl;
  opens = λ n. refl;
  enables = λ n. refl;
  closes = λ n. refl;
}

run-IsAdapter_example : IsAdapter (
    run good
      (initializes ∷ opens ∷ calls volume_up ∷ loses ∷ calls reopen_connection ∷ [])
      new_adapter)
run-IsAdapter_example =
    run-IsAdapter good
      (initializes ∷ opens ∷ calls volume_up ∷ loses ∷ calls reopen_connection ∷ [])

reopen_connection_now-Connects_example :
    ((reopen_connection_now good new_adapter).0 ≡ returned true)
    × ((reopen_connection_now good new_adapter).1.connected ≡ true)
reopen_connection_now-Connects_example =
    reopen_connection_now-Connects good port good-Works new_adapter

-- libcec's values.
abbrev opcodes : Opcodes
opcodes = record {
  device_tv = 0;
  opcode_standby = 54;
  opcode_report_power_status = 144;
  opcode_active_source = 130;
  opcode_routing_change = 128;
  opcode_set_stream_path = 134;
}

opcodes-AreOpcodes : AreOpcodes opcodes
opcodes-AreOpcodes = record {
  standby_power = omega arith;
  standby_active = omega arith;
  standby_routing = omega arith;
  standby_path = omega arith;
  power_active = omega arith;
  power_routing = omega arith;
  power_path = omega arith;
  active_routing = omega arith;
  active_path = omega arith;
  routing_path = omega arith;
}
