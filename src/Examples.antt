-- ===== src/Examples.antt =====
-- Runs of the parts at concrete inputs: messages, the command line and the decision types.
mod Commands
mod Running
mod Sockets
mod Adapters
mod Exchanges
mod Buses
mod Files
mod Flags
mod Scripts
mod Lifetimes
mod Threads
mod Timers
mod Programs
use cec_control.Prelude.{
  ℕ, ◌+◌, ◌*◌, ◌-◌, ◌≤◌, ◌<◌, ◌≡◌, refl, ◌↔◌, ◌⊎◌, inl, inr, Bool, true, false, Option, none, some,
  List, [], ◌∷◌, ◌++◌, length, All, arith, codes, Text, max,
}
use cec_control.Message.{
  Message, MessageType, message, serialize, deserialize, IsWire, IsByte, max_message_size,
  cmd_volume_up, cmd_key,
}
use cec_control.Message.Codec.{deserialize-serialize, deserialize-eq_some_iff, serialize-IsByte}
use cec_control.Backoff.{schedule}
use cec_control.Standby
use cec_control.Standby.{StandbyPolicy, observes, applies, arms, run-requests, tv_standby}
use cec_control.KeyCodes.{KeySpec, find_key_by_name, find_key_by_code, find_key_by_code-name}
use cec_control.Registry.{
  CommandSpec, parse_device_id, Error, parse_key, find_by_type, Result, ok, err, find_by_name,
  parse_bounded_uint8, has_type, device_id, out_of_range,
}
use cec_control.Registry.Numbers.{stoi, read_digits}
use cec_control.Registry.Numerals.{numeral, parse_bounded-numeral, parse_bounded-cases}
use cec_control.Registry.Parsing.{parse-arrives}
use cec_control.Dispatch.{find_dispatch_by_type, is_found}
use cec_control.Dispatch.Tables.{IsRow, find_dispatch-IsRow, find_dispatch-find_by_type}
use cec_control.Power.Lifecycle.{
  PowerLifecycle, initial, suspending, resuming, idle, dbus, wire, suspend_requested,
  resume_requested, suspend_completes, safety_fires, pumps, resume_completes,
}
use cec_control.Power.Lifecycle
use cec_control.Power.Lifecycle.Pipeline.{
  view, advance, started, IsDistinct, handle-refines, run-IsDistinct,
}
use cec_control.Power.Lifecycle.InhibitLock.{releases, takes, releases-run}
use cec_control.Power.Reconnect
use cec_control.Power.Reconnect.{
  AdapterReconnect, Effect, create, reset_cycle, connection_lost, on_event, emit, total_attempts,
  attempt_failed, retry_timer_fired, system_suspend,
}
use cec_control.Power.Reconnect.Cycle
use cec_control.Power.Reconnect.Cycle.{
  event, seeds, handle, run, IsConsistent, NamesAttempt, starts, openings, budget, failures,
  attempts_from, seeded_attempts, lost_failures, lost_attempts, run-failing_cycle,
}

-- A message to device 4 with a byte of payload.
abbrev key_message : Message
key_message = record { type = cmd_key; device_id = 4; payload = 65 ∷ [] }

abbrev key_bytes : List ℕ
key_bytes = 11 ∷ 4 ∷ 65 ∷ []

deserialize-eq_some_iff_example :
    (deserialize key_bytes ≡ some key_message)
    ↔ ((serialize key_message ≡ key_bytes) × (length key_bytes ≤ max_message_size))
deserialize-eq_some_iff_example = deserialize-eq_some_iff key_bytes key_message

-- A suspend from logind, one on the wire behind it, and a resume.
abbrev suspend_calls : List Lifecycle.Input
suspend_calls =
    suspend_requested dbus
    ∷ pumps
    ∷ suspend_requested wire
    ∷ suspend_requested wire
    ∷ resume_requested dbus
    ∷ safety_fires
    ∷ suspend_completes
    ∷ pumps
    ∷ []

abbrev one_running : PowerLifecycle
one_running = record initial { phase = suspending; phase_source = dbus }

handle-refines_example :
    (view (Lifecycle.handle one_running (suspend_requested dbus)).0
      ≡ advance (view one_running) (suspend_requested dbus))
    × ((Lifecycle.handle one_running (suspend_requested dbus)).1.work
        ≡ started (view one_running).active (view one_running).events (suspend_requested dbus))
handle-refines_example = handle-refines one_running (suspend_requested dbus)

abbrev while_suspending : List Lifecycle.Input
while_suspending = resume_requested dbus ∷ safety_fires ∷ safety_fires ∷ pumps ∷ []

releases-run_example :
    (let outs = (Lifecycle.run one_running (while_suspending ++ suspend_completes ∷ [])).1 in
      (releases outs ≡ 1) × (takes outs ≡ 0))
releases-run_example =
    releases-run one_running while_suspending refl (λ h. h, (λ h. h, (λ h. h, (λ h. h, tt))))

abbrev cycle : AdapterReconnect
unfolding create
cycle = create (schedule (5000 ∷ 10000 ∷ [])) 1500

run-failing_cycle_example :
    (run cycle (seeds 10000 ∷ failures (5000 ∷ 10000 ∷ []))
      ≡ (reset_cycle cycle, seeded_attempts 10000 (5000 ∷ 10000 ∷ []) 3))
    × (run cycle (lost_failures 1500 (5000 ∷ 10000 ∷ []))
        ≡ (reset_cycle cycle, lost_attempts 1500 (5000 ∷ 10000 ∷ []) 3))
unfolding create
run-failing_cycle_example = run-failing_cycle cycle 10000 refl

-- Off by the configuration, switched on by a command, then a standby of the television.
abbrev standby_inputs : List Standby.Input
standby_inputs =
    observes tv_standby
    ∷ arms
    ∷ observes tv_standby
    ∷ applies (record key_message { payload = 1 ∷ [] })
    ∷ observes tv_standby
    ∷ []

abbrev policy : StandbyPolicy
unfolding Standby.create
policy = Standby.create false true

run-requests_example : (Standby.run policy standby_inputs).requests ≡ 1
unfolding policy
run-requests_example = run-requests policy standby_inputs refl

red_found : find_key_by_name (codes "red") ≡ some (record { name = codes "red"; code = 0x72 })
unfolding find_key_by_name
red_found = refl

abbrev key_command : CommandSpec
unfolding parse_key
key_command = record {
  type = cmd_key;
  types = cmd_key ∷ [];
  name = codes "key";
  arg_syntax = codes "NAME [DEVICE_ID]";
  help = codes "Send a CEC remote-control key press";
  parse = parse_key;
}

abbrev red_message : Message
red_message = record { type = cmd_key; device_id = 4; payload = 0x72 ∷ [] }

key_command_found : find_by_name (codes "key") ≡ some key_command
unfolding find_by_name
key_command_found = refl

red_parsed : parse_key (codes "red" ∷ codes "4" ∷ []) ≡ ok red_message
unfolding parse_key find_key_by_name parse_device_id parse_bounded_uint8 stoi read_digits
red_parsed = refl

parse-arrives_example :
    (has_type cmd_key (cmd_key ∷ []) ≡ true)
    × (4 ≤ 15)
    × All IsByte (0x72 ∷ [])
    × (deserialize (serialize red_message) ≡ some red_message)
unfolding key_command parse_key
parse-arrives_example =
    parse-arrives (codes "key") (codes "red" ∷ codes "4" ∷ []) key_command red_message
      key_command_found red_parsed
