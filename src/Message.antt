-- ===== src/Message.antt =====
-- src/common/messages.h and messages.cpp: the wire message and its byte encoding.
-- A byte is a number below 256 (`IsByte`); `std::vector<uint8_t>` is a list of numbers.
pub mod Codec
use cec_control.Prelude.{
  ℕ, ◌<◌, Bool, true, false, Option, none, some, List, [], ◌∷◌, length, All, ◌||◌, ltb, ◌==◌,
  if◌then◌else◌,
}

pub data MessageType : Type 0 where
  cmd_volume_up cmd_volume_down cmd_volume_mute cmd_power_on cmd_power_off : MessageType
  cmd_change_source cmd_restart_adapter cmd_suspend cmd_resume cmd_auto_standby : MessageType
  cmd_key resp_success resp_error : MessageType

pub MessageType-discrete : Discrete MessageType
MessageType-discrete = hlevel

-- The enumerator's value, `static_cast<uint8_t>(type)`.
unfoldable pub to_raw : MessageType → ℕ
to_raw cmd_volume_up = 1
to_raw cmd_volume_down = 2
to_raw cmd_volume_mute = 3
to_raw cmd_power_on = 4
to_raw cmd_power_off = 5
to_raw cmd_change_source = 6
to_raw cmd_restart_adapter = 7
to_raw cmd_suspend = 8
to_raw cmd_resume = 9
to_raw cmd_auto_standby = 10
to_raw cmd_key = 11
to_raw resp_success = 100
to_raw resp_error = 101

-- `static_cast<MessageType>(raw)` for the bytes that `isKnownMessageType` accepts.
unfoldable pub of_raw : ℕ → Option MessageType
of_raw raw =
    if raw == 1
    then some cmd_volume_up
    else if raw == 2
    then some cmd_volume_down
    else if raw == 3
    then some cmd_volume_mute
    else if raw == 4
    then some cmd_power_on
    else if raw == 5
    then some cmd_power_off
    else if raw == 6
    then some cmd_change_source
    else if raw == 7
    then some cmd_restart_adapter
    else if raw == 8
    then some cmd_suspend
    else if raw == 9
    then some cmd_resume
    else if raw == 10
    then some cmd_auto_standby
    else if raw == 11
    then some cmd_key
    else if raw == 100
    then some resp_success
    else if raw == 101
    then some resp_error
    else none

-- Two message types compare as their raw bytes do.
unfoldable pub same_type : MessageType → MessageType → Bool
unfolding to_raw
same_type a b = to_raw a == to_raw b

abbrev pub max_message_size : ℕ
max_message_size = 1024

pub record Message : Type 0 where
  pub type : MessageType
  pub device_id : ℕ
  pub payload : List ℕ

-- The constructor `Message(type)`, with its default device.
abbrev pub message : MessageType → Message
message t = record { type = t; device_id = 0; payload = [] }

unfoldable pub serialize : Message → List ℕ
unfolding to_raw
serialize m = to_raw m.type ∷ m.device_id ∷ m.payload

-- The bytes at 0 and 1, with the rest, once the length was checked.
decode : List ℕ → Option Message
unfolding of_raw
decode [] = none
decode (raw ∷ []) = none
decode (raw ∷ id ∷ rest) = elim (of_raw raw) [
  | none ↦ none
  | some t ↦ some (record { type = t; device_id = id; payload = rest })
]

unfoldable pub deserialize : List ℕ → Option Message
unfolding decode
deserialize bytes =
    if ltb (length bytes) 2 || ltb max_message_size (length bytes) then none else decode bytes

abbrev pub IsByte : ℕ → Type 0
IsByte b = b < 256

-- A message as the program can hold one: its device and payload are bytes.
pub record IsWire (m : Message) : Type 0 where
  pub device : IsByte m.device_id
  pub bytes : All IsByte m.payload
