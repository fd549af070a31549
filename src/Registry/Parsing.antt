-- ===== src/Registry/Parsing.antt =====
-- command_registry.cpp: what a client's command line turns into.
use cec_control.Prelude.{
  subst, ◌≤◌, ◌≡◌, inl, inr, Bool, true, some, List, [], ◌∷◌, All, length, Text, ◌=ₜ◌, arith,
  Bool-cases,
}
use cec_control.Message.{
  Message, MessageType, IsByte, serialize, deserialize, same_type, cmd_volume_up, cmd_volume_down,
  cmd_volume_mute, cmd_power_on, cmd_power_off, cmd_change_source, cmd_restart_adapter, cmd_suspend,
  cmd_resume, cmd_auto_standby, cmd_key,
}
use cec_control.Message.Codec.{deserialize-serialize}
use cec_control.KeyCodes.{find_if, find_key_by_name-cases}
use cec_control.Registry.Numerals.{parse_bounded-cases}
use cec_control.Registry.{
  Result, ok, CommandSpec, commands, find_by_name, parse_device_id, source_id, device_id,
  parse_volume, parse_power, parse_source, parse_key, parse_auto_standby, has_type, parse_restart,
  parse_suspend, parse_resume,
}

pub find_if-All {ℓ} :
    {A : Type 0} (P : A → Type ℓ) (p : A → Bool) (xs : List A) {x : A}
    → All P xs
    → find_if p xs ≡ some x
    → P x
find_if-All P p [] h e = cc
find_if-All P p (y ∷ ys) {x} h e = elim (Bool-cases (p y)) [
  | inl hit ↦ let same : y ≡ x = ground arith in subst P same h.0
  | inr miss ↦ find_if-All P p ys h.1 (rw miss at e)
]

-- What every parser promises of its message, for the types of its command.
abbrev Fits : List MessageType → Message → Type 0
Fits types m =
    (has_type m.type types ≡ true)
    × (m.device_id ≤ 15)
    × All IsByte m.payload
    × (length m.payload ≤ 1)

abbrev Parses : List MessageType → (List Text → Result Message) → Type 0
Parses types parse = (args : List Text) (m : Message) → parse args ≡ ok m → Fits types m

abbrev volume_types : List MessageType
volume_types = cmd_volume_up ∷ cmd_volume_down ∷ cmd_volume_mute ∷ []

volume-Parses : Parses volume_types parse_volume
unfolding parse_volume parse_device_id same_type
volume-Parses (a ∷ d ∷ []) m h = ground (arith, parse_bounded-cases d 15 device_id)
volume-Parses [] m h = ground arith
volume-Parses (a ∷ []) m h = ground arith
volume-Parses (a ∷ b ∷ c ∷ args) m h = ground arith

power-Parses : Parses (cmd_power_on ∷ cmd_power_off ∷ []) parse_power
unfolding parse_power parse_device_id same_type
power-Parses (a ∷ d ∷ []) m h = ground (arith, parse_bounded-cases d 15 device_id)
power-Parses [] m h = ground arith
power-Parses (a ∷ []) m h = ground arith
power-Parses (a ∷ b ∷ c ∷ args) m h = ground arith

source-Parses : Parses (cmd_change_source ∷ []) parse_source
unfolding parse_source parse_device_id same_type
source-Parses (d ∷ s ∷ []) m h =
    ground (arith, parse_bounded-cases d 15 device_id, parse_bounded-cases s 255 source_id)
source-Parses [] m h = ground arith
source-Parses (a ∷ []) m h = ground arith
source-Parses (a ∷ b ∷ c ∷ args) m h = ground arith

key-Parses : Parses (cmd_key ∷ []) parse_key
unfolding parse_key parse_device_id same_type
key-Parses (n ∷ []) m h = ground (arith, find_key_by_name-cases n)
key-Parses (n ∷ d ∷ []) m h =
    ground (arith, find_key_by_name-cases n, parse_bounded-cases d 15 device_id)
key-Parses [] m h = ground arith
key-Parses (a ∷ b ∷ c ∷ args) m h = ground arith

auto_standby-Parses : Parses (cmd_auto_standby ∷ []) parse_auto_standby
unfolding parse_auto_standby same_type
auto_standby-Parses (v ∷ []) m h = ground arith
auto_standby-Parses [] m h = ground arith
auto_standby-Parses (a ∷ b ∷ args) m h = ground arith

restart-Parses : Parses (cmd_restart_adapter ∷ []) parse_restart
unfolding parse_restart same_type
restart-Parses args m h = ground arith

suspend-Parses : Parses (cmd_suspend ∷ []) parse_suspend
unfolding parse_suspend same_type
suspend-Parses args m h = ground arith

resume-Parses : Parses (cmd_resume ∷ []) parse_resume
unfolding parse_resume same_type
resume-Parses args m h = ground arith

commands-Parses : All (λ c. Parses c.types c.parse) commands
unfolding commands
commands-Parses = (
  power-Parses,
  (
    volume-Parses,
    (
      source-Parses,
      (key-Parses, (auto_standby-Parses, (restart-Parses, (suspend-Parses, (resume-Parses, tt))))),
    ),
  ),
)

-- A command line that a registered command accepts gives a message of that command's types, for a
-- logical address and with bytes for payload, which the daemon decodes to that message again.
pub parse-arrives :
    (name : Text) (args : List Text) (spec : CommandSpec) (m : Message)
    → find_by_name name ≡ some spec
    → spec.parse args ≡ ok m
    → (has_type m.type spec.types ≡ true)
      × (m.device_id ≤ 15)
      × All IsByte m.payload
      × (deserialize (serialize m) ≡ some m)
unfolding find_by_name
parse-arrives name args spec m f h =
    let (t, d, b, l) =
      find_if-All (λ c. Parses c.types c.parse) (λ c. c.name =ₜ name) commands commands-Parses f
        args m h in
    (t, d, b, deserialize-serialize m (omega arith))
