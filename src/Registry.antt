-- ===== src/Registry.antt =====
-- src/common/command_registry.h and command_registry.cpp: the commands that a client can type, with
-- the parser of each. Error texts are values that hold what the text is made of.
pub mod Numbers
pub mod Numerals
pub mod Parsing
use cec_control.Prelude.{
  ℕ, suc, Bool, true, false, Option, none, some, List, [], ◌∷◌, ◌==◌, ltb, not, ◌&&◌, if◌then◌else◌,
  Text, codes, ◌=ₜ◌, length,
}
use cec_control.Message.{
  Message, MessageType, message, same_type, cmd_volume_up, cmd_volume_down, cmd_volume_mute,
  cmd_power_on, cmd_power_off, cmd_change_source, cmd_restart_adapter, cmd_suspend, cmd_resume,
  cmd_auto_standby, cmd_key,
}
use cec_control.KeyCodes.{find_if, find_key_by_name}
use Numbers.{Stoi, stoi, int, throws}

pub data What : Type 0 where
  device_id source_id : What

pub data Error : Type 0 where
  empty_value : What → Error
  invalid_value : What → Text → Error
  out_of_range : What → ℕ → Error
  wrong_arity : Text → Error
  unexpected_arguments : Text → Error
  invalid_word : Text → Text → Error

pub data Result (A : Type 0) : Type 0 where
  ok : A → Result A
  err : Error → Result A

infixl 5 ◌>>=◌
abbrev pub ◌>>=◌ : {A B : Type 0} → Result A → (A → Result B) → Result B
ok a >>= f = f a
err e >>= f = err e

abbrev max_logical_address : ℕ
max_logical_address = 15

abbrev max_source_id : ℕ
max_source_id = 255

in_bounds : Text → ℕ → What → Stoi → Result ℕ
in_bounds input max_inclusive what throws = err (invalid_value what input)
in_bounds input max_inclusive what (int negative v (c ∷ rest)) = err (invalid_value what input)
in_bounds input max_inclusive what (int negative v []) =
    if negative && ltb 0 v
    then err (out_of_range what max_inclusive)
    else if ltb max_inclusive v
    then err (out_of_range what max_inclusive)
    else ok v

unfoldable pub parse_bounded_uint8 : Text → ℕ → What → Result ℕ
unfolding in_bounds
parse_bounded_uint8 [] max_inclusive what = err (empty_value what)
parse_bounded_uint8 (c ∷ cs) max_inclusive what =
    in_bounds (c ∷ cs) max_inclusive what (stoi (c ∷ cs))

unfoldable pub parse_device_id : Text → Result ℕ
parse_device_id input = parse_bounded_uint8 input max_logical_address device_id

-- `requireArity(args, 2, …)` with the two arguments.
require_two : List Text → Text → (Text → Text → Result Message) → Result Message
require_two (a ∷ b ∷ []) command k = k a b
require_two _ command k = err (wrong_arity command)

require_no_args : List Text → Text → Message → Result Message
require_no_args [] command m = ok m
require_no_args (a ∷ rest) command m = err (unexpected_arguments command)

abbrev to_device : MessageType → Text → Result Message
to_device type input = do
  id ← parse_device_id input
  ok (record { type = type; device_id = id; payload = [] })

pub parse_volume : List Text → Result Message
unfolding require_two
parse_volume args = require_two args (codes "volume") λ action device.
    if action =ₜ codes "up"
    then to_device cmd_volume_up device
    else if action =ₜ codes "down"
    then to_device cmd_volume_down device
    else if action =ₜ codes "mute"
    then to_device cmd_volume_mute device
    else err (invalid_word (codes "volume") action)

pub parse_power : List Text → Result Message
unfolding require_two
parse_power args = require_two args (codes "power") λ action device.
    if action =ₜ codes "on"
    then to_device cmd_power_on device
    else if action =ₜ codes "off"
    then to_device cmd_power_off device
    else err (invalid_word (codes "power") action)

pub parse_source : List Text → Result Message
unfolding require_two
parse_source args = require_two args (codes "source") λ device input. do
  id ← parse_device_id device
  source ← parse_bounded_uint8 input max_source_id source_id
  ok (record { type = cmd_change_source; device_id = id; payload = source ∷ [] })

key_to : Text → Result ℕ → Result Message
key_to name device = elim (find_key_by_name name) [
  | none ↦ err (invalid_word (codes "key") name)
  | some spec ↦
      device >>= λ id. ok (record { type = cmd_key; device_id = id; payload = spec.code ∷ [] })
]

unfoldable pub parse_key : List Text → Result Message
unfolding key_to
parse_key (name ∷ []) = key_to name (ok 0)
parse_key (name ∷ device ∷ []) = key_to name (parse_device_id device)
parse_key _ = err (wrong_arity (codes "key"))

pub parse_auto_standby : List Text → Result Message
parse_auto_standby (value ∷ []) =
    if value =ₜ codes "on"
    then ok (record { type = cmd_auto_standby; device_id = 0; payload = 1 ∷ [] })
    else if value =ₜ codes "off"
    then ok (record { type = cmd_auto_standby; device_id = 0; payload = 0 ∷ [] })
    else err (invalid_word (codes "auto-standby") value)
parse_auto_standby _ = err (wrong_arity (codes "auto-standby"))

pub parse_restart : List Text → Result Message
unfolding require_no_args
parse_restart args = require_no_args args (codes "restart") (message cmd_restart_adapter)

unfoldable pub parse_suspend : List Text → Result Message
unfolding require_no_args
parse_suspend args = require_no_args args (codes "suspend") (message cmd_suspend)

pub parse_resume : List Text → Result Message
unfolding require_no_args
parse_resume args = require_no_args args (codes "resume") (message cmd_resume)

-- `argSyntax` and `help` are only printed and are left out.
pub record CommandSpec : Type 0 where
  pub type : MessageType
  pub types : List MessageType
  pub name : Text
  pub arg_syntax : Text
  pub help : Text
  pub parse : List Text → Result Message

abbrev command :
    MessageType → List MessageType → Text → Text → Text → (List Text → Result Message) → CommandSpec
command t ts n a h p = record {
  type = t;
  types = ts;
  name = n;
  arg_syntax = a;
  help = h;
  parse = p;
}

unfoldable pub commands : List CommandSpec
unfolding parse_volume parse_power parse_source parse_key parse_auto_standby parse_restart
    parse_suspend parse_resume
commands =
    command cmd_power_on (cmd_power_on ∷ cmd_power_off ∷ []) (codes "power")
      (codes "(on|off) DEVICE_ID") (codes "Power a device on or off") parse_power
    ∷ command cmd_volume_up (cmd_volume_up ∷ cmd_volume_down ∷ cmd_volume_mute ∷ [])
        (codes "volume") (codes "(up|down|mute) DEVICE_ID")
        (codes "Control volume on the audio system") parse_volume
    ∷ command cmd_change_source (cmd_change_source ∷ []) (codes "source")
        (codes "DEVICE_ID SOURCE_ID") (codes "Change the active input source") parse_source
    ∷ command cmd_key (cmd_key ∷ []) (codes "key") (codes "NAME [DEVICE_ID]")
        (codes "Send a CEC remote-control key press") parse_key
    ∷ command cmd_auto_standby (cmd_auto_standby ∷ []) (codes "auto-standby") (codes "(on|off)")
        (codes "Suspend this PC when the TV powers off") parse_auto_standby
    ∷ command cmd_restart_adapter (cmd_restart_adapter ∷ []) (codes "restart") []
        (codes "Restart the CEC adapter") parse_restart
    ∷ command cmd_suspend (cmd_suspend ∷ []) (codes "suspend") []
        (codes "Prepare for system sleep (run pre-sleep CEC actions)") parse_suspend
    ∷ command cmd_resume (cmd_resume ∷ []) (codes "resume") []
        (codes "Restore after system wake (run post-wake CEC actions)") parse_resume
    ∷ []

unfoldable pub find_by_name : Text → Option CommandSpec
unfolding commands
find_by_name name = find_if (λ c. c.name =ₜ name) commands

-- `std::find` in the type family.
abbrev pub has_type : MessageType → List MessageType → Bool
has_type t [] = false
has_type t (u ∷ us) = if same_type u t then true else has_type t us

unfoldable pub find_by_type : MessageType → Option CommandSpec
unfolding commands same_type
find_by_type type = find_if (λ c. has_type type c.types) commands
