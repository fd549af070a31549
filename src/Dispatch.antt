-- ===== src/Dispatch.antt =====
-- src/daemon/command_dispatch.h and command_dispatch.cpp: the table of wire commands that the daemon
-- handles, and the handlers that run on the adapter's worker.
pub mod Tables
pub mod Validity
use cec_control.Prelude.{
  ℕ, Bool, true, false, Option, none, some, List, [], ◌∷◌, not, ◌&&◌, if◌then◌else◌,
}
use cec_control.Message.{
  Message, MessageType, same_type, cmd_volume_up, cmd_volume_down, cmd_volume_mute, cmd_power_on,
  cmd_power_off, cmd_change_source, cmd_restart_adapter, cmd_suspend, cmd_resume, cmd_auto_standby,
  cmd_key,
}
use cec_control.Registry.{CommandSpec, commands, has_type}
use cec_control.KeyCodes.{find_if, find_key_by_code}
use cec_control.Adapter.{Backend, Outcome, returned, perform, reopen_connection}
use cec_control.Throttler.{ThrottlerConfig, Throttled}
use cec_control.Operations.{
  CecConstants, Operation, power_on_device_op, power_off_device_op, set_volume, set_mute,
  set_source, send_key,
}

pub data DispatchClass : Type 0 where
  supervisor_intercepted state_only adapter_call : DispatchClass

-- The handlers by name; a table row holds one, or none.
pub data Handler : Type 0 where
  handle_power_on handle_power_off handle_volume_up handle_volume_down handle_volume_mute : Handler
  handle_change_source handle_key handle_restart_adapter : Handler

pub record DispatchSpec : Type 0 where
  pub type : MessageType
  pub class : DispatchClass
  pub queueable_while_suspended : Bool
  pub requires_adapter_connection : Bool
  pub adapter_handler : Option Handler

abbrev row : MessageType → DispatchClass → Bool → Bool → Option Handler → DispatchSpec
row t c q r h = record {
  type = t;
  class = c;
  queueable_while_suspended = q;
  requires_adapter_connection = r;
  adapter_handler = h;
}

unfoldable pub dispatch_table : List DispatchSpec
dispatch_table =
    row cmd_power_on adapter_call true true (some handle_power_on)
    ∷ row cmd_power_off adapter_call true true (some handle_power_off)
    ∷ row cmd_volume_up adapter_call true true (some handle_volume_up)
    ∷ row cmd_volume_down adapter_call true true (some handle_volume_down)
    ∷ row cmd_volume_mute adapter_call true true (some handle_volume_mute)
    ∷ row cmd_change_source adapter_call false true (some handle_change_source)
    ∷ row cmd_key adapter_call false true (some handle_key)
    ∷ row cmd_restart_adapter adapter_call false false (some handle_restart_adapter)
    ∷ row cmd_auto_standby state_only false false none
    ∷ row cmd_suspend supervisor_intercepted false false none
    ∷ row cmd_resume supervisor_intercepted false false none
    ∷ []

unfoldable pub find_dispatch_by_type : MessageType → Option DispatchSpec
unfolding dispatch_table same_type
find_dispatch_by_type type = find_if (λ spec. same_type spec.type type) dispatch_table

-- `validateDispatchTable`, over any table and registry. A failed check is logged and the others run.
abbrev pub all_of {ℓ} : {A : Type ℓ} → (A → Bool) → List A → Bool
all_of p [] = true
all_of p (x ∷ xs) = p x && all_of p xs

abbrev pub is_found {ℓ} : {A : Type ℓ} → Option A → Bool
is_found none = false
is_found (some a) = true

abbrev pub is_adapter_call : DispatchClass → Bool
is_adapter_call adapter_call = true
is_adapter_call _ = false

abbrev pub has_row : List DispatchSpec → MessageType → Bool
has_row table type = is_found (find_if (λ spec. same_type spec.type type) table)

unfoldable pub every_type_has_row : List DispatchSpec → List CommandSpec → Bool
every_type_has_row table cmds = all_of (λ cmd. all_of (has_row table) cmd.types) cmds

unfoldable pub every_row_has_command : List DispatchSpec → List CommandSpec → Bool
every_row_has_command table cmds =
    all_of (λ spec. is_found (find_if (λ c. has_type spec.type c.types) cmds)) table

unfoldable pub no_duplicates : List DispatchSpec → Bool
no_duplicates [] = true
no_duplicates (spec ∷ rest) =
    all_of (λ other. not (same_type spec.type other.type)) rest && no_duplicates rest

abbrev pub same_bool : Bool → Bool → Bool
same_bool true b = b
same_bool false b = not b

unfoldable pub handlers_fit : List DispatchSpec → Bool
handlers_fit table =
    all_of (λ spec. same_bool (is_adapter_call spec.class) (is_found spec.adapter_handler)) table

unfoldable pub validate_dispatch_table : List DispatchSpec → List CommandSpec → Bool
unfolding every_type_has_row every_row_has_command no_duplicates handlers_fit
validate_dispatch_table table cmds =
    every_type_has_row table cmds
    && every_row_has_command table cmds
    && no_duplicates table
    && handlers_fit table

module _ {S : Type 0} (cec : CecConstants) (backend : Backend S) (config : ThrottlerConfig) where
  abbrev Op : Type 0
  Op = Operation cec backend config

  abbrev refuse : Op
  refuse w = (returned false, w)

  change_source : List ℕ → Op
  change_source [] = refuse
  change_source (source ∷ rest) = set_source cec backend config source

  key : ℕ → List ℕ → Op
  key address [] = refuse
  key address (code ∷ rest) = elim (find_key_by_code code) [
    | none ↦ refuse
    | some spec ↦ send_key cec backend config address code
  ]

  -- Neither throttled nor gated by the connection.
  restart : Op
  restart (t, d) = let (r, d') = perform backend reopen_connection d in (r, (t, d'))

  unfoldable pub run_handler : Handler → Message → Op
  unfolding change_source key restart
  run_handler handle_power_on m = power_on_device_op cec backend config m.device_id
  run_handler handle_power_off m = power_off_device_op cec backend config m.device_id
  run_handler handle_volume_up m = set_volume cec backend config m.device_id true
  run_handler handle_volume_down m = set_volume cec backend config m.device_id false
  run_handler handle_volume_mute m = set_mute cec backend config m.device_id true
  run_handler handle_change_source m = change_source m.payload
  run_handler handle_key m = key m.device_id m.payload
  run_handler handle_restart_adapter m = restart
