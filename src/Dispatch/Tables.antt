-- ===== src/Dispatch/Tables.antt =====
-- command_dispatch.cpp against command_registry.cpp: the rows of the table and the commands.
use cec_control.Prelude.{◌≡◌, refl, ◌≢◌, ◌⊎◌, Bool, true, false, Option, none, some, arith}
use cec_control.Message.{MessageType, same_type, resp_success, resp_error}
use cec_control.Registry.{commands, find_by_type}
use cec_control.Dispatch.{
  DispatchSpec, DispatchClass, Handler, dispatch_table, find_dispatch_by_type, adapter_call,
  validate_dispatch_table, is_found,
}

-- The table passes the check that the daemon makes when it starts.
pub table_is_valid : validate_dispatch_table dispatch_table commands ≡ true
unfolding validate_dispatch_table dispatch_table commands same_type
table_is_valid = refl

abbrev pub IsResponse : MessageType → Type 0
IsResponse t = (t ≡ resp_success) ⊎ (t ≡ resp_error)

-- A row that commands may rely on: its handler is there exactly for an adapter call, only adapter
-- calls are queued, and only they can do without a connection.
abbrev pub FitsClass : DispatchClass → Bool → Option Handler → Type 0
FitsClass class queueable none = (class ≢ adapter_call) × (queueable ≡ false)
FitsClass class queueable (some h) = class ≡ adapter_call

abbrev pub IsRow : MessageType → Option DispatchSpec → Type 0
IsRow t none = IsResponse t
IsRow t (some spec) =
    (spec.type ≡ t) × FitsClass spec.class spec.queueable_while_suspended spec.adapter_handler

-- Every type but the two responses has a row, its own, with a handler exactly if it is an adapter
-- call, and queueable only if it is one.
pub find_dispatch-IsRow : (t : MessageType) → IsRow t (find_dispatch_by_type t)
unfolding find_dispatch_by_type
find_dispatch-IsRow MessageType.cmd_volume_up = ground arith
find_dispatch-IsRow _ = ground arith

-- A type has a row in the daemon's table exactly if a client's command can produce it.
pub find_dispatch-find_by_type :
    (t : MessageType) → is_found (find_dispatch_by_type t) ≡ is_found (find_by_type t)
unfolding find_dispatch_by_type find_by_type
find_dispatch-find_by_type MessageType.cmd_volume_up = refl
find_dispatch-find_by_type _ = refl
