-- ===== src/Dispatch/Validity.antt =====
-- command_dispatch.cpp, `validateDispatchTable`: what the check gives, for any table and registry.
use cec_control.Prelude.{◌≡◌, Bool, true, not, Option, some, List, [], ◌∷◌, All, arith}
use cec_control.Message.{MessageType, same_type}
use cec_control.KeyCodes.{find_if}
use cec_control.Registry.{CommandSpec}
use cec_control.Dispatch.{
  DispatchSpec, is_found, is_adapter_call, has_row, all_of, no_duplicates, handlers_fit,
  every_type_has_row, validate_dispatch_table,
}

abbrev pub row_of : List DispatchSpec → MessageType → Option DispatchSpec
row_of table type = find_if (λ spec. same_type spec.type type) table

all_of-All {ℓ} :
    {A : Type ℓ} (p : A → Bool) (xs : List A) → all_of p xs ≡ true → All (λ x. p x ≡ true) xs
all_of-All p [] h = tt
all_of-All p (x ∷ xs) h = (ground arith, all_of-All p xs (ground arith))

-- A row at the front hides none of another type.
row_of-cons :
    (s : DispatchSpec) (table rows : List DispatchSpec)
    → all_of (λ other. not (same_type s.type other.type)) rows ≡ true
    → All (λ r. row_of table r.type ≡ some r) rows
    → All (λ r. row_of (s ∷ table) r.type ≡ some r) rows
row_of-cons s table [] d h = tt
row_of-cons s table (r ∷ rows) d h =
    (ground (arith, h.0), row_of-cons s table rows (ground arith) h.1)

same_type_refl : (t : MessageType) → same_type t t ≡ true
unfolding same_type
same_type_refl t = ground arith

no_duplicates-row_of :
    (table : List DispatchSpec)
    → no_duplicates table ≡ true
    → All (λ r. row_of table r.type ≡ some r) table
unfolding no_duplicates
no_duplicates-row_of [] h = tt
no_duplicates-row_of (s ∷ table) h = (
  ground (arith, same_type_refl s.type),
  row_of-cons s table table (ground arith) (no_duplicates-row_of table (ground arith)),
)

-- A row whose handler is there exactly for an adapter call.
abbrev pub HandlerFits : DispatchSpec → Type 0
HandlerFits r = is_adapter_call r.class ≡ is_found r.adapter_handler

handlers_fit-All : (table : List DispatchSpec) → handlers_fit table ≡ true → All HandlerFits table
unfolding handlers_fit
handlers_fit-All [] h = tt
handlers_fit-All (r ∷ table) h = (ground arith, handlers_fit-All table (ground arith))

types_covered :
    (table : List DispatchSpec) (cmds : List CommandSpec)
    → every_type_has_row table cmds ≡ true
    → All (λ c. All (λ t. is_found (row_of table t) ≡ true) c.types) cmds
unfolding every_type_has_row
types_covered table [] h = tt
types_covered table (c ∷ cmds) h =
    (all_of-All (has_row table) c.types (ground arith), types_covered table cmds (ground arith))

-- A table that passes the check, against any registry: looking up the type of a row finds that very
-- row, so that no row is dead; a row has a handler exactly if it is an adapter call; and every type of
-- a registered command has a row.
pub validate_dispatch_table-rows :
    (table : List DispatchSpec) (cmds : List CommandSpec)
    → validate_dispatch_table table cmds ≡ true
    → All (λ r. row_of table r.type ≡ some r) table
      × All HandlerFits table
      × All (λ c. All (λ t. is_found (row_of table t) ≡ true) c.types) cmds
unfolding validate_dispatch_table
validate_dispatch_table-rows table cmds h = (
  no_duplicates-row_of table (ground arith),
  handlers_fit-All table (ground arith),
  types_covered table cmds (ground arith),
)
