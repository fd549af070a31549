-- ===== src/KeyCodes.antt =====
-- src/common/key_codes.h and key_codes.cpp: the remote-control keys that a client may send.
use cec_control.Prelude.{
  ℕ, Bool, Option, none, some, List, [], ◌∷◌, ◌==◌, if◌then◌else◌, Text, codes, ◌=ₜ◌, ◌≡◌, arith,
  ◌⊎◌, inl, inr, ◌<◌, Option-cases,
}

pub record KeySpec : Type 0 where
  pub name : Text
  pub code : ℕ

abbrev pub key_codes : List KeySpec
key_codes =
    record { name = codes "blue"; code = 0x71 }
    ∷ record { name = codes "red"; code = 0x72 }
    ∷ record { name = codes "green"; code = 0x73 }
    ∷ record { name = codes "yellow"; code = 0x74 }
    ∷ []

-- `std::find_if`, with nothing for the end iterator.
abbrev pub find_if {ℓ} : {A : Type ℓ} → (A → Bool) → List A → Option A
find_if p [] = none
find_if p (x ∷ xs) = if p x then some x else find_if p xs

unfoldable pub find_key_by_name : Text → Option KeySpec
find_key_by_name name = find_if (λ s. s.name =ₜ name) key_codes

unfoldable pub find_key_by_code : ℕ → Option KeySpec
find_key_by_code code = find_if (λ s. s.code == code) key_codes

-- A key that a client can name is one that the daemon lets through, under the same entry.
pub find_key_by_code-name :
    (name : Text) (spec : KeySpec)
    → find_key_by_name name ≡ some spec
    → find_key_by_code spec.code ≡ some spec
unfolding find_key_by_name find_key_by_code
find_key_by_code-name name spec h = ground arith

-- What a name finds: nothing, or an entry whose code is a byte.
pub find_key_by_name-cases :
    (name : Text)
    → (find_key_by_name name ≡ none)
      ⊎ ((spec : KeySpec) × (find_key_by_name name ≡ some spec) × (spec.code < 256))
find_key_by_name-cases name = elim (Option-cases (find_key_by_name name)) [
  | inl e ↦ inl e
  | inr (spec, e) ↦ inr (spec, e, code_byte name spec e)
]
  where
    code_byte : (name : Text) (spec : KeySpec) → find_key_by_name name ≡ some spec → spec.code < 256
    code_byte name spec e = unfold find_key_by_name in ground arith
