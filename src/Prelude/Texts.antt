-- ===== src/Prelude/Texts.antt =====
-- Text as the list of its bytes: `std::string`, `std::string_view` and string literals.
use Prim.Native.Nat.{ℕ, zero, suc, ◌+◌, ◌/◌, ◌%◌}
use Prim.Native.Char.{code}
use Prim.Native.String.{String}
use mathlib.Core.Path.{◌≡◌, refl}
use mathlib.Core.Bool.{Bool, true, false, ◌&&◌}
use mathlib.Core.List.{List, [], ◌∷◌, ◌++◌}
use native.Mathlib.Omega.{arith}
use cec_control.Prelude.Tests.{◌==◌, ltb, if◌then◌else◌}

abbrev pub Text : Type 0
Text = List ℕ

-- The bytes of an ASCII literal.
abbrev pub codes : String → Text
codes String.[] = []
codes (String.◌∷◌ c s) = code c ∷ codes s

infix 50 ◌=ₜ◌
abbrev pub ◌=ₜ◌ : Text → Text → Bool
[] =ₜ [] = true
(x ∷ xs) =ₜ (y ∷ ys) = x == y && xs =ₜ ys
_ =ₜ _ = false

pub =ₜ-eq_true : (s t : Text) → (s =ₜ t) ≡ true → s ≡ t
=ₜ-eq_true [] [] h = refl
=ₜ-eq_true [] (y ∷ ys) h = cc
=ₜ-eq_true (x ∷ xs) [] h = cc
=ₜ-eq_true (x ∷ xs) (y ∷ ys) h = ground (arith, =ₜ-eq_true xs ys)

pub =ₜ-refl : (s : Text) → (s =ₜ s) ≡ true
=ₜ-refl [] = refl
=ₜ-refl (x ∷ xs) = ground (arith, =ₜ-refl xs)

-- `std::to_string` on the naturals; the first argument bounds the number of digits.
unfoldable pub decimal : ℕ → ℕ → Text
decimal zero n = []
decimal (suc digits) n =
    let higher = decimal digits (n / 10) in (if ltb n 10 then [] else higher) ++ (n % 10 + 48) ∷ []

-- A number has no more digits than its successor counts.
unfoldable pub to_text : ℕ → Text
unfolding decimal
to_text n = decimal (suc n) n
