-- ===== src/Registry/Numerals.antt =====
-- command_registry.cpp, `parseBoundedUint8`: which numbers it accepts.
use cec_control.Prelude.{
  ℕ, zero, suc, ◌+◌, ◌*◌, ◌≤◌, ◌<◌, ◌≡◌, refl, ◌⊎◌, inl, inr, true, false, List, [], ◌∷◌, map, All,
  ltb, if◌then◌else◌, Text, arith, Bool-cases,
}
use cec_control.Registry.Numbers.{Stoi, int, throws, stoi, read_digits}
use cec_control.Registry.{
  Result, ok, err, Error, What, out_of_range, invalid_value, parse_bounded_uint8, in_bounds,
}

-- A parsed number is within its bound.
pub parse_bounded-cases :
    (input : Text) (bound : ℕ) (what : What)
    → ((e : Error) × (parse_bounded_uint8 input bound what ≡ err e))
      ⊎ ((v : ℕ) × (parse_bounded_uint8 input bound what ≡ ok v) × (v ≤ bound))
unfolding parse_bounded_uint8
parse_bounded-cases [] bound what = inl (_, refl)
parse_bounded-cases (c ∷ cs) bound what = bounded (stoi (c ∷ cs))
  where
    limited :
        (v : ℕ)
        → let r : Result ℕ = if ltb bound v then err (out_of_range what bound) else ok v in
          ((e : Error) × (r ≡ err e)) ⊎ ((w : ℕ) × (r ≡ ok w) × (w ≤ bound))
    limited v = elim (Bool-cases (ltb bound v)) [
      | inl big ↦ inl (out_of_range what bound, rw big)
      | inr small ↦ inr (v, rw small, ground arith)
    ]

    bounded :
        (s : Stoi)
        → ((e : Error) × (in_bounds (c ∷ cs) bound what s ≡ err e))
          ⊎ ((v : ℕ) × (in_bounds (c ∷ cs) bound what s ≡ ok v) × (v ≤ bound))
    bounded throws = inl (_, refl)
    bounded (int negative v (r ∷ rest)) = inl (_, refl)
    bounded (int true zero []) = limited 0
    bounded (int true (suc v) []) = inl (out_of_range what bound, ground arith)
    bounded (int false v []) = limited v

-- The digits of a numeral, most significant first, as text and as a number.
abbrev pub numeral : List ℕ → Text
numeral ds = map (λ d. d + b'0') ds

abbrev value_from : ℕ → List ℕ → ℕ
value_from acc [] = acc
value_from acc (d ∷ ds) = value_from (acc * 10 + d) ds

abbrev pub value : List ℕ → ℕ
value ds = value_from 0 ds

abbrev pub AreDigits : List ℕ → Type 0
AreDigits = All λ d. d < 10

read_digits-numeral :
    (ds : List ℕ) (acc : ℕ) → AreDigits ds → read_digits acc (numeral ds) ≡ (value_from acc ds, [])
unfolding read_digits
read_digits-numeral [] acc h = refl
read_digits-numeral (d ∷ ds) acc h = ground (arith, read_digits-numeral ds (acc * 10 + d) h.1)

stoi-numeral :
    (d : ℕ) (ds : List ℕ)
    → AreDigits (d ∷ ds)
    → stoi (numeral (d ∷ ds))
      ≡ (if ltb 2147483647 (value (d ∷ ds)) then throws else int false (value (d ∷ ds)) [])
unfolding stoi
stoi-numeral d ds h = ground (arith, read_digits-numeral (d ∷ ds) 0 h)

-- A numeral, leading zeros included, is read as its value if that is within the bound, is refused as
-- out of range if it is not but fits an `int`, and is refused as invalid beyond that.
pub parse_bounded-numeral :
    (d : ℕ) (ds : List ℕ) (bound : ℕ) (what : What)
    → AreDigits (d ∷ ds)
    → let n = value (d ∷ ds) in
      parse_bounded_uint8 (numeral (d ∷ ds)) bound what ≡ (
        if ltb 2147483647 n
        then err (invalid_value what (numeral (d ∷ ds)))
        else if ltb bound n
        then err (out_of_range what bound)
        else ok n)
unfolding parse_bounded_uint8
parse_bounded-numeral d ds bound what h = ground (arith, stoi-numeral d ds h)
