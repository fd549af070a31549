-- ===== src/Prelude/Lists.antt =====
-- Lists measured and indexed by native numbers, under the library's names.
use Prim.Native.Nat.{ℕ, zero, suc, ◌+◌, ◌≤◌, ◌<◌}
use mathlib.Core.Path.{◌≡◌, refl}
use mathlib.Core.List.{List, [], ◌∷◌, ◌++◌}
use mathlib.Core.Option.{Option, none, some}
use mathlib.Core.Logic.{◌⊎◌, inl, inr}
use mathlib.Core.Bool.{Bool, true, false}
use native.Mathlib.Omega.{arith}

module _ {ℓ} {A : Type ℓ} where
  abbrev pub length : List A → ℕ
  length [] = 0
  length (x ∷ xs) = suc (length xs)

  abbrev pub get_elem? : List A → ℕ → Option A
  get_elem? [] i = none
  get_elem? (x ∷ xs) zero = some x
  get_elem? (x ∷ xs) (suc i) = get_elem? xs i

  abbrev pub is_empty : List A → Bool
  is_empty [] = true
  is_empty (x ∷ xs) = false

  abbrev pub drop : ℕ → List A → List A
  drop zero xs = xs
  drop (suc n) [] = []
  drop (suc n) (x ∷ xs) = drop n xs

  -- The elements that pass a test.
  abbrev pub keep_if : (A → Bool) → List A → List A
  keep_if t [] = []
  keep_if t (x ∷ xs) = let rest = keep_if t xs in elim (t x) [ true ↦ x ∷ rest | false ↦ rest ]

  -- A predicate at every element.
  abbrev pub All {κ} : (A → Type κ) → List A → Type κ
  All P [] = Unit
  All P (x ∷ xs) = P x × All P xs

  pub All-both {κ} :
      (P Q : A → Type κ) (xs : List A) → All P xs → All Q xs → All (λ x. P x × Q x) xs
  All-both P Q [] h k = tt
  All-both P Q (x ∷ xs) h k = ((h.0, k.0), All-both P Q xs h.1 k.1)

  pub All-imp {κ} : (P Q : A → Type κ) (xs : List A) → ((x : A) → P x → Q x) → All P xs → All Q xs
  All-imp P Q [] k h = tt
  All-imp P Q (x ∷ xs) k h = (k x h.0, All-imp P Q xs k h.1)

  pub All-append {κ} : (P : A → Type κ) (xs ys : List A) → All P xs → All P ys → All P (xs ++ ys)
  All-append P [] ys h k = k
  All-append P (x ∷ xs) ys h k = (h.0, All-append P xs ys h.1 k)

  pub length-append : (xs ys : List A) → length (xs ++ ys) ≡ length xs + length ys
  length-append [] ys = omega arith
  length-append (x ∷ xs) ys = omega (arith, length-append xs ys)

  -- A read succeeds exactly inside the list.
  pub get_elem?-cases :
      (xs : List A) (i : ℕ)
      → ((get_elem? xs i ≡ none) × (length xs ≤ i))
        ⊎ ((x : A) × (get_elem? xs i ≡ some x) × (i < length xs))
  get_elem?-cases [] i = inl (refl, omega arith)
  get_elem?-cases (x ∷ xs) zero = inr (x, refl, omega arith)
  get_elem?-cases (x ∷ xs) (suc i) = elim (get_elem?-cases xs i) [
    | inl (e, h) ↦ inl (e, omega arith)
    | inr (y, e, h) ↦ inr (y, e, omega arith)
  ]

  pub get_elem?-drop_nil : (i : ℕ) (xs : List A) → drop i xs ≡ [] → get_elem? xs i ≡ none
  get_elem?-drop_nil zero [] h = refl
  get_elem?-drop_nil zero (x ∷ xs) h = cc
  get_elem?-drop_nil (suc i) [] h = refl
  get_elem?-drop_nil (suc i) (x ∷ xs) h = get_elem?-drop_nil i xs h

  pub get_elem?-drop_cons :
      (i : ℕ) (xs : List A) {y : A} {ys : List A}
      → drop i xs ≡ y ∷ ys
      → (get_elem? xs i ≡ some y) × (drop (suc i) xs ≡ ys)
  get_elem?-drop_cons zero [] h = cc
  get_elem?-drop_cons zero (x ∷ xs) h = (cc, cc)
  get_elem?-drop_cons (suc i) [] h = cc
  get_elem?-drop_cons (suc i) (x ∷ xs) h = get_elem?-drop_cons i xs h
