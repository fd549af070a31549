-- ===== src/Configuration/Lines.antt =====
-- src/common/config_manager.cpp: lines and blanks of a text.
use cec_control.Prelude.{
  ℕ, ◌≡◌, ◌≢◌, refl, true, false, some, [], ◌∷◌, ◌++◌, All, is_empty, Text, arith, ap,
}
use cec_control.Registry.Numbers.{is_space}
use cec_control.Configuration.{lines, trim_end, at_equals, last_is, without_last}

pub lines-append :
    (d : ℕ) (l rest : Text) → All (λ c. c ≢ d) l → lines d (l ++ d ∷ rest) ≡ l ∷ lines d rest
unfolding lines
lines-append d [] rest h = ground arith
lines-append d (c ∷ l) rest h = rw (lines-append d l rest h.1) (ground (arith, h.0))

pub is_empty-append : (s : Text) (c : ℕ) (t : Text) → is_empty (s ++ c ∷ t) ≡ false
is_empty-append [] c t = refl
is_empty-append (d ∷ s) c t = refl

-- Blanks at the end of a text that follows a character that is no blank.
pub trim_end-after :
    (s : Text) (c : ℕ) (t : Text) → is_space c ≡ false → trim_end (s ++ c ∷ t) ≡ s ++ c ∷ trim_end t
unfolding trim_end
trim_end-after [] c t h = ground (arith, h, is_empty (trim_end t))
trim_end-after (d ∷ s) c t h = rw (trim_end-after s c t h, is_empty-append s c (trim_end t)) refl

pub last_is-last : (d : ℕ) (s : Text) → last_is d (s ++ d ∷ []) ≡ true
last_is-last d [] = ground arith
last_is-last d (c ∷ []) = ground arith
last_is-last d (c ∷ e ∷ s) = last_is-last d (e ∷ s)

pub without_last-last : (d : ℕ) (s : Text) → without_last (s ++ d ∷ []) ≡ s
without_last-last d [] = refl
without_last-last d (c ∷ []) = refl
without_last-last d (c ∷ e ∷ s) = ap (λ ys. c ∷ ys) (without_last-last d (e ∷ s))

pub at_equals-append :
    (k v : Text) → All (λ c. c ≢ b'=') k → at_equals (k ++ b'=' ∷ v) ≡ some (k, v)
unfolding at_equals
at_equals-append [] v h = refl
at_equals-append (c ∷ k) v h = rw (at_equals-append k v h.1) (ground (arith, h.0))
