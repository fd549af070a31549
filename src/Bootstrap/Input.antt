-- ===== src/Bootstrap/Input.antt =====
-- src/daemon/daemon_bootstrap.cpp: `setupProcess`, which puts /dev/null in place of the standard input.
-- What a descriptor has open is a value of `File`; what `open` answers is a parameter.
use cec_control.Prelude.{
  ℕ, ◌==◌, ◌≡◌, ◌≢◌, refl, Option, none, some, if◌then◌else◌, arith, ap, Bool-cases, inl, inr,
}

pub data File : Type 0 where
  null : File
  other : ℕ → File

abbrev pub Table : Type 0
Table = ℕ → Option File

unfoldable pub put : ℕ → Option File → Table → Table
put fd file t k = if k == fd then file else t k

abbrev pub stdin : ℕ
stdin = 0

-- `opened` is the descriptor that `open` gives to /dev/null, or none.
unfoldable pub setup_process : Option ℕ → Table → Table
unfolding put
setup_process none t = put stdin none t
setup_process (some fd) t =
    let t' = put fd (some null) (put stdin none t) in
    if fd == stdin then t' else put fd none (put stdin (t' fd) t')

stdin-put : (fd : ℕ) (t : Table) → setup_process (some fd) t stdin ≡ some null
unfolding setup_process put
stdin-put fd t = ground arith

other-put :
    (fd k : ℕ) (t : Table)
    → (fd ≢ stdin → t fd ≡ none)
    → k ≢ stdin
    → setup_process (some fd) t k ≡ t k
unfolding setup_process put
other-put fd k t free n = elim (Bool-cases (k == fd)) [
  | inl e ↦ let same : k ≡ fd = grind (arith, e) in ground (arith, ap t same, free)
  | inr e ↦ ground (arith, e)
]

-- If /dev/null opens at a descriptor that is free once the standard input is closed, then it is the
-- standard input; if it does not open, the standard input is closed; and either way every other
-- descriptor is as before.
pub setup_process-stdin :
    (opened : Option ℕ) (t : Table)
    → ((fd : ℕ) → opened ≡ some fd → fd ≢ stdin → t fd ≡ none)
    → (setup_process opened t stdin ≡ elim opened [ none ↦ none | some fd ↦ some null ])
      × ((k : ℕ) → k ≢ stdin → setup_process opened t k ≡ t k)
unfolding setup_process put
setup_process-stdin none t free = (refl, λ k n. ground (arith, n))
setup_process-stdin (some fd) t free = (stdin-put fd t, λ k n. other-put fd k t (free fd refl) n)
