-- ===== src/Adapter.antt =====
-- src/daemon/cec/adapter_interface.h: `ICecAdapter`, the boundary to libcec. Its methods are a
-- parameter of the model: a record `Backend` over an abstract state. A virtual call is a value of
-- `Call`; it answers with a truth value or throws, and takes some milliseconds.
use cec_control.Prelude.{ℕ, ◌+◌, ◌≡◌, refl, ◌⊎◌, inl, inr, Bool, true, false, List, ◌∷◌}

pub data Call : Type 0 where
  power_on_device standby_device is_device_active : ℕ → Call
  volume_up volume_down toggle_mute : Call
  send_keypress : ℕ → ℕ → Bool → Call
  set_stream_path : ℕ → Call
  reopen_connection close_connection : Call
  standby_devices power_on_devices : ℕ → Call

-- What a piece of C++ code ends in: a value, or an exception.
pub data Outcome (A : Type 0) : Type 0 where
  returned : A → Outcome A
  threw : Outcome A

pub Outcome-cases : (r : Outcome Bool) → (r ≡ threw) ⊎ ((r ≡ returned true) ⊎ (r ≡ returned false))
Outcome-cases threw = inl refl
Outcome-cases (returned true) = inr (inl refl)
Outcome-cases (returned false) = inr (inr refl)

pub record Backend (S : Type 0) : Type 0 where
  pub is_connected : S → Bool
  pub answer : Call → S → Outcome Bool
  pub after : Call → S → S
  pub takes : Call → S → ℕ

-- The adapter with the clock, in milliseconds, and the calls made so far, newest first.
pub record Device (S : Type 0) : Type 0 where
  pub adapter : S
  pub now : ℕ
  pub calls : List Call

-- Code that uses the adapter.
abbrev pub Action : Type 0 → Type 0 → Type 0
Action S A = Device S → Outcome A × Device S

infixl 5 ◌>>=◌ ◌>>◌
abbrev pub ◌>>=◌ : {S A B : Type 0} → Action S A → (A → Action S B) → Action S B
◌>>=◌ m f d = let (r, d') = m d in elim r [ returned a ↦ f a d' | threw ↦ (threw, d') ]

abbrev pub ◌>>◌ : {S A B : Type 0} → Action S A → Action S B → Action S B
◌>>◌ m n = m >>= λ _. n

abbrev pub pure : {S A : Type 0} → A → Action S A
pure a d = (returned a, d)

abbrev pub sleep_for : {S : Type 0} → ℕ → Action S (Unit {0})
sleep_for ms d = (returned tt, record d { now = d.now + ms })

module _ {S : Type 0} (backend : Backend S) where
  abbrev pub perform : Call → Action S Bool
  perform c d = (
    backend.answer c d.adapter,
    record {
      adapter = backend.after c d.adapter;
      now = d.now + backend.takes c d.adapter;
      calls = c ∷ d.calls;
    },
  )

  abbrev pub is_connected : Action S Bool
  is_connected d = (returned (backend.is_connected d.adapter), d)
