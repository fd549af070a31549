-- ===== src/LibcecAdapter/Recovers.antt =====
-- src/daemon/cec/libcec_adapter.cpp: a reopen succeeds once libcec works, whatever failed before.
use cec_control.Prelude.{
  ℕ, ◌+◌, ◌≡◌, refl, ap, Bool, true, false, not, some, is_empty, if_ind, Text, arith,
}
use cec_control.Adapter.{Outcome, returned}
use cec_control.LibcecAdapter.{
  closed, Libcec, LibcecAdapter, tick, detected, create, enabled, port_opened, configured,
  open_connection, recreate, reopened, reopen_connection_now,
}

-- libcec works: an adapter is found and each call returns, those that open it with success.
pub record Works (l : Libcec) (port : Text) : Type 0 where
  pub initialises : (n : ℕ) → l.initialise n ≡ true
  pub detects : (n : ℕ) → l.detect n ≡ some port
  pub named : is_empty port ≡ false
  pub configures : (n : ℕ) → l.set_configuration n ≡ returned true
  pub opens : (n : ℕ) → l.open_port n ≡ returned true
  pub enables : (n : ℕ) → l.audio_enable n ≡ returned true
  pub closes : (n : ℕ) → l.close n ≡ closed

abbrev Connects : Outcome Bool × LibcecAdapter → Type 0
Connects r = (r.0 ≡ returned true) × (r.1.connected ≡ true)

abbrev Opens : Bool × LibcecAdapter → Type 0
Opens r = (r.0 ≡ true) × (r.1.connected ≡ true)

module _ (l : Libcec) (port : Text) (w : Works l port) where
  open_connection-Opens :
      (a : LibcecAdapter)
      → a.created ≡ true
      → is_empty a.port_name ≡ false
      → Opens (open_connection l a)
  unfolding open_connection configured port_opened enabled
  open_connection-Opens a c p =
      if_ind Opens (not a.created) (λ q. absurd (ground (arith, c, q)))
        (λ _.
          if_ind Opens a.connected (λ e. (refl, e))
            (λ _.
              if_ind Opens (is_empty a.port_name) (λ q. absurd (ground (arith, p, q)))
                (λ _.
                  rw (w.configures a.calls, w.opens (a.calls + 1))
                    (if_ind Opens l.wants_audio (λ _. rw (w.enables (a.calls + 1 + 1)) (refl, refl))
                      (λ _. (refl, refl))))))

  recreate-Connects : (a : LibcecAdapter) → Connects (recreate l a)
  unfolding recreate create detected
  recreate-Connects a =
      let b = record (tick (tick (record a { created = true }))) { port_name = port } in
      let opened = open_connection-Opens b refl w.named in
      rw (w.initialises a.calls, w.detects (a.calls + 1)) (ap returned opened.0, opened.1)

  -- While libcec works, a reopen connects the adapter, also one that an earlier attempt left without
  -- an instance of libcec.
  pub reopen_connection_now-Connects : (a : LibcecAdapter) → Connects (reopen_connection_now l a)
  unfolding reopen_connection_now reopened
  reopen_connection_now-Connects a =
      if_ind Connects a.created
        (λ _. rw (w.closes a.calls) (
          recreate-Connects
            (record (tick (record a { connected = false })) { created = false; opened = false })))
        (λ _. recreate-Connects a)
