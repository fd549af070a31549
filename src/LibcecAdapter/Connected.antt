-- ===== src/LibcecAdapter/Connected.antt =====
-- src/daemon/cec/libcec_adapter.cpp: when the adapter is connected.
use cec_control.Prelude.{
  ℕ, ◌+◌, ◌≡◌, refl, Bool, true, false, not, Option, none, some, List, [], ◌∷◌, ◌&&◌, is_empty,
  if_ind, Option_ind, Text, arith,
}
use cec_control.Adapter.{Call, reopen_connection, close_connection, Outcome, returned, threw}
use cec_control.Standby.{Observation}
use cec_control.LibcecAdapter.{
  Closing, closed, threw_std, threw_other, Libcec, LibcecAdapter, new_adapter, tick, detected,
  create, initialize, enabled, port_opened, configured, open_connection, close_port,
  after_inactive_view, close_connection_now, recreate, reopened, reopen_connection_now,
  call_if_connected, perform, connection_lost, observe, source_activated,
}
use cec_control.LibcecAdapter.Commands.{Opcodes, Command, command_received, observation}

-- An adapter that is connected has an instance of libcec with its port open, and an instance that is
-- not there has no port open.
abbrev pub IsAdapter : LibcecAdapter → Type 0
IsAdapter a =
    (a.connected ≡ true → (a.created ≡ true) × (a.opened ≡ true))
    × (a.created ≡ false → (a.opened ≡ false) × (a.connected ≡ false))

abbrev Snd : {A : Type 0} → A × LibcecAdapter → Type 0
Snd r = IsAdapter r.1

-- Nothing is open and nothing connected.
abbrev IsClosed : LibcecAdapter → Type 0
IsClosed a = (a.opened ≡ false) × (a.connected ≡ false)

closed-IsAdapter : (a : LibcecAdapter) → IsClosed a → IsAdapter a
closed-IsAdapter a (o, c) = (λ e. absurd (ground (arith, c, e)), λ e. (o, c))

detected-IsAdapter : (o : Option Text) (a : LibcecAdapter) → IsClosed a → Snd (detected o a)
unfolding detected
detected-IsAdapter none a h = closed-IsAdapter (record a { created = false }) h
detected-IsAdapter (some port) a h = closed-IsAdapter (record a { port_name = port }) h

create-IsAdapter : (l : Libcec) (a : LibcecAdapter) → IsClosed a → Snd (create l a)
unfolding create detected
create-IsAdapter l a h =
    if_ind Snd (l.initialise a.calls)
      (λ _.
        detected-IsAdapter (l.detect (a.calls + 1)) (tick (tick (record a { created = true }))) h)
      (λ _. closed-IsAdapter (record (tick a) { created = false }) h)

disconnected-IsAdapter :
    (a : LibcecAdapter) → IsAdapter a → IsAdapter (record a { connected = false })
disconnected-IsAdapter a h = (λ e. cc, λ e. ((h.1 e).0, refl))

enabled-IsAdapter : (r : Outcome Bool) (a : LibcecAdapter) → IsAdapter a → Snd (enabled r a)
unfolding enabled
enabled-IsAdapter threw a h = disconnected-IsAdapter a h
enabled-IsAdapter (returned ok) a h = h

port_opened-IsAdapter :
    (l : Libcec) (r : Outcome Bool) (a : LibcecAdapter)
    → a.created ≡ true
    → IsAdapter a
    → Snd (port_opened l r a)
unfolding port_opened
port_opened-IsAdapter l threw a c h = disconnected-IsAdapter a h
port_opened-IsAdapter l (returned false) a c h = h
port_opened-IsAdapter l (returned true) a c h =
    let a' = record a { connected = true; opened = true } in
    let h' : IsAdapter a' = (λ e. (c, refl), λ e. absurd (ground (arith, c, e))) in
    if_ind Snd l.wants_audio (λ _. enabled-IsAdapter (l.audio_enable a'.calls) (tick a') h')
      (λ _. h')

configured-IsAdapter :
    (l : Libcec) (r : Outcome Bool) (a : LibcecAdapter)
    → a.created ≡ true
    → IsAdapter a
    → Snd (configured l r a)
unfolding configured
configured-IsAdapter l threw a c h = disconnected-IsAdapter a h
configured-IsAdapter l (returned ok) a c h =
    port_opened-IsAdapter l (l.open_port a.calls) (tick a) c h

open_connection-IsAdapter :
    (l : Libcec) (a : LibcecAdapter) → IsAdapter a → Snd (open_connection l a)
unfolding open_connection
open_connection-IsAdapter l a h =
    if_ind Snd (not a.created) (λ _. h)
      (λ c.
        if_ind Snd a.connected (λ _. h)
          (λ _.
            if_ind Snd (is_empty a.port_name) (λ _. h)
              (λ _.
                configured-IsAdapter l (l.set_configuration a.calls) (tick a) (ground (arith, c))
                  h)))

close_port-IsAdapter :
    (r : Closing) (a : LibcecAdapter)
    → a.connected ≡ false
    → IsAdapter a
    → IsAdapter (close_port r a)
unfolding close_port
close_port-IsAdapter closed a c h = (λ e. absurd (ground (arith, c, e)), λ e. (refl, c))
close_port-IsAdapter threw_std a c h = h
close_port-IsAdapter threw_other a c h = h

after_inactive_view-IsAdapter :
    (l : Libcec) (r : Outcome Bool) (a : LibcecAdapter)
    → a.connected ≡ false
    → IsAdapter a
    → IsAdapter (after_inactive_view l r a)
unfolding after_inactive_view
after_inactive_view-IsAdapter l threw a c h = h
after_inactive_view-IsAdapter l (returned ok) a c h =
    close_port-IsAdapter (l.close a.calls) (tick a) c h

close_connection_now-IsAdapter :
    (l : Libcec) (a : LibcecAdapter) → IsAdapter a → IsAdapter (close_connection_now l a)
unfolding close_connection_now
close_connection_now-IsAdapter l a h =
    let a' = record a { connected = false } in
    let h' = disconnected-IsAdapter a h in
    if_ind IsAdapter (not a.connected) (λ _. h)
      (λ _.
        if_ind IsAdapter (not a.created) (λ _. h')
          (λ _. after_inactive_view-IsAdapter l (l.set_inactive_view a'.calls) (tick a') refl h'))

recreate-IsAdapter : (l : Libcec) (a : LibcecAdapter) → IsClosed a → Snd (recreate l a)
unfolding recreate
recreate-IsAdapter l a h =
    let r = create l a in
    let h' = create-IsAdapter l a h in
    if_ind Snd r.0 (λ _. open_connection-IsAdapter l r.1 h') (λ _. h')

reopened-IsAdapter :
    (l : Libcec) (r : Closing) (a : LibcecAdapter)
    → a.connected ≡ false
    → IsAdapter a
    → Snd (reopened l r a)
unfolding reopened
reopened-IsAdapter l threw_other a c h = h
reopened-IsAdapter l threw_std a c h =
    recreate-IsAdapter l (record a { created = false; opened = false }) (refl, c)
reopened-IsAdapter l closed a c h =
    recreate-IsAdapter l (record a { created = false; opened = false }) (refl, c)

reopen_connection_now-IsAdapter :
    (l : Libcec) (a : LibcecAdapter) → IsAdapter a → Snd (reopen_connection_now l a)
unfolding reopen_connection_now
reopen_connection_now-IsAdapter l a h =
    if_ind Snd a.created
      (λ _.
        reopened-IsAdapter l (l.close a.calls) (tick (record a { connected = false })) refl
          (disconnected-IsAdapter a h))
      (λ c. recreate-IsAdapter l a (h.1 c))

call_if_connected-IsAdapter :
    (l : Libcec) (c : Call) (a : LibcecAdapter) → IsAdapter a → Snd (call_if_connected l c a)
unfolding call_if_connected
call_if_connected-IsAdapter l c a h = if_ind Snd (a.created && a.connected) (λ _. h) (λ _. h)

perform-IsAdapter : (l : Libcec) (c : Call) (a : LibcecAdapter) → IsAdapter a → Snd (perform l c a)
unfolding perform
perform-IsAdapter l reopen_connection a h = reopen_connection_now-IsAdapter l a h
perform-IsAdapter l close_connection a h = close_connection_now-IsAdapter l a h
perform-IsAdapter l c a h = call_if_connected-IsAdapter l c a h

-- The calls of the daemon and those of libcec.
pub data Input : Type 0 where
  initializes opens loses : Input
  calls : Call → Input
  receives : Opcodes → Command → Input
  activates : ℕ → Bool → Input

unfoldable pub handle : Libcec → Input → LibcecAdapter → LibcecAdapter
unfolding initialize open_connection connection_lost perform command_received source_activated
handle l initializes a = (initialize l a).1
handle l opens a = (open_connection l a).1
handle l loses a = connection_lost l a
handle l (calls c) a = (perform l c a).1
handle l (receives k c) a = command_received l k c a
handle l (activates logical activated) a = source_activated l logical activated a

unfoldable pub run : Libcec → List Input → LibcecAdapter → LibcecAdapter
unfolding handle
run l [] a = a
run l (i ∷ is) a = run l is (handle l i a)

observe-IsAdapter :
    (l : Libcec) (o : Observation) (a : LibcecAdapter) → IsAdapter a → IsAdapter (observe l o a)
unfolding observe
observe-IsAdapter l o a h = if_ind IsAdapter l.observes (λ _. h) (λ _. h)

handle-IsAdapter :
    (l : Libcec) (i : Input) (a : LibcecAdapter) → IsAdapter a → IsAdapter (handle l i a)
unfolding handle initialize connection_lost command_received source_activated
handle-IsAdapter l initializes a h =
    if_ind Snd a.created (λ _. h) (λ c. create-IsAdapter l a (h.1 c))
handle-IsAdapter l opens a h = open_connection-IsAdapter l a h
handle-IsAdapter l loses a h =
    if_ind IsAdapter l.reports_loss (λ _. disconnected-IsAdapter a h)
      (λ _. disconnected-IsAdapter a h)
handle-IsAdapter l (calls c) a h = perform-IsAdapter l c a h
handle-IsAdapter l (receives k c) a h =
    Option_ind IsAdapter (observation k c) (λ _. h) (λ o _. observe-IsAdapter l o a h)
handle-IsAdapter l (activates logical activated) a h = observe-IsAdapter l _ a h

run_from : (l : Libcec) (is : List Input) (a : LibcecAdapter) → IsAdapter a → IsAdapter (run l is a)
unfolding run
run_from l [] a h = h
run_from l (i ∷ is) a h = run_from l is (handle l i a) (handle-IsAdapter l i a h)

-- Over any calls of the daemon and of libcec, whatever libcec answers or throws, an adapter that says
-- it is connected has an instance of libcec whose port is open, and one without an instance has no
-- port open and is not connected.
pub run-IsAdapter : (l : Libcec) (is : List Input) → IsAdapter (run l is new_adapter)
run-IsAdapter l is = run_from l is new_adapter (λ e. cc, λ e. (refl, refl))
