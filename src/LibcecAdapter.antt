-- ===== src/LibcecAdapter.antt =====
-- src/daemon/cec/libcec_adapter.h and libcec_adapter.cpp: `ICecAdapter` on libcec, which stands outside
-- the repository: the parameter `Libcec` answers by the number of the call.
pub mod Commands
pub mod Connected
pub mod Recovers
use cec_control.Prelude.{
  ℕ, ◌+◌, Bool, true, false, not, Option, none, some, List, [], ◌∷◌, ◌&&◌, is_empty, if◌then◌else◌,
  Text,
}
use cec_control.Adapter.{
  Call, reopen_connection, close_connection, Outcome, returned, threw, Backend,
}
use cec_control.Standby.{Observation, host_activated, host_deactivated}

-- How `Close` ends: also with an exception that is a `std::exception`, or one that is not.
pub data Closing : Type 0 where
  closed threw_std threw_other : Closing

-- `bus` are the calls on the bus and the milliseconds that calls take. `wants_audio` is
-- `activateSource || systemAudioMode` of the configuration; the callbacks are there or not.
pub record Libcec : Type 0 where
  pub initialise : ℕ → Bool
  pub detect : ℕ → Option Text
  pub set_configuration : ℕ → Outcome Bool
  pub open_port : ℕ → Outcome Bool
  pub audio_enable : ℕ → Outcome Bool
  pub set_inactive_view : ℕ → Outcome Bool
  pub close : ℕ → Closing
  pub bus : ℕ → Call → Outcome Bool
  pub takes : ℕ → Call → ℕ
  pub wants_audio : Bool
  pub observes : Bool
  pub reports_loss : Bool

-- `created` tells whether `m_adapter` is there, `opened` whether its port was opened and not closed.
-- `losses` counts the calls of the connection-lost callback; `observations` has those of the other,
-- the newest first.
pub record LibcecAdapter : Type 0 where
  pub created : Bool
  pub connected : Bool
  pub port_name : Text
  pub opened : Bool
  pub losses : ℕ
  pub observations : List Observation
  pub calls : ℕ

abbrev pub new_adapter : LibcecAdapter
new_adapter = record {
  created = false;
  connected = false;
  port_name = [];
  opened = false;
  losses = 0;
  observations = [];
  calls = 0;
}

abbrev pub tick : LibcecAdapter → LibcecAdapter
tick a = record a { calls = a.calls + 1 }

-- `CECInitialise` and `detectAdapter`: an instance whose adapter is not found is destroyed.
unfoldable pub detected : Option Text → LibcecAdapter → Bool × LibcecAdapter
detected none a = (false, record a { created = false })
detected (some port) a = (true, record a { port_name = port })

unfoldable pub create : Libcec → LibcecAdapter → Bool × LibcecAdapter
unfolding detected
create l a =
    if l.initialise a.calls
    then detected (l.detect (a.calls + 1)) (tick (tick (record a { created = true })))
    else (false, record (tick a) { created = false })

unfoldable pub initialize : Libcec → LibcecAdapter → Bool × LibcecAdapter
unfolding create
initialize l a = if a.created then (true, a) else create l a

-- The steps inside the `try` of `openConnection`; an exception leaves the adapter not connected.
unfoldable pub enabled : Outcome Bool → LibcecAdapter → Bool × LibcecAdapter
enabled threw a = (false, record a { connected = false })
enabled (returned ok) a = (true, a)

unfoldable pub port_opened : Libcec → Outcome Bool → LibcecAdapter → Bool × LibcecAdapter
unfolding enabled
port_opened l threw a = (false, record a { connected = false })
port_opened l (returned false) a = (false, a)
port_opened l (returned true) a =
    let a' = record a { connected = true; opened = true } in
    if l.wants_audio then enabled (l.audio_enable a'.calls) (tick a') else (true, a')

unfoldable pub configured : Libcec → Outcome Bool → LibcecAdapter → Bool × LibcecAdapter
unfolding port_opened
configured l threw a = (false, record a { connected = false })
configured l (returned ok) a = port_opened l (l.open_port a.calls) (tick a)

unfoldable pub open_connection : Libcec → LibcecAdapter → Bool × LibcecAdapter
unfolding configured
open_connection l a =
    if not a.created
    then (false, a)
    else if a.connected
    then (true, a)
    else if is_empty a.port_name
    then (false, a)
    else configured l (l.set_configuration a.calls) (tick a)

-- `Close`, which closes the port unless it throws.
unfoldable pub close_port : Closing → LibcecAdapter → LibcecAdapter
close_port closed a = record a { opened = false }
close_port _ a = a

unfoldable pub after_inactive_view : Libcec → Outcome Bool → LibcecAdapter → LibcecAdapter
unfolding close_port
after_inactive_view l threw a = a
after_inactive_view l (returned ok) a = close_port (l.close a.calls) (tick a)

unfoldable pub close_connection_now : Libcec → LibcecAdapter → LibcecAdapter
unfolding after_inactive_view
close_connection_now l a =
    if not a.connected
    then a
    else let a' = record a { connected = false } in
      if not a.created then a' else after_inactive_view l (l.set_inactive_view a'.calls) (tick a')

-- `reopenConnection` once no instance is left: another is created and opened.
unfoldable pub recreate : Libcec → LibcecAdapter → Outcome Bool × LibcecAdapter
unfolding create open_connection
recreate l a =
    let (ok, a') = create l a in
    let (opened, a'') = open_connection l a' in
    if ok then (returned opened, a'') else (returned false, a')

-- Only a `std::exception` of `Close` is caught.
unfoldable pub reopened : Libcec → Closing → LibcecAdapter → Outcome Bool × LibcecAdapter
unfolding recreate
reopened l threw_other a = (threw, a)
reopened l _ a = recreate l (record a { created = false; opened = false })

unfoldable pub reopen_connection_now : Libcec → LibcecAdapter → Outcome Bool × LibcecAdapter
unfolding recreate reopened
reopen_connection_now l a =
    if a.created
    then reopened l (l.close a.calls) (tick (record a { connected = false }))
    else recreate l a

-- `callIfConnected`, with false as its answer where the adapter is not connected.
unfoldable pub call_if_connected : Libcec → Call → LibcecAdapter → Outcome Bool × LibcecAdapter
call_if_connected l c a =
    if a.created && a.connected then (l.bus a.calls c, tick a) else (returned false, a)

-- A virtual call of the interface.
unfoldable pub perform : Libcec → Call → LibcecAdapter → Outcome Bool × LibcecAdapter
unfolding reopen_connection_now close_connection_now call_if_connected
perform l reopen_connection a = reopen_connection_now l a
perform l close_connection a = (returned true, close_connection_now l a)
perform l c a = call_if_connected l c a

-- `cecAlertCallback` on a lost connection; the other alerts are only logged.
unfoldable pub connection_lost : Libcec → LibcecAdapter → LibcecAdapter
connection_lost l a =
    let a' = record a { connected = false } in
    if l.reports_loss then record a' { losses = a.losses + 1 } else a'

unfoldable pub observe : Libcec → Observation → LibcecAdapter → LibcecAdapter
observe l o a = if l.observes then record a { observations = o ∷ a.observations } else a

unfoldable pub source_activated : Libcec → ℕ → Bool → LibcecAdapter → LibcecAdapter
unfolding observe
source_activated l logical activated a =
    observe l (if activated then host_activated logical else host_deactivated logical) a

-- The adapter fills the interface that the daemon's worker uses.
abbrev pub backend : Libcec → Backend LibcecAdapter
unfolding perform
backend l = record {
  is_connected = λ a. a.connected;
  answer = λ c a. (perform l c a).0;
  after = λ c a. (perform l c a).1;
  takes = λ c a. l.takes a.calls c;
}
