-- ===== src/Examples/Sockets.antt =====
-- The socket server at concrete inputs.
use cec_control.Prelude.{
  ℕ, ◌<◌, ltb, if◌then◌else◌, ◌+◌, ◌≡◌, refl, leb, ◌||◌, ◌-◌, arith, true, false, some, [], ◌∷◌,
  keep_if,
}
use cec_control.Message.{message, resp_success, serialize, deserialize, of_raw}
use cec_control.SocketServer.{
  Server, Outside, fresh, client, interrupted, datagram, sent, would_block, watch, send_response,
  drain_pending_send, send_all, run_handler, dispatch, take_request, process_request, read_or_close,
  on_session_event,
}
use cec_control.SocketServer.Sessions.{find_session, nothing, update, emplace}
use cec_control.SocketServer.Listener.{
  new_session, admit, accept_all, on_accept_ready, register, start, on_idle_sweep,
}
use cec_control.SocketServer.Safe.{AllOn, IsServer}
use cec_control.SocketServer.Requests.{IsContract}
use cec_control.SocketServer.Runs.{
  Reachable, at_first, next, accepts, session_event, responds, starts, waits, Reachable-IsServer,
}
use cec_control.SocketServer.Outcomes.{
  Rolled, start-Rolled, on_idle_sweep-sessions, drains, drain_pending_send-send_response,
}

-- Everything succeeds, each datagram asks to turn the volume up, and the handler defers its reply.
abbrev deferring : Outside
deferring = record {
  send = λ n. sent;
  recv = λ n. datagram (1 ∷ 0 ∷ []);
  add = λ n. true;
  modify = λ n. true;
  arm = λ n. true;
  handler = some (λ n m. record { replies = []; threw = false });
}

deferring-IsContract : IsContract deferring
deferring-IsContract h e n m = ground (arith, e)

abbrev accepted : Server
accepted =
    on_accept_ready deferring (interrupted ∷ client ∷ client ∷ [])
      (start deferring true true true fresh).1

abbrev asked : Server
asked =
    on_session_event deferring 2 (record { reads = true; writes = false; errors = false })
      (record accepted { now = accepted.now + 500 })

accepted-Reachable : Reachable deferring accepted
accepted-Reachable =
    next (next at_first (starts true true true)) (accepts (interrupted ∷ client ∷ client ∷ []))

asked-Reachable : Reachable deferring asked
asked-Reachable =
    next (next accepted-Reachable (waits 500))
      (session_event 2 (record { reads = true; writes = false; errors = false }) (λ e. cc))

asked-AllOn : AllOn nothing 2 asked.sessions
unfolding start register on_accept_ready accept_all admit emplace find_session on_session_event
    read_or_close process_request take_request dispatch watch run_handler send_all update
    deserialize of_raw
asked-AllOn = (λ e. absurd (omega (arith, e)), (λ e. refl, tt))

Reachable-IsServer_example : IsServer (send_response deferring 2 (message resp_success) asked)
Reachable-IsServer_example =
    Reachable-IsServer deferring deferring-IsContract
      (next asked-Reachable (responds 2 (message resp_success) asked-AllOn))

abbrev unarmed : Outside
unarmed = record deferring { arm = λ n. false }

start-Rolled_example : Rolled (start unarmed true true true fresh)
start-Rolled_example =
    start-Rolled unarmed true true true fresh
      (record { closed = refl; no_listener = refl; no_idle = refl; disarmed = refl; empty = refl })

abbrev late : Server
late = record asked { now = asked.now + 69500 }

on_idle_sweep-sessions_example :
    (on_idle_sweep deferring late).sessions
    ≡ keep_if (λ c. c.request_in_flight || leb (late.now - c.last_activity) 60000) late.sessions
on_idle_sweep-sessions_example =
    on_idle_sweep-sessions deferring late
      (Reachable-IsServer deferring deferring-IsContract (next asked-Reachable (waits 69500)))

-- The first send would block, and the second does not.
abbrev slow : Outside
slow = record deferring { send = λ n. if ltb n 4 then would_block else sent }

abbrev one_session : Server
one_session = record fresh { sessions = new_session 1 0 ∷ []; next_id = 2 }

find_one : find_session 1 one_session.sessions ≡ some (new_session 1 0)
unfolding find_session
find_one = refl

slow_blocks : (k : ℕ) → k < 2 → slow.send (0 + 1 + 1 + k) ≡ would_block
slow_blocks k l = ground (arith, l)

drain_pending_send-send_response_example :
    (drain_pending_send slow 1
      (drains slow 1 2 (send_response slow 1 (message resp_success) one_session))).1.wire
    ≡ (1, serialize (message resp_success)) ∷ []
drain_pending_send-send_response_example =
    drain_pending_send-send_response slow 1 2 (message resp_success) one_session (new_session 1 0)
      find_one refl refl slow_blocks refl
