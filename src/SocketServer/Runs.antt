-- ===== src/SocketServer/Runs.antt =====
-- src/daemon/socket_server.cpp: the server as the event loop runs it, one callback after another.
use cec_control.Prelude.{
  ℕ, ◌+◌, ◌<◌, ◌≡◌, ◌≢◌, refl, Bool, true, false, not, ◌&&◌, none, List, [], ◌∷◌, length, All, leb,
  if_ind, Option_ind, length-append, arith,
}
use cec_control.Message.{Message}
use cec_control.SocketServer.{
  Server, Outside, Events, Accepted, client, interrupted, accept_failed, fresh, max_connections,
  tick, close_session, send_response, on_session_event,
}
use cec_control.SocketServer.Sessions.{
  Session, SessionMap, write, nothing, find_session, emplace, append-All,
}
use cec_control.SocketServer.Listener.{
  new_session, admit, accept_all, on_accept_ready, expired_ids, close_all, on_idle_sweep, stop,
  register, start,
}
use cec_control.SocketServer.Safe.{
  IsSession, IsMap, IsServer, AllOn, append-Distinct, erase-IsMap, send_response-IsServer,
}
use cec_control.SocketServer.Requests.{IsContract, on_session_event-IsServer}

find_session-none : (id : ℕ) (cs : SessionMap) → find_session id cs ≡ none → All (λ d. d.id ≢ id) cs
unfolding find_session
find_session-none id [] e = tt
find_session-none id (c ∷ cs) e = (ground (arith, e), find_session-none id cs (ground (arith, e)))

empty-IsMap : IsMap []
empty-IsMap = record { sound = tt; limit = omega arith; distinct = tt }

emplace-IsMap :
    (c : Session) (cs : SessionMap)
    → IsSession c
    → IsMap cs
    → length cs < max_connections
    → IsMap (emplace c cs)
unfolding emplace
emplace-IsMap c cs p h l =
    Option_ind IsMap (find_session c.id cs)
      (λ e. record {
        sound = append-All IsSession c cs h.sound p;
        limit = omega (arith, length-append cs (c ∷ []));
        distinct = append-Distinct c cs h.distinct (find_session-none c.id cs e);
      })
      (λ d _. h)

module _ (os : Outside) where
  admit-IsServer : (s : Server) → IsServer s → IsServer (admit os s)
  unfolding admit
  admit-IsServer s h =
      if_ind IsServer (leb max_connections (length s.sessions)) (λ _. h)
        (λ b.
          if_ind IsServer (os.add s.calls)
            (λ _.
              emplace-IsMap (new_session s.next_id s.now) s.sessions
                (record { in_flight = refl; queued = refl; paired = refl }) h (ground (arith, b)))
            (λ _. h))

  accept_all-IsServer :
      (answers : List Accepted) (s : Server) → IsServer s → IsServer (accept_all os answers s)
  unfolding accept_all
  accept_all-IsServer [] s h = h
  accept_all-IsServer (client ∷ rest) s h =
      accept_all-IsServer rest (admit os s) (admit-IsServer s h)
  accept_all-IsServer (interrupted ∷ rest) s h = accept_all-IsServer rest s h
  accept_all-IsServer (accept_failed ∷ rest) s h = h

  close_all-IsServer : (ids : List ℕ) (s : Server) → IsServer s → IsServer (close_all ids s)
  unfolding close_all close_session
  close_all-IsServer [] s h = h
  close_all-IsServer (id ∷ ids) s h =
      close_all-IsServer ids (close_session id s) (erase-IsMap id s.sessions h)

stop-IsServer : (valid : Bool) (s : Server) → IsServer s → IsServer (stop valid s)
unfolding stop
stop-IsServer valid s h = if_ind IsServer _ (λ _. h) (λ _. empty-IsMap)

abbrev Snd : Bool × Server → Type 0
Snd r = IsServer r.1

register-IsServer : (os : Outside) (s : Server) → IsServer s → IsServer (register os s).1
unfolding register
register-IsServer os s h =
    if_ind Snd (not (os.add s.calls)) (λ _. stop-IsServer true (tick s) h)
      (λ _.
        if_ind Snd (not (os.add (s.calls + 1))) (λ _. stop-IsServer true _ h)
          (λ _. if_ind Snd (not (os.arm (s.calls + 1 + 1))) (λ _. stop-IsServer true _ h) (λ _. h)))

-- One callback of the event loop, or one call of a public operation. A write is reported only for a
-- session that is watched for it; a response comes only for a session that waits for one, or that
-- is closed; each request's handler keeps its contract.
pub data Step (os : Outside) : Server → Server → Type 0 where
  accepts : {s : Server} (answers : List Accepted) → Step os s (on_accept_ready os answers s)
  session_event :
      {s : Server} (id : ℕ) (e : Events)
      → (e.writes ≡ true → AllOn write id s.sessions)
      → Step os s (on_session_event os id e s)
  responds :
      {s : Server} (id : ℕ) (m : Message)
      → AllOn nothing id s.sessions
      → Step os s (send_response os id m s)
  sweeps : {s : Server} → Step os s (on_idle_sweep os s)
  waits : {s : Server} (t : ℕ) → Step os s (record s { now = s.now + t })
  starts :
      {s : Server} (valid writable bound : Bool) → Step os s (start os valid writable bound s).1
  stops : {s : Server} (valid : Bool) → Step os s (stop valid s)

pub data Reachable (os : Outside) : Server → Type 0 where
  at_first : Reachable os fresh
  next : {s t : Server} → Reachable os s → Step os s t → Reachable os t

module _ (os : Outside) (contract : IsContract os) where
  step-IsServer : {s t : Server} → Step os s t → IsServer s → IsServer t
  unfolding on_accept_ready on_idle_sweep start
  step-IsServer {s = s} (accepts answers) h =
      if_ind IsServer s.listening (λ _. accept_all-IsServer os answers s h) (λ _. h)
  step-IsServer {s = s} (session_event id e on) h =
      on_session_event-IsServer os contract id e s h on
  step-IsServer {s = s} (responds id m on) h = send_response-IsServer os id m s h on
  step-IsServer {s = s} sweeps h =
      close_all-IsServer os (expired_ids s.now s.sessions) (record s { idle_armed = false }) h
  step-IsServer (waits t) h = h
  step-IsServer {s = s} (starts valid writable bound) h =
      if_ind Snd s.listening (λ _. h)
        (λ _.
          if_ind Snd (valid && writable && bound)
            (λ _. register-IsServer os (record s { listening = true }) h) (λ _. h))
  step-IsServer {s = s} (stops valid) h = stop-IsServer valid s h

  -- Every server that callbacks lead to from a fresh one keeps to the limit of ten sessions, with
  -- distinct ids. Each session is in one of three states: it reads, with no request in flight and
  -- no response queued; it waits, with a request in flight, no response queued and no event
  -- watched; or it writes, with the request still in flight and a response queued. In all of them
  -- the session has sent one response for each request that it has taken, but for the one in
  -- flight. The command handler is to call its sink at most once.
  pub Reachable-IsServer : {s : Server} → Reachable os s → IsServer s
  Reachable-IsServer at_first = empty-IsMap
  Reachable-IsServer (next r step) = step-IsServer step (Reachable-IsServer r)
