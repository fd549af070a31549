-- ===== src/SocketServer/Listener.antt =====
-- src/daemon/socket_server.cpp: the listening socket, its start and stop, and the idle sweep.
use cec_control.Prelude.{
  ℕ, ◌+◌, ◌-◌, ◌%◌, ◌^◌, Bool, true, false, not, List, [], ◌∷◌, ◌&&◌, length, is_empty, ltb, leb,
  if◌then◌else◌,
}
use cec_control.SocketServer.{
  Server, Outside, Accepted, client, interrupted, accept_failed, max_connections,
  client_idle_timeout, tick, close_session,
}
use cec_control.SocketServer.Sessions.{Session, SessionMap, read, emplace}

abbrev pub new_session : ℕ → ℕ → Session
new_session id t = record {
  id = id;
  last_activity = t;
  pending_response = [];
  request_in_flight = false;
  mask = read;
  asked = 0;
  answered = 0;
}

-- One client that was accepted. An id is used up even if the event loop refuses the descriptor.
unfoldable pub admit : Outside → Server → Server
unfolding emplace
admit os s =
    if leb max_connections (length s.sessions)
    then s
    else let id = s.next_id in
      let s' = record (tick s) { next_id = (id + 1) % 2 ^ 64 } in
      if os.add s.calls
      then record s' { sessions = emplace (new_session id s.now) s.sessions }
      else s'

-- The loop of `onAcceptReady`, over the answers of `accept`; the one after the last is `EAGAIN`.
unfoldable pub accept_all : Outside → List Accepted → Server → Server
unfolding admit
accept_all os [] s = s
accept_all os (client ∷ answers) s = accept_all os answers (admit os s)
accept_all os (interrupted ∷ answers) s = accept_all os answers s
accept_all os (accept_failed ∷ answers) s = s

unfoldable pub on_accept_ready : Outside → List Accepted → Server → Server
unfolding accept_all
on_accept_ready os answers s = if s.listening then accept_all os answers s else s

unfoldable pub expired : ℕ → Session → Bool
expired now c = not c.request_in_flight && ltb client_idle_timeout (now - c.last_activity)

unfoldable pub expired_ids : ℕ → SessionMap → List ℕ
unfolding expired
expired_ids now [] = []
expired_ids now (c ∷ cs) =
    let rest = expired_ids now cs in if expired now c then c.id ∷ rest else rest

unfoldable pub close_all : List ℕ → Server → Server
unfolding close_session
close_all [] s = s
close_all (id ∷ ids) s = close_all ids (close_session id s)

-- `consume` has the timer no longer armed.
unfoldable pub on_idle_sweep : Outside → Server → Server
unfolding close_all expired_ids
on_idle_sweep os s =
    let s' = close_all (expired_ids s.now s.sessions) (record s { idle_armed = false }) in
    record (tick s') { idle_armed = os.arm s'.calls }

-- `idle_valid` tells whether the timer's descriptor exists.
unfoldable pub stop : Bool → Server → Server
stop idle_valid s = if not s.listening && is_empty s.sessions then s else record s {
  watches_idle = if idle_valid then false else s.watches_idle;
  idle_armed = if idle_valid then false else s.idle_armed;
  watches_listener = if s.listening then false else s.watches_listener;
  listening = false;
  sessions = [];
}

-- Once the socket listens: each registration, undone by `stop` if it fails.
unfoldable pub register : Outside → Server → Bool × Server
unfolding stop
register os s =
    if not (os.add s.calls)
    then (false, stop true (tick s))
    else let s1 = record (tick s) { watches_listener = true } in
      if not (os.add s1.calls)
      then (false, stop true (tick s1))
      else let s2 = record (tick s1) { watches_idle = true } in
        if not (os.arm s2.calls)
        then (false, stop true (tick s2))
        else (true, record (tick s2) { idle_armed = true })

-- `idle_valid`, `writable` and `bound` are the answers of `valid`, `access` and `listen`.
unfoldable pub start : Outside → Bool → Bool → Bool → Server → Bool × Server
unfolding register
start os idle_valid writable bound s =
    if s.listening
    then (true, s)
    else if idle_valid && writable && bound
    then register os (record s { listening = true })
    else (false, s)
