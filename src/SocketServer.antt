-- ===== src/SocketServer.antt =====
-- src/daemon/socket_server.h and socket_server.cpp: the server that takes the clients' requests.
-- A handler takes the server and returns the new one. The kernel, the event loop and the daemon's
-- command handler are the parameter `Outside`, which answers call after call; `send` and `recv`
-- answer with the first result that is not `EINTR`.
pub mod Sessions
pub mod Listener
pub mod Safe
pub mod Requests
pub mod Runs
pub mod Outcomes
use cec_control.Prelude.{
  ℕ, ◌+◌, ◌-◌, ◌%◌, ◌^◌, Bool, true, false, not, Option, none, some, List, [], ◌∷◌, ◌&&◌, ◌||◌,
  length, is_empty, ltb, leb, ◌==◌, if◌then◌else◌,
}
use cec_control.Message.{Message, message, resp_error, serialize, deserialize, max_message_size}
use Sessions.{Session, SessionMap, Mask, read, write, nothing, find_session, update, erase, emplace}

pub data Sent : Type 0 where
  sent would_block failed : Sent

-- With `MSG_TRUNC`, a datagram shows its whole length; an empty one is a peer that has closed.
pub data Received : Type 0 where
  datagram : List ℕ → Received
  no_datagram recv_failed : Received

pub data Accepted : Type 0 where
  client interrupted accept_failed : Accepted

-- What the command handler does before it returns: its calls of the sink, and whether it throws.
pub record Handling : Type 0 where
  pub replies : List Message
  pub threw : Bool

-- Each function takes the number of the call, as `Server.calls` counts them.
pub record Outside : Type 0 where
  pub send : ℕ → Sent
  pub recv : ℕ → Received
  pub add : ℕ → Bool
  pub modify : ℕ → Bool
  pub arm : ℕ → Bool
  pub handler : Option (ℕ → Message → Handling)

-- `wire` holds the datagrams that were sent, the newest first. `watches_listener` and
-- `watches_idle` tell whether the event loop has the listener and the timer.
pub record Server : Type 0 where
  pub sessions : SessionMap
  pub next_id : ℕ
  pub listening : Bool
  pub watches_listener : Bool
  pub watches_idle : Bool
  pub idle_armed : Bool
  pub now : ℕ
  pub calls : ℕ
  pub wire : List (ℕ × List ℕ)

abbrev pub fresh : Server
fresh = record {
  sessions = [];
  next_id = 1;
  listening = false;
  watches_listener = false;
  watches_idle = false;
  idle_armed = false;
  now = 0;
  calls = 0;
  wire = [];
}

abbrev pub max_connections : ℕ
max_connections = 10

-- `kClientIdleTimeout`, in milliseconds.
abbrev pub client_idle_timeout : ℕ
client_idle_timeout = 60000

-- The events of one callback.
pub record Events : Type 0 where
  pub reads : Bool
  pub writes : Bool
  pub errors : Bool

abbrev pub tick : Server → Server
tick s = record s { calls = s.calls + 1 }

-- A change of a session in place.
abbrev pub change : ℕ → (Session → Session) → Server → Server
change id f s = record s { sessions = update id f s.sessions }

unfoldable pub close_session : ℕ → Server → Server
close_session id s = record s { sessions = erase id s.sessions }

abbrev pub with_mask : Mask → Session → Session
with_mask m c = record c { mask = m }

-- `m_loop.modify`, with the close of the session and false where it fails.
unfoldable pub watch : Outside → ℕ → Mask → Server → Bool × Server
unfolding close_session
watch os id m s =
    if os.modify s.calls
    then (true, change id (with_mask m) (tick s))
    else (false, close_session id (tick s))

-- The response is out, at this time.
abbrev pub finish : ℕ → Session → Session
finish t c = record c {
  pending_response = [];
  request_in_flight = false;
  last_activity = t;
  answered = c.answered + 1;
}

abbrev pub keep : List ℕ → Session → Session
keep bytes c = record c { pending_response = bytes }

-- What follows a datagram that was sent.
unfoldable pub sent_out : Outside → ℕ → List ℕ → Server → Bool × Server
unfolding watch
sent_out os id bytes s =
    watch os id read (change id (finish s.now) (record s { wire = (id, bytes) ∷ s.wire }))

-- `sendResponse` after the lookup.
unfoldable pub answer : Outside → Sent → ℕ → List ℕ → Server → Server
unfolding sent_out watch close_session
answer os sent id bytes s = (sent_out os id bytes s).1
answer os would_block id bytes s = (watch os id write (change id (keep bytes) s)).1
answer os failed id bytes s = close_session id s

unfoldable pub send_response : Outside → ℕ → Message → Server → Server
unfolding answer find_session serialize
send_response os id m s = elim (find_session id s.sessions) [
  | none ↦ s
  | some c ↦ answer os (os.send s.calls) id (serialize m) (tick s)
]

-- `drainPendingSend` after the lookup.
unfoldable pub retry : Outside → Sent → ℕ → List ℕ → Server → Bool × Server
unfolding sent_out close_session
retry os sent id bytes s = sent_out os id bytes s
retry os would_block id bytes s = (true, s)
retry os failed id bytes s = (false, close_session id s)

-- False if the session is closed.
unfoldable pub drain_pending_send : Outside → ℕ → Server → Bool × Server
unfolding retry find_session
drain_pending_send os id s = elim (find_session id s.sessions) [
  | none ↦ (false, s)
  | some c ↦ retry os (os.send s.calls) id c.pending_response (tick s)
]

-- The sink's calls, in order.
unfoldable pub send_all : Outside → ℕ → List Message → Server → Server
unfolding send_response
send_all os id [] s = s
send_all os id (m ∷ ms) s = send_all os id ms (send_response os id m s)

unfoldable pub run_handler :
    Outside → Option (ℕ → Message → Handling) → ℕ → Message → Server → Server
unfolding send_all send_response
run_handler os none id m s = send_response os id (message resp_error) s
run_handler os (some h) id m s =
    let r = h s.calls m in
    let s' = send_all os id r.replies (tick s) in
    if r.threw then send_response os id (message resp_error) s' else s'

-- A request is in flight, at this time.
abbrev pub begin : ℕ → Session → Session
begin t c = record c { request_in_flight = true; last_activity = t; asked = c.asked + 1 }

unfoldable pub dispatch : Outside → ℕ → Message → Server → Server
unfolding watch run_handler
dispatch os id m s =
    let (ok, s') = watch os id nothing (change id (begin s.now) s) in
    if ok then run_handler os os.handler id m s' else s'

-- `processRequest` after `recv`.
unfoldable pub take_request : Outside → Received → ℕ → Server → Server
unfolding close_session dispatch deserialize
take_request os no_datagram id s = s
take_request os recv_failed id s = close_session id s
take_request os (datagram bytes) id s =
    if is_empty bytes || ltb max_message_size (length bytes)
    then close_session id s
    else elim (deserialize bytes) [ none ↦ close_session id s | some m ↦ dispatch os id m s ]

unfoldable pub process_request : Outside → ℕ → Server → Server
unfolding take_request
process_request os id s = take_request os (os.recv s.calls) id (tick s)

-- The events that remain once a queued response was retried.
unfoldable pub read_or_close : Outside → ℕ → Events → Server → Server
unfolding process_request close_session find_session
read_or_close os id e s =
    let hang_up = if e.errors then close_session id s else s in
    if e.reads
    then elim (find_session id s.sessions) [
      | none ↦ hang_up
      | some c ↦ if not c.request_in_flight then process_request os id s else hang_up
    ]
    else hang_up

unfoldable pub on_session_event : Outside → ℕ → Events → Server → Server
unfolding drain_pending_send read_or_close
on_session_event os id e s =
    if e.writes
    then (let (alive, s') = drain_pending_send os id s in
        if alive then read_or_close os id e s' else s')
    else read_or_close os id e s
