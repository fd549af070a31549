-- ===== src/SocketServer/Requests.antt =====
-- src/daemon/socket_server.cpp: a request keeps the state of each session, if the command handler
-- keeps the contract of `CommandHandler`.
use cec_control.Prelude.{
  ℕ, ◌+◌, ◌≤◌, ◌≡◌, ◌≢◌, refl, sym, subst, ◌∙◌, Bool, true, false, not, Option, none, some, List,
  [], ◌∷◌, length, is_empty, ltb, ◌||◌, if◌then◌else◌, if_ind, Option_ind, All-imp, arith,
}
use cec_control.Message.{Message, message, resp_error, deserialize, max_message_size}
use cec_control.SocketServer.{
  Server, Outside, Received, datagram, no_datagram, recv_failed, Handling, Events, tick, change,
  close_session, with_mask, watch, drain_pending_send, send_response, send_all, run_handler, begin,
  dispatch, take_request, process_request, read_or_close, on_session_event,
}
use cec_control.SocketServer.Sessions.{
  Session, SessionMap, Mask, read, write, nothing, find_session, update, Distinct, find_session-All,
}
use cec_control.SocketServer.Safe.{
  count, is_read, IsSession, IsMap, IsServer, On, AllOn, erase-IsMap, moved-IsMap, erase-update,
  send_response-IsServer, drain_pending_send-IsServer,
}

-- The handler calls its sink at most once before it returns, and does not throw after that.
abbrev pub IsOnce : Handling → Type 0
IsOnce r = length r.replies + count r.threw ≤ 1

abbrev pub IsContract : Outside → Type 0
IsContract os =
    (h : ℕ → Message → Handling) → os.handler ≡ some h → (n : ℕ) (m : Message) → IsOnce (h n m)

-- The session that is found is the only one of its id.
pub find_session-On :
    (m : Mask) (id : ℕ) (cs : SessionMap) {c : Session}
    → Distinct cs
    → find_session id cs ≡ some c
    → c.mask ≡ m
    → AllOn m id cs
unfolding find_session
find_session-On m id [] d e k = tt
find_session-On m id (x ∷ cs) {c = c} d e k =
    let others : x.id ≡ id → AllOn m id cs =
      λ p. All-imp (λ y. y.id ≢ x.id) (On m id) cs (λ y n q. absurd (n (q ∙ sym p))) d.0 in
    (λ p. ground (arith, p), ground (arith, others, find_session-On m id cs {c = c} d.1))

masked-On : (m : Mask) (id : ℕ) (cs : SessionMap) → AllOn m id (update id (with_mask m) cs)
unfolding update
masked-On m id [] = tt
masked-On m id (c ∷ cs) = (λ e. ground arith, masked-On m id cs)

is_read-read : (m : Mask) → is_read m ≡ true → m ≡ read
is_read-read read e = refl
is_read-read write e = cc
is_read-read nothing e = cc

-- A session that is not in flight is read.
reading : (c : Session) → IsSession c → c.request_in_flight ≡ false → c.mask ≡ read
reading c h k = is_read-read c.mask (ground (arith, h.in_flight))

module _ (os : Outside) (contract : IsContract os) where
  answers-IsServer :
      (id : ℕ) (replies : List Message) (threw : Bool) (s : Server)
      → length replies + count threw ≤ 1
      → IsServer s
      → AllOn nothing id s.sessions
      → IsServer (
          let s' = send_all os id replies s in
          if threw then send_response os id (message resp_error) s' else s')
  unfolding send_all
  answers-IsServer id [] true s o h on = send_response-IsServer os id (message resp_error) s h on
  answers-IsServer id [] false s o h on = h
  answers-IsServer id (m ∷ []) true s o h on = absurd (omega arith)
  answers-IsServer id (m ∷ []) false s o h on = send_response-IsServer os id m s h on
  answers-IsServer id (m ∷ n ∷ ms) threw s o h on = absurd (omega arith)

  run_handler-IsServer :
      (o : Option (ℕ → Message → Handling)) (id : ℕ) (m : Message) (s : Server)
      → os.handler ≡ o
      → IsServer s
      → AllOn nothing id s.sessions
      → IsServer (run_handler os o id m s)
  unfolding run_handler
  run_handler-IsServer none id m s e h on = send_response-IsServer os id (message resp_error) s h on
  run_handler-IsServer (some f) id m s e h on =
      let r = f s.calls m in
      answers-IsServer id r.replies r.threw (tick s) (contract f e s.calls m) h on

  begin_moves :
      (t : ℕ) (c : Session)
      → c.mask ≡ read
      → IsSession c
      → IsSession (with_mask nothing (begin t c))
  begin_moves t c e p = record {
    in_flight = refl;
    queued = ground (arith, p.queued, e);
    paired = ground (arith, p.paired, p.in_flight, e);
  }

  dispatch-IsServer :
      (id : ℕ) (m : Message) (s : Server)
      → IsServer s
      → AllOn read id s.sessions
      → IsServer (dispatch os id m s)
  unfolding dispatch watch close_session
  dispatch-IsServer id m s h on =
      if_ind
        (λ (r : Bool × Server). IsServer (if r.0 then run_handler os os.handler id m r.1 else r.1))
        (os.modify s.calls)
        (λ _.
          run_handler-IsServer os.handler id m
            (change id (with_mask nothing) (tick (change id (begin s.now) s))) refl
            (moved-IsMap read nothing id (begin s.now) (λ c. refl) (begin_moves s.now) s.sessions h
              on)
            (masked-On nothing id (update id (begin s.now) s.sessions)))
        (λ _.
          subst IsMap (sym (erase-update id (begin s.now) s.sessions (λ c. refl)))
            (erase-IsMap id s.sessions h))

  take_request-IsServer :
      (r : Received) (id : ℕ) (s : Server)
      → IsServer s
      → AllOn read id s.sessions
      → IsServer (take_request os r id s)
  unfolding take_request close_session
  take_request-IsServer no_datagram id s h on = h
  take_request-IsServer recv_failed id s h on = erase-IsMap id s.sessions h
  take_request-IsServer (datagram bytes) id s h on =
      if_ind IsServer (is_empty bytes || ltb max_message_size (length bytes))
        (λ _. erase-IsMap id s.sessions h)
        (λ _.
          Option_ind IsServer (deserialize bytes) (λ _. erase-IsMap id s.sessions h)
            (λ m _. dispatch-IsServer id m s h on))

  read_or_close-IsServer :
      (id : ℕ) (e : Events) (s : Server) → IsServer s → IsServer (read_or_close os id e s)
  unfolding read_or_close close_session process_request
  read_or_close-IsServer id e s h =
      let hang_up =
        if_ind IsServer e.errors {x = close_session id s} {y = s} (λ _. erase-IsMap id s.sessions h)
          (λ _. h) in
      if_ind IsServer e.reads
        (λ _.
          Option_ind IsServer (find_session id s.sessions) (λ _. hang_up)
            (λ c f.
              if_ind IsServer (not c.request_in_flight)
                (λ b. take_request-IsServer (os.recv s.calls) id (tick s) h (
                  find_session-On read id s.sessions h.distinct f (
                    reading c (find_session-All IsSession id s.sessions h.sound f)
                      (ground (arith, b)))))
                (λ _. hang_up)))
        (λ _. hang_up)

  -- A write is reported only while it is watched for.
  pub on_session_event-IsServer :
      (id : ℕ) (e : Events) (s : Server)
      → IsServer s
      → (e.writes ≡ true → AllOn write id s.sessions)
      → IsServer (on_session_event os id e s)
  unfolding on_session_event
  on_session_event-IsServer id e s h on =
      if_ind IsServer e.writes
        (λ b.
          let d = drain_pending_send-IsServer os id s h (on b) in
          if_ind IsServer (drain_pending_send os id s).0
            (λ _. read_or_close-IsServer id e (drain_pending_send os id s).1 d) (λ _. d))
        (λ _. read_or_close-IsServer id e s h)
