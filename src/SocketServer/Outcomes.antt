-- ===== src/SocketServer/Outcomes.antt =====
-- src/daemon/socket_server.cpp: what start, stop, the idle sweep and a response that has to wait
-- come to.
use cec_control.Prelude.{
  ℕ, zero, suc, ◌+◌, ◌<◌, ◌≡◌, ◌≢◌, ◌⊎◌, inl, inr, refl, leb, ◌||◌, ◌-◌, ap, ◌∙◌, Bool, true, false,
  not, ◌&&◌, some, List, [], ◌∷◌, All, keep_if, if_ind, arith,
}
use cec_control.Message.{Message, serialize}
use cec_control.SocketServer.{
  Server, Outside, sent, would_block, tick, change, close_session, keep, with_mask, watch, sent_out,
  answer, send_response, retry, drain_pending_send,
}
use cec_control.SocketServer.Sessions.{
  Session, SessionMap, write, find_session, update, erase, Distinct,
}
use cec_control.SocketServer.Listener.{
  expired, expired_ids, close_all, on_idle_sweep, stop, register, start,
}
use cec_control.SocketServer.Safe.{IsServer}

-- Nothing of the server is left.
pub record IsStopped (s : Server) : Type 0 where
  pub closed : s.listening ≡ false
  pub no_listener : s.watches_listener ≡ false
  pub no_idle : s.watches_idle ≡ false
  pub disarmed : s.idle_armed ≡ false
  pub empty : s.sessions ≡ []

pub record IsRunning (s : Server) : Type 0 where
  pub listens : s.listening ≡ true
  pub listener : s.watches_listener ≡ true
  pub idle : s.watches_idle ≡ true
  pub armed : s.idle_armed ≡ true

abbrev pub Rolled : Bool × Server → Type 0
Rolled r = ((r.0 ≡ true) × IsRunning r.1) ⊎ ((r.0 ≡ false) × IsStopped r.1)

-- The listener is closed only together with what the event loop holds of it.
stopped : (s : Server) → s.listening ≡ true → IsStopped (stop true s)
unfolding stop
stopped s l = record {
  closed = ground (arith, l);
  no_listener = ground (arith, l);
  no_idle = ground (arith, l);
  disarmed = ground (arith, l);
  empty = ground (arith, l);
}

register-Rolled : (os : Outside) (s : Server) → s.listening ≡ true → Rolled (register os s)
unfolding register
register-Rolled os s l =
    if_ind Rolled (not (os.add s.calls)) (λ _. inr (refl, stopped _ l))
      (λ _.
        if_ind Rolled (not (os.add (s.calls + 1))) (λ _. inr (refl, stopped _ l))
          (λ _.
            if_ind Rolled (not (os.arm (s.calls + 1 + 1))) (λ _. inr (refl, stopped _ l))
              (λ _.
                inl (refl, record { listens = l; listener = refl; idle = refl; armed = refl }))))

-- A start of a stopped server either succeeds, with the listener and the idle timer watched and the
-- timer armed, or it fails and leaves the server stopped: whichever of the checks, the bind, the two
-- registrations and the arming fails, what was set up before is undone.
pub start-Rolled :
    (os : Outside) (valid writable bound : Bool) (s : Server)
    → IsStopped s
    → Rolled (start os valid writable bound s)
unfolding start
start-Rolled os valid writable bound s h =
    if_ind Rolled s.listening (λ b. absurd (ground (arith, b, h.closed)))
      (λ _.
        if_ind Rolled (valid && writable && bound)
          (λ _. register-Rolled os (record s { listening = true }) refl) (λ _. inr (refl, h)))

-- The sessions that a list of closes leaves.
erase_all : List ℕ → SessionMap → SessionMap
unfolding erase
erase_all [] cs = cs
erase_all (id ∷ ids) cs = erase_all ids (erase id cs)

close_all-sessions :
    (ids : List ℕ) (s : Server) → (close_all ids s).sessions ≡ erase_all ids s.sessions
unfolding close_all close_session erase_all
close_all-sessions [] s = refl
close_all-sessions (id ∷ ids) s = close_all-sessions ids (close_session id s)

erase_all-head :
    (ids : List ℕ) (c : Session) (cs : SessionMap)
    → All (λ id. id ≢ c.id) ids
    → erase_all ids (c ∷ cs) ≡ c ∷ erase_all ids cs
unfolding erase_all erase
erase_all-head [] c cs h = refl
erase_all-head (id ∷ ids) c cs h = ground (arith, h.0, erase_all-head ids c (erase id cs) h.1)

erase_fresh : (id : ℕ) (cs : SessionMap) → All (λ d. d.id ≢ id) cs → erase id cs ≡ cs
unfolding erase
erase_fresh id [] h = refl
erase_fresh id (c ∷ cs) h = ground (arith, h.0, erase_fresh id cs h.1)

expired_ids-All :
    (t : ℕ) (P : ℕ → Type 0) (cs : SessionMap) → All (λ c. P c.id) cs → All P (expired_ids t cs)
unfolding expired_ids
expired_ids-All t P [] h = tt
expired_ids-All t P (c ∷ cs) h =
    if_ind (All P) (expired t c) (λ _. (h.0, expired_ids-All t P cs h.1))
      (λ _. expired_ids-All t P cs h.1)

erase_expired :
    (t : ℕ) (cs : SessionMap)
    → Distinct cs
    → erase_all (expired_ids t cs) cs ≡ keep_if (λ c. not (expired t c)) cs
unfolding expired_ids erase_all erase
erase_expired t [] d = refl
erase_expired t (c ∷ cs) d = ground (
  arith,
  erase_expired t cs d.1,
  erase_fresh c.id cs d.0,
  erase_all-head (expired_ids t cs) c cs (expired_ids-All t (λ id. id ≢ c.id) cs d.0),
)

-- What the sweep leaves, by its limit of 60000 milliseconds.
keep_if-expired :
    (t : ℕ) (cs : SessionMap)
    → keep_if (λ c. not (expired t c)) cs
      ≡ keep_if (λ c. c.request_in_flight || leb (t - c.last_activity) 60000) cs
unfolding expired
keep_if-expired t [] = refl
keep_if-expired t (c ∷ cs) = ground (arith, keep_if-expired t cs)

-- The idle sweep leaves exactly the sessions that have a request in flight or were active within the
-- last 60000 milliseconds, in their order, whatever else is open, as long as ids are distinct and
-- the limit and the sessions' states hold.
pub on_idle_sweep-sessions :
    (os : Outside) (s : Server)
    → IsServer s
    → (on_idle_sweep os s).sessions
      ≡ keep_if (λ c. c.request_in_flight || leb (s.now - c.last_activity) 60000) s.sessions
unfolding on_idle_sweep
on_idle_sweep-sessions os s h =
    close_all-sessions (expired_ids s.now s.sessions) (record s { idle_armed = false })
    ∙ erase_expired s.now s.sessions h.distinct
    ∙ keep_if-expired s.now s.sessions

find_session-update :
    (id : ℕ) (f : Session → Session) (cs : SessionMap) {c : Session}
    → ((c : Session) → (f c).id ≡ c.id)
    → find_session id cs ≡ some c
    → find_session id (update id f cs) ≡ some (f c)
unfolding find_session update
find_session-update id f [] k e = cc
find_session-update id f (x ∷ cs) {c = c} k e =
    ground (arith, e, k x, find_session-update id f cs {c = c} k)

drain_pending_send-wire :
    (os : Outside) (id : ℕ) (s : Server) (c : Session)
    → find_session id s.sessions ≡ some c
    → os.send s.calls ≡ sent
    → (drain_pending_send os id s).1.wire ≡ (id, c.pending_response) ∷ s.wire
unfolding drain_pending_send retry sent_out watch close_session
drain_pending_send-wire os id s c f e =
    rw (f, e, drain_pending_send, retry, sent_out, watch, tick)
      (if_ind (λ (r : Bool × Server). r.1.wire ≡ (id, c.pending_response) ∷ s.wire)
        (os.modify (s.calls + 1)) (λ _. refl) (λ _. refl))

send_response-blocked :
    (os : Outside) (id : ℕ) (m : Message) (s : Server) (c : Session)
    → find_session id s.sessions ≡ some c
    → os.send s.calls ≡ would_block
    → os.modify (s.calls + 1) ≡ true
    → send_response os id m s
      ≡ change id (with_mask write) (tick (change id (keep (serialize m)) (tick s)))
unfolding send_response answer watch
send_response-blocked os id m s c f e1 e2 = rw (f, e1, e2, send_response, answer, watch, tick) refl

-- Write events of a session, one after the other.
unfoldable pub drains : Outside → ℕ → ℕ → Server → Server
drains os id zero s = s
drains os id (suc n) s = drains os id n (drain_pending_send os id s).1

drain_pending_send-blocked :
    (os : Outside) (id : ℕ) (s : Server) (c : Session)
    → find_session id s.sessions ≡ some c
    → os.send s.calls ≡ would_block
    → (drain_pending_send os id s).1 ≡ tick s
unfolding drain_pending_send retry
drain_pending_send-blocked os id s c f e = rw (f, e, drain_pending_send, retry) refl

-- While the kernel takes nothing, what is queued stays queued.
drains-blocked :
    (os : Outside) (id n : ℕ) (s : Server) (c : Session)
    → find_session id s.sessions ≡ some c
    → ((k : ℕ) → k < n → os.send (s.calls + k) ≡ would_block)
    → drains os id n s ≡ record s { calls = s.calls + n }
unfolding drains
drains-blocked os id zero s c f b = ap (λ (i : ℕ). record s { calls = i }) (omega arith)
drains-blocked os id (suc n) s c f b =
    ap (drains os id n) (
      drain_pending_send-blocked os id s c f
        (ap (λ (i : ℕ). os.send i) (omega arith) ∙ b 0 (omega arith)))
    ∙ drains-blocked os id n (tick s) c f
        (λ k l. ap (λ (i : ℕ). os.send i) (omega arith) ∙ b (suc k) (omega (arith, l)))
    ∙ ap (λ (i : ℕ). record s { calls = i }) (omega arith)

-- A response that the kernel does not take at once is queued, and stays queued over any number of write
-- events of its session at which the kernel takes nothing; the first one at which it takes it sends the
-- same bytes, with nothing before them. The event loop accepts the session's mask.
pub drain_pending_send-send_response :
    (os : Outside) (id n : ℕ) (m : Message) (s : Server) (c : Session)
    → find_session id s.sessions ≡ some c
    → os.send s.calls ≡ would_block
    → os.modify (s.calls + 1) ≡ true
    → ((k : ℕ) → k < n → os.send (s.calls + 1 + 1 + k) ≡ would_block)
    → os.send (s.calls + 1 + 1 + n) ≡ sent
    → (drain_pending_send os id (drains os id n (send_response os id m s))).1.wire
      ≡ (id, serialize m) ∷ s.wire
drain_pending_send-send_response os id n m s c f e1 e2 b e3 =
    let t = change id (with_mask write) (tick (change id (keep (serialize m)) (tick s))) in
    let c' = with_mask write (keep (serialize m) c) in
    let found : find_session id t.sessions ≡ some c' =
      find_session-update id (with_mask write) (update id (keep (serialize m)) s.sessions)
        (λ x. refl) (find_session-update id (keep (serialize m)) s.sessions (λ x. refl) f) in
    ap (λ (u : Server). (drain_pending_send os id u).1.wire)
      (ap (drains os id n) (send_response-blocked os id m s c f e1 e2)
        ∙ drains-blocked os id n t c' found b)
    ∙ drain_pending_send-wire os id (record t { calls = t.calls + n }) c' found e3
