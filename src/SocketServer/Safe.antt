-- ===== src/SocketServer/Safe.antt =====
-- src/daemon/socket_server.cpp: the state that each session is in, which every operation keeps.
use cec_control.Prelude.{
  ℕ, ◌+◌, ◌≤◌, ◌≡◌, ◌≢◌, refl, Bool, true, false, not, List, [], ◌∷◌, ◌++◌, length, All, is_empty,
  if◌then◌else◌, ◌==◌, if_ind, Option_ind, All-both, subst, ◌∙◌, sym, arith,
}
use cec_control.Message.{Message, serialize}
use cec_control.SocketServer.{
  Server, Outside, Sent, sent, would_block, failed, max_connections, tick, change, close_session,
  with_mask, watch, finish, keep, sent_out, answer, send_response, retry, drain_pending_send,
}
use cec_control.SocketServer.Sessions.{
  Session, SessionMap, Mask, read, write, nothing, find_session, update, erase, Distinct,
  update-All, erase-All, append-All, length-update, length-erase,
}

abbrev pub is_read : Mask → Bool
is_read read = true
is_read _ = false

abbrev pub is_write : Mask → Bool
is_write write = true
is_write _ = false

abbrev pub count : Bool → ℕ
count true = 1
count false = 0

-- A request is in flight exactly if the descriptor is not read, a response is queued exactly if the
-- descriptor is written, and each request but the one in flight has had one response.
pub record IsSession (c : Session) : Type 0 where
  pub in_flight : c.request_in_flight ≡ not (is_read c.mask)
  pub queued : is_empty c.pending_response ≡ not (is_write c.mask)
  pub paired : c.asked ≡ c.answered + count c.request_in_flight

pub record IsMap (cs : SessionMap) : Type 0 where
  pub sound : All IsSession cs
  pub limit : length cs ≤ max_connections
  pub distinct : Distinct cs

abbrev pub IsServer : Server → Type 0
IsServer s = IsMap s.sessions

-- The session of this id, if it is still open, waits on this mask.
abbrev pub On : Mask → ℕ → Session → Type 0
On m id c = c.id ≡ id → c.mask ≡ m

abbrev pub AllOn : Mask → ℕ → SessionMap → Type 0
AllOn m id cs = All (On m id) cs

-- A change that keeps the ids keeps them distinct.
pub update-Distinct :
    (id : ℕ) (f : Session → Session) (cs : SessionMap)
    → ((c : Session) → (f c).id ≡ c.id)
    → Distinct cs
    → Distinct (update id f cs)
unfolding update
update-Distinct id f [] k d = tt
update-Distinct id f (c ∷ cs) k (a, d) = (
  update-All (λ e. e.id ≢ c.id) (λ e. e.id ≢ (if c.id == id then f c else c).id) id f cs
      (λ e p h. ground (arith, k e, k c, h)) (λ e p h. ground (arith, k c, h)) a,
  update-Distinct id f cs k d,
)

pub erase-Distinct : (id : ℕ) (cs : SessionMap) → Distinct cs → Distinct (erase id cs)
unfolding erase
erase-Distinct id [] d = tt
erase-Distinct id (c ∷ cs) (a, d) = ground (
  arith,
  erase-Distinct id cs d,
  erase-All (λ e. e.id ≢ c.id) (λ e. e.id ≢ c.id) id cs (λ e p h. h) a,
)

pub append-Distinct :
    (c : Session) (cs : SessionMap)
    → Distinct cs
    → All (λ d. d.id ≢ c.id) cs
    → Distinct (cs ++ c ∷ [])
append-Distinct c [] d a = (tt, tt)
append-Distinct c (e ∷ cs) d a =
    (append-All (λ x. x.id ≢ e.id) c cs d.0 (λ p. a.0 (sym p)), append-Distinct c cs d.1 a.1)

pub erase-update :
    (id : ℕ) (f : Session → Session) (cs : SessionMap)
    → ((c : Session) → (f c).id ≡ c.id)
    → erase id (update id f cs) ≡ erase id cs
unfolding update erase
erase-update id f [] k = refl
erase-update id f (c ∷ cs) k = ground (arith, erase-update id f cs k, k c)

pub erase-IsMap : (id : ℕ) (cs : SessionMap) → IsMap cs → IsMap (erase id cs)
erase-IsMap id cs h = record {
  sound = erase-All IsSession IsSession id cs (λ c e p. p) h.sound;
  limit = omega (arith, length-erase id cs, h.limit);
  distinct = erase-Distinct id cs h.distinct;
}

-- A change of a session and then of its mask.
module _ (from to : Mask) (id : ℕ) (f : Session → Session)
    (keeps_id : (c : Session) → (f c).id ≡ c.id)
    (moves : (c : Session) → c.mask ≡ from → IsSession c → IsSession (with_mask to (f c))) where
  abbrev Between : Session → Type 0
  Between c = (c.id ≡ id → IsSession (with_mask to c)) × (c.id ≢ id → IsSession c)

  change-Between :
      (cs : SessionMap) → All IsSession cs → AllOn from id cs → All Between (update id f cs)
  change-Between cs h on =
      update-All (λ c. IsSession c × On from id c) Between id f cs
        (λ c e p. (λ _. moves c (p.1 e) p.0, λ n. absurd (n (keeps_id c ∙ e))))
        (λ c n p. (λ e. absurd (n e), λ _. p.0)) (All-both IsSession (On from id) cs h on)

  pub moved-IsMap :
      (cs : SessionMap)
      → IsMap cs
      → AllOn from id cs
      → IsMap (update id (with_mask to) (update id f cs))
  moved-IsMap cs h on = record {
    sound =
        update-All Between IsSession id (with_mask to) (update id f cs) (λ c e p. p.0 e)
          (λ c n p. p.1 n) (change-Between cs h.sound on);
    limit =
        omega
          (arith, length-update id f cs, length-update id (with_mask to) (update id f cs), h.limit);
    distinct =
        update-Distinct id (with_mask to) (update id f cs) (λ c. refl)
          (update-Distinct id f cs keeps_id h.distinct);
  }

  pub watch-IsServer :
      (os : Outside) (s : Server)
      → IsServer s
      → AllOn from id s.sessions
      → IsServer (watch os id to (change id f s)).1
  unfolding watch close_session
  watch-IsServer os s h on =
      if_ind (λ (r : Bool × Server). IsServer r.1) (os.modify s.calls)
        (λ _. moved-IsMap s.sessions h on)
        (λ _.
          subst IsMap (sym (erase-update id f s.sessions keeps_id)) (erase-IsMap id s.sessions h))

module _ (os : Outside) where
  sent_out-IsServer :
      (from : Mask) (id : ℕ) (bytes : List ℕ) (s : Server)
      → is_read from ≡ false
      → IsServer s
      → AllOn from id s.sessions
      → IsServer (sent_out os id bytes s).1
  unfolding sent_out
  sent_out-IsServer from id bytes s r h on =
      watch-IsServer from read id (finish s.now) (λ c. refl)
        (λ c e p. record {
          in_flight = refl;
          queued = refl;
          paired = ground (arith, p.in_flight, p.paired, r, e);
        })
        os (record s { wire = (id, bytes) ∷ s.wire }) h on

  answer-IsServer :
      (a : Sent) (id : ℕ) (bytes : List ℕ) (s : Server)
      → is_empty bytes ≡ false
      → IsServer s
      → AllOn nothing id s.sessions
      → IsServer (answer os a id bytes s)
  unfolding answer close_session
  answer-IsServer sent id bytes s b h on = sent_out-IsServer nothing id bytes s refl h on
  answer-IsServer would_block id bytes s b h on =
      watch-IsServer nothing write id (keep bytes) (λ c. refl)
        (λ c e p. record {
          in_flight = ground (arith, p.in_flight, e);
          queued = b;
          paired = p.paired;
        })
        os s h on
  answer-IsServer failed id bytes s b h on = erase-IsMap id s.sessions h

  pub send_response-IsServer :
      (id : ℕ) (m : Message) (s : Server)
      → IsServer s
      → AllOn nothing id s.sessions
      → IsServer (send_response os id m s)
  unfolding send_response serialize
  send_response-IsServer id m s h on =
      Option_ind IsServer (find_session id s.sessions) (λ _. h)
        (λ c _. answer-IsServer (os.send s.calls) id (serialize m) (tick s) refl h on)

  retry-IsServer :
      (a : Sent) (id : ℕ) (bytes : List ℕ) (s : Server)
      → IsServer s
      → AllOn write id s.sessions
      → IsServer (retry os a id bytes s).1
  unfolding retry close_session
  retry-IsServer sent id bytes s h on = sent_out-IsServer write id bytes s refl h on
  retry-IsServer would_block id bytes s h on = h
  retry-IsServer failed id bytes s h on = erase-IsMap id s.sessions h

  pub drain_pending_send-IsServer :
      (id : ℕ) (s : Server)
      → IsServer s
      → AllOn write id s.sessions
      → IsServer (drain_pending_send os id s).1
  unfolding drain_pending_send
  drain_pending_send-IsServer id s h on =
      Option_ind (λ (r : Bool × Server). IsServer r.1) (find_session id s.sessions) (λ _. h)
        (λ c _. retry-IsServer (os.send s.calls) id c.pending_response (tick s) h on)
