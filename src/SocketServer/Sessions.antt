-- ===== src/SocketServer/Sessions.antt =====
-- src/daemon/socket_server.h and socket_server.cpp: a client's session, and the map of sessions.
use cec_control.Prelude.{
  ℕ, ◌≤◌, ◌≡◌, ◌≢◌, refl, Bool, Option, none, some, List, [], ◌∷◌, ◌++◌, length, All, ◌==◌,
  if◌then◌else◌, arith,
}

-- The events that the loop watches the session's descriptor for; errors are always reported.
pub data Mask : Type 0 where
  read write nothing : Mask

-- `asked` and `answered` are no fields of the struct: they count the requests that reached the
-- handler and the responses that went out. The descriptor is told by the session's id, and the mask
-- that the loop holds for it stands here.
pub record Session : Type 0 where
  pub id : ℕ
  pub last_activity : ℕ
  pub pending_response : List ℕ
  pub request_in_flight : Bool
  pub mask : Mask
  pub asked : ℕ
  pub answered : ℕ

abbrev pub SessionMap : Type 0
SessionMap = List Session

-- `m_sessions.find(id)`.
unfoldable pub find_session : ℕ → SessionMap → Option Session
find_session id [] = none
find_session id (c ∷ cs) = let rest = find_session id cs in if c.id == id then some c else rest

-- A change of the session of this id, through the pointer that was found.
unfoldable pub update : ℕ → (Session → Session) → SessionMap → SessionMap
update id f [] = []
update id f (c ∷ cs) = (if c.id == id then f c else c) ∷ update id f cs

-- `m_sessions.erase`.
unfoldable pub erase : ℕ → SessionMap → SessionMap
erase id [] = []
erase id (c ∷ cs) = let rest = erase id cs in if c.id == id then rest else c ∷ rest

-- `m_sessions.emplace`, which leaves a session of the same id alone.
unfoldable pub emplace : Session → SessionMap → SessionMap
unfolding find_session
emplace c cs = elim (find_session c.id cs) [ none ↦ cs ++ c ∷ [] | some d ↦ cs ]

-- The keys of a map are distinct.
abbrev pub Distinct : SessionMap → Type 0
Distinct [] = Unit
Distinct (c ∷ cs) = All (λ d. d.id ≢ c.id) cs × Distinct cs

module _ (P Q : Session → Type 0) where
  -- A change of the sessions of an id takes `P` to `Q`.
  pub update-All :
      (id : ℕ) (f : Session → Session) (cs : SessionMap)
      → ((c : Session) → c.id ≡ id → P c → Q (f c))
      → ((c : Session) → c.id ≢ id → P c → Q c)
      → All P cs
      → All Q (update id f cs)
  unfolding update
  update-All id f [] k l h = tt
  update-All id f (c ∷ cs) k l h = (ground (arith, k c, l c), update-All id f cs k l h.1)

  -- The sessions that are left have another id.
  pub erase-All :
      (id : ℕ) (cs : SessionMap)
      → ((c : Session) → c.id ≢ id → P c → Q c)
      → All P cs
      → All Q (erase id cs)
  unfolding erase
  erase-All id [] l h = tt
  erase-All id (c ∷ cs) l h = ground (arith, l c, erase-All id cs l h.1)

pub find_session-All :
    (P : Session → Type 0) (id : ℕ) (cs : SessionMap) {c : Session}
    → All P cs
    → find_session id cs ≡ some c
    → P c
unfolding find_session
find_session-All P id [] h e = cc
find_session-All P id (c ∷ cs) {c = d} h e = ground (arith, find_session-All P id cs {c = d} h.1)

pub append-All :
    (P : Session → Type 0) (c : Session) (cs : SessionMap) → All P cs → P c → All P (cs ++ c ∷ [])
append-All P c [] h p = (p, tt)
append-All P c (d ∷ cs) h p = (h.0, append-All P c cs h.1 p)

pub length-update :
    (id : ℕ) (f : Session → Session) (cs : SessionMap) → length (update id f cs) ≡ length cs
unfolding update
length-update id f [] = refl
length-update id f (c ∷ cs) = omega (arith, length-update id f cs)

pub length-erase : (id : ℕ) (cs : SessionMap) → length (erase id cs) ≤ length cs
unfolding erase
length-erase id [] = omega arith
length-erase id (c ∷ cs) = ground (arith, length-erase id cs)
