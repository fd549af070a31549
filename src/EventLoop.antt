-- ===== src/EventLoop.antt =====
-- src/common/event_loop.h and event_loop.cpp, over src/common/event_poller.cpp. What a handler does is
-- the parameter `behave`, what `epoll` answers the parameter `Epoll`. `trace` has what happened to the
-- loop, the newest first.
pub mod Dispatched
use cec_control.Prelude.{
  ℕ, ◌+◌, ◌==◌, Bool, true, false, not, Option, none, some, List, [], ◌∷◌, if◌then◌else◌,
}

-- `m_handlers`, a map from descriptors.
abbrev pub Handlers : Type 0 → Type 0
Handlers H = List (ℕ × H)

pub data Happening (H : Type 0) : Type 0 where
  added : ℕ → H → Happening H
  removed : ℕ → Happening H
  invoked : ℕ → H → ℕ → Happening H
  stopped : Happening H

pub record EventLoop (H : Type 0) : Type 0 where
  pub handlers : Handlers H
  pub stop_requested : Bool
  pub calls : ℕ
  pub trace : List (Happening H)

-- `epoll_ctl` by the number of the call.
abbrev pub Epoll : Type 0
Epoll = ℕ → Bool

-- What a handler asks of the loop. A descriptor is `none` if it is negative, a handler if it is empty.
pub data Request (H : Type 0) : Type 0 where
  adds : Option ℕ → ℕ → Option H → Request H
  modifies : ℕ → ℕ → Request H
  removes : ℕ → Request H
  stops : Request H

module _ {H : Type 0} where
  abbrev pub new_loop : EventLoop H
  new_loop = record { handlers = []; stop_requested = false; calls = 0; trace = [] }

  unfoldable pub find_handler : ℕ → Handlers H → Option H
  find_handler fd [] = none
  find_handler fd ((k, h) ∷ hs) = if k == fd then some h else find_handler fd hs

  unfoldable pub erase : ℕ → Handlers H → Handlers H
  erase fd [] = []
  erase fd ((k, h) ∷ hs) = let rest = erase fd hs in if k == fd then rest else (k, h) ∷ rest

  abbrev pub tick : EventLoop H → EventLoop H
  tick l = record l { calls = l.calls + 1 }

  unfoldable pub insert : Epoll → ℕ → H → EventLoop H → Bool × EventLoop H
  insert ctl fd h l =
      if not (ctl l.calls)
      then (false, tick l)
      else (true, record (tick l) { handlers = (fd, h) ∷ l.handlers; trace = added fd h ∷ l.trace })

  unfoldable pub add : Epoll → Option ℕ → ℕ → Option H → EventLoop H → Bool × EventLoop H
  unfolding find_handler insert
  add ctl (some fd) events (some h) l = elim (find_handler fd l.handlers) [
    | some old ↦ (false, l)
    | none ↦ insert ctl fd h l
  ]
  add ctl _ events _ l = (false, l)

  unfoldable pub modify : Epoll → ℕ → ℕ → EventLoop H → Bool × EventLoop H
  unfolding find_handler
  modify ctl fd events l = elim (find_handler fd l.handlers) [
    | none ↦ (false, l)
    | some h ↦ (ctl l.calls, tick l)
  ]

  -- The poller's answer is dropped.
  unfoldable pub remove : ℕ → EventLoop H → EventLoop H
  unfolding find_handler erase
  remove fd l = elim (find_handler fd l.handlers) [
    | none ↦ l
    | some h ↦ record (tick l) { handlers = erase fd l.handlers; trace = removed fd ∷ l.trace }
  ]

  unfoldable pub stop : EventLoop H → EventLoop H
  stop l = record l { stop_requested = true; trace = stopped ∷ l.trace }

  unfoldable pub ask : Epoll → Request H → EventLoop H → EventLoop H
  unfolding add modify remove stop
  ask ctl (adds fd events h) l = (add ctl fd events h l).1
  ask ctl (modifies fd events) l = (modify ctl fd events l).1
  ask ctl (removes fd) l = remove fd l
  ask ctl stops l = stop l

  unfoldable pub ask_all : Epoll → List (Request H) → EventLoop H → EventLoop H
  unfolding ask
  ask_all ctl [] l = l
  ask_all ctl (r ∷ rs) l = ask_all ctl rs (ask ctl r l)

-- A handler, run on the state of the rest of the program, asks the loop in turn.
abbrev pub Behave : Type 0 → Type 0 → Type 0
Behave H S = H → ℕ → S → List (Request H) × S

module _ {H S : Type 0} (ctl : Epoll) (behave : Behave H S) where
  unfoldable pub invoke : ℕ → ℕ → H → EventLoop H × S → EventLoop H × S
  unfolding ask_all
  invoke fd events h (l, s) =
      let (rs, s') = behave h events s in
      (ask_all ctl rs (record l { trace = invoked fd h events ∷ l.trace }), s')

  -- The events of one batch: what is no longer registered is skipped, and a stop ends the batch.
  unfoldable pub dispatch : List (ℕ × ℕ) → EventLoop H × S → EventLoop H × S
  unfolding find_handler invoke
  dispatch [] w = w
  dispatch ((fd, events) ∷ rest) w =
      let skipped = dispatch rest w in
      elim (find_handler fd w.0.handlers) [
        | none ↦ skipped
        | some h ↦
            let w' = invoke fd events h w in
            let onwards = dispatch rest w' in if w'.0.stop_requested then w' else onwards
      ]

  -- `run`, for the batches that the poller reports one after the other; `none` is its failure. With
  -- no batch left the loop waits.
  unfoldable pub run : List (Option (List (ℕ × ℕ))) → EventLoop H × S → EventLoop H × S
  unfolding dispatch
  run [] w = w
  run (none ∷ batches) w = w
  run (some events ∷ batches) w =
      let onwards = run batches (dispatch events w) in if w.0.stop_requested then w else onwards
