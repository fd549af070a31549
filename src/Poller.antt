-- ===== src/Poller.antt =====
-- src/common/event_poller.cpp: the masks of events, and the calls of epoll, whose answers are
-- parameters. An epoll mask is a record of its flags.
pub mod Masks
use cec_control.Prelude.{
  ℕ, ◌+◌, ◌/◌, ◌%◌, ◌==◌, ◌||◌, Bool, true, false, Option, none, some, List, ◌∷◌, [], map,
  if◌then◌else◌,
}

-- `EventPoller::Event`.
abbrev pub read : ℕ
read = 1

abbrev pub write : ℕ
write = 2

abbrev pub error : ℕ
error = 4

abbrev pub hangup : ℕ
hangup = 8

abbrev pub invalid : ℕ
invalid = 16

-- Whether a mask has a flag, a power of two; and the mask with the flag.
unfoldable pub has : ℕ → ℕ → Bool
has flag events = (events / flag) % 2 == 1

unfoldable pub set_flag : ℕ → ℕ → ℕ
unfolding has
set_flag flag events = if has flag events then events else events + flag

-- The flags that the poller reads and writes.
pub record EpollMask : Type 0 where
  pub epollin : Bool
  pub epollout : Bool
  pub epollerr : Bool
  pub epollhup : Bool
  pub epollrdhup : Bool

abbrev set_if : Bool → ℕ → ℕ → ℕ
set_if b flag events = if b then set_flag flag events else events

unfoldable pub epoll_to_events : EpollMask → ℕ
unfolding set_flag
epoll_to_events e = set_if e.epollrdhup hangup (
    set_if e.epollhup hangup
      (set_if e.epollerr error (set_if e.epollout write (set_if e.epollin read 0))))

unfoldable pub events_to_epoll : ℕ → EpollMask
unfolding has
events_to_epoll events = record {
  epollin = has read events;
  epollout = has write events;
  epollerr = has error events;
  epollhup = has hangup events;
  epollrdhup = has read events;
}

-- What `epoll_wait` does: a signal interrupts it, it fails, or it reports descriptors.
pub data Waited : Type 0 where
  interrupted failed : Waited
  reported : List (ℕ × EpollMask) → Waited

-- `opened` tells whether the epoll instance could be made; `none` is a failure of the poller.
unfoldable pub wait : Bool → Waited → Option (List (ℕ × ℕ))
unfolding epoll_to_events
wait false w = none
wait true interrupted = some []
wait true failed = none
wait true (reported events) = some (map (λ e. (e.0, epoll_to_events e.1)) events)

-- `add` and `modify` with what `epoll_ctl` answers to a descriptor and a mask; a negative descriptor is
-- `none`.
unfoldable pub control : Bool → (ℕ → EpollMask → Bool) → Option ℕ → ℕ → Bool
unfolding events_to_epoll
control true ctl (some fd) events = ctl fd (events_to_epoll events)
control _ ctl _ events = false

-- `remove`: a descriptor that was not registered answers false as well.
unfoldable pub detach : Bool → (ℕ → Bool) → Option ℕ → Bool
detach true ctl (some fd) = ctl fd
detach _ ctl _ = false
