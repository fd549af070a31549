-- ===== src/Poller/Masks.antt =====
-- src/common/event_poller.cpp: the two translations of masks, decided by all the masks of the kernel.
use cec_control.Prelude.{ℕ, ◌≡◌, ◌||◌, ◌&&◌, not, Bool, true, false, refl, sym, arith}
use cec_control.Poller.{
  read, write, error, hangup, invalid, has, set_flag, EpollMask, epoll_to_events, events_to_epoll,
}

abbrev mask : Bool → Bool → Bool → Bool → Bool → EpollMask
mask i o e h r = record { epollin = i; epollout = o; epollerr = e; epollhup = h; epollrdhup = r }

unfoldable agree : Bool → Bool → Bool
agree true b = b
agree false b = not b

agree-eq : (a b : Bool) → agree a b ≡ true → a ≡ b
unfolding agree
agree-eq true b e = sym e
agree-eq false b e = grind (arith, e)

unfoldable on_both : (Bool → Bool) → Bool
on_both f = f true && f false

on_both-all : (f : Bool → Bool) → on_both f ≡ true → (b : Bool) → f b ≡ true
unfolding on_both
on_both-all f e true = grind (arith, e)
on_both-all f e false = grind (arith, e)

unfoldable on_all : (EpollMask → Bool) → Bool
unfolding on_both
on_all f =
    on_both (λ i. on_both (λ o. on_both (λ e. on_both (λ h. on_both (λ r. f (mask i o e h r))))))

on_all-all : (f : EpollMask → Bool) → on_all f ≡ true → (m : EpollMask) → f m ≡ true
unfolding on_all
on_all-all f t m =
    on_both-all (λ r. f (mask m.epollin m.epollout m.epollerr m.epollhup r))
      (on_both-all (λ h. on_both (λ r. f (mask m.epollin m.epollout m.epollerr h r)))
        (on_both-all (λ e. on_both (λ h. on_both (λ r. f (mask m.epollin m.epollout e h r))))
          (on_both-all
            (λ o. on_both (λ e. on_both (λ h. on_both (λ r. f (mask m.epollin o e h r)))))
            (on_both-all
              (λ i. on_both (λ o. on_both (λ e. on_both (λ h. on_both (λ r. f (mask i o e h r))))))
              t m.epollin)
            m.epollout)
          m.epollerr)
        m.epollhup)
      m.epollrdhup

-- On every mask, a flag of what is reported is a test of the mask, if it is on the thirty-two.
reports :
    (flag : ℕ) (test : EpollMask → Bool)
    → on_all (λ m. agree (has flag (epoll_to_events m)) (test m)) ≡ true
    → (m : EpollMask) → has flag (epoll_to_events m) ≡ test m
reports flag test t m =
    agree-eq _ _ (on_all-all (λ m. agree (has flag (epoll_to_events m)) (test m)) t m)

-- What `epoll_to_events` reports of a mask: its flags, a hang-up for either of the two hang-ups, and
-- never an invalid descriptor.
has-epoll_to_events :
    (m : EpollMask)
    → (has read (epoll_to_events m) ≡ m.epollin)
      × (has write (epoll_to_events m) ≡ m.epollout)
      × (has error (epoll_to_events m) ≡ m.epollerr)
      × (has hangup (epoll_to_events m) ≡ (m.epollhup || m.epollrdhup))
      × (has invalid (epoll_to_events m) ≡ false)
unfolding on_all agree epoll_to_events set_flag has
has-epoll_to_events m = (
  reports read (λ m. m.epollin) refl m,
  reports write (λ m. m.epollout) refl m,
  reports error (λ m. m.epollerr) refl m,
  reports hangup (λ m. m.epollhup || m.epollrdhup) refl m,
  reports invalid (λ m. false) refl m,
)

-- A mask that the kernel is asked for and reports whole is reported as it was asked for, but that a
-- hang-up comes with an interest in reading too, and the flag of an invalid descriptor is lost.
pub has-epoll_to_events-events_to_epoll :
    (events : ℕ)
    → (has read (epoll_to_events (events_to_epoll events)) ≡ has read events)
      × (has write (epoll_to_events (events_to_epoll events)) ≡ has write events)
      × (has error (epoll_to_events (events_to_epoll events)) ≡ has error events)
      × (has hangup (epoll_to_events (events_to_epoll events))
          ≡ (has hangup events || has read events))
      × (has invalid (epoll_to_events (events_to_epoll events)) ≡ false)
unfolding events_to_epoll
has-epoll_to_events-events_to_epoll events = has-epoll_to_events (events_to_epoll events)
