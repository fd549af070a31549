-- ===== src/UnixSocket/Owned.antt =====
-- src/common/unix_socket.cpp: who owns the descriptors, which files are removed, and which errors are
-- told.
use cec_control.Prelude.{
  ◌++◌, ◌∙◌, ap, ℕ, ◌≡◌, ◌≢◌, true, Option, none, some, List, [], ◌∷◌, arith, Text, if_ind, ◌⊎◌,
  length, ◌<◌,
}
use cec_control.Client.{Errno, enoent, econnrefused, etimedout}
use cec_control.UnixSocket.{
  Answer, done, error, ready, timed_out, poll_error, connected, in_progress, connect_error, Kernel,
  Process, without, close, fill_addr, probe_existing, clear_path, open_listener, listen,
  set_blocking, await_connection, connect,
}

-- The descriptors that are open are those of before, and the one that is returned.
abbrev pub Owns : Process → Option ℕ × Process → Type 0
Owns s (none, s') = s'.opened ≡ s.opened
Owns s (some fd, s') = s'.opened ≡ fd ∷ s.opened

module _ (os : Kernel) (path : Text) (s : Process) where
  set_blocking-Owns :
      (t : Process) (fd : ℕ) → t.opened ≡ fd ∷ s.opened → Owns s (set_blocking os fd t)
  unfolding set_blocking close without
  set_blocking-Owns t fd h = ground (arith, h)

  await_connection-Owns :
      (t : Process) (fd : ℕ) → t.opened ≡ fd ∷ s.opened → Owns s (await_connection os fd t)
  unfolding await_connection close without
  await_connection-Owns t fd h = ground (arith, h)

  connect-Owns : Owns s (connect os path s)
  unfolding connect close without
  connect-Owns = ground arith

  clear_path-opened : (clear_path os path s).1.opened ≡ s.opened
  unfolding clear_path probe_existing close without
  clear_path-opened = ground arith

  clear_path-unlinked :
      (clear_path os path s).1.unlinked ≢ s.unlinked
      → (os.exists ≡ true) × ((os.probe ≡ error econnrefused) ⊎ (os.probe ≡ error enoent))
  unfolding clear_path probe_existing close
  clear_path-unlinked h = ground (arith, h)

  open_listener-Owns : Owns s (open_listener os path s)
  unfolding open_listener close without
  open_listener-Owns = ground arith

  open_listener-unlinked : (open_listener os path s).1.unlinked ≡ s.unlinked
  unfolding open_listener close without
  open_listener-unlinked = ground arith

-- The first of the calls of `connect` that failed, in their order; a poll that ends with nothing ready
-- counts as a time-out.
abbrev pub first_error : List (Option Errno) → Option Errno
first_error [] = none
first_error (none ∷ es) = first_error es
first_error (some e ∷ es) = some e

abbrev pub told : Answer → Option Errno
told done = none
told (error e) = some e

abbrev pub waiting : Kernel → List (Option Errno)
waiting os = elim os.poll [
  | ready ↦ told os.getsockopt ∷ os.so_error ∷ []
  | timed_out ↦ some etimedout ∷ []
  | poll_error e ↦ some e ∷ []
]

abbrev pub connecting : Kernel → List (Option Errno)
connecting os = elim os.connect [
  | connected ↦ []
  | in_progress ↦ waiting os
  | connect_error e ↦ some e ∷ []
]

-- Every call that `connect` makes, with its error.
abbrev pub calls_of : Kernel → List (Option Errno)
calls_of os = told os.socket ∷ connecting os ++ (told os.get_flags ∷ told os.set_flags ∷ [])

-- Without an error the descriptor is returned; with one, none, and `errno` has it.
abbrev pub Tells : ℕ → Option Errno → Option ℕ × Process → Type 0
Tells fd none (r, s) = r ≡ some fd
Tells fd (some e) (r, s) = (r ≡ none) × (s.errno ≡ some e)

Owns-of : (s t : Process) (r : Option ℕ × Process) → t.opened ≡ s.opened → Owns t r → Owns s r
Owns-of s t (none, u) e h = h ∙ e
Owns-of s t (some fd, u) e h = h ∙ ap (λ xs. fd ∷ xs) e

listen-Owns : (os : Kernel) (path : Text) (s : Process) → Owns s (listen os path s)
unfolding listen
listen-Owns os path s =
    let (proceed, t) = clear_path os path s in
    let e = clear_path-opened os path s in
    if_ind (Owns s) proceed
      (λ _. Owns-of s t (open_listener os path t) e (open_listener-Owns os path t)) (λ _. e)

-- Whatever the system answers, `listen` and `connect` leave open what was open before and the socket
-- that they return, and nothing else.
pub sockets-Owns :
    (os : Kernel) (path : Text) (s : Process)
    → Owns s (listen os path s) × Owns s (connect os path s)
sockets-Owns os path s = (listen-Owns os path s, connect-Owns os path s)

-- `listen` removes the file at the path only if there is one and a connection to it was refused or
-- found nothing: never that of a process that listens, nor one whose state is unknown.
pub listen-unlinked :
    (os : Kernel) (path : Text) (s : Process)
    → (listen os path s).1.unlinked ≢ s.unlinked
    → (os.exists ≡ true) × ((os.probe ≡ error econnrefused) ⊎ (os.probe ≡ error enoent))
unfolding listen
listen-unlinked os path s h = clear_path-unlinked os path s (λ e. h (
    if_ind (λ (r : Option ℕ × Process). r.1.unlinked ≡ s.unlinked) (clear_path os path s).0
      (λ _. open_listener-unlinked os path (clear_path os path s).1 ∙ e) (λ _. e)))

-- Where the path fits, `connect` returns its socket exactly if none of its calls fails, and else sets
-- `errno` to the error of the first that does, a wait that ends with nothing ready being a time-out.
pub connect-first_error :
    (os : Kernel) (path : Text) (s : Process)
    → length path < os.path_capacity
    → Tells s.next_fd (first_error (calls_of os)) (connect os path s)
unfolding connect set_blocking await_connection fill_addr
connect-first_error os path s h = ground (arith, h)
