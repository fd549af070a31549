-- ===== src/UnixSocket.antt =====
-- src/common/unix_socket.h and unix_socket.cpp: the socket's life over the system's calls, whose
-- answers are the parameter `Kernel`. `opened` has the descriptors that are open, `unlinked` counts the
-- removals of the path, and `errno` is none while nothing has set it.
pub mod Owned
use cec_control.Prelude.{
  ℕ, ◌+◌, ◌==◌, ◌/◌, ◌%◌, ◌*◌, Bool, true, false, not, ◌||◌, ◌&&◌, Option, none, some, List, [],
  ◌∷◌, length, ltb, if◌then◌else◌, Text,
}
use cec_control.Client.{Errno, enoent, econnrefused, etimedout, eagain, ewouldblock, another}

-- What a call answers: success or an error.
pub data Answer : Type 0 where
  done : Answer
  error : Errno → Answer

pub data Polled : Type 0 where
  ready timed_out : Polled
  poll_error : Errno → Polled

-- `connect` on a socket that does not block.
pub data Connecting : Type 0 where
  connected in_progress : Connecting
  connect_error : Errno → Connecting

pub record Kernel : Type 0 where
  pub exists : Bool
  pub socket : Answer
  pub probe_socket : Answer
  pub probe : Answer
  pub unlink : Answer
  pub bind : Answer
  pub chmod : Answer
  pub listen : Answer
  pub connect : Connecting
  pub poll : Polled
  pub getsockopt : Answer
  pub so_error : Option Errno
  pub get_flags : Answer
  pub set_flags : Answer
  pub accept : Answer
  pub set_receive_timeout : Answer
  pub set_send_timeout : Answer
  pub path_capacity : ℕ

pub record Process : Type 0 where
  pub opened : List ℕ
  pub next_fd : ℕ
  pub unlinked : ℕ
  pub errno : Option Errno

-- The first descriptor of that number is closed.
unfoldable pub without : ℕ → List ℕ → List ℕ
without fd [] = []
without fd (x ∷ xs) = if x == fd then xs else x ∷ without fd xs

unfoldable pub close : ℕ → Process → Process
unfolding without
close fd s = record s { opened = without fd s.opened }

abbrev pub open_one : Process → Process
open_one s = record s { opened = s.next_fd ∷ s.opened; next_fd = s.next_fd + 1 }

abbrev pub set_errno : Errno → Process → Process
set_errno e s = record s { errno = some e }

-- An error path of a function that owns the descriptor: the socket's destructor closes it.
abbrev pub give_up : ℕ → Process → Option ℕ × Process
give_up fd s = (none, close fd s)

-- A call that fails gives the descriptor up, with the call's error.
abbrev pub checked : Answer → ℕ → (Process → Option ℕ × Process) → Process → Option ℕ × Process
checked done fd k s = k s
checked (error e) fd k s = give_up fd (set_errno e s)

pub data ProbeResult : Type 0 where
  live stale unknown : ProbeResult

abbrev pub verdict : Answer → ProbeResult
verdict done = live
verdict (error econnrefused) = stale
verdict (error enoent) = stale
verdict (error _) = unknown

module _ (os : Kernel) where
  -- `fillAddr`.
  unfoldable pub fill_addr : Text → Bool
  fill_addr path = ltb (length path) os.path_capacity

  unfoldable pub probe_existing : Text → Process → ProbeResult × Process
  unfolding fill_addr close
  probe_existing path s = elim os.probe_socket [
    | error e ↦ (unknown, set_errno e s)
    | done ↦
        let s' = close s.next_fd (open_one s) in
        if not (fill_addr path) then (unknown, s') else (verdict os.probe, s')
  ]

  -- The removal of a stale socket's file; the answer says whether to go on.
  abbrev pub remove_stale : Process → Bool × Process
  remove_stale s = elim os.unlink [
    | done ↦ (true, record s { unlinked = s.unlinked + 1 })
    | error enoent ↦ (true, set_errno enoent s)
    | error e ↦ (false, set_errno e s)
  ]

  abbrev pub after_probe : ProbeResult × Process → Bool × Process
  after_probe (live, s) = (false, s)
  after_probe (stale, s) = remove_stale s
  after_probe (unknown, s) = (false, s)

  unfoldable pub clear_path : Text → Process → Bool × Process
  unfolding probe_existing
  clear_path path s = if os.exists then after_probe (probe_existing path s) else (true, s)

  -- A failure of `chmod` is only logged.
  abbrev after_chmod : Process → Process
  after_chmod s = elim os.chmod [ done ↦ s | error e ↦ set_errno e s ]

  unfoldable pub open_listener : Text → Process → Option ℕ × Process
  unfolding fill_addr close
  open_listener path s = elim os.socket [
    | error e ↦ (none, set_errno e s)
    | done ↦
        let fd = s.next_fd in
        if not (fill_addr path)
        then give_up fd (open_one s)
        else checked os.bind fd (λ t. checked os.listen fd (λ u. (some fd, u)) (after_chmod t))
            (open_one s)
  ]

  unfoldable pub listen : Text → Process → Option ℕ × Process
  unfolding clear_path open_listener
  listen path s =
      let (proceed, s') = clear_path path s in if proceed then open_listener path s' else (none, s')

  unfoldable pub set_blocking : ℕ → Process → Option ℕ × Process
  unfolding close
  set_blocking fd = checked os.get_flags fd (checked os.set_flags fd (λ s. (some fd, s)))

  -- The pending error of the socket.
  abbrev after_so_error : ℕ → Process → Option ℕ × Process
  after_so_error fd s = elim os.so_error [
    | none ↦ set_blocking fd s
    | some e ↦ give_up fd (set_errno e s)
  ]

  unfoldable pub await_connection : ℕ → Process → Option ℕ × Process
  unfolding close set_blocking
  await_connection fd s = elim os.poll [
    | timed_out ↦ give_up fd (set_errno etimedout s)
    | poll_error e ↦ give_up fd (set_errno e s)
    | ready ↦ checked os.getsockopt fd (after_so_error fd) s
  ]

  abbrev after_connect : ℕ → Process → Option ℕ × Process
  after_connect fd s = elim os.connect [
    | connected ↦ set_blocking fd s
    | in_progress ↦ await_connection fd s
    | connect_error e ↦ give_up fd (set_errno e s)
  ]

  unfoldable pub connect : Text → Process → Option ℕ × Process
  unfolding fill_addr close set_blocking await_connection
  connect path s = elim os.socket [
    | error e ↦ (none, set_errno e s)
    | done ↦
        if not (fill_addr path)
        then give_up s.next_fd (open_one s)
        else after_connect s.next_fd (open_one s)
  ]

  -- `accept` on a socket, or on none.
  unfoldable pub accept : Option ℕ → Process → Option ℕ × Process
  accept none s = (none, s)
  accept (some fd) s = elim os.accept [
    | error e ↦ (none, set_errno e s)
    | done ↦ (some s.next_fd, open_one s)
  ]

  -- `setIoTimeout`: the receive time-out, then the one for sending.
  unfoldable pub set_io_timeout : Option ℕ → Process → Bool × Process
  set_io_timeout none s = (false, s)
  set_io_timeout (some fd) s = elim os.set_receive_timeout [
    | error e ↦ (false, set_errno e s)
    | done ↦ elim os.set_send_timeout [ error e ↦ (false, set_errno e s) | done ↦ (true, s) ]
  ]

-- `reset`, also by the destructor.
unfoldable pub reset : Option ℕ → Process → Option ℕ × Process
unfolding close
reset none s = (none, s)
reset (some fd) s = (none, close fd s)
