-- ===== src/Daemon/WorkerThread.antt =====
-- src/daemon/cec/adapter_worker.cpp: the main thread's `start` and `stop`, `submit` from any thread
-- and the worker's `run`, whose steps alternate in any order. A job is a value of any type; `accepted`,
-- `ran` and `dropped` have those queued, those run and those thrown away at a stop.
pub mod Stage
pub mod Kept
pub mod Exclusive
pub mod Ends
use cec_control.Prelude.{
  ◌-◌, ◌==◌, ℕ, zero, suc, ◌+◌, Bool, true, false, Option, none, some, List, [], ◌∷◌, ◌++◌, ◌||◌,
  if◌then◌else◌, not,
}

-- The worker thread: not spawned, awake at the wait of its loop, asleep in the condition variable, in a
-- job, behind the loop, or ended.
pub data Thread (J : Type 0) : Type 0 where
  absent looping asleep closing exited : Thread J
  busy : J → Thread J

-- The main thread: not in `stop`, between its flag and its notification, or at the join.
pub data StopPhase : Type 0 where
  outside flagged joining : StopPhase

-- `adapter` tells whether the pointer is set. `exit_closes` counts the calls of closeConnection with
-- which `run` ends, not those that jobs make. `notifiers` counts the threads between the two halves of
-- `submit`.
pub record Worker (J : Type 0) : Type 0 where
  pub thread : Thread J
  pub jobs : List J
  pub stop_requested : Bool
  pub started : Bool
  pub adapter : Bool
  pub stopping : StopPhase
  pub notifiers : ℕ
  pub exit_closes : ℕ
  pub accepted : List J
  pub ran : List J
  pub dropped : List J

pub data Move (J : Type 0) : Type 0 where
  starts : Bool → Move J
  submits : Option J → Move J
  notifies stirs takes finishes closes begins_stop notifies_stop joins : Move J

module _ {J : Type 0} where
  abbrev pub new_worker : Worker J
  new_worker = record {
    thread = absent;
    jobs = [];
    stop_requested = false;
    started = false;
    adapter = true;
    stopping = outside;
    notifiers = 0;
    exit_closes = 0;
    accepted = [];
    ran = [];
    dropped = [];
  }

  -- `spawned` tells whether the constructor of std::thread returns; it throws otherwise.
  unfoldable pub start : Bool → Worker J → Worker J
  start spawned w =
      if w.started || not spawned then w else record w { thread = looping; started = true }

  -- The first half of `submit`, under the lock.
  unfoldable pub submit : Option J → Worker J → Worker J
  submit none w = w
  submit (some j) w = if w.stop_requested then w else record w {
    jobs = w.jobs ++ j ∷ [];
    accepted = w.accepted ++ j ∷ [];
    notifiers = w.notifiers + 1;
  }

  abbrev pub woken : Thread J → Thread J
  woken asleep = looping
  woken t = t

  -- `notify_one`: the worker alone waits on the condition variable; a notification that finds nobody
  -- there is lost.
  unfoldable pub notify_one : Worker J → Worker J
  notify_one w = record w { thread = woken w.thread }

  -- The second half of `submit`.
  unfoldable pub notify_submit : Worker J → Option (Worker J)
  unfolding notify_one
  notify_submit w =
      if w.notifiers == 0
      then none
      else some (notify_one (record w { notifiers = w.notifiers - 1 }))

  -- A wake-up that nobody asked for.
  unfoldable pub stir : Worker J → Option (Worker J)
  unfolding notify_one
  stir w = some (notify_one w)

  -- The wait of `run` and what follows it under the lock: the thread, awake, tests the condition.
  unfoldable pub take_job : Thread J → Worker J → Option (Worker J)
  take_job looping w =
      if w.stop_requested
      then some (record w { thread = closing; jobs = []; dropped = w.dropped ++ w.jobs })
      else some (elim w.jobs [
        | [] ↦ record w { thread = asleep }
        | j ∷ rest ↦ record w { thread = busy j; jobs = rest }
      ])
  take_job _ w = none

  -- The job returns or throws.
  unfoldable pub finish_job : Thread J → Worker J → Option (Worker J)
  finish_job (busy j) w = some (record w { thread = looping; ran = w.ran ++ j ∷ [] })
  finish_job _ w = none

  -- The end of `run`; closeConnection returns or throws.
  unfoldable pub close_adapter : Thread J → Worker J → Option (Worker J)
  close_adapter closing w = some (record w {
    thread = exited;
    exit_closes = if w.adapter then w.exit_closes + 1 else w.exit_closes;
  })
  close_adapter _ w = none

  -- The first half of `stop`, under the lock; a second `stop` returns at once.
  unfoldable pub begin_stop : Worker J → Worker J
  begin_stop w =
      if w.stop_requested then w else record w { stop_requested = true; stopping = flagged }

  -- Its notification, after the lock.
  unfoldable pub notify_stop : StopPhase → Worker J → Option (Worker J)
  unfolding notify_one
  notify_stop flagged w = some (notify_one (record w { stopping = joining }))
  notify_stop _ w = none

  -- The join, which waits for a thread that was spawned, and the adapter's release.
  unfoldable pub join_thread : Thread J → Worker J → Option (Worker J)
  join_thread absent w = some (record w { adapter = false; stopping = outside })
  join_thread exited w = some (record w { adapter = false; stopping = outside })
  join_thread _ w = none

  unfoldable pub join : StopPhase → Worker J → Option (Worker J)
  unfolding join_thread
  join joining w = join_thread w.thread w
  join _ w = none

  -- What the main thread does outside of `stop`.
  abbrev pub when_outside : StopPhase → Worker J → Option (Worker J)
  when_outside outside w = some w
  when_outside _ w = none

  -- What one thread does next; none where it cannot.
  unfoldable pub move : Move J → Worker J → Option (Worker J)
  unfolding start submit notify_submit stir take_job finish_job close_adapter begin_stop notify_stop
      join
  move (starts spawned) w = when_outside w.stopping (start spawned w)
  move (submits j) w = some (submit j w)
  move notifies w = notify_submit w
  move stirs w = stir w
  move takes w = take_job w.thread w
  move finishes w = finish_job w.thread w
  move closes w = close_adapter w.thread w
  move begins_stop w = when_outside w.stopping (begin_stop w)
  move notifies_stop w = notify_stop w.stopping w
  move joins w = join w.stopping w

  unfoldable pub move_all : List (Move J) → Worker J → Option (Worker J)
  unfolding move
  move_all [] w = some w
  move_all (m ∷ rest) w = elim (move m w) [ none ↦ none | some w' ↦ move_all rest w' ]
