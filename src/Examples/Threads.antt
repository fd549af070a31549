-- ===== src/Examples/Threads.antt =====
-- Interleavings of the daemon's two threads at concrete inputs.
use cec_control.Prelude.{ℕ, ◌≡◌, ◌≢◌, ◌<◌, refl, arith, true, false, some, List, [], ◌∷◌, ◌++◌}
use cec_control.Daemon.Posting.{
  waiting, Posting, Act, pushes, writes, reads, swaps, runs, ends, nothing_posted, act_all,
}
use cec_control.Daemon.Posting.Delivered.{act_all-delivered}
use cec_control.Daemon.WorkerThread.{
  asleep, flagged, Worker, Move, starts, notifies, submits, takes, finishes, begins_stop,
  new_worker, move_all,
}
use cec_control.Daemon.WorkerThread.Stage.{flight}
use cec_control.Daemon.WorkerThread.Exclusive.{move_all-exclusive}
use cec_control.Daemon.WorkerThread.Ends.{Stopped, stop_moves, stop-ends}

-- The second closure is posted between the reads and the swap, the third while the batch runs.
abbrev acts : List (Act ℕ)
acts =
    pushes (some 1)
    ∷ writes
    ∷ reads
    ∷ pushes (some 2)
    ∷ swaps
    ∷ runs
    ∷ writes
    ∷ pushes (some 3)
    ∷ runs
    ∷ writes
    ∷ ends
    ∷ []

abbrev posted : Posting ℕ
posted = record {
  opened = true;
  pending = 3 ∷ [];
  counter = 2;
  writers = 0;
  phase = waiting;
  batch = [];
  accepted = 1 ∷ 2 ∷ 3 ∷ [];
  ran = 1 ∷ 2 ∷ [];
}

acts_posted : act_all acts (nothing_posted true) ≡ some posted
unfolding act_all
acts_posted = refl

act_all-delivered_example :
    (posted.ran ++ (posted.batch ++ posted.pending) ≡ posted.accepted)
    × (posted.opened ≡ true
        → posted.phase ≡ waiting
        → posted.writers ≡ 0
        → posted.pending ≢ []
        → 0 < posted.counter)
act_all-delivered_example = act_all-delivered true acts posted acts_posted

-- A stop is asked for while the thread sleeps after two jobs, the second of them not notified yet; a
-- third is refused.
abbrev moves : List (Move ℕ)
moves =
    starts true
    ∷ takes
    ∷ submits (some 1)
    ∷ notifies
    ∷ submits (some 2)
    ∷ takes
    ∷ finishes
    ∷ takes
    ∷ finishes
    ∷ takes
    ∷ begins_stop
    ∷ submits (some 3)
    ∷ []

abbrev worker : Worker ℕ
worker = record {
  thread = asleep;
  jobs = [];
  stop_requested = true;
  started = true;
  adapter = true;
  stopping = flagged;
  notifiers = 1;
  exit_closes = 0;
  accepted = 1 ∷ 2 ∷ [];
  ran = 1 ∷ 2 ∷ [];
  dropped = [];
}

moves_worker : move_all moves new_worker ≡ some worker
unfolding move_all
moves_worker = refl

move_all-exclusive_example :
    (worker.ran ++ (flight worker.thread ++ (worker.dropped ++ worker.jobs)) ≡ worker.accepted)
    × (flight worker.thread ≢ [] → (worker.adapter ≡ true) × (worker.exit_closes ≡ 0))
    × (worker.adapter ≡ false → worker.ran ≢ [] → worker.exit_closes ≡ 1)
    × (worker.thread ≡ asleep → worker.jobs ≢ [] → 0 < worker.notifiers)
move_all-exclusive_example = move_all-exclusive moves moves_worker

stop-ends_example : Stopped (stop_moves flagged asleep) worker
stop-ends_example = stop-ends moves moves_worker (λ h. grind (arith, h))
