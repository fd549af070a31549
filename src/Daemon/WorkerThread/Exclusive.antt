-- ===== src/Daemon/WorkerThread/Exclusive.antt =====
-- src/daemon/cec/adapter_worker.cpp: who has the adapter, and what becomes of the jobs.
use cec_control.Prelude.{◌<◌, ◌≡◌, ◌≢◌, true, false, some, List, [], ◌++◌}
use cec_control.Daemon.WorkerThread.{asleep, Worker, Move, new_worker, move_all}
use cec_control.Daemon.WorkerThread.Stage.{
  flight, IsWorker, InStage-flight, InStage-released, InStage-asleep,
}
use cec_control.Daemon.WorkerThread.Kept.{reached-IsWorker}

module _ {J : Type 0} where
  -- However the threads alternate: the jobs run, the one in flight, those dropped and those queued are
  -- the ones accepted, in their order; while a job is in flight the worker has the adapter and its
  -- thread has not made the closing call at its end; a worker that ran a job has made that call, once,
  -- by the time the adapter is released; and a thread that sleeps while jobs are queued is about to be
  -- notified.
  pub move_all-exclusive :
      (moves : List (Move J)) {w : Worker J}
      → move_all moves new_worker ≡ some w
      → (w.ran ++ (flight w.thread ++ (w.dropped ++ w.jobs)) ≡ w.accepted)
        × (flight w.thread ≢ [] → (w.adapter ≡ true) × (w.exit_closes ≡ 0))
        × (w.adapter ≡ false → w.ran ≢ [] → w.exit_closes ≡ 1)
        × (w.thread ≡ asleep → w.jobs ≢ [] → 0 < w.notifiers)
  move_all-exclusive moves {w} e =
      let i : IsWorker w = reached-IsWorker moves e in
      (
        i.ordered,
        InStage-flight w.thread w i.stage,
        InStage-released w.thread w i.stage,
        InStage-asleep w.thread w i.stage,
      )
