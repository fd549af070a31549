-- ===== src/Daemon/WorkerThread/Ends.antt =====
-- src/daemon/cec/adapter_worker.cpp: a stop returns.
use cec_control.Prelude.{
  ◌≡◌, ◌≢◌, refl, sym, true, false, some, List, [], ◌∷◌, ◌++◌, append-nil, arith,
}
use cec_control.Daemon.WorkerThread.{
  Thread, absent, looping, asleep, closing, exited, busy, StopPhase, outside, flagged, joining,
  Worker, Move, takes, finishes, closes, notifies_stop, joins, woken, new_worker, take_job,
  finish_job, close_adapter, notify_one, notify_stop, join, join_thread, move, move_all,
}
use cec_control.Daemon.WorkerThread.Stage.{flight, IsWorker, InStage-joining}
use cec_control.Daemon.WorkerThread.Kept.{reached-IsWorker}

module _ {J : Type 0} where
  -- What is left to do for a thread that is at this point: the job in flight ends, the loop drops the
  -- queue, the adapter is closed and the thread is joined. Nothing of its own wakes one that sleeps.
  unfoldable pub thread_moves : Thread J → List (Move J)
  thread_moves absent = joins ∷ []
  thread_moves looping = takes ∷ closes ∷ joins ∷ []
  thread_moves asleep = []
  thread_moves (busy j) = finishes ∷ takes ∷ closes ∷ joins ∷ []
  thread_moves closing = closes ∷ joins ∷ []
  thread_moves exited = joins ∷ []

  unfoldable pub stop_moves : StopPhase → Thread J → List (Move J)
  stop_moves flagged t = notifies_stop ∷ thread_moves (woken t)
  stop_moves _ t = thread_moves t

  -- Where a stop comes to.
  abbrev pub Stopped : List (Move J) → Worker J → Type 0
  Stopped moves w =
      (v : Worker J) × (move_all moves w ≡ some v)
      × (v.stopping ≡ outside)
      × (v.adapter ≡ false)
      × (v.ran ≡ w.ran ++ flight w.thread)

  joining-Stopped :
      (t : Thread J) (w : Worker J)
      → w.thread ≡ t
      → w.stopping ≡ joining
      → w.stop_requested ≡ true
      → t ≢ asleep
      → Stopped (thread_moves t) w
  unfolding thread_moves move_all move take_job finish_job close_adapter join join_thread flight
  joining-Stopped absent w e k q n = rw (e, k, q) (_, refl, refl, refl, sym (append-nil w.ran))
  joining-Stopped looping w e k q n = rw (e, k, q) (_, refl, refl, refl, sym (append-nil w.ran))
  joining-Stopped asleep w e k q n = absurd (n refl)
  joining-Stopped (busy j) w e k q n = rw (e, k, q) (_, refl, refl, refl, refl)
  joining-Stopped closing w e k q n = rw (e, k, q) (_, refl, refl, refl, sym (append-nil w.ran))
  joining-Stopped exited w e k q n = rw (e, k, q) (_, refl, refl, refl, sym (append-nil w.ran))

  flagged-Stopped :
      (t : Thread J) (w : Worker J)
      → w.thread ≡ t
      → w.stopping ≡ flagged
      → w.stop_requested ≡ true
      → Stopped (notifies_stop ∷ thread_moves (woken t)) w
  unfolding thread_moves move_all move take_job finish_job close_adapter notify_stop notify_one join
      join_thread flight
  flagged-Stopped absent w e k q = rw (e, k, q) (_, refl, refl, refl, sym (append-nil w.ran))
  flagged-Stopped looping w e k q = rw (e, k, q) (_, refl, refl, refl, sym (append-nil w.ran))
  flagged-Stopped asleep w e k q = rw (e, k, q) (_, refl, refl, refl, sym (append-nil w.ran))
  flagged-Stopped (busy j) w e k q = rw (e, k, q) (_, refl, refl, refl, refl)
  flagged-Stopped closing w e k q = rw (e, k, q) (_, refl, refl, refl, sym (append-nil w.ran))
  flagged-Stopped exited w e k q = rw (e, k, q) (_, refl, refl, refl, sym (append-nil w.ran))

  stopping-Stopped :
      (p : StopPhase) (w : Worker J)
      → w.stopping ≡ p
      → p ≢ outside
      → IsWorker w
      → Stopped (stop_moves p w.thread) w
  unfolding stop_moves
  stopping-Stopped outside w e n i = absurd (n refl)
  stopping-Stopped flagged w e n i =
      flagged-Stopped w.thread w refl e (i.requested (λ h. grind (arith, e, h)))
  stopping-Stopped joining w e n i =
      let q : w.stop_requested ≡ true = i.requested (λ h. grind (arith, e, h)) in
      joining-Stopped w.thread w refl e q
        (InStage-joining w.thread w i.stage q (λ h. grind (arith, e, h)))

  -- Wherever the worker thread of a reached worker is during a stop, also asleep in the condition
  -- variable, the moves that are left to the two threads lead to the end of the stop, without a wake-up
  -- that nobody asked for: the adapter is released, the job in flight has run, and no other has.
  pub stop-ends :
      (moves : List (Move J)) {w : Worker J}
      → move_all moves new_worker ≡ some w
      → w.stopping ≢ outside
      → Stopped (stop_moves w.stopping w.thread) w
  stop-ends moves {w} e n = stopping-Stopped w.stopping w refl n (reached-IsWorker moves e)
