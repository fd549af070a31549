-- ===== src/Daemon/WorkerThread/Stage.antt =====
-- src/daemon/cec/adapter_worker.cpp: what holds of the worker at each stage of its thread.
use cec_control.Prelude.{
  ℕ, ◌+◌, ◌≤◌, ◌<◌, ◌≡◌, ◌≢◌, refl, true, false, List, [], ◌∷◌, ◌++◌, arith, ap, ◌∙◌,
}
use cec_control.Daemon.WorkerThread.{
  Thread, absent, looping, asleep, closing, exited, busy, StopPhase, outside, flagged, Worker,
  woken, notify_one,
}

module _ {J : Type 0} where
  -- The job in flight.
  unfoldable pub flight : Thread J → List J
  flight (busy j) = j ∷ []
  flight _ = []

  -- What holds of the worker while its thread is there.
  unfoldable pub InStage : Thread J → Worker J → Type 0
  InStage absent w = (w.started ≡ false) × (w.exit_closes ≡ 0) × (w.dropped ≡ []) × (w.ran ≡ [])
  InStage looping w =
      (w.started ≡ true) × (w.exit_closes ≡ 0) × (w.dropped ≡ []) × (w.adapter ≡ false → w.ran ≡ [])
  InStage asleep w =
      (w.started ≡ true)
      × (w.exit_closes ≡ 0)
      × (w.dropped ≡ [])
      × (w.adapter ≡ false → w.ran ≡ [])
      × (w.jobs ≢ [] → 0 < w.notifiers)
      × (w.stop_requested ≡ true → w.stopping ≡ flagged)
  InStage (busy j) w =
      (w.started ≡ true) × (w.exit_closes ≡ 0) × (w.dropped ≡ []) × (w.adapter ≡ true)
  InStage closing w =
      (w.started ≡ true)
      × (w.exit_closes ≡ 0)
      × (w.stop_requested ≡ true)
      × (w.adapter ≡ false → w.ran ≡ [])
  InStage exited w =
      (w.started ≡ true)
      × (w.exit_closes ≤ 1)
      × (w.stop_requested ≡ true)
      × (w.adapter ≡ true → w.exit_closes ≡ 1)
      × (w.ran ≢ [] → w.exit_closes ≡ 1)

  pub record IsWorker (w : Worker J) : Type 0 where
    pub ordered : w.ran ++ (flight w.thread ++ (w.dropped ++ w.jobs)) ≡ w.accepted
    pub owned : w.stop_requested ≡ false → w.adapter ≡ true
    pub requested : w.stopping ≢ outside → w.stop_requested ≡ true
    pub stage : InStage w.thread w

  pub unstarted-absent :
      (t : Thread J) (w : Worker J) → InStage t w → w.started ≡ false → t ≡ absent
  unfolding InStage
  unstarted-absent absent w s e = refl
  unstarted-absent looping w s e = grind (arith, s.0)
  unstarted-absent asleep w s e = grind (arith, s.0)
  unstarted-absent (busy j) w s e = grind (arith, s.0)
  unstarted-absent closing w s e = grind (arith, s.0)
  unstarted-absent exited w s e = grind (arith, s.0)

  pub queued-InStage :
      (t : Thread J) (w : Worker J) (j : J)
      → InStage t w
      → InStage t (record w {
        jobs = w.jobs ++ j ∷ [];
        accepted = w.accepted ++ j ∷ [];
        notifiers = w.notifiers + 1;
      })
  unfolding InStage
  queued-InStage absent w j s = s
  queued-InStage looping w j s = s
  queued-InStage asleep w j s = (s.0, s.1, s.2, s.3, λ k. omega arith, s.5)
  queued-InStage (busy k) w j s = s
  queued-InStage closing w j s = s
  queued-InStage exited w j s = s

  pub stopping-InStage :
      (t : Thread J) (w : Worker J)
      → InStage t w
      → InStage t (record w { stop_requested = true; stopping = flagged })
  unfolding InStage
  stopping-InStage absent w s = s
  stopping-InStage looping w s = s
  stopping-InStage asleep w s = (s.0, s.1, s.2, s.3, s.4, λ k. refl)
  stopping-InStage (busy k) w s = s
  stopping-InStage closing w s = (s.0, s.1, refl, s.3)
  stopping-InStage exited w s = (s.0, s.1, refl, s.3, s.4)

  flight-woken : (t : Thread J) → flight (woken t) ≡ flight t
  unfolding flight
  flight-woken asleep = refl
  flight-woken absent = refl
  flight-woken looping = refl
  flight-woken (busy j) = refl
  flight-woken closing = refl
  flight-woken exited = refl

  -- A thread that was notified no longer depends on the notifications due, nor on the stop's.
  woken-InStage :
      (t u : Thread J) (w : Worker J) (n : ℕ) (p : StopPhase)
      → InStage t w
      → InStage (woken t) (record w { thread = u; notifiers = n; stopping = p })
  unfolding InStage
  woken-InStage asleep u w n p s = (s.0, s.1, s.2, s.3)
  woken-InStage absent u w n p s = s
  woken-InStage looping u w n p s = s
  woken-InStage (busy j) u w n p s = s
  woken-InStage closing u w n p s = s
  woken-InStage exited u w n p s = s

  pub notify_one-IsWorker :
      (w : Worker J) (n : ℕ) (p : StopPhase)
      → (p ≢ outside → w.stop_requested ≡ true)
      → IsWorker w
      → IsWorker (notify_one (record w { notifiers = n; stopping = p }))
  unfolding notify_one
  notify_one-IsWorker w n p r i = record {
    ordered = ap (λ l. w.ran ++ (l ++ (w.dropped ++ w.jobs))) (flight-woken w.thread) ∙ i.ordered;
    owned = i.owned;
    requested = r;
    stage = woken-InStage w.thread (woken w.thread) w n p i.stage;
  }

  -- The job in flight has the adapter, and the thread has not made its closing call.
  pub InStage-flight :
      (t : Thread J) (w : Worker J)
      → InStage t w
      → flight t ≢ []
      → (w.adapter ≡ true) × (w.exit_closes ≡ 0)
  unfolding InStage flight
  InStage-flight (busy j) w s k = (s.3, s.1)
  InStage-flight absent w s k = absurd (k refl)
  InStage-flight looping w s k = absurd (k refl)
  InStage-flight asleep w s k = absurd (k refl)
  InStage-flight closing w s k = absurd (k refl)
  InStage-flight exited w s k = absurd (k refl)

  -- A worker that has run a job and released its adapter has made its closing call, once.
  pub InStage-released :
      (t : Thread J) (w : Worker J)
      → InStage t w
      → w.adapter ≡ false
      → w.ran ≢ []
      → w.exit_closes ≡ 1
  unfolding InStage
  InStage-released absent w s a k = absurd (k s.3)
  InStage-released looping w s a k = absurd (k (s.3 a))
  InStage-released asleep w s a k = absurd (k (s.3 a))
  InStage-released (busy j) w s a k = absurd (grind (arith, a, s.3))
  InStage-released closing w s a k = absurd (k (s.3 a))
  InStage-released exited w s a k = s.4 k

  -- A thread that sleeps while jobs wait is about to be notified.
  pub InStage-asleep :
      (t : Thread J) (w : Worker J) → InStage t w → t ≡ asleep → w.jobs ≢ [] → 0 < w.notifiers
  unfolding InStage
  InStage-asleep asleep w s e k = s.4 k
  InStage-asleep absent w s e k = absurd (grind (arith, e))
  InStage-asleep looping w s e k = absurd (grind (arith, e))
  InStage-asleep (busy j) w s e k = absurd (grind (arith, e))
  InStage-asleep closing w s e k = absurd (grind (arith, e))
  InStage-asleep exited w s e k = absurd (grind (arith, e))

  -- After its notification a stop has no thread asleep before it.
  pub InStage-joining :
      (t : Thread J) (w : Worker J)
      → InStage t w
      → w.stop_requested ≡ true
      → w.stopping ≢ flagged
      → t ≢ asleep
  unfolding InStage
  InStage-joining asleep w s q k = λ e. k (s.5 q)
  InStage-joining absent w s q k = λ e. grind (arith, e)
  InStage-joining looping w s q k = λ e. grind (arith, e)
  InStage-joining (busy j) w s q k = λ e. grind (arith, e)
  InStage-joining closing w s q k = λ e. grind (arith, e)
  InStage-joining exited w s q k = λ e. grind (arith, e)
