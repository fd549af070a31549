-- ===== src/Daemon/WorkerThread/Kept.antt =====
-- src/daemon/cec/adapter_worker.cpp: every move keeps what holds of the worker.
use cec_control.Prelude.{
  ◌≡◌, refl, sym, ap, subst, ◌∙◌, Bool, true, false, Option, none, some, List, [], ◌∷◌, ◌++◌,
  append_assoc, append-nil, arith, if_ind, Option_ind, not, ◌||◌, ◌==◌, ◌-◌,
}
use cec_control.Daemon.WorkerThread.{
  Thread, absent, looping, asleep, closing, exited, busy, StopPhase, outside, flagged, joining,
  Worker, Move, starts, submits, notifies, stirs, takes, finishes, closes, begins_stop,
  notifies_stop, joins, when_outside, notify_submit, stir, notify_stop, join_thread, new_worker,
  start, submit, take_job, finish_job, close_adapter, begin_stop, join, move, move_all,
}
use cec_control.Daemon.WorkerThread.Stage.{
  flight, InStage, IsWorker, unstarted-absent, queued-InStage, stopping-InStage,
  notify_one-IsWorker,
}

module _ {J : Type 0} where
  List_ind :
      {B : Type 0} (P : B → Type 0) (l : List J) {x : B} {f : J → List J → B}
      → (l ≡ [] → P x)
      → ((j : J) (rest : List J) → l ≡ j ∷ rest → P (f j rest))
      → P (elim l [ [] ↦ x | j ∷ rest ↦ f j rest ])
  List_ind P [] h k = h refl
  List_ind P (j ∷ rest) h k = k j rest refl

  abbrev Keeps : Option (Worker J) → Type 0
  Keeps none = Unit
  Keeps (some w) = IsWorker w

  spawn-IsWorker :
      (w : Worker J)
      → w.thread ≡ absent
      → IsWorker w
      → IsWorker (record w { thread = looping; started = true })
  unfolding flight InStage
  spawn-IsWorker w e i =
      let s = subst (λ t. InStage t w) e i.stage in
      record {
        ordered =
            subst (λ t. w.ran ++ (flight t ++ (w.dropped ++ w.jobs)) ≡ w.accepted) e i.ordered;
        owned = i.owned;
        requested = i.requested;
        stage = (refl, s.1, s.2, λ h. s.3);
      }

  start-IsWorker : (b : Bool) (w : Worker J) → IsWorker w → IsWorker (start b w)
  unfolding start
  start-IsWorker b w i =
      if_ind IsWorker (w.started || not b) (λ e. i)
        (λ e. spawn-IsWorker w (unstarted-absent w.thread w i.stage (ground (arith, e))) i)

  -- A job added behind the others.
  queued :
      {w : Worker J} (j : J)
      → IsWorker w
      → w.ran ++ (flight w.thread ++ (w.dropped ++ (w.jobs ++ j ∷ []))) ≡ w.accepted ++ j ∷ []
  queued {w} j i =
      ap (λ l. w.ran ++ (flight w.thread ++ l)) (sym (append_assoc w.dropped w.jobs (j ∷ [])))
      ∙ ap (λ l. w.ran ++ l) (sym (append_assoc (flight w.thread) (w.dropped ++ w.jobs) (j ∷ [])))
      ∙ sym (append_assoc w.ran (flight w.thread ++ (w.dropped ++ w.jobs)) (j ∷ []))
      ∙ ap (λ l. l ++ j ∷ []) i.ordered

  submit-IsWorker : (j : Option J) (w : Worker J) → IsWorker w → IsWorker (submit j w)
  unfolding submit
  submit-IsWorker none w i = i
  submit-IsWorker (some j) w i =
      if_ind IsWorker w.stop_requested (λ e. i)
        (λ e. record {
          ordered = queued j i;
          owned = i.owned;
          requested = i.requested;
          stage = queued-InStage w.thread w j i.stage;
        })

  take_job-IsWorker :
      (t : Thread J) (w : Worker J) → w.thread ≡ t → IsWorker w → Keeps (take_job t w)
  unfolding take_job flight InStage
  take_job-IsWorker looping w e i =
      let s = subst (λ t. InStage t w) e i.stage in
      let o : w.ran ++ (w.dropped ++ w.jobs) ≡ w.accepted =
        subst (λ t. w.ran ++ (flight t ++ (w.dropped ++ w.jobs)) ≡ w.accepted) e i.ordered in
      if_ind Keeps w.stop_requested
        (λ q. record {
          ordered = ap (λ l. w.ran ++ l) (append-nil (w.dropped ++ w.jobs)) ∙ o;
          owned = i.owned;
          requested = i.requested;
          stage = (s.0, s.1, q, s.3);
        })
        (λ q.
          List_ind IsWorker w.jobs
            (λ n. record {
              ordered = o;
              owned = i.owned;
              requested = i.requested;
              stage = (s.0, s.1, s.2, s.3, λ k. absurd (k n), λ k. absurd (grind (arith, q, k)));
            })
            (λ j rest c. record {
              ordered =
                  ap (λ d. w.ran ++ (j ∷ d ++ rest)) s.2
                  ∙ ap (λ l. w.ran ++ l) (sym c)
                  ∙ ap (λ d. w.ran ++ (d ++ w.jobs)) (sym s.2)
                  ∙ o;
              owned = i.owned;
              requested = i.requested;
              stage = (s.0, s.1, s.2, i.owned q);
            }))
  take_job-IsWorker (busy j) w e i = tt
  take_job-IsWorker absent w e i = tt
  take_job-IsWorker asleep w e i = tt
  take_job-IsWorker closing w e i = tt
  take_job-IsWorker exited w e i = tt

  finish_job-IsWorker :
      (t : Thread J) (w : Worker J) → w.thread ≡ t → IsWorker w → Keeps (finish_job t w)
  unfolding finish_job flight InStage
  finish_job-IsWorker (busy j) w e i =
      let s = subst (λ t. InStage t w) e i.stage in
      record {
        ordered =
            append_assoc w.ran (j ∷ []) (w.dropped ++ w.jobs)
            ∙ subst (λ t. w.ran ++ (flight t ++ (w.dropped ++ w.jobs)) ≡ w.accepted) e i.ordered;
        owned = i.owned;
        requested = i.requested;
        stage = (s.0, s.1, s.2, λ h. absurd (grind (arith, h, s.3)));
      }
  finish_job-IsWorker looping w e i = tt
  finish_job-IsWorker absent w e i = tt
  finish_job-IsWorker asleep w e i = tt
  finish_job-IsWorker closing w e i = tt
  finish_job-IsWorker exited w e i = tt

  close_adapter-IsWorker :
      (t : Thread J) (w : Worker J) → w.thread ≡ t → IsWorker w → Keeps (close_adapter t w)
  unfolding close_adapter flight InStage
  close_adapter-IsWorker closing w e i =
      let s = subst (λ t. InStage t w) e i.stage in
      record {
        ordered =
            subst (λ t. w.ran ++ (flight t ++ (w.dropped ++ w.jobs)) ≡ w.accepted) e i.ordered;
        owned = i.owned;
        requested = i.requested;
        stage = (s.0, ground (arith, s.1), s.2, ground (arith, s.1), ground (arith, s.1, s.3));
      }
  close_adapter-IsWorker asleep w e i = tt
  close_adapter-IsWorker looping w e i = tt
  close_adapter-IsWorker absent w e i = tt
  close_adapter-IsWorker (busy j) w e i = tt
  close_adapter-IsWorker exited w e i = tt

  begin_stop-IsWorker : (w : Worker J) → IsWorker w → IsWorker (begin_stop w)
  unfolding begin_stop
  begin_stop-IsWorker w i =
      if_ind IsWorker w.stop_requested (λ e. i)
        (λ e. record {
          ordered = i.ordered;
          owned = λ h. absurd (grind (arith, h));
          requested = λ h. refl;
          stage = stopping-InStage w.thread w i.stage;
        })

  join_thread-IsWorker :
      (t : Thread J) (w : Worker J)
      → w.thread ≡ t
      → w.stop_requested ≡ true
      → IsWorker w
      → Keeps (join_thread t w)
  unfolding join_thread InStage
  join_thread-IsWorker absent w e k i = record {
    ordered = i.ordered;
    owned = λ h. absurd (grind (arith, h, k));
    requested = λ h. k;
    stage =
        subst (λ t. InStage t (record w { adapter = false; stopping = outside })) (sym e)
          (subst (λ t. InStage t w) e i.stage);
  }
  join_thread-IsWorker exited w e k i =
      let s = subst (λ t. InStage t w) e i.stage in
      record {
        ordered = i.ordered;
        owned = λ h. absurd (grind (arith, h, k));
        requested = λ h. k;
        stage =
            subst (λ t. InStage t (record w { adapter = false; stopping = outside })) (sym e)
              (s.0, s.1, s.2, λ h. absurd (grind (arith, h)), s.4);
      }
  join_thread-IsWorker looping w e k i = tt
  join_thread-IsWorker asleep w e k i = tt
  join_thread-IsWorker (busy j) w e k i = tt
  join_thread-IsWorker closing w e k i = tt

  -- The moves of the main thread in a stop.
  join-IsWorker : (p : StopPhase) (w : Worker J) → w.stopping ≡ p → IsWorker w → Keeps (join p w)
  unfolding join
  join-IsWorker outside w e i = tt
  join-IsWorker flagged w e i = tt
  join-IsWorker joining w e i =
      join_thread-IsWorker w.thread w refl (i.requested (λ h. grind (arith, e, h))) i

  notify_stop-IsWorker :
      (p : StopPhase) (w : Worker J) → w.stopping ≡ p → IsWorker w → Keeps (notify_stop p w)
  unfolding notify_stop
  notify_stop-IsWorker outside w e i = tt
  notify_stop-IsWorker joining w e i = tt
  notify_stop-IsWorker flagged w e i =
      notify_one-IsWorker w w.notifiers joining (λ h. i.requested (λ k. grind (arith, e, k))) i

  notify_submit-IsWorker : (w : Worker J) → IsWorker w → Keeps (notify_submit w)
  unfolding notify_submit
  notify_submit-IsWorker w i =
      if_ind Keeps (w.notifiers == 0) (λ e. tt)
        (λ e. notify_one-IsWorker w (w.notifiers - 1) w.stopping i.requested i)

  when_outside-IsWorker : (p : StopPhase) (w : Worker J) → IsWorker w → Keeps (when_outside p w)
  when_outside-IsWorker outside w i = i
  when_outside-IsWorker flagged w i = tt
  when_outside-IsWorker joining w i = tt

  move-IsWorker : (m : Move J) (w : Worker J) → IsWorker w → Keeps (move m w)
  unfolding move stir
  move-IsWorker (starts b) w i = when_outside-IsWorker w.stopping (start b w) (start-IsWorker b w i)
  move-IsWorker (submits j) w i = submit-IsWorker j w i
  move-IsWorker notifies w i = notify_submit-IsWorker w i
  move-IsWorker stirs w i = notify_one-IsWorker w w.notifiers w.stopping i.requested i
  move-IsWorker takes w i = take_job-IsWorker w.thread w refl i
  move-IsWorker finishes w i = finish_job-IsWorker w.thread w refl i
  move-IsWorker closes w i = close_adapter-IsWorker w.thread w refl i
  move-IsWorker begins_stop w i =
      when_outside-IsWorker w.stopping (begin_stop w) (begin_stop-IsWorker w i)
  move-IsWorker notifies_stop w i = notify_stop-IsWorker w.stopping w refl i
  move-IsWorker joins w i = join-IsWorker w.stopping w refl i

  move_all-IsWorker : (moves : List (Move J)) (w : Worker J) → IsWorker w → Keeps (move_all moves w)
  unfolding move_all
  move_all-IsWorker [] w i = i
  move_all-IsWorker (m ∷ moves) w i =
      Option_ind Keeps (move m w) (λ n. tt)
        (λ v e. move_all-IsWorker moves v (subst Keeps e (move-IsWorker m w i)))

  new_worker-IsWorker : IsWorker (new_worker {J = J})
  unfolding flight InStage
  new_worker-IsWorker = record {
    ordered = refl;
    owned = λ h. refl;
    requested = λ h. absurd (h refl);
    stage = (refl, refl, refl, refl);
  }

  -- What every worker reached from a new one satisfies.
  pub reached-IsWorker :
      (moves : List (Move J)) {w : Worker J} → move_all moves new_worker ≡ some w → IsWorker w
  reached-IsWorker moves {w} e =
      subst Keeps e (move_all-IsWorker moves new_worker new_worker-IsWorker)
