-- ===== src/Daemon/Dispatcher/Parking.antt =====
-- command_dispatcher.cpp and suspend_queue.cpp: the commands that arrive while the daemon sleeps.
use cec_control.Prelude.{
  ℕ, ◌≡◌, refl, Bool, true, false, Option, none, some, List, [], ◌∷◌, ◌++◌, arith, ◌∙◌, sym, ap,
  append_assoc, append-nil, if◌then◌else◌,
}
use cec_control.Message.{Message}
use cec_control.Dispatch.{DispatchSpec, find_dispatch_by_type, supervisor_intercepted, adapter_call}
use cec_control.Power.SuspendQueue.{push, drain}
use cec_control.Daemon.State.{World, Job, command_job, submit, reply}
use cec_control.Daemon.Lifecycle.{enqueue, on_resume_worker_complete}
use cec_control.Daemon.Dispatcher.{dispatch, by_spec, handle_suspended_inline, replay, replay_spec}

-- A command that may wait for the resume.
abbrev may_wait : Option DispatchSpec → Bool
may_wait none = false
may_wait (some spec) = elim spec.class [
  | supervisor_intercepted ↦ false
  | _ ↦ spec.queueable_while_suspended
]

abbrev waiting : Message → List Message
waiting c = if may_wait (find_dispatch_by_type c.type) then c ∷ [] else []

-- Those of the commands that may wait, in order.
abbrev pub parked : List (Message × ℕ) → List Message
parked [] = []
parked ((c, sink) ∷ cs) = waiting c ++ parked cs

abbrev pub dispatch_all : {S : Type 0} → List (Message × ℕ) → World S → World S
dispatch_all [] w = w
dispatch_all ((c, sink) ∷ cs) w = dispatch_all cs (dispatch c (some sink) w)

abbrev jobs_by : Option DispatchSpec → Message → List Job
jobs_by none c = []
jobs_by (some spec) c = elim spec.class [ adapter_call ↦ command_job spec c none ∷ [] | _ ↦ [] ]

-- The jobs of commands that nobody waits for any more.
abbrev pub replayed : List Message → List Job
replayed [] = []
replayed (c ∷ cs) = jobs_by (find_dispatch_by_type c.type) c ++ replayed cs

-- The daemon sleeps, is set to park commands, and its dispatcher and worker are running.
pub record IsAsleep {S : Type 0} (w : World S) : Type 0 where
  pub suspended : w.suspend_queue.suspended ≡ true
  pub queues : w.queue_commands ≡ true
  pub up : w.dispatcher_shutdown ≡ false
  pub works : w.stop_requested ≡ false

record Parks {S : Type 0} (cs : List Message) (w w' : World S) : Type 0 where
  asleep : IsAsleep w'
  jobs : w'.jobs ≡ w.jobs
  queued : w'.suspend_queue.queued ≡ w.suspend_queue.queued ++ cs

module _ {S : Type 0} where
  by_spec-Parks :
      (spec : Option DispatchSpec) (c : Message) (sink : ℕ) (w : World S)
      → IsAsleep w
      → Parks (if may_wait spec then c ∷ [] else []) w (by_spec spec c sink w)
  unfolding by_spec handle_suspended_inline reply enqueue push
  by_spec-Parks spec c sink w a = ground (arith, append-nil w.suspend_queue.queued)

  dispatch-Parks :
      (c : Message) (sink : ℕ) (w : World S)
      → IsAsleep w
      → Parks (waiting c) w (dispatch c (some sink) w)
  unfolding dispatch
  dispatch-Parks c sink w a =
      ground (arith, a.up, by_spec-Parks (find_dispatch_by_type c.type) c sink w a)

  dispatch_all-Parks :
      (cs : List (Message × ℕ)) (w : World S) → IsAsleep w → Parks (parked cs) w (dispatch_all cs w)
  dispatch_all-Parks [] w a = record {
    asleep = a;
    jobs = refl;
    queued = sym (append-nil w.suspend_queue.queued);
  }
  dispatch_all-Parks ((c, sink) ∷ cs) w a =
      let first = dispatch-Parks c sink w a in
      let rest = dispatch_all-Parks cs (dispatch c (some sink) w) first.asleep in
      record {
        asleep = rest.asleep;
        jobs = rest.jobs ∙ first.jobs;
        queued =
            rest.queued
            ∙ ap (λ (q : List Message). q ++ parked cs) first.queued
            ∙ append_assoc w.suspend_queue.queued (waiting c) (parked cs);
      }

  replay_spec-jobs :
      (spec : Option DispatchSpec) (c : Message) (w : World S)
      → w.stop_requested ≡ false
      → ((replay_spec spec c w).jobs ≡ w.jobs ++ jobs_by spec c)
        × ((replay_spec spec c w).stop_requested ≡ false)
  unfolding replay_spec submit
  replay_spec-jobs spec c w up = ground (arith, append-nil w.jobs)

  replay-jobs :
      (queue : List Message) (w : World S)
      → w.stop_requested ≡ false
      → (replay queue w).jobs ≡ w.jobs ++ replayed queue
  unfolding replay
  replay-jobs [] w up = sym (append-nil w.jobs)
  replay-jobs (c ∷ cs) w up =
      let spec = find_dispatch_by_type c.type in
      let (jobs, still) = replay_spec-jobs spec c w up in
      replay-jobs cs (replay_spec spec c w) still
      ∙ ap (λ (js : List Job). js ++ replayed cs) jobs
      ∙ append_assoc w.jobs (jobs_by spec c) (replayed cs)

  -- What a resume that found the adapter valid submits, with nothing in between.
  abbrev pub resumed_with : Bool → World S → World S
  resumed_with valid w =
      let (w', still_valid, queue) = on_resume_worker_complete valid w in replay queue w'

  -- Commands that arrive while the daemon sleeps and parks them, with dispatcher and worker running,
  -- submit no job; a resume that finds the adapter valid then submits those among them that may wait,
  -- after any that were parked before, each once and in the order in which they came; and a resume
  -- that does not submits none.
  pub resumed_with-jobs :
      (cs : List (Message × ℕ)) (w : World S)
      → IsAsleep w
      → ((dispatch_all cs w).jobs ≡ w.jobs)
        × ((resumed_with true (dispatch_all cs w)).jobs
            ≡ w.jobs ++ replayed (w.suspend_queue.queued ++ parked cs))
        × ((resumed_with false (dispatch_all cs w)).jobs ≡ w.jobs)
  unfolding on_resume_worker_complete drain
  resumed_with-jobs cs w a =
      let v = dispatch_all cs w in
      let h = dispatch_all-Parks cs w a in
      (
        h.jobs,
        replay-jobs v.suspend_queue.queued (on_resume_worker_complete true v).0 h.asleep.works
            ∙ ap (λ (js : List Job). js ++ replayed v.suspend_queue.queued) h.jobs
            ∙ ap (λ (q : List Message). w.jobs ++ replayed q) h.queued,
        unfold replay in h.jobs,
      )
