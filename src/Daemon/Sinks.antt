-- ===== src/Daemon/Sinks.antt =====
-- The replies of one response sink: those given, those on their way in a posted closure, and those
-- that a job of the worker will give.
use cec_control.Prelude.{
  ℕ, ◌+◌, ◌≡◌, ap, refl, Bool, false, Bool-cases, Option, none, some, List, [], ◌∷◌, ◌++◌, ◌==◌,
  if◌then◌else◌, arith,
}
use cec_control.Message.{Message}
use cec_control.Daemon.State.{World, Job, Work, command_job, reply_with, submit, post, reply}

abbrev pub one_if : Bool → ℕ
one_if b = if b then 1 else 0

module _ (k : ℕ) where
  abbrev pub of_sink : Option ℕ → ℕ
  of_sink none = 0
  of_sink (some sink) = one_if (sink == k)

  abbrev pub of_job : Job → ℕ
  of_job (command_job spec m sink) = of_sink sink
  of_job _ = 0

  abbrev pub of_work : Work → ℕ
  of_work (reply_with sink m) = one_if (sink == k)
  of_work _ = 0

  abbrev pub in_jobs : List Job → ℕ
  in_jobs [] = 0
  in_jobs (job ∷ rest) = of_job job + in_jobs rest

  abbrev pub in_posted : List Work → ℕ
  in_posted [] = 0
  in_posted (work ∷ rest) = of_work work + in_posted rest

  abbrev pub in_replies : List (ℕ × Message) → ℕ
  in_replies [] = 0
  in_replies ((sink, m) ∷ rest) = one_if (sink == k) + in_replies rest

  -- Every reply of the sink, given or to be given.
  abbrev pub owed : {S : Type 0} → World S → ℕ
  owed w = in_jobs w.jobs + in_posted w.posted + in_replies w.replies

  in_jobs-snoc :
      (jobs : List Job) (job : Job) → in_jobs (jobs ++ job ∷ []) ≡ in_jobs jobs + of_job job
  in_jobs-snoc [] job = omega arith
  in_jobs-snoc (j ∷ jobs) job = omega (arith, in_jobs-snoc jobs job)

  in_posted-snoc :
      (posted : List Work) (work : Work)
      → in_posted (posted ++ work ∷ []) ≡ in_posted posted + of_work work
  in_posted-snoc [] work = omega arith
  in_posted-snoc (p ∷ posted) work = omega (arith, in_posted-snoc posted work)

  -- What the three primitives add; a job submitted after a stop is dropped.
  pub owed-submit :
      {S : Type 0} (job : Job) (w : World S)
      → owed (submit job w) ≡ owed w + (if w.stop_requested then 0 else of_job job)
  unfolding submit
  owed-submit job w = ground (arith, in_jobs-snoc w.jobs job)

  pub owed-post :
      {S : Type 0} (work : Work) (w : World S) → owed (post work w) ≡ owed w + of_work work
  unfolding post
  owed-post work w = omega (arith, in_posted-snoc w.posted work)

  pub owed-reply :
      {S : Type 0} (sink : ℕ) (m : Message) (w : World S)
      → owed (reply sink m w) ≡ owed w + one_if (sink == k)
  unfolding reply
  owed-reply sink m w = omega arith

  -- The replies of the sink, with the worker's stop flag.
  abbrev pub ledger : {S : Type 0} → World S → ℕ × Bool
  ledger w = (owed w, w.stop_requested)

  submit-stop :
      {S : Type 0} (job : Job) (w : World S) → (submit job w).stop_requested ≡ w.stop_requested
  unfolding submit
  submit-stop job w = ground arith

  pub ledger-submit :
      {S : Type 0} (job : Job) (w : World S) → of_job job ≡ 0 → ledger (submit job w) ≡ ledger w
  ledger-submit job w e = rw (kept, submit-stop job w)
    where
      kept : owed (submit job w) ≡ owed w
      kept = ground (arith, e, owed-submit job w, Bool-cases w.stop_requested)

  -- So many replies more are owed to the sink, and the worker takes jobs as before.
  abbrev pub Gains : {S : Type 0} → ℕ → World S → World S → Type 0
  Gains n w w' = (owed w' ≡ owed w + n) × (w'.stop_requested ≡ w.stop_requested)

  pub ledger-Gains : {S : Type 0} (w w' : World S) → ledger w' ≡ ledger w → Gains 0 w w'
  ledger-Gains w w' e = (omega (arith, ap (λ (x : ℕ × Bool). x.0) e), ap (λ (x : ℕ × Bool). x.1) e)

  pub reply-Gains :
      {S : Type 0} (sink : ℕ) (m : Message) (w : World S)
      → Gains (one_if (sink == k)) w (reply sink m w)
  unfolding reply
  reply-Gains sink m w = (unfold reply in owed-reply sink m w, refl)

  pub post-Gains : {S : Type 0} (work : Work) (w : World S) → Gains (of_work work) w (post work w)
  unfolding post
  post-Gains work w = (owed-post work w, refl)

  pub submit-Gains :
      {S : Type 0} (job : Job) (w : World S)
      → w.stop_requested ≡ false
      → Gains (of_job job) w (submit job w)
  submit-Gains job w up = (ground (arith, up, owed-submit job w), submit-stop job w)
