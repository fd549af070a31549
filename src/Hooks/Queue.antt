-- ===== src/Hooks/Queue.antt =====
-- src/daemon/hook/hook_executor.h and hook_executor.cpp: the thread that starts the scripts, and its
-- queue. `posix_spawn` is the operating system's; whatever it answers, the thread goes on.
use cec_control.Prelude.{
  ◌≡◌, refl, Bool, true, false, List, [], ◌∷◌, ◌++◌, append_assoc, append-nil, map, is_empty,
  if◌then◌else◌, if_ind, Text, arith, sym, ◌∙◌, ap,
}

pub record Job : Type 0 where
  pub path : Text
  pub env : List Text

-- `spawned` holds the jobs handed to `spawnOne`, in order. The thread runs while `running`.
pub record Executor : Type 0 where
  pub jobs : List Job
  pub stop_requested : Bool
  pub started : Bool
  pub running : Bool
  pub spawned : List Job

abbrev pub idle_executor : Executor
idle_executor = record {
  jobs = [];
  stop_requested = false;
  started = false;
  running = false;
  spawned = [];
}

unfoldable pub start : Executor → Executor
start x = if x.started then x else record x { started = true; running = true }

unfoldable pub submit : Job → Executor → Executor
submit job x =
    if is_empty job.path
    then x
    else if x.stop_requested
    then x
    else record x { jobs = x.jobs ++ job ∷ [] }

-- One round of `run` on the thread; a thread that waits does nothing.
round : Bool → List Job → Executor → Executor
round true jobs x = record x { jobs = []; running = false }
round false [] x = x
round false (job ∷ rest) x = record x { jobs = rest; spawned = x.spawned ++ job ∷ [] }

unfoldable pub run_round : Executor → Executor
unfolding round
run_round x = if x.running then round x.stop_requested x.jobs x else x

-- `stop`, which joins the thread: its last round finds the flag.
unfoldable pub stop : Executor → Executor
unfolding run_round
stop x = if x.stop_requested then x else run_round (record x { stop_requested = true })

pub data Input : Type 0 where
  starts stops rounds : Input
  submits : Job → Input

unfoldable pub handle : Executor → Input → Executor
unfolding start stop run_round submit
handle x starts = start x
handle x stops = stop x
handle x rounds = run_round x
handle x (submits job) = submit job x

unfoldable pub run : Executor → List Input → Executor
run x [] = x
run x (i ∷ is) = run (handle x i) is

-- Specification: the jobs with a path, of inputs without a stop.
abbrev pub submitted : List Input → List Job
submitted [] = []
submitted (submits job ∷ is) =
    let rest = submitted is in if is_empty job.path then rest else job ∷ rest
submitted (_ ∷ is) = submitted is

abbrev pub HasNoStop : List Input → Type 0
HasNoStop [] = Unit
HasNoStop (stops ∷ is) = ⊥
HasNoStop (_ ∷ is) = HasNoStop is

abbrev pub all_jobs : Executor → List Job
all_jobs x = x.spawned ++ x.jobs

-- The jobs of an executor that is not stopped.
round-jobs :
    (jobs : List Job) (x : Executor) → x.jobs ≡ jobs → all_jobs (round false jobs x) ≡ all_jobs x
unfolding round
round-jobs [] x e = refl
round-jobs (job ∷ rest) x e =
    append_assoc x.spawned (job ∷ []) rest ∙ ap (λ ys. x.spawned ++ ys) (sym e)

run_round-jobs : (x : Executor) → x.stop_requested ≡ false → all_jobs (run_round x) ≡ all_jobs x
unfolding run_round
run_round-jobs x e =
    if_ind (λ (y : Executor). all_jobs y ≡ all_jobs x) x.running
      (λ _. ap (λ b. all_jobs (round b x.jobs x)) e ∙ round-jobs x.jobs x refl) (λ _. refl)

round-flag :
    (b : Bool) (jobs : List Job) (x : Executor) → (round b jobs x).stop_requested ≡ x.stop_requested
unfolding round
round-flag true jobs x = refl
round-flag false [] x = refl
round-flag false (job ∷ rest) x = refl

run_round-flag : (x : Executor) → (run_round x).stop_requested ≡ x.stop_requested
unfolding run_round
run_round-flag x =
    if_ind (λ (y : Executor). y.stop_requested ≡ x.stop_requested) x.running
      (λ _. round-flag x.stop_requested x.jobs x) (λ _. refl)

start-jobs :
    (x : Executor)
    → (all_jobs (start x) ≡ all_jobs x) × ((start x).stop_requested ≡ x.stop_requested)
unfolding start
start-jobs x = ground arith

submit-jobs :
    (job : Job) (x : Executor)
    → x.stop_requested ≡ false
    → (all_jobs (submit job x) ≡ all_jobs x ++ (if is_empty job.path then [] else job ∷ []))
      × ((submit job x).stop_requested ≡ false)
unfolding submit
submit-jobs job x e =
    ground (arith, append-nil (all_jobs x), append_assoc x.spawned x.jobs (job ∷ []))

-- Without a stop every job submitted with a path is started or waits, behind those before it.
run_free :
    (x : Executor) (is : List Input)
    → HasNoStop is
    → x.stop_requested ≡ false
    → (all_jobs (run x is) ≡ all_jobs x ++ submitted is) × ((run x is).stop_requested ≡ false)
unfolding run handle
run_free x [] n e = (sym (append-nil (all_jobs x)), e)
run_free x (starts ∷ is) n e =
    let (k, e') = start-jobs x in
    let (j, f) = run_free (start x) is n (e' ∙ e) in (j ∙ ap (λ js. js ++ submitted is) k, f)
run_free x (stops ∷ is) n e = absurd n
run_free x (rounds ∷ is) n e =
    let (j, f) = run_free (run_round x) is n (run_round-flag x ∙ e) in
    (j ∙ ap (λ js. js ++ submitted is) (run_round-jobs x e), f)
run_free x (submits job ∷ is) n e =
    let (k, e') = submit-jobs job x e in
    let (j, f) = run_free (submit job x) is n e' in
    (
      j
          ∙ ap (λ js. js ++ submitted is) k
          ∙ append_assoc (all_jobs x) _ (submitted is)
          ∙ ap (λ js. all_jobs x ++ js) (ground arith),
      f,
    )

-- Started nothing, and is stopped.
abbrev Stays : Executor → Executor → Type 0
Stays x y = (y.spawned ≡ x.spawned) × (y.stop_requested ≡ true)

run_round-Stays : (x : Executor) → x.stop_requested ≡ true → Stays x (run_round x)
unfolding run_round round
run_round-Stays x e = (
  if_ind (λ (y : Executor). y.spawned ≡ x.spawned) x.running
      (λ _. ap (λ b. (round b x.jobs x).spawned) e) (λ _. refl),
  run_round-flag x ∙ e,
)

stop-Stays : (x : Executor) → Stays x (stop x)
unfolding stop
stop-Stays x =
    if_ind (Stays x) x.stop_requested (λ e. (refl, e))
      (λ _. run_round-Stays (record x { stop_requested = true }) refl)

handle-Stays : (x : Executor) (i : Input) → x.stop_requested ≡ true → Stays x (handle x i)
unfolding handle start submit
handle-Stays x starts e = ground (arith, e)
handle-Stays x stops e = stop-Stays x
handle-Stays x rounds e = run_round-Stays x e
handle-Stays x (submits job) e = ground (arith, e)

run-Stays :
    (x : Executor) (is : List Input) → x.stop_requested ≡ true → (run x is).spawned ≡ x.spawned
unfolding run
run-Stays x [] e = refl
run-Stays x (i ∷ is) e = let (k, e') = handle-Stays x i e in run-Stays (handle x i) is e' ∙ k

run-append : (x : Executor) (is js : List Input) → run x (is ++ js) ≡ run (run x is) js
unfolding run
run-append x [] js = refl
run-append x (i ∷ is) js = run-append (handle x i) is js

-- From an executor that is not stopped, over inputs without a stop: the jobs started and those that
-- wait are, in order, those before and those submitted with a path, and none is lost. A stop that
-- follows starts no more of them, and nothing after it does.
pub run-spawned :
    (x : Executor) (is more : List Input)
    → x.stop_requested ≡ false
    → HasNoStop is
    → (all_jobs (run x is) ≡ all_jobs x ++ submitted is)
      × ((run x (is ++ stops ∷ more)).spawned ≡ (run x is).spawned)
unfolding run handle
run-spawned x is more e n =
    let y = run x is in
    let (k, e') = stop-Stays y in
    (
      (run_free x is n e).0,
      ap (λ (z : Executor). z.spawned) (run-append x is (stops ∷ more))
          ∙ run-Stays (stop y) more e'
          ∙ k,
    )

-- A running thread that is left to itself starts every job that waits, in as many rounds.
pub run-rounds :
    (jobs : List Job) (x : Executor)
    → x.jobs ≡ jobs
    → x.running ≡ true
    → x.stop_requested ≡ false
    → (run x (map (λ _. rounds) jobs)).spawned ≡ x.spawned ++ jobs
unfolding run handle run_round round
run-rounds [] x e r s = sym (append-nil x.spawned)
run-rounds (job ∷ rest) x e r s =
    let y = record x { jobs = rest; spawned = x.spawned ++ job ∷ [] } in
    let next : run_round x ≡ y = rw (r, s, e, run_round, round) refl in
    ap (λ (z : Executor). (run z (map (λ _. rounds) rest)).spawned) next
    ∙ run-rounds rest y refl r s
    ∙ append_assoc x.spawned (job ∷ []) rest
