-- ===== src/Hooks/Spawn.antt =====
-- src/daemon/hook/hook_executor.cpp: `spawnOne` and its two guards. What the system answers is a
-- parameter; the state has the structures made and not destroyed, and the children started.
use cec_control.Prelude.{
  ℕ, ◌+◌, ◌-◌, ◌≡◌, Bool, not, ◌||◌, ◌&&◌, List, [], ◌∷◌, ◌++◌, if◌then◌else◌, Text, arith,
}
use cec_control.Hooks.Queue.{Job}

pub record Spawning : Type 0 where
  pub attr_init : Bool
  pub file_actions_init : Bool
  pub set_sigmask : Bool
  pub set_flags : Bool
  pub add_open : Bool
  pub spawn : Bool

-- A script, with the arguments and the environment given to it.
pub record Child : Type 0 where
  pub path : Text
  pub argv : List Text
  pub envp : List Text

pub record Children : Type 0 where
  pub structures : ℕ
  pub started : List Child

abbrev pub child_of : Job → Child
child_of job = record { path = job.path; argv = job.path ∷ []; envp = job.env }

abbrev init : Bool → Children → Children
init ok s = record s { structures = if ok then s.structures + 1 else s.structures }

-- The destructor of a guard.
abbrev destroy : Bool → Children → Children
destroy ok s = record s { structures = if ok then s.structures - 1 else s.structures }

-- The body, with both guards made.
unfoldable pub spawn_in : Spawning → Job → Children → Children
spawn_in os job s =
    if not os.attr_init || not os.file_actions_init
    then s
    else if not os.set_sigmask || not os.set_flags
    then s
    else if not os.add_open
    then s
    else if os.spawn
    then record s { started = s.started ++ child_of job ∷ [] }
    else s

unfoldable pub spawn_one : Spawning → Job → Children → Children
unfolding spawn_in
spawn_one os job s = destroy os.attr_init (
    destroy os.file_actions_init
      (spawn_in os job (init os.file_actions_init (init os.attr_init s))))

-- Whichever call fails, the structures made for a script are destroyed; and the script is started, with
-- its path for its only argument and the job's environment, exactly if every call succeeds.
pub spawn_one-started :
    (os : Spawning) (job : Job) (s : Children)
    → ((spawn_one os job s).structures ≡ s.structures)
      × ((spawn_one os job s).started ≡ (
          if os.attr_init && os.file_actions_init && os.set_sigmask && os.set_flags && os.add_open
            && os.spawn
          then s.started ++ child_of job ∷ []
          else s.started))
unfolding spawn_one spawn_in
spawn_one-started os job s = (ground arith, ground arith)
