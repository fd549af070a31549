-- ===== src/Daemon/Posting.antt =====
-- src/common/main_thread_work.cpp: `post` from any thread beside `drain` on the main thread, whose
-- steps alternate in any order. A closure is a value of any type; `accepted` and `ran` have those
-- posted and those run, the oldest first.
pub mod Delivered
use cec_control.Prelude.{
  ℕ, zero, suc, ◌+◌, ◌-◌, ◌==◌, ◌&&◌, ltb, Bool, true, false, Option, none, some, List, [], ◌∷◌,
  ◌++◌, if◌then◌else◌,
}

-- Where the main thread is: in the loop, between the reads and the swap of `drain`, or in the batch.
pub data Phase : Type 0 where
  waiting cleared running : Phase

-- `opened` tells whether the eventfd could be made, `counter` is the eventfd's, `writers` counts the threads between the two halves of `post`.
pub record Posting (W : Type 0) : Type 0 where
  pub opened : Bool
  pub pending : List W
  pub counter : ℕ
  pub writers : ℕ
  pub phase : Phase
  pub batch : List W
  pub accepted : List W
  pub ran : List W

-- An eventfd holds no more; a write then fails.
abbrev pub counter_max : ℕ
counter_max = 18446744073709551614

pub data Act (W : Type 0) : Type 0 where
  pushes : Option W → Act W
  writes reads swaps runs ends : Act W

module _ {W : Type 0} where
  abbrev pub nothing_posted : Bool → Posting W
  nothing_posted opened = record {
    opened = opened;
    pending = [];
    counter = 0;
    writers = 0;
    phase = waiting;
    batch = [];
    accepted = [];
    ran = [];
  }

  -- The first half of `post`, under the lock; an empty closure is not taken.
  unfoldable pub push : Option W → Posting W → Posting W
  push none p = p
  push (some w) p = record p {
    pending = p.pending ++ w ∷ [];
    accepted = p.accepted ++ w ∷ [];
    writers = p.writers + 1;
  }

  -- The second half: the write to the eventfd, where there is one.
  unfoldable pub write : Posting W → Option (Posting W)
  write p =
      if p.writers == 0
      then none
      else some (record p {
        writers = p.writers - 1;
        counter = if p.opened && ltb p.counter counter_max then p.counter + 1 else p.counter;
      })

  -- The loop calls `drain` when the eventfd can be read; its reads empty the counter.
  unfoldable pub read : Posting W → Option (Posting W)
  read p = elim p.phase [
    | waiting ↦ if p.counter == 0 then none else some (record p { counter = 0; phase = cleared })
    | _ ↦ none
  ]

  unfoldable pub swap : Posting W → Option (Posting W)
  swap p = elim p.phase [
    | cleared ↦ some (record p { batch = p.pending; pending = []; phase = running })
    | _ ↦ none
  ]

  -- The next closure of the batch, which may post in turn, or throw.
  unfoldable pub run_next : Posting W → Option (Posting W)
  run_next p = elim p.phase [
    | running ↦ elim p.batch [
      | [] ↦ none
      | w ∷ ws ↦ some (record p { batch = ws; ran = p.ran ++ w ∷ [] })
    ]
    | _ ↦ none
  ]

  unfoldable pub finish : Posting W → Option (Posting W)
  finish p = elim p.phase [
    | running ↦ elim p.batch [ [] ↦ some (record p { phase = waiting }) | w ∷ ws ↦ none ]
    | _ ↦ none
  ]

  -- What one thread does next; none where it cannot.
  unfoldable pub act : Act W → Posting W → Option (Posting W)
  unfolding push write read swap run_next finish
  act (pushes w) p = some (push w p)
  act writes p = write p
  act reads p = read p
  act swaps p = swap p
  act runs p = run_next p
  act ends p = finish p

  unfoldable pub act_all : List (Act W) → Posting W → Option (Posting W)
  unfolding act
  act_all [] p = some p
  act_all (a ∷ rest) p = elim (act a p) [ none ↦ none | some p' ↦ act_all rest p' ]
