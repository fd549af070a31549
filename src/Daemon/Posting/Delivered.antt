-- ===== src/Daemon/Posting/Delivered.antt =====
-- src/common/main_thread_work.cpp: every closure posted runs once, in order, and none is left waiting
-- with nothing to wake the loop.
use cec_control.Prelude.{
  ◌+◌, ◌<◌, ◌≡◌, ◌≢◌, refl, sym, ap, subst, ◌∙◌, ◌⊎◌, Bool, true, Option, none, some, List, [], ◌∷◌,
  ◌++◌, append_assoc, append-nil, arith, inl, inr,
}
use cec_control.Daemon.Posting.{
  Phase, waiting, cleared, running, Posting, Act, pushes, writes, reads, swaps, runs, ends,
  nothing_posted, push, write, read, swap, run_next, finish, act, act_all,
}

data PhaseCases (x : Phase) : Type 0 where
  waits : x ≡ waiting → PhaseCases x
  clears : x ≡ cleared → PhaseCases x
  steps : x ≡ running → PhaseCases x

Phase-cases : (x : Phase) → PhaseCases x
Phase-cases waiting = waits refl
Phase-cases cleared = clears refl
Phase-cases running = steps refl

module _ {W : Type 0} where
  List-cases : (ws : List W) → (ws ≡ []) ⊎ ((w : W) × (rest : List W) × ws ≡ w ∷ rest)
  List-cases [] = inl refl
  List-cases (w ∷ ws) = inr (w, ws, refl)

  -- Unless the swap is still to come, what is pending has woken the loop, or its poster is about to;
  -- and every closure accepted has run, is in the batch or is pending, in its order.
  record IsPosting (p : Posting W) : Type 0 where
    woken : p.opened ≡ true → p.phase ≢ cleared → p.pending ≢ [] → 0 < p.counter + p.writers
    between : p.phase ≢ running → p.batch ≡ []
    ordered : p.ran ++ (p.batch ++ p.pending) ≡ p.accepted

  abbrev Holds : (Posting W → Type 0) → Option (Posting W) → Type 0
  Holds P none = Unit
  Holds P (some p) = P p

  push-IsPosting : (w : Option W) (p : Posting W) → IsPosting p → IsPosting (push w p)
  unfolding push
  push-IsPosting none p i = i
  push-IsPosting (some w) p i = record {
    woken = λ o h k. omega arith;
    between = i.between;
    ordered =
        sym (ap (λ l. p.ran ++ l) (append_assoc p.batch p.pending (w ∷ [])))
        ∙ sym (append_assoc p.ran (p.batch ++ p.pending) (w ∷ []))
        ∙ ap (λ l. l ++ w ∷ []) i.ordered;
  }

  write-IsPosting : (p : Posting W) → IsPosting p → Holds IsPosting (write p)
  unfolding write
  write-IsPosting p i = ground (arith, i.woken, i.between, i.ordered)

  read-IsPosting : (p : Posting W) → IsPosting p → Holds IsPosting (read p)
  unfolding read
  read-IsPosting p i = ground (arith, i.woken, i.between, i.ordered)

  swap-IsPosting : (p : Posting W) → IsPosting p → Holds IsPosting (swap p)
  unfolding swap
  swap-IsPosting p i = elim (Phase-cases p.phase) [
    | waits e ↦ rw e tt
    | clears e ↦ rw e (record {
      woken = λ o h k. absurd (k refl);
      between = λ h. absurd (h refl);
      ordered =
          ap (λ l. p.ran ++ l) (append-nil p.pending)
          ∙ ap (λ l. p.ran ++ (l ++ p.pending)) (sym (i.between (rw e (λ q. grind arith))))
          ∙ i.ordered;
    })
    | steps e ↦ rw e tt
  ]

  run_next-IsPosting : (p : Posting W) → IsPosting p → Holds IsPosting (run_next p)
  unfolding run_next
  run_next-IsPosting p i = elim (Phase-cases p.phase) [
    | waits e ↦ rw e tt
    | clears e ↦ rw e tt
    | steps e ↦ elim (List-cases p.batch) [
      | inl n ↦ rw (e, n) tt
      | inr (w, ws, c) ↦
          rw (e, c)
            (record {
              woken = λ o h k. i.woken o (rw e (λ q. grind arith)) k;
              between = λ h. absurd (h refl);
              ordered =
                  append_assoc p.ran (w ∷ []) (ws ++ p.pending)
                  ∙ ap (λ l. p.ran ++ (l ++ p.pending)) (sym c)
                  ∙ i.ordered;
            })
    ]
  ]

  finish-IsPosting : (p : Posting W) → IsPosting p → Holds IsPosting (finish p)
  unfolding finish
  finish-IsPosting p i = ground (arith, i.woken, i.between, i.ordered)

  act-IsPosting : (a : Act W) (p : Posting W) → IsPosting p → Holds IsPosting (act a p)
  unfolding act
  act-IsPosting (pushes w) p i = push-IsPosting w p i
  act-IsPosting writes p i = write-IsPosting p i
  act-IsPosting reads p i = read-IsPosting p i
  act-IsPosting swaps p i = swap-IsPosting p i
  act-IsPosting runs p i = run_next-IsPosting p i
  act-IsPosting ends p i = finish-IsPosting p i

  act_all-IsPosting :
      (acts : List (Act W)) (p : Posting W) → IsPosting p → Holds IsPosting (act_all acts p)
  unfolding act_all
  act_all-IsPosting [] p i = i
  act_all-IsPosting (a ∷ acts) p i =
      (elim (act a p)
          as (λ r.
            Holds IsPosting r
            → Holds IsPosting (elim r [ none ↦ none | some q ↦ act_all acts q ])) [
              | none ↦ λ h. tt
              | some q ↦ λ h. act_all-IsPosting acts q h
            ])
        (act-IsPosting a p i)

  nothing_posted-IsPosting : (o : Bool) → IsPosting (nothing_posted o)
  nothing_posted-IsPosting o = record {
    woken = λ q h k. absurd (k refl);
    between = λ h. refl;
    ordered = refl;
  }

  -- However posters and the main thread alternate, the closures that have run, those of the batch and
  -- those still pending are the ones accepted, in their order; and where there is an eventfd, the main thread waits, no
  -- poster is about to write and some closure is pending, the eventfd can be read, so the loop wakes.
  pub act_all-delivered :
      (opened : Bool) (acts : List (Act W)) (p : Posting W)
      → act_all acts (nothing_posted opened) ≡ some p
      → (p.ran ++ (p.batch ++ p.pending) ≡ p.accepted)
        × (p.opened ≡ true → p.phase ≡ waiting → p.writers ≡ 0 → p.pending ≢ [] → 0 < p.counter)
  act_all-delivered opened acts p e =
      let i : IsPosting p =
        subst (Holds IsPosting) e
          (act_all-IsPosting acts (nothing_posted opened) (nothing_posted-IsPosting opened)) in
      (i.ordered, λ o w n k. ground (arith, i.woken o (rw w (λ q. grind arith)) k))
