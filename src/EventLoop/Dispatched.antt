-- ===== src/EventLoop/Dispatched.antt =====
-- src/common/event_loop.cpp: which handlers are called.
use cec_control.Prelude.{
  ℕ, ◌≡◌, refl, ◌==◌, Bool, true, false, Option, none, some, List, [], ◌∷◌, if◌then◌else◌, arith,
  if_ind, Option-cases, inl, inr,
}
use cec_control.EventLoop.{
  Handlers, Happening, added, removed, invoked, stopped, EventLoop, Epoll, Request, adds, modifies,
  removes, new_loop, find_handler, erase, insert, add, modify, remove, stop, ask, ask_all, Behave,
  invoke, dispatch, run,
}

module _ {H : Type 0} where
  -- What was last said of a descriptor, by the happenings alone.
  abbrev pub last_word : ℕ → List (Happening H) → Option H
  last_word fd [] = none
  last_word fd (added k h ∷ t) = let before = last_word fd t in if k == fd then some h else before
  last_word fd (removed k ∷ t) = let before = last_word fd t in if k == fd then none else before
  last_word fd (invoked k h e ∷ t) = last_word fd t
  last_word fd (stopped ∷ t) = last_word fd t

  abbrev pub was_stopped : List (Happening H) → Bool
  was_stopped [] = false
  was_stopped (added k h ∷ t) = was_stopped t
  was_stopped (removed k ∷ t) = was_stopped t
  was_stopped (invoked k h e ∷ t) = was_stopped t
  was_stopped (stopped ∷ t) = true

  -- Each call is of the handler that was last added for its descriptor and not removed since, and
  -- none follows a stop.
  abbrev pub Fair : List (Happening H) → Type 0
  Fair [] = Unit
  Fair (added k h ∷ t) = Fair t
  Fair (removed k ∷ t) = Fair t
  Fair (invoked k h e ∷ t) = (last_word k t ≡ some h) × (was_stopped t ≡ false) × Fair t
  Fair (stopped ∷ t) = Fair t

  record IsLoop (l : EventLoop H) : Type 0 where
    finds : (fd : ℕ) → find_handler fd l.handlers ≡ last_word fd l.trace
    stops : l.stop_requested ≡ was_stopped l.trace
    fair : Fair l.trace

  find_handler-erase :
      (j k : ℕ) (hs : Handlers H)
      → find_handler j (erase k hs) ≡ (if k == j then none else find_handler j hs)
  unfolding find_handler erase
  find_handler-erase j k [] = ground arith
  find_handler-erase j k ((i, h) ∷ hs) = ground (arith, find_handler-erase j k hs)

  insert-IsLoop :
      (ctl : Epoll) (fd : ℕ) (h : H) (l : EventLoop H) → IsLoop l → IsLoop (insert ctl fd h l).1
  unfolding insert find_handler
  insert-IsLoop ctl fd h l i = record {
    finds = λ j. ground (arith, i.finds j);
    stops = ground (arith, i.stops);
    fair = ground (arith, i.fair);
  }

  add-IsLoop :
      (ctl : Epoll) (fd : Option ℕ) (events : ℕ) (h : Option H) (l : EventLoop H)
      → IsLoop l
      → IsLoop (add ctl fd events h l).1
  unfolding add
  add-IsLoop ctl none events h l i = i
  add-IsLoop ctl (some fd) events none l i = i
  add-IsLoop ctl (some fd) events (some h) l i = elim (Option-cases (find_handler fd l.handlers)) [
    | inl e ↦ rw (e, add) (insert-IsLoop ctl fd h l i)
    | inr (old, e) ↦ rw (e, add) i
  ]

  remove-IsLoop : (fd : ℕ) (l : EventLoop H) → IsLoop l → IsLoop (remove fd l)
  unfolding remove
  remove-IsLoop fd l i = record {
    finds = λ j. ground (arith, i.finds j, i.finds fd, find_handler-erase j fd l.handlers);
    stops = ground (arith, i.stops);
    fair = ground (arith, i.fair);
  }

  ask-IsLoop : (ctl : Epoll) (r : Request H) (l : EventLoop H) → IsLoop l → IsLoop (ask ctl r l)
  unfolding ask modify stop
  ask-IsLoop ctl (adds fd events h) l i = add-IsLoop ctl fd events h l i
  ask-IsLoop ctl (modifies fd events) l i = record {
    finds = λ j. ground (arith, i.finds j);
    stops = ground (arith, i.stops);
    fair = ground (arith, i.fair);
  }
  ask-IsLoop ctl (removes fd) l i = remove-IsLoop fd l i
  ask-IsLoop ctl Request.stops l i = record { finds = i.finds; stops = refl; fair = i.fair }

  ask_all-IsLoop :
      (ctl : Epoll) (rs : List (Request H)) (l : EventLoop H) → IsLoop l → IsLoop (ask_all ctl rs l)
  unfolding ask_all
  ask_all-IsLoop ctl [] l i = i
  ask_all-IsLoop ctl (r ∷ rs) l i = ask_all-IsLoop ctl rs (ask ctl r l) (ask-IsLoop ctl r l i)

module _ {H S : Type 0} (ctl : Epoll) (behave : Behave H S) where
  invoke-IsLoop :
      (fd events : ℕ) (h : H) (w : EventLoop H × S)
      → find_handler fd w.0.handlers ≡ some h
      → w.0.stop_requested ≡ false
      → IsLoop w.0
      → IsLoop (invoke ctl behave fd events h w).0
  unfolding invoke
  invoke-IsLoop fd events h (l, s) e q i =
      ask_all-IsLoop ctl (behave h events s).0 (record l { trace = invoked fd h events ∷ l.trace })
        (record {
          finds = i.finds;
          stops = i.stops;
          fair = (ground (arith, i.finds fd, e), ground (arith, i.stops, q), i.fair);
        })

  dispatch-IsLoop :
      (events : List (ℕ × ℕ)) (w : EventLoop H × S)
      → w.0.stop_requested ≡ false
      → IsLoop w.0
      → IsLoop (dispatch ctl behave events w).0
  unfolding dispatch
  dispatch-IsLoop [] w q i = i
  dispatch-IsLoop ((fd, mask) ∷ rest) w q i = elim (Option-cases (find_handler fd w.0.handlers)) [
    | inl e ↦ rw (e, dispatch) (dispatch-IsLoop rest w q i)
    | inr (h, e) ↦
        rw (e, dispatch)
          (let w' = invoke ctl behave fd mask h w in
            let j = invoke-IsLoop fd mask h w e q i in
            if_ind (λ (v : EventLoop H × S). IsLoop v.0) w'.0.stop_requested (λ _. j)
              (λ k. dispatch-IsLoop rest w' k j))
  ]

  run-IsLoop :
      (batches : List (Option (List (ℕ × ℕ)))) (w : EventLoop H × S)
      → IsLoop w.0
      → IsLoop (run ctl behave batches w).0
  unfolding run
  run-IsLoop [] w i = i
  run-IsLoop (none ∷ batches) w i = i
  run-IsLoop (some events ∷ batches) w i =
      if_ind (λ (v : EventLoop H × S). IsLoop v.0) w.0.stop_requested (λ _. i)
        (λ k. run-IsLoop batches (dispatch ctl behave events w) (dispatch-IsLoop events w k i))

  -- From any requests made of a new loop and over any batches of events, each handler called is the
  -- one last added for its descriptor and not removed since, and none is called after a stop.
  pub run-Fair :
      (rs : List (Request H)) (batches : List (Option (List (ℕ × ℕ)))) (s : S)
      → Fair (run ctl behave batches (ask_all ctl rs new_loop, s)).0.trace
  unfolding find_handler
  run-Fair rs batches s =
      (run-IsLoop batches (ask_all ctl rs new_loop, s)
        (ask_all-IsLoop ctl rs new_loop
          (record { finds = λ fd. refl; stops = refl; fair = tt }))).fair
