-- ===== src/Daemon/Supervisor/Termination.antt =====
-- power_supervisor.cpp, `applyLifecycle` and its nested calls.
use cec_control.Prelude.{
  ℕ, zero, suc, ◌+◌, ◌<◌, ◌≡◌, refl, Bool, true, false, Option, none, some, length, if◌then◌else◌,
  arith, not, ap, ◌∙◌, inl, inr, ◌⊎◌,
}
use cec_control.Adapter.{Backend}
use cec_control.Power.Lifecycle.{PowerLifecycle, Phase, Notify, Timer, Lock, Source, pump_queue}
use cec_control.Power.Lifecycle
use cec_control.Power.SuspendQueue.{enter_suspended}
use cec_control.Power.Reconnect.{Event, on_event, seed_cycle}
use cec_control.Daemon.State.{World, Job, suspend_job, resume_job, submit}
use cec_control.Daemon.Sinks.{ledger, of_job, ledger-submit}
use cec_control.Daemon.Lifecycle.{suspend_async, resume_async}
use cec_control.Daemon.Supervisor.{
  Returns, Returns-bind, Again, execute, feed, execute_effects, apply_within, apply_lifecycle,
  on_suspend_completed, on_resume_completed, start_work, notify, arm_safety, lock_op, disarm_safety,
  seed_unless, post_resume_retry_delay,
}
use cec_control.Daemon.Supervisor.Retrying.{execute-Returns, if_pick}

pub Returns-map :
    {A : Type 0} (P Q : A → Type 0) (m : Option A)
    → Returns P m
    → ((a : A) → P a → Q a)
    → Returns Q m
Returns-map P Q none h k = h
Returns-map P Q (some a) h k = k a h

module _ {S : Type 0} (backend : Backend S) (arm_ok : ℕ → Bool) (k : ℕ) (n : ℕ × Bool) where
  -- The replies of the sink `k`, given or to be given, and the stop flag are these.
  abbrev pub Owes : World S → Type 0
  Owes w = ledger k w ≡ n

  -- Calls that end when the queue is short enough, on outputs that start no work.
  abbrev pub Ends : ℕ → Again S → Type 0
  Ends m again =
      (out : Lifecycle.Output) (w : World S)
      → out.work ≡ Lifecycle.Work.none
      → length w.power.pending < m
      → Owes w
      → Returns Owes (again out w)

  abbrev pub SamePower : World S → World S → Type 0
  SamePower v w = (w.power ≡ v.power) × (ledger k w ≡ ledger k v)

  pub feed-Returns :
      (e : Event) (w : World S)
      → Returns (SamePower w) (feed backend arm_ok (execute backend arm_ok) e w)
  unfolding feed
  feed-Returns e w =
      let (r, out) = on_event w.reconnect e in
      ground (arith, execute-Returns backend arm_ok k out (record w { reconnect = r }))

  notify-Returns : (n : Notify) (w : World S) → Returns (SamePower w) (notify backend arm_ok n w)
  unfolding notify
  notify-Returns Notify.none w = (refl, refl)
  notify-Returns Notify.system_suspend w = feed-Returns Event.system_suspend w
  notify-Returns Notify.system_resume w = feed-Returns Event.system_resume w

  prepared :
      (out : Lifecycle.Output) (w : World S)
      → SamePower w (
          lock_op backend arm_ok out.lock
            (arm_safety backend arm_ok out.safety_timer out.safety_delay w))
  unfolding lock_op arm_safety Lifecycle.on_safety_timer_arm_failed
  prepared out w = ground arith

  disarm-power : (t : Timer) (w : World S) → SamePower w (disarm_safety backend arm_ok t w)
  unfolding disarm_safety
  disarm-power t w = ground arith

  notified :
      (out : Lifecycle.Output) (w : World S)
      → Returns (SamePower w) (
          notify backend arm_ok out.reconnect_notify
            (disarm_safety backend arm_ok out.safety_timer w))
  notified out w =
      Returns-map _ _
        (notify backend arm_ok out.reconnect_notify
          (disarm_safety backend arm_ok out.safety_timer w))
        (notify-Returns out.reconnect_notify (disarm_safety backend arm_ok out.safety_timer w))
        (λ v e. let d = disarm-power out.safety_timer w in (e.0 ∙ d.0, e.1 ∙ d.1))

  submit-Same : (job : Job) (w : World S) → of_job k job ≡ 0 → SamePower w (submit job w)
  submit-Same job w e = (unfold submit in ground arith, ledger-submit k job w e)

  suspend_async-Same : (w : World S) → SamePower w (suspend_async w).0
  unfolding suspend_async enter_suspended
  suspend_async-Same w =
      if_pick Same w.lifecycle_shutdown (refl, refl)
        (if_pick Same w.suspend_queue.suspended (refl, refl)
          (submit-Same suspend_job (record w { suspend_queue = enter_suspended w.suspend_queue })
            refl))
    where
      Same : World S × Bool → Type 0
      Same x = SamePower w x.0

  resume_async-Same : (w : World S) → SamePower w (resume_async w).0
  unfolding resume_async
  resume_async-Same w =
      if_pick Same w.lifecycle_shutdown (refl, refl)
        (if_pick Same (not w.suspend_queue.suspended) (refl, refl) (submit-Same resume_job w refl))
    where
      Same : World S × Bool → Type 0
      Same x = SamePower w x.0

  pub seed-Returns :
      (valid : Bool) (w : World S) → Owes w → Returns Owes (seed_unless backend arm_ok valid w)
  unfolding seed_unless
  seed-Returns true w o = o
  seed-Returns false w o =
      let (r, out) = seed_cycle w.reconnect post_resume_retry_delay in
      ground (arith, execute-Returns backend arm_ok k out (record w { reconnect = r }))

  module _ (m : ℕ) (again : Again S) (ends : Ends m again) where
    pub suspend_completed-Returns :
        (w : World S)
        → length w.power.pending < m
        → Owes w
        → Returns Owes (on_suspend_completed backend arm_ok again w)
    unfolding on_suspend_completed
    suspend_completed-Returns w h o =
        let (p, out) = Lifecycle.on_suspend_completed w.power in
        ends out (record w { power = p }) (unfold Lifecycle.on_suspend_completed in ground arith)
          (unfold Lifecycle.on_suspend_completed in ground arith) o

    resume_completed-Returns :
        (valid : Bool) (w : World S)
        → length w.power.pending < m
        → Owes w
        → Returns Owes (on_resume_completed backend arm_ok again valid w)
    unfolding on_resume_completed
    resume_completed-Returns valid w h o =
        let (p, out) = Lifecycle.on_resume_completed w.power valid in
        Returns-bind Owes Owes (again out (record w { power = p })) _
          (ends out (record w { power = p }) (unfold Lifecycle.on_resume_completed in ground arith)
            (unfold Lifecycle.on_resume_completed in ground arith) o)
          (λ v q. seed-Returns valid v q)

    suspend_started :
        (w : World S) (x : World S × Bool)
        → SamePower w x.0
        → length w.power.pending < m
        → Owes w
        → Returns Owes (if x.1 then on_suspend_completed backend arm_ok again x.0 else some x.0)
    suspend_started w (v, true) e h o =
        suspend_completed-Returns v
          (omega (arith, h, ap (λ (p : PowerLifecycle). length p.pending) e.0)) (e.1 ∙ o)
    suspend_started w (v, false) e h o = e.1 ∙ o

    resume_started :
        (w : World S) (x : World S × Bool)
        → SamePower w x.0
        → length w.power.pending < m
        → Owes w
        → Returns Owes
            (if x.1 then on_resume_completed backend arm_ok again false x.0 else some x.0)
    resume_started w (v, true) e h o =
        resume_completed-Returns false v
          (omega (arith, h, ap (λ (p : PowerLifecycle). length p.pending) e.0)) (e.1 ∙ o)
    resume_started w (v, false) e h o = e.1 ∙ o

    start_work-Returns :
        (work : Lifecycle.Work) (w : World S)
        → length w.power.pending < m
        → Owes w
        → Returns Owes (start_work backend arm_ok again work w)
    unfolding start_work
    start_work-Returns Lifecycle.Work.none w h o = o
    start_work-Returns Lifecycle.Work.start_suspend w h o =
        suspend_started w (suspend_async w) (suspend_async-Same w) h o
    start_work-Returns Lifecycle.Work.start_resume w h o =
        resume_started w (resume_async w) (resume_async-Same w) h o

    execute_effects-Returns :
        (out : Lifecycle.Output) (w : World S)
        → length w.power.pending < m
        → Owes w
        → Returns Owes (execute_effects backend arm_ok again out w)
    unfolding execute_effects
    execute_effects-Returns out w h o =
        Returns-bind (SamePower w) Owes
          (notify backend arm_ok out.reconnect_notify
            (disarm_safety backend arm_ok out.safety_timer w))
          _ (notified out w)
          (λ v e.
            let q = prepared out v in
            start_work-Returns out.work _
              (omega (arith, h, ap (λ (p : PowerLifecycle). length p.pending) (q.0 ∙ e.0)))
              (q.1 ∙ e.1 ∙ o))

  -- Without work nothing is called again.
  quiet-Returns :
      (again : Again S) (out : Lifecycle.Output) (w : World S)
      → out.work ≡ Lifecycle.Work.none
      → Returns (SamePower w) (execute_effects backend arm_ok again out w)
  unfolding execute_effects start_work
  quiet-Returns again out w e =
      Returns-bind (SamePower w) (SamePower w)
        (notify backend arm_ok out.reconnect_notify
          (disarm_safety backend arm_ok out.safety_timer w))
        _ (notified out w) (λ v h. let q = prepared out v in rw e (q.0 ∙ h.0, q.1 ∙ h.1))

  -- What the pump leaves in the queue.
  abbrev Pumped : PowerLifecycle → Type 0
  Pumped p =
      let (q, out) = pump_queue p in
      (out.work ≡ Lifecycle.Work.none) ⊎ (length q.pending + 1 ≡ length p.pending)

  pump-Pumped : (p : PowerLifecycle) → Pumped p
  unfolding pump_queue
  pump-Pumped p = ground arith

  apply_within-Ends : (m : ℕ) → Ends m (apply_within backend arm_ok m)
  unfolding apply_within
  apply_within-Ends zero out w e h o = omega arith
  apply_within-Ends (suc m) out w e h o =
      Returns-bind (SamePower w) Owes (execute_effects backend arm_ok again out w) _
        (quiet-Returns again out w e)
        λ done same.
          let (p, next) = pump_queue done.power in
          let pumped : World S = record done { power = p } in
          elim (pump-Pumped done.power) [
            | inl rests ↦
                Returns-map (SamePower pumped) Owes
                  (execute_effects backend arm_ok again next pumped)
                  (quiet-Returns again next pumped rests) (λ v q. q.1 ∙ same.1 ∙ o)
            | inr shorter ↦
                execute_effects-Returns m again (apply_within-Ends m) next pumped
                  (omega (arith, shorter, h, ap (λ (q : PowerLifecycle). length q.pending) same.0))
                  (same.1 ∙ o)
          ]
    where
      again : Again S
      again = apply_within backend arm_ok m

  -- The sleep cycle's effects end: an output that starts no work, as every handler's but the
  -- pump's, is carried out with all that it sets off at once, however the timers and the adapter
  -- answer; and no sink gains or loses a reply, and the worker's stop flag stays.
  pub apply_lifecycle-Returns :
      (out : Lifecycle.Output) (w : World S)
      → out.work ≡ Lifecycle.Work.none
      → Owes w
      → Returns Owes (apply_lifecycle backend arm_ok out w)
  unfolding apply_lifecycle
  apply_lifecycle-Returns out w e o =
      apply_within-Ends (suc (length w.power.pending)) out w e (omega arith) o
