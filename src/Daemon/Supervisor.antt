-- ===== src/Daemon/Supervisor.antt =====
-- src/daemon/power/power_supervisor.h and power_supervisor.cpp. `arm_ok` answers the timers'
-- `armOnce` calls in turn, as the kernel does. The source's handlers call one another recursively;
-- here they take the call to make as an argument, `again`, and the recursion is on fuel, where `none`
-- means that the fuel ran out.
pub mod Retrying
pub mod Timed
pub mod Termination
use cec_control.Prelude.{
  ℕ, zero, suc, ◌+◌, Bool, true, false, Option, none, some, List, [], ◌∷◌, length, if◌then◌else◌,
}
use cec_control.Adapter.{Backend}
use cec_control.Message.{Message}
use cec_control.Backoff.{schedule}
use cec_control.Power.Lifecycle.{
  PowerLifecycle, Source, Lock, Timer, Notify, pump_queue, suspend_safety_deadline,
}
use cec_control.Power.Lifecycle
use cec_control.Power.Reconnect.{
  AdapterReconnect, Effect, Event, connection_lost, attempt_succeeded, attempt_failed,
  system_suspend, system_resume, retry_timer_fired, timer_arm_failed, on_event, seed_cycle, create,
}
use cec_control.Power.Reconnect
use cec_control.Daemon.State.{World}
use cec_control.Daemon.Lifecycle.{
  suspend_async, resume_async, reconnect_async, on_resume_worker_complete,
}
use cec_control.Daemon.Dispatcher.{replay}

infixl 5 ◌>>=◌
abbrev pub ◌>>=◌ : {A B : Type 0} → Option A → (A → Option B) → Option B
none >>= f = none
some a >>= f = f a

-- A call that has fuel enough and whose result has a property.
abbrev pub Returns : {A : Type 0} → (A → Type 0) → Option A → Type 0
Returns P none = ⊥
Returns P (some a) = P a

pub Returns-bind :
    {A B : Type 0} (P : A → Type 0) (Q : B → Type 0) (m : Option A) (f : A → Option B)
    → Returns P m
    → ((a : A) → P a → Returns Q (f a))
    → Returns Q (m >>= f)
Returns-bind P Q none f h k = absurd h
Returns-bind P Q (some a) f h k = k a h

abbrev pub post_resume_retry_delay : ℕ
post_resume_retry_delay = 10000

abbrev pub connection_lost_retry_delay : ℕ
connection_lost_retry_delay = 1500

-- The reconnect cycle as the supervisor constructs it.
abbrev pub initial_reconnect : AdapterReconnect
unfolding create
initial_reconnect = create (schedule (5000 ∷ 10000 ∷ 20000 ∷ [])) connection_lost_retry_delay

abbrev pub Retry : Type 0 → Type 0
Retry S = Reconnect.Output → World S → Option (World S)

abbrev pub Again : Type 0 → Type 0
Again S = Lifecycle.Output → World S → Option (World S)

module _ {S : Type 0} (backend : Backend S) (arm_ok : ℕ → Bool) where
  disarm_retry : World S → World S
  disarm_retry w = record w { retry_timer = none }

  unfoldable pub feed : Retry S → Event → World S → Option (World S)
  feed again e w = let (r, out) = on_event w.reconnect e in again out (record w { reconnect = r })

  unfoldable pub on_reconnect_result : Retry S → Bool → World S → Option (World S)
  unfolding feed
  on_reconnect_result again ok w = feed again (if ok then attempt_succeeded else attempt_failed) w

  after_submit : Retry S → World S × Option Bool → Option (World S)
  unfolding on_reconnect_result
  after_submit again (w, none) = some w
  after_submit again (w, some ok) = on_reconnect_result again ok w

  -- A failed call leaves the timer as it was.
  schedule_retry : Retry S → ℕ → World S → Option (World S)
  unfolding feed
  schedule_retry again delay w =
      let counted = record w { arms = w.arms + 1 } in
      if arm_ok w.arms
      then some (record counted { retry_timer = some delay })
      else feed again timer_arm_failed counted

  execute_effect : Retry S → Effect → ℕ → World S → Option (World S)
  unfolding disarm_retry after_submit schedule_retry
  execute_effect again Effect.none delay w = some w
  execute_effect again Effect.start_attempt delay w =
      after_submit again (reconnect_async backend (disarm_retry w))
  execute_effect again Effect.schedule_retry delay w = schedule_retry again delay w
  execute_effect again Effect.cancel_retry delay w = some (disarm_retry w)
  execute_effect again Effect.abandon_cycle delay w =
      some (record w { escalations = w.escalations + 1 })

  -- `execute`, by the depth of its calls of itself.
  unfoldable pub execute_within : ℕ → Retry S
  unfolding execute_effect
  execute_within zero out w = none
  execute_within (suc n) out w = execute_effect (execute_within n) out.effect out.delay w

  -- An attempt that fails at once schedules a retry, and a timer that fails abandons it: three deep.
  unfoldable pub execute : Retry S
  execute = execute_within 3

  unfoldable pub notify : Notify → World S → Option (World S)
  unfolding feed
  notify Notify.none w = some w
  notify Notify.system_suspend w = feed execute system_suspend w
  notify Notify.system_resume w = feed execute system_resume w

  unfoldable pub disarm_safety : Timer → World S → World S
  disarm_safety Timer.disarm w = record w { safety_timer = none }
  disarm_safety _ w = w

  unfoldable pub arm_safety : Timer → ℕ → World S → World S
  arm_safety Timer.arm delay w =
      let counted = record w { arms = w.arms + 1 } in
      if arm_ok w.arms
      then record counted { safety_timer = some delay }
      else record counted { power = (Lifecycle.on_safety_timer_arm_failed w.power).0 }
  arm_safety _ delay w = w

  unfoldable pub lock_op : Lock → World S → World S
  lock_op Lock.none w = w
  lock_op op w = if w.monitor then record w { lock_ops = op ∷ w.lock_ops } else w

  unfoldable pub on_suspend_completed : Again S → World S → Option (World S)
  on_suspend_completed again w =
      let (p, out) = Lifecycle.on_suspend_completed w.power in again out (record w { power = p })

  unfoldable pub seed_unless : Bool → World S → Option (World S)
  seed_unless true w = some w
  seed_unless false w =
      let (r, out) = seed_cycle w.reconnect post_resume_retry_delay in
      execute out (record w { reconnect = r })

  unfoldable pub on_resume_completed : Again S → Bool → World S → Option (World S)
  unfolding seed_unless
  on_resume_completed again adapter_valid w = do
    let (p, out) = Lifecycle.on_resume_completed w.power adapter_valid
    done ← again out (record w { power = p })
    seed_unless adapter_valid done

  unfoldable pub start_work : Again S → Lifecycle.Work → World S → Option (World S)
  unfolding on_suspend_completed on_resume_completed
  start_work again Lifecycle.Work.none w = some w
  start_work again Lifecycle.Work.start_suspend w =
      let (w', at_once) = suspend_async w in
      if at_once then on_suspend_completed again w' else some w'
  start_work again Lifecycle.Work.start_resume w =
      let (w', at_once) = resume_async w in
      if at_once then on_resume_completed again false w' else some w'

  unfoldable pub execute_effects : Again S → Lifecycle.Output → World S → Option (World S)
  unfolding notify disarm_safety arm_safety lock_op start_work
  execute_effects again out w = do
    told ← notify out.reconnect_notify (disarm_safety out.safety_timer w)
    start_work again out.work (lock_op out.lock (arm_safety out.safety_timer out.safety_delay told))

  -- `applyLifecycle`, by the depth of its calls of itself.
  unfoldable pub apply_within : ℕ → Again S
  apply_within zero out w = none
  apply_within (suc n) out w = do
    done ← execute_effects (apply_within n) out w
    let (p, next) = pump_queue done.power
    execute_effects (apply_within n) next (record done { power = p })

  -- Each nested call has taken an event off the queue.
  unfoldable pub apply_lifecycle : Again S
  apply_lifecycle out w = apply_within (suc (length w.power.pending)) out w

  unfoldable pub on_suspend_requested : Source → World S → Option (World S)
  on_suspend_requested source w =
      let (p, out) = Lifecycle.on_suspend_requested w.power source in
      apply_lifecycle out (record w { power = p })

  unfoldable pub on_resume_requested : Source → World S → Option (World S)
  on_resume_requested source w =
      let (p, out) = Lifecycle.on_resume_requested w.power source in
      apply_lifecycle out (record w { power = p })

  -- `consume` reads the expiry, which a timer armed anew since does not have; its answer is not
  -- looked at.
  unfoldable pub on_safety_timer_fired : Bool → World S → Option (World S)
  on_safety_timer_fired expired w =
      let (p, out) = Lifecycle.on_safety_timer_fired w.power in
      apply_lifecycle out
        (record w { power = p; safety_timer = if expired then none else w.safety_timer })

  unfoldable pub on_connection_lost : World S → Option (World S)
  on_connection_lost w = feed execute connection_lost w

  unfoldable pub on_reconnect_retry_timer_fired : Bool → World S → Option (World S)
  on_reconnect_retry_timer_fired expired w =
      feed execute retry_timer_fired
        (record w { retry_timer = if expired then none else w.retry_timer })

  -- The callback that `submitResumeWork` hands to the lifecycle, as the worker's completion calls it.
  unfoldable pub resume_worker_done : Bool → World S → Option (World S)
  resume_worker_done adapter_valid w =
      let (w', valid, queued) = on_resume_worker_complete adapter_valid w in
      on_resume_completed apply_lifecycle valid (replay queued w')

  unfoldable pub suspend_worker_done : World S → Option (World S)
  suspend_worker_done w = on_suspend_completed apply_lifecycle w
