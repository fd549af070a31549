-- ===== src/Daemon/Timed.antt =====
-- src/daemon/power/power_supervisor.cpp: the calls of the sleep sequencer keep the retry timer armed
-- exactly while the reconnect cycle waits for a retry.
pub mod Runs
use cec_control.Prelude.{
  ℕ, zero, suc, ◌≡◌, subst, Bool, true, false, Option, none, some, List, [], ◌∷◌, if◌then◌else◌,
  arith, if_ind, length,
}
use cec_control.Adapter.{Backend}
use cec_control.Throttler.{ThrottlerConfig}
use cec_control.Operations.{CecConstants}
use cec_control.Message.{Message, MessageType, cmd_suspend, cmd_resume}
use cec_control.Dispatch.{
  DispatchSpec, find_dispatch_by_type, supervisor_intercepted, state_only, adapter_call,
}
use cec_control.Power.Lifecycle.{Source, Notify, Timer, Lock, pump_queue}
use cec_control.Power.Lifecycle
use cec_control.Daemon.State.{
  World, Work, suspend_done, resume_done, reconnect_done, reply_with, power_request, observed,
  arm_standby, connection_lost_posted, reply, post,
}
use cec_control.Daemon.Lifecycle.{suspend_async, resume_async, on_resume_worker_complete}
use cec_control.Daemon.Dispatcher.{dispatch, replay}
use cec_control.Daemon.Supervisor.{
  ◌>>=◌, Returns, Again, notify, disarm_safety, arm_safety, lock_op, on_suspend_completed,
  on_resume_completed, seed_unless, start_work, execute_effects, apply_within, apply_lifecycle,
  on_suspend_requested, on_resume_requested, on_safety_timer_fired, suspend_worker_done,
  resume_worker_done,
}
use cec_control.Daemon.Supervisor.Timed.{IsTimed, retry_timer-IsTimed}
use cec_control.Daemon.Untimed.{
  suspend_async-IsTimed, resume_async-IsTimed, dispatch-IsTimed, replay-IsTimed, work_once-IsTimed,
}
use cec_control.Daemon.Events.{
  Wake, received, drains, works, connection_drops, safety_timer_fires, retry_timer_fires,
  power_changes, bus_observed, handle_command, intercept, route, run_posted, run_batch, drain, wake,
  run,
}

abbrev pub Kept : {S : Type 0} → Option (World S) → Type 0
Kept none = Unit
Kept (some w) = IsTimed w

module _ {S : Type 0} where
  pub Kept-bind :
      (m : Option (World S)) (f : World S → Option (World S))
      → Kept m
      → ((a : World S) → IsTimed a → Kept (f a))
      → Kept (m >>= f)
  Kept-bind none f h k = tt
  Kept-bind (some a) f h k = k a h

  pub Returns-Kept : (m : Option (World S)) → Returns IsTimed m → Kept m
  Returns-Kept none h = tt
  Returns-Kept (some a) h = h

module _ {S : Type 0} (backend : Backend S) (arm_ok : ℕ → Bool) where
  -- A call for an output that keeps the timer.
  abbrev pub Keeps : Again S → Type 0
  Keeps again = (out : Lifecycle.Output) (w : World S) → IsTimed w → Kept (again out w)

  disarm_safety-IsTimed :
      (t : Timer) (w : World S) → IsTimed w → IsTimed (disarm_safety backend arm_ok t w)
  unfolding disarm_safety
  disarm_safety-IsTimed t w h = ground (arith, h)

  arm_safety-IsTimed :
      (t : Timer) (delay : ℕ) (w : World S)
      → IsTimed w
      → IsTimed (arm_safety backend arm_ok t delay w)
  unfolding arm_safety
  arm_safety-IsTimed t delay w h = ground (arith, h)

  lock_op-IsTimed : (op : Lock) (w : World S) → IsTimed w → IsTimed (lock_op backend arm_ok op w)
  unfolding lock_op
  lock_op-IsTimed op w h = ground (arith, h)

  pub on_suspend_completed-Kept :
      (again : Again S)
      → Keeps again
      → (w : World S) → IsTimed w
      → Kept (on_suspend_completed backend arm_ok again w)
  unfolding on_suspend_completed
  on_suspend_completed-Kept again k w h = k _ (record w { power = _ }) h

  on_resume_completed-Kept :
      (again : Again S)
      → Keeps again
      → (valid : Bool) (w : World S) → IsTimed w
      → Kept (on_resume_completed backend arm_ok again valid w)
  unfolding on_resume_completed
  on_resume_completed-Kept again k valid w h =
      let (p, out) = Lifecycle.on_resume_completed w.power valid in
      Kept-bind (again out (record w { power = p })) (seed_unless backend arm_ok valid)
        (k out (record w { power = p }) h)
        (λ a q. Returns-Kept _ ((retry_timer-IsTimed backend arm_ok a q).4 valid))

  start_work-Kept :
      (again : Again S)
      → Keeps again
      → (work : Lifecycle.Work) (w : World S) → IsTimed w
      → Kept (start_work backend arm_ok again work w)
  unfolding start_work
  start_work-Kept again k Lifecycle.Work.none w h = h
  start_work-Kept again k Lifecycle.Work.start_suspend w h =
      let (v, at_once) = suspend_async w in
      if_ind Kept at_once (λ e. on_suspend_completed-Kept again k v (suspend_async-IsTimed w h))
        (λ e. suspend_async-IsTimed w h)
  start_work-Kept again k Lifecycle.Work.start_resume w h =
      let (v, at_once) = resume_async w in
      if_ind Kept at_once (λ e. on_resume_completed-Kept again k false v (resume_async-IsTimed w h))
        (λ e. resume_async-IsTimed w h)

  execute_effects-Kept :
      (again : Again S)
      → Keeps again
      → (out : Lifecycle.Output) (w : World S) → IsTimed w
      → Kept (execute_effects backend arm_ok again out w)
  unfolding execute_effects
  execute_effects-Kept again k out w h =
      let v : World S = disarm_safety backend arm_ok out.safety_timer w in
      Kept-bind (notify backend arm_ok out.reconnect_notify v) _
        (Returns-Kept _ (
          (retry_timer-IsTimed backend arm_ok v (disarm_safety-IsTimed out.safety_timer w h)).3
            out.reconnect_notify))
        (λ a q.
          start_work-Kept again k out.work
            (lock_op backend arm_ok out.lock
              (arm_safety backend arm_ok out.safety_timer out.safety_delay a))
            (lock_op-IsTimed out.lock
              (arm_safety backend arm_ok out.safety_timer out.safety_delay a)
              (arm_safety-IsTimed out.safety_timer out.safety_delay a q)))

  apply_within-Kept : (n : ℕ) → Keeps (apply_within backend arm_ok n)
  unfolding apply_within
  apply_within-Kept zero out w h = tt
  apply_within-Kept (suc n) out w h =
      Kept-bind (execute_effects backend arm_ok (apply_within backend arm_ok n) out w) _
        (execute_effects-Kept (apply_within backend arm_ok n) (apply_within-Kept n) out w h)
        (λ a q.
          let (p, next) = pump_queue a.power in
          execute_effects-Kept (apply_within backend arm_ok n) (apply_within-Kept n) next
            (record a { power = p }) q)

  pub apply_lifecycle-Kept : Keeps (apply_lifecycle backend arm_ok)
  unfolding apply_lifecycle
  apply_lifecycle-Kept out w h = apply_within-Kept (suc (length w.power.pending)) out w h

  pub suspend_requested-Kept :
      (source : Source) (w : World S)
      → IsTimed w
      → Kept (on_suspend_requested backend arm_ok source w)
  unfolding on_suspend_requested
  suspend_requested-Kept source w h =
      let (p, out) = Lifecycle.on_suspend_requested w.power source in
      apply_lifecycle-Kept out (record w { power = p }) h

  pub resume_requested-Kept :
      (source : Source) (w : World S)
      → IsTimed w
      → Kept (on_resume_requested backend arm_ok source w)
  unfolding on_resume_requested
  resume_requested-Kept source w h =
      let (p, out) = Lifecycle.on_resume_requested w.power source in
      apply_lifecycle-Kept out (record w { power = p }) h

  pub safety_timer-Kept :
      (expired : Bool) (w : World S)
      → IsTimed w
      → Kept (on_safety_timer_fired backend arm_ok expired w)
  unfolding on_safety_timer_fired
  safety_timer-Kept expired w h =
      let (p, out) = Lifecycle.on_safety_timer_fired w.power in
      apply_lifecycle-Kept out
        (record w { power = p; safety_timer = if expired then none else w.safety_timer }) h

  pub resume_done-Kept :
      (valid : Bool) (w : World S) → IsTimed w → Kept (resume_worker_done backend arm_ok valid w)
  unfolding resume_worker_done on_resume_worker_complete
  resume_done-Kept valid w h =
      let (v, ok, queued) = on_resume_worker_complete valid w in
      on_resume_completed-Kept (apply_lifecycle backend arm_ok) apply_lifecycle-Kept ok
        (replay queued v) (replay-IsTimed queued v h)
