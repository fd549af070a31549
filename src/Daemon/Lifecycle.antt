-- ===== src/Daemon/Lifecycle.antt =====
-- src/daemon/adapter_lifecycle.h and adapter_lifecycle.cpp. An `Async` call tells whether its
-- callback is called before it returns, and with what; otherwise a job has been submitted. The
-- duration that the suspend callback carries is only logged, and is left out.
use cec_control.Prelude.{Bool, true, false, not, ◌&&◌, Option, none, some, List, [], if◌then◌else◌}
use cec_control.Message.{Message}
use cec_control.Adapter.{Backend}
use cec_control.Power.SuspendQueue.{enter_suspended, exit_suspended, push, drain}
use cec_control.Daemon.State.{World, submit, suspend_job, resume_job, reconnect_job}

module _ {S : Type 0} where
  unfoldable pub shutdown : World S → World S
  unfolding drain
  shutdown w =
      if w.lifecycle_shutdown
      then w
      else record w { lifecycle_shutdown = true; suspend_queue = (drain w.suspend_queue).0 }

  abbrev pub is_suspended : World S → Bool
  is_suspended w = w.suspend_queue.suspended

  unfoldable pub enqueue : Message → World S → World S
  unfolding push
  enqueue m w = record w { suspend_queue = push w.suspend_queue m }

  -- The callback is called at once (`true`) after a shutdown and when suspended already.
  unfoldable pub suspend_async : World S → World S × Bool
  unfolding enter_suspended
  suspend_async w =
      if w.lifecycle_shutdown then (w, true) else if is_suspended w then (w, true) else (
        submit suspend_job (record w { suspend_queue = enter_suspended w.suspend_queue }),
        false,
      )

  -- The callback is called at once, with `(false, {})`, after a shutdown and when not suspended.
  unfoldable pub resume_async : World S → World S × Bool
  resume_async w =
      if w.lifecycle_shutdown
      then (w, true)
      else if not (is_suspended w)
      then (w, true)
      else (submit resume_job w, false)

  -- `m_worker.isAdapterConnected()` reads the adapter's hint from the main thread; the worker has
  -- its adapter until it is stopped.
  unfoldable pub reconnect_async : Backend S → World S → World S × Option Bool
  reconnect_async backend w =
      if w.lifecycle_shutdown
      then (w, some false)
      else if is_suspended w
      then (w, some false)
      else if not w.stop_requested && backend.is_connected w.device.adapter
      then (w, some true)
      else (submit reconnect_job w, none)

  -- What `onResumeWorkerComplete` hands to its callback.
  unfoldable pub on_resume_worker_complete : Bool → World S → World S × Bool × List Message
  unfolding drain exit_suspended
  on_resume_worker_complete adapter_valid w =
      let (q, drained) = drain w.suspend_queue in
      (
        record w { suspend_queue = exit_suspended q },
        adapter_valid,
        if adapter_valid then drained else [],
      )
