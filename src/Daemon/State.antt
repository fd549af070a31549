-- ===== src/Daemon/State.antt =====
-- The state behind src/daemon/cec_daemon.h: what the subsystems of one daemon hold. It also has
-- src/daemon/cec/adapter_worker.cpp's queue of jobs and src/common/main_thread_work.cpp's queue of
-- posted closures; a closure is a value that names its code and holds what it has captured.
use cec_control.Prelude.{ℕ, Bool, Option, List, [], ◌∷◌, ◌++◌, if◌then◌else◌}
use cec_control.Message.{Message}
use cec_control.Adapter.{Device}
use cec_control.Throttler.{CommandThrottler}
use cec_control.Dispatch.{DispatchSpec}
use cec_control.Standby.{StandbyPolicy, Observation}
use cec_control.Power.SuspendQueue.{SuspendQueue}
use cec_control.Power.Lifecycle.{PowerLifecycle, Lock}
use cec_control.Power.Reconnect.{AdapterReconnect}

-- A job of the adapter's worker. A command carries the sink of its reply, or none if it is replayed.
pub data Job : Type 0 where
  suspend_job resume_job reconnect_job : Job
  command_job : DispatchSpec → Message → Option ℕ → Job

-- A closure posted to the main thread.
pub data Work : Type 0 where
  suspend_done : Work
  resume_done reconnect_done : Bool → Work
  reply_with : ℕ → Message → Work
  power_request : Bool → Work
  observed : Observation → Work
  connection_lost_posted arm_standby : Work

-- `replies` are the calls of response sinks, `lock_ops` the calls on the D-Bus monitor's inhibit
-- lock, `escalations` the calls of the unrecoverable-adapter callback; the newest stands first.
-- `arms` counts the `timerfd` calls made, which decides the answer of the next one.
pub record World (S : Type 0) : Type 0 where
  pub device : Device S
  pub throttler : CommandThrottler
  pub jobs : List Job
  pub stop_requested : Bool
  pub posted : List Work
  pub replies : List (ℕ × Message)
  pub suspend_queue : SuspendQueue
  pub lifecycle_shutdown : Bool
  pub dispatcher_shutdown : Bool
  pub queue_commands : Bool
  pub standby : StandbyPolicy
  pub power : PowerLifecycle
  pub reconnect : AdapterReconnect
  pub safety_timer : Option ℕ
  pub retry_timer : Option ℕ
  pub arms : ℕ
  pub monitor : Bool
  pub lock_ops : List Lock
  pub escalations : ℕ

module _ {S : Type 0} where
  -- `AdapterWorker::submit`.
  unfoldable pub submit : Job → World S → World S
  submit job w = if w.stop_requested then w else record w { jobs = w.jobs ++ job ∷ [] }

  -- `MainThreadWork::post`.
  unfoldable pub post : Work → World S → World S
  post work w = record w { posted = w.posted ++ work ∷ [] }

  -- A response sink is called.
  unfoldable pub reply : ℕ → Message → World S → World S
  reply sink m w = record w { replies = (sink, m) ∷ w.replies }
