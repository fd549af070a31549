-- ===== src/Startup.antt =====
-- src/daemon/cec_daemon.h and cec_daemon.cpp: the subsystems of a daemon, how `start` makes them and
-- how `stop` and the destructor take them apart. What the parts answer is the parameter `Machine`.
-- `past` has the states that the members have gone through, the newest first.
pub mod Start
pub mod Stop
pub mod Referents
pub mod Joined
use cec_control.Prelude.{
  ℕ, ◌/◌, ◌==◌, Bool, true, false, not, ◌&&◌, ◌||◌, Option, none, some, List, [], ◌∷◌,
  if◌then◌else◌,
}
use mathlib.Core.List.{reverse}
use cec_control.Adapter.{Outcome, returned}
use cec_control.Adapter
use cec_control.Registry.{commands}
use cec_control.Dispatch.{dispatch_table, validate_dispatch_table}
use cec_control.Configuration.Settings.{DaemonConfig}

pub data Subsystem : Type 0 where
  standby_policy hook_executor hooks worker lifecycle : Subsystem
  dispatcher socket_server dbus_monitor supervisor : Subsystem

-- Which of the pointers is set; whether the supervisor has a pointer to the D-Bus monitor; whether
-- the worker's thread runs.
pub record Members : Type 0 where
  pub has_policy : Bool
  pub has_executor : Bool
  pub has_hooks : Bool
  pub has_worker : Bool
  pub has_lifecycle : Bool
  pub has_dispatcher : Bool
  pub has_server : Bool
  pub has_monitor : Bool
  pub has_supervisor : Bool
  pub points : Bool
  pub runs : Bool

-- The descriptors that the daemon itself registers with the loop.
pub data Source : Type 0 where
  signals work_queue safety_timer retry_timer debounce_timer watchdog_timer : Source

-- What `stop` calls before it destroys anything.
pub data Call : Type 0 where
  detach_monitor stop_server shut_dispatcher shut_lifecycle stop_worker stop_monitor : Call

pub record CecDaemon : Type 0 where
  pub members : Members
  pub past : List Members
  pub sources : List Source
  pub pings_every : Option ℕ
  pub arm_posted : Bool
  pub scan_submitted : Bool
  pub started : Bool
  pub loop_stopped : Bool
  pub calls : List Call

pub record Machine : Type 0 where
  pub signals_valid : Bool
  pub work_valid : Bool
  pub timer_valid : Source → Bool
  pub throws : Subsystem → Bool
  pub initialize : Outcome Bool
  pub open_connection : Outcome Bool
  pub executor_starts : Outcome Bool
  pub worker_starts : Outcome Bool
  pub server_starts : Outcome Bool
  pub monitor_initializes : Outcome Bool
  pub attaches : Outcome Bool
  pub adds : Source → Bool
  pub watchdog_usec : Option ℕ
  pub arms : ℕ → Bool
  pub stop_throws : Call → Bool

abbrev pub nothing : Members
nothing = record {
  has_policy = false;
  has_executor = false;
  has_hooks = false;
  has_worker = false;
  has_lifecycle = false;
  has_dispatcher = false;
  has_server = false;
  has_monitor = false;
  has_supervisor = false;
  points = false;
  runs = false;
}

abbrev pub fresh : CecDaemon
fresh = record {
  members = nothing;
  past = [];
  sources = [];
  pings_every = none;
  arm_posted = false;
  scan_submitted = false;
  started = false;
  loop_stopped = false;
  calls = [];
}

-- A pointer is set or reset. The destructor of the worker joins its thread.
unfoldable pub put : Subsystem → Bool → Members → Members
put standby_policy b m = record m { has_policy = b }
put hook_executor b m = record m { has_executor = b }
put hooks b m = record m { has_hooks = b }
put worker b m = record m { has_worker = b; runs = false }
put lifecycle b m = record m { has_lifecycle = b }
put dispatcher b m = record m { has_dispatcher = b }
put socket_server b m = record m { has_server = b }
put dbus_monitor b m = record m { has_monitor = b }
put supervisor b m = record m { has_supervisor = b }

abbrev pub become : Members → CecDaemon → CecDaemon
become m d = record d { members = m; past = m ∷ d.past }

-- How a step of `start` ends: on to the next, with `return false`, or with an exception.
pub data Progress : Type 0 where
  onward refused thrown : Progress

abbrev pub Step : Type 0
Step = CecDaemon → Progress × CecDaemon

unfoldable pub after : Progress × CecDaemon → Step → Progress × CecDaemon
after (onward, d) k = k d
after (refused, d) k = (refused, d)
after (thrown, d) k = (thrown, d)

infixl 5 ◌>>◌
abbrev pub ◌>>◌ : Step → Step → Step
◌>>◌ m k d = after (m d) k

-- A call that answers whether it succeeded.
unfoldable pub require : Outcome Bool → Step
require (returned true) d = (onward, d)
require (returned false) d = (refused, d)
require Adapter.threw d = (thrown, d)
