-- ===== src/Startup/Stop.antt =====
-- src/daemon/cec_daemon.cpp: `CECDaemon::stop` and the destructor.
use cec_control.Prelude.{Bool, true, false, not, List, [], ◌∷◌, if◌then◌else◌}
use mathlib.Core.List.{reverse}
use cec_control.Startup.{
  after, Subsystem, standby_policy, hook_executor, hooks, worker, lifecycle, dispatcher,
  socket_server, dbus_monitor, supervisor, Call, detach_monitor, stop_server, shut_dispatcher,
  shut_lifecycle, stop_worker, stop_monitor, CecDaemon, Machine, put, become, onward, thrown, Step,
  ◌>>◌,
}

-- The resets at the end of `stop`.
abbrev pub reset_order : List Subsystem
reset_order =
    supervisor ∷ dbus_monitor ∷ socket_server ∷ dispatcher ∷ lifecycle ∷ worker ∷ hooks
    ∷ hook_executor ∷ standby_policy ∷ []

unfoldable pub drop_each : List Subsystem → CecDaemon → CecDaemon
unfolding put
drop_each [] d = d
drop_each (s ∷ ss) d = drop_each ss (become (put s false d.members) d)

-- The members in the order of their declarations; a destructor destroys them in the reverse order.
abbrev pub declared : List Subsystem
declared =
    standby_policy ∷ hook_executor ∷ hooks ∷ worker ∷ lifecycle ∷ dispatcher ∷ socket_server
    ∷ dbus_monitor ∷ supervisor ∷ []

-- The worker's `stop` joins its thread.
unfoldable pub done : Call → CecDaemon → CecDaemon
done stop_worker d = become (record d.members { runs = false }) d
done _ d = d

module _ (os : Machine) where
  unfoldable pub call : Bool → Call → Step
  unfolding done
  call present c d =
      if not present
      then (onward, d)
      else if os.stop_throws c
      then (thrown, d)
      else (onward, done c (record d { calls = c ∷ d.calls }))

  unfoldable pub silence : Step
  unfolding after call
  silence d =
      (do
        call d.members.has_monitor detach_monitor
        call d.members.has_server stop_server
        call d.members.has_dispatcher shut_dispatcher
        call d.members.has_lifecycle shut_lifecycle
        call d.members.has_worker stop_worker
        call d.members.has_monitor stop_monitor)
        d

  -- The calls of `stop`, up to the first that throws.
  unfoldable pub quiet : CecDaemon → CecDaemon
  unfolding silence
  quiet d = (silence d).1

  unfoldable pub stop : CecDaemon → CecDaemon
  unfolding quiet drop_each
  stop d =
      if not d.started
      then d
      else drop_each reset_order (quiet (record d { started = false; loop_stopped = true }))

  unfoldable pub destroy : CecDaemon → CecDaemon
  unfolding stop drop_each
  destroy d = drop_each (reverse declared) (stop d)
