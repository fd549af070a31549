-- ===== src/Power/SuspendQueue.antt =====
-- src/daemon/power/suspend_queue.h and suspend_queue.cpp: the suspend flag and the parked commands.
use cec_control.Prelude.{Bool, true, false, List, [], ◌∷◌, ◌++◌, if◌then◌else◌}
use cec_control.Message.{Message}

pub record SuspendQueue : Type 0 where
  pub suspended : Bool
  pub queued : List Message

abbrev pub empty : SuspendQueue
empty = record { suspended = false; queued = [] }

unfoldable pub enter_suspended : SuspendQueue → SuspendQueue
enter_suspended q = record q { suspended = true }

unfoldable pub exit_suspended : SuspendQueue → SuspendQueue
exit_suspended q = record q { suspended = false }

unfoldable pub push : SuspendQueue → Message → SuspendQueue
push q command = if q.suspended then record q { queued = q.queued ++ command ∷ [] } else q

unfoldable pub drain : SuspendQueue → SuspendQueue × List Message
drain q = (record q { queued = [] }, q.queued)
