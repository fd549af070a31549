-- ===== src/Power/Lifecycle.antt =====
-- src/daemon/power/power_lifecycle.h and power_lifecycle.cpp: the suspend and resume sequencer, a
-- decision type. A handler takes the state and returns the new state and the `Output` it emits.
pub mod Pipeline
pub mod InhibitLock
use cec_control.Prelude.{ℕ, Bool, true, false, List, [], ◌∷◌, ◌++◌, ◌&&◌, not, if◌then◌else◌}

pub data Source : Type 0 where
  dbus wire : Source

pub data Work : Type 0 where
  none start_suspend start_resume : Work

pub data Lock : Type 0 where
  none release take : Lock

pub data Timer : Type 0 where
  none arm disarm : Timer

pub data Notify : Type 0 where
  none system_suspend system_resume : Notify

pub data SafetyOutcome : Type 0 where
  inert fired overrun : SafetyOutcome

pub record Output : Type 0 where
  pub work : Work
  pub lock : Lock
  pub safety_timer : Timer
  pub safety_delay : ℕ
  pub reconnect_notify : Notify
  pub safety : SafetyOutcome

-- `Output{}`.
abbrev pub inert_output : Output
inert_output = record {
  work = Work.none;
  lock = Lock.none;
  safety_timer = Timer.none;
  safety_delay = 0;
  reconnect_notify = Notify.none;
  safety = SafetyOutcome.inert;
}

-- `kSuspendSafetyDeadline`, 10 seconds, in milliseconds.
abbrev pub suspend_safety_deadline : ℕ
suspend_safety_deadline = 10000

pub data Phase : Type 0 where
  idle suspending resuming : Phase

pub data EventKind : Type 0 where
  suspend resume : EventKind

pub record Pending : Type 0 where
  pub kind : EventKind
  pub source : Source

pub record PowerLifecycle : Type 0 where
  pub phase : Phase
  pub phase_source : Source
  pub safety_fired_first : Bool
  pub pending : List Pending

abbrev pub initial : PowerLifecycle
initial = record { phase = idle; phase_source = dbus; safety_fired_first = false; pending = [] }

abbrev pub same_kind : EventKind → EventKind → Bool
same_kind suspend suspend = true
same_kind resume resume = true
same_kind _ _ = false

abbrev pub same_source : Source → Source → Bool
same_source dbus dbus = true
same_source wire wire = true
same_source _ _ = false

abbrev pub is_idle : Phase → Bool
is_idle idle = true
is_idle _ = false

-- The event that an active phase carries out.
abbrev pub active_kind : Phase → EventKind
active_kind suspending = suspend
active_kind _ = resume

-- `m_pending.back()`, or the given event if the queue is empty.
abbrev pub back_or : Pending → List Pending → Pending
back_or p [] = p
back_or p (q ∷ qs) = back_or q qs

coalesces_with_active : PowerLifecycle → EventKind → Source → Bool
coalesces_with_active s kind source =
    if is_idle s.phase
    then false
    else same_kind (active_kind s.phase) kind && same_source s.phase_source source

coalesces_with : PowerLifecycle → List Pending → EventKind → Source → Bool
unfolding coalesces_with_active
coalesces_with s (p ∷ ps) kind source =
    let tail = back_or p ps in same_kind tail.kind kind && same_source tail.source source
coalesces_with s [] kind source = coalesces_with_active s kind source

pub coalesces_with_effective_tail : PowerLifecycle → EventKind → Source → Bool
unfolding coalesces_with
coalesces_with_effective_tail s kind source = coalesces_with s s.pending kind source

-- The body that the two request handlers share.
request : EventKind → PowerLifecycle → Source → PowerLifecycle × Output
unfolding coalesces_with_effective_tail
request kind s source = (
  if not (coalesces_with_effective_tail s kind source)
      then record s { pending = s.pending ++ (record { kind = kind; source = source }) ∷ [] }
      else s,
  inert_output,
)

unfoldable pub on_suspend_requested : PowerLifecycle → Source → PowerLifecycle × Output
unfolding request
on_suspend_requested s source = request suspend s source

unfoldable pub on_resume_requested : PowerLifecycle → Source → PowerLifecycle × Output
unfolding request
on_resume_requested s source = request resume s source

make_suspend_entry : PowerLifecycle → PowerLifecycle × Output
make_suspend_entry s = (
  record s { phase = suspending; safety_fired_first = false },
  record inert_output {
    work = Work.start_suspend;
    safety_timer = Timer.arm;
    safety_delay = suspend_safety_deadline;
    reconnect_notify = Notify.system_suspend;
  },
)

make_resume_entry : PowerLifecycle → PowerLifecycle × Output
make_resume_entry s = (
  record s { phase = resuming },
  record inert_output { work = Work.start_resume; reconnect_notify = Notify.system_resume },
)

make_entry : EventKind → PowerLifecycle → PowerLifecycle × Output
unfolding make_suspend_entry make_resume_entry
make_entry suspend s = make_suspend_entry s
make_entry resume s = make_resume_entry s

-- `pumpQueue` on the phase and the queue.
pump : Phase → List Pending → PowerLifecycle → PowerLifecycle × Output
unfolding make_entry
pump idle (next ∷ rest) s =
    make_entry next.kind (record s { pending = rest; phase_source = next.source })
pump _ _ s = (s, inert_output)

unfoldable pub pump_queue : PowerLifecycle → PowerLifecycle × Output
unfolding pump
pump_queue s = pump s.phase s.pending s

abbrev release_if_dbus : Source → Lock
release_if_dbus dbus = Lock.release
release_if_dbus wire = Lock.none

abbrev take_if_dbus : Source → Lock
take_if_dbus dbus = Lock.take
take_if_dbus wire = Lock.none

suspend_completed : Phase → PowerLifecycle → PowerLifecycle × Output
suspend_completed suspending s =
    let o = record inert_output { safety_timer = Timer.disarm } in
    (
      record s { phase = idle; safety_fired_first = false },
      if s.safety_fired_first
          then record o { safety = SafetyOutcome.overrun }
          else record o { lock = release_if_dbus s.phase_source },
    )
suspend_completed _ s = (s, inert_output)

unfoldable pub on_suspend_completed : PowerLifecycle → PowerLifecycle × Output
unfolding suspend_completed
on_suspend_completed s = suspend_completed s.phase s

resume_completed : Phase → PowerLifecycle → PowerLifecycle × Output
resume_completed resuming s =
    (record s { phase = idle }, record inert_output { lock = take_if_dbus s.phase_source })
resume_completed _ s = (s, inert_output)

-- The source's parameter `adapterValid` is not read.
unfoldable pub on_resume_completed : PowerLifecycle → Bool → PowerLifecycle × Output
unfolding resume_completed
on_resume_completed s adapter_valid = resume_completed s.phase s

safety_timer_fired : Phase → Bool → PowerLifecycle → PowerLifecycle × Output
safety_timer_fired suspending false s = (
  record s { safety_fired_first = true },
  record inert_output { safety = SafetyOutcome.fired; lock = release_if_dbus s.phase_source },
)
safety_timer_fired _ _ s = (s, inert_output)

unfoldable pub on_safety_timer_fired : PowerLifecycle → PowerLifecycle × Output
unfolding safety_timer_fired
on_safety_timer_fired s = safety_timer_fired s.phase s.safety_fired_first s

-- A deliberate no-op.
unfoldable pub on_safety_timer_arm_failed : PowerLifecycle → PowerLifecycle × Output
on_safety_timer_arm_failed s = (s, inert_output)

-- The calls that reach the sequencer, as one type of inputs.
pub data Input : Type 0 where
  suspend_requested resume_requested : Source → Input
  suspend_completes safety_fires safety_arm_fails pumps : Input
  resume_completes : Bool → Input

unfoldable pub handle : PowerLifecycle → Input → PowerLifecycle × Output
unfolding on_suspend_requested on_resume_requested on_suspend_completed on_resume_completed
    on_safety_timer_fired on_safety_timer_arm_failed pump_queue
handle s (suspend_requested source) = on_suspend_requested s source
handle s (resume_requested source) = on_resume_requested s source
handle s suspend_completes = on_suspend_completed s
handle s (resume_completes valid) = on_resume_completed s valid
handle s safety_fires = on_safety_timer_fired s
handle s safety_arm_fails = on_safety_timer_arm_failed s
handle s pumps = pump_queue s

-- A sequence of calls, with every output in order.
unfoldable pub run : PowerLifecycle → List Input → PowerLifecycle × List Output
run s [] = (s, [])
run s (i ∷ is) = let (s', out) = handle s i in let (t, outs) = run s' is in (t, out ∷ outs)
