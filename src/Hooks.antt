-- ===== src/Hooks.antt =====
-- src/daemon/hook/cec_hook_subsystem.h and cec_hook_subsystem.cpp: the user's scripts that run at
-- events of the bus. The debounce timer answers by the number of the call, and an expiry is an input.
pub mod Queue
pub mod Spawn
pub mod Fires
pub mod Settled
use cec_control.Prelude.{
  ℕ, zero, suc, ◌+◌, ◌/◌, ◌%◌, ◌^◌, Bool, true, false, Option, none, some, List, [], ◌∷◌, ◌++◌,
  ◌==◌, ltb, is_empty, if◌then◌else◌, Text, codes, to_text,
}
use cec_control.Standby.{
  Observation, tv_standby, tv_power_report, active_source, host_activated, host_deactivated,
}
use Queue.{Executor, Job, submit}

-- `HooksConfig`: a path for each event; the empty one switches it off.
pub record HooksConfig : Type 0 where
  pub input_switch : Text
  pub tv_standby_path : Text
  pub tv_wake : Text
  pub host_activated_path : Text
  pub host_deactivated_path : Text

pub data CachedPower : Type 0 where
  unknown on standby : CachedPower

-- The calls of the `fire` functions, with the value that the cache has at the call.
pub data Fire : Type 0 where
  fired_input_switch : ℕ → Option ℕ → Fire
  fired_tv_standby fired_tv_wake : CachedPower → Fire
  fired_host_activated fired_host_deactivated : ℕ → Fire

-- `env` is the process's environment, `timestamp` the text of the current time by the number of
-- fires before, `power_on` libcec's constant.
pub record Surroundings : Type 0 where
  pub config : HooksConfig
  pub env : Text → Option Text
  pub timestamp : ℕ → Text
  pub daemon_pid : ℕ
  pub power_on : ℕ
  pub arm_ok : ℕ → Bool

-- `fires` holds the fires, the newest first; `arms` counts the timer's armings.
pub record Hooks : Type 0 where
  pub pending_physical : Option ℕ
  pub last_fired_physical : Option ℕ
  pub last_tv_power : CachedPower
  pub executor : Executor
  pub fires : List Fire
  pub arms : ℕ

abbrev pub count_fires : List Fire → ℕ
count_fires [] = 0
count_fires (f ∷ fs) = suc (count_fires fs)

abbrev nibble : ℕ → ℕ → ℕ
nibble addr shift = addr / 2 ^ shift % 16

unfoldable pub dotted_physical_address : ℕ → Text
unfolding to_text
dotted_physical_address addr =
    to_text (nibble addr 12)
    ++ b'.' ∷ to_text (nibble addr 8)
    ++ b'.' ∷ to_text (nibble addr 4)
    ++ b'.' ∷ to_text (nibble addr 0)

hex_digit : ℕ → ℕ
hex_digit n = if ltb n 10 then n + b'0' else n + 87

unfoldable pub raw_physical_address : ℕ → Text
unfolding hex_digit
raw_physical_address addr =
    b'0'
    ∷ b'x'
    ∷ hex_digit (nibble addr 12)
    ∷ hex_digit (nibble addr 8)
    ∷ hex_digit (nibble addr 4)
    ∷ hex_digit (nibble addr 0)
    ∷ []

-- Names that are not set are left out.
unfoldable pub propagate_if_set : (Text → Option Text) → List Text → List Text
propagate_if_set env [] = []
propagate_if_set env (name ∷ names) =
    let rest = propagate_if_set env names in
    elim (env name) [ none ↦ rest | some value ↦ (name ++ b'=' ∷ value) ∷ rest ]

unfoldable pub base_env : Surroundings → ℕ → Text → List Text
unfolding propagate_if_set to_text
base_env e n event =
    propagate_if_set e.env
      (codes "PATH" ∷ codes "HOME" ∷ codes "LANG" ∷ codes "LC_ALL" ∷ codes "USER" ∷ [])
    ++ (codes "CEC_EVENT=" ++ event)
      ∷ (codes "CEC_EVENT_TS=" ++ e.timestamp n)
      ∷ (codes "CEC_DAEMON_PID=" ++ to_text e.daemon_pid)
      ∷ []

abbrev pub previous_power_string : CachedPower → Text
previous_power_string on = codes "on"
previous_power_string standby = codes "standby"
previous_power_string unknown = []

abbrev previous_address : Option ℕ → Text
unfolding dotted_physical_address
previous_address none = []
previous_address (some a) = dotted_physical_address a

-- The name of the event, as it stands in `CEC_EVENT`.
abbrev pub event_name : Fire → Text
event_name (fired_input_switch a p) = codes "InputSwitch"
event_name (fired_tv_standby p) = codes "TVStandby"
event_name (fired_tv_wake p) = codes "TVWake"
event_name (fired_host_activated l) = codes "HostActivated"
event_name (fired_host_deactivated l) = codes "HostDeactivated"

-- The entries behind those of `baseEnv`.
unfoldable pub own_env : Fire → List Text
unfolding dotted_physical_address raw_physical_address to_text previous_address
own_env (fired_input_switch a p) =
    (codes "CEC_SOURCE_PHYSICAL=" ++ dotted_physical_address a)
    ∷ (codes "CEC_SOURCE_PHYSICAL_RAW=" ++ raw_physical_address a)
    ∷ (codes "CEC_SOURCE_PREVIOUS_PHYSICAL=" ++ previous_address p)
    ∷ []
own_env (fired_tv_standby p) =
    codes "CEC_TV_POWER=standby" ∷ (codes "CEC_TV_POWER_PREVIOUS=" ++ previous_power_string p) ∷ []
own_env (fired_tv_wake p) =
    codes "CEC_TV_POWER=on" ∷ (codes "CEC_TV_POWER_PREVIOUS=" ++ previous_power_string p) ∷ []
own_env (fired_host_activated l) = (codes "CEC_HOST_LOGICAL=" ++ to_text l) ∷ []
own_env (fired_host_deactivated l) = (codes "CEC_HOST_LOGICAL=" ++ to_text l) ∷ []

abbrev pub script_path : HooksConfig → Fire → Text
script_path c (fired_input_switch a p) = c.input_switch
script_path c (fired_tv_standby p) = c.tv_standby_path
script_path c (fired_tv_wake p) = c.tv_wake
script_path c (fired_host_activated l) = c.host_activated_path
script_path c (fired_host_deactivated l) = c.host_deactivated_path

-- `submit` of the subsystem: nothing for an event that is switched off.
unfoldable pub submit_job : Text → List Text → Executor → Executor
unfolding submit
submit_job path env x = if is_empty path then x else submit (record { path = path; env = env }) x

unfoldable pub fire : Surroundings → Fire → Hooks → Hooks
unfolding submit_job base_env own_env
fire e f h = record h {
  executor =
      submit_job (script_path e.config f)
        (base_env e (count_fires h.fires) (event_name f) ++ own_env f) h.executor;
  fires = f ∷ h.fires;
}

abbrev pub same_address : Option ℕ → ℕ → Bool
same_address none a = false
same_address (some b) a = b == a

-- `commitPending` with the pending address.
unfoldable pub commit_address : Surroundings → ℕ → Hooks → Hooks
unfolding fire
commit_address e a h =
    if same_address h.last_fired_physical a
    then record h { pending_physical = none }
    else record (fire e (fired_input_switch a h.last_fired_physical) h) {
      last_fired_physical = some a;
      pending_physical = none;
    }

unfoldable pub commit_pending : Surroundings → Hooks → Hooks
unfolding commit_address
commit_pending e h = elim h.pending_physical [ none ↦ h | some a ↦ commit_address e a h ]

-- The cases on the cached power, for a standby and for a report that the television is on.
unfoldable pub note_standby : Surroundings → CachedPower → Hooks → Hooks
unfolding fire
note_standby e standby h = h
note_standby e p h = record (fire e (fired_tv_standby p) h) { last_tv_power = standby }

unfoldable pub note_on : Surroundings → CachedPower → Hooks → Hooks
unfolding fire
note_on e on h = h
note_on e p h = record (fire e (fired_tv_wake p) h) { last_tv_power = on }

unfoldable pub observe : Surroundings → Observation → Hooks → Hooks
unfolding note_standby note_on commit_pending fire
observe e tv_standby h = note_standby e h.last_tv_power h
observe e (tv_power_report power) h = if power == e.power_on then note_on e h.last_tv_power h else h
observe e (active_source a) h =
    let h' = record h { pending_physical = some a; arms = h.arms + 1 } in
    if e.arm_ok h.arms then h' else commit_pending e h'
observe e (host_activated l) h = fire e (fired_host_activated l) h
observe e (host_deactivated l) h = fire e (fired_host_deactivated l) h

-- `expirations` is what `consume` reads from the timer.
unfoldable pub on_debounce_timer_fired : Surroundings → ℕ → Hooks → Hooks
unfolding commit_pending
on_debounce_timer_fired e expirations h = if expirations == 0 then h else commit_pending e h

-- What the main thread hands to the subsystem.
pub data Input : Type 0 where
  observes : Observation → Input
  timer_fires : ℕ → Input

unfoldable pub run : Surroundings → List Input → Hooks → Hooks
unfolding observe on_debounce_timer_fired
run e [] h = h
run e (observes o ∷ is) h = run e is (observe e o h)
run e (timer_fires n ∷ is) h = run e is (on_debounce_timer_fired e n h)
