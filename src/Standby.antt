-- ===== src/Standby.antt =====
-- src/daemon/standby_policy.h and standby_policy.cpp: suspending the computer with the television.
use cec_control.Prelude.{
  ℕ, ◌+◌, ◌≡◌, Bool, true, false, List, [], ◌∷◌, ltb, if◌then◌else◌, arith, not, ◌&&◌,
}
use cec_control.Message.{Message, message, resp_success, resp_error}

pub data Observation : Type 0 where
  tv_standby : Observation
  tv_power_report active_source host_activated host_deactivated : ℕ → Observation

-- `requests` counts the calls of the suspend callback; `wired` says that there is one.
pub record StandbyPolicy : Type 0 where
  pub enabled : Bool
  pub armed : Bool
  pub wired : Bool
  pub requests : ℕ

unfoldable pub create : Bool → Bool → StandbyPolicy
create enabled wired = record { enabled = enabled; armed = false; wired = wired; requests = 0 }

apply_payload : StandbyPolicy → List ℕ → StandbyPolicy × Message
apply_payload p [] = (p, message resp_error)
apply_payload p (flag ∷ rest) = (record p { enabled = ltb 0 flag }, message resp_success)

unfoldable pub apply : StandbyPolicy → Message → StandbyPolicy × Message
unfolding apply_payload
apply p command = apply_payload p command.payload

unfoldable pub observe : StandbyPolicy → Observation → StandbyPolicy
observe p tv_standby =
    if not p.armed
    then p
    else if not p.enabled
    then p
    else if not p.wired
    then p
    else record p { requests = p.requests + 1 }
observe p _ = p

unfoldable pub arm : StandbyPolicy → StandbyPolicy
arm p = if p.armed then p else record p { armed = true }

-- What reaches the policy.
pub data Input : Type 0 where
  applies : Message → Input
  observes : Observation → Input
  arms : Input

unfoldable pub handle : StandbyPolicy → Input → StandbyPolicy
unfolding apply observe arm
handle p (applies m) = (apply p m).0
handle p (observes o) = observe p o
handle p arms = arm p

unfoldable pub run : StandbyPolicy → List Input → StandbyPolicy
run p [] = p
run p (i ∷ is) = run (handle p i) is

-- Specification, from the history alone: was `arm` called, and what did the last well-formed
-- command say?
abbrev arms_after : Bool → Input → Bool
arms_after armed arms = true
arms_after armed _ = armed

abbrev flag_after : Bool → List ℕ → Bool
flag_after enabled [] = enabled
flag_after enabled (flag ∷ rest) = ltb 0 flag

abbrev enabled_after : Bool → Input → Bool
enabled_after enabled (applies m) = flag_after enabled m.payload
enabled_after enabled _ = enabled

abbrev counts : Bool → Input → ℕ
counts true (observes tv_standby) = 1
counts _ _ = 0

-- How many standby observations come while the policy is armed and switched on.
abbrev pub triggers : Bool → Bool → List Input → ℕ
triggers armed enabled [] = 0
triggers armed enabled (i ∷ is) =
    counts (armed && enabled) i + triggers (arms_after armed i) (enabled_after enabled i) is

handle_history :
    (p : StandbyPolicy) (i : Input)
    → p.wired ≡ true
    → ((handle p i).armed ≡ arms_after p.armed i)
      × ((handle p i).enabled ≡ enabled_after p.enabled i)
      × ((handle p i).requests ≡ p.requests + counts (p.armed && p.enabled) i)
      × ((handle p i).wired ≡ true)
unfolding handle
handle_history p i w = ground arith

-- A policy with its callback asks for a suspend exactly at the standby observations that come after
-- `arm` and while the last flag received, or else the configured one, is set.
pub run-requests :
    (p : StandbyPolicy) (is : List Input)
    → p.wired ≡ true
    → (run p is).requests ≡ p.requests + triggers p.armed p.enabled is
unfolding run
run-requests p [] w = omega arith
run-requests p (i ∷ is) w =
    let h = handle_history p i w in
    rw (run-requests (handle p i) is h.3) (rw (h.0, h.1, h.2) (omega arith))
