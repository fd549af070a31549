-- ===== src/LibcecAdapter/Commands.antt =====
-- src/daemon/cec/libcec_adapter.cpp: the frames of the bus that the daemon observes. libcec's constants
-- are parameters.
use cec_control.Prelude.{
  ap, ℕ, ◌+◌, ◌*◌, ◌/◌, ◌%◌, ◌≡◌, ◌≢◌, Option, none, some, List, [], ◌∷◌, ◌++◌, ◌==◌, ◌&&◌,
  if◌then◌else◌, arith, drop,
}
use cec_control.Standby.{Observation, tv_standby, tv_power_report, active_source}
use cec_control.LibcecAdapter.{Libcec, LibcecAdapter, observe}

pub record Opcodes : Type 0 where
  pub device_tv : ℕ
  pub opcode_standby : ℕ
  pub opcode_report_power_status : ℕ
  pub opcode_active_source : ℕ
  pub opcode_routing_change : ℕ
  pub opcode_set_stream_path : ℕ

pub record Command : Type 0 where
  pub initiator : ℕ
  pub opcode : ℕ
  pub parameters : List ℕ

-- `emitActiveSource` at the parameters from its offset on; there must be two of them.
abbrev address_of : List ℕ → Option Observation
address_of (high ∷ low ∷ rest) = some (active_source (high * 256 + low))
address_of _ = none

abbrev power_of : List ℕ → Option Observation
power_of [] = none
power_of (p ∷ rest) = some (tv_power_report p)

-- The observation that a command makes, if it makes one. A frame that is too short falls through to
-- the tests behind it, which have other opcodes.
unfoldable pub observation : Opcodes → Command → Option Observation
observation k c =
    if c.initiator == k.device_tv && c.opcode == k.opcode_standby
    then some tv_standby
    else if c.initiator == k.device_tv && c.opcode == k.opcode_report_power_status
    then power_of c.parameters
    else if c.opcode == k.opcode_active_source
    then address_of c.parameters
    else if c.opcode == k.opcode_routing_change
    then address_of (drop 2 c.parameters)
    else if c.opcode == k.opcode_set_stream_path
    then address_of c.parameters
    else none

unfoldable pub command_received : Libcec → Opcodes → Command → LibcecAdapter → LibcecAdapter
unfolding observation observe
command_received l k c a = elim (observation k c) [ none ↦ a | some o ↦ observe l o a ]

-- libcec's opcodes differ.
pub record AreOpcodes (k : Opcodes) : Type 0 where
  pub standby_power : k.opcode_standby ≢ k.opcode_report_power_status
  pub standby_active : k.opcode_standby ≢ k.opcode_active_source
  pub standby_routing : k.opcode_standby ≢ k.opcode_routing_change
  pub standby_path : k.opcode_standby ≢ k.opcode_set_stream_path
  pub power_active : k.opcode_report_power_status ≢ k.opcode_active_source
  pub power_routing : k.opcode_report_power_status ≢ k.opcode_routing_change
  pub power_path : k.opcode_report_power_status ≢ k.opcode_set_stream_path
  pub active_routing : k.opcode_active_source ≢ k.opcode_routing_change
  pub active_path : k.opcode_active_source ≢ k.opcode_set_stream_path
  pub routing_path : k.opcode_routing_change ≢ k.opcode_set_stream_path

-- What a device announces on the bus, as the CEC specification has it.
pub data Announcement : Type 0 where
  standby_announced : Announcement
  power_announced : ℕ → Announcement
  source_announced path_announced : ℕ → ℕ → Announcement
  routing_announced : ℕ → ℕ → ℕ → Announcement

abbrev pub address_bytes : ℕ → List ℕ
address_bytes a = a / 256 ∷ a % 256 ∷ []

-- The frame of an announcement, and the observation that it stands for. The television announces the
-- first two; the first number of the others is the device.
abbrev pub frame : Opcodes → Announcement → Command
frame k standby_announced = record {
  initiator = k.device_tv;
  opcode = k.opcode_standby;
  parameters = [];
}
frame k (power_announced p) = record {
  initiator = k.device_tv;
  opcode = k.opcode_report_power_status;
  parameters = p ∷ [];
}
frame k (source_announced i a) = record {
  initiator = i;
  opcode = k.opcode_active_source;
  parameters = address_bytes a;
}
frame k (path_announced i a) = record {
  initiator = i;
  opcode = k.opcode_set_stream_path;
  parameters = address_bytes a;
}
frame k (routing_announced i from to) = record {
  initiator = i;
  opcode = k.opcode_routing_change;
  parameters = address_bytes from ++ address_bytes to;
}

abbrev pub meant : Announcement → Observation
meant standby_announced = tv_standby
meant (power_announced p) = tv_power_report p
meant (source_announced i a) = active_source a
meant (path_announced i a) = active_source a
meant (routing_announced i from to) = active_source to

address_of-bytes : (a : ℕ) → address_of (address_bytes a) ≡ some (active_source a)
address_of-bytes a = ap (λ n. some (active_source n)) (omega arith)

-- The frame of each announcement is observed as what it means: a standby and a power report of the
-- television, and the address that becomes the active source, of a routing change the new one.
pub observation-frame :
    (k : Opcodes) (x : Announcement) → AreOpcodes k → observation k (frame k x) ≡ some (meant x)
unfolding observation
observation-frame k standby_announced h = ground arith
observation-frame k (power_announced p) h = ground (arith, h.standby_power)
observation-frame k (source_announced i a) h =
    ground (arith, h.standby_active, h.power_active, address_of-bytes a)
observation-frame k (path_announced i a) h =
    ground (arith, h.standby_path, h.power_path, h.active_path, h.routing_path, address_of-bytes a)
observation-frame k (routing_announced i from to) h =
    ground (arith, h.standby_routing, h.power_routing, h.active_routing, address_of-bytes to)
