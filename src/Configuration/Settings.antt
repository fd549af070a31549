-- ===== src/Configuration/Settings.antt =====
-- src/daemon/app_config.h and app_config.cpp: the typed settings of the daemon, with
-- src/daemon/cec/adapter_config.h. libcec's mask of addresses is the list of the addresses set.
use cec_control.Prelude.{
  suc, ℕ, ◌-◌, ◌%◌, ◌^◌, ◌≤◌, ◌<◌, ◌≡◌, ◌⊎◌, inl, inr, refl, Bool, true, false, List, [], ◌∷◌, All,
  ◌==◌, ◌&&◌, ◌||◌, ltb, is_empty, not, if◌then◌else◌, if_ind, Text, codes, arith,
}
use cec_control.Registry.Numbers.{Stoi, int, throws, stoi}
use cec_control.Throttler.{ThrottlerConfig}
use cec_control.Hooks.{HooksConfig}
use cec_control.Configuration.{Sections, ℤ, pos, negsuc, lines, get_string, get_bool, get_int}

pub record AdapterConfig : Type 0 where
  pub device_name : Text
  pub auto_power_on : Bool
  pub auto_wake_avr : Bool
  pub activate_source : Bool
  pub system_audio_mode : Bool
  pub wake_devices : List ℕ
  pub power_off_devices : List ℕ

pub record DaemonConfig : Type 0 where
  pub enable_power_monitor : Bool
  pub scan_devices_at_startup : Bool

-- `queue_commands` and `standby_enabled` are the records `DispatcherConfig` and `StandbyConfig`.
pub record AppConfig : Type 0 where
  pub adapter : AdapterConfig
  pub throttler : ThrottlerConfig
  pub queue_commands : Bool
  pub standby_enabled : Bool
  pub daemon : DaemonConfig
  pub hooks : HooksConfig

abbrev is_absolute : Text → Bool
is_absolute [] = false
is_absolute (c ∷ cs) = c == b'/'

-- A path that is not executable is kept; the check only logs.
unfoldable pub validate_hook_path : Text → Text
validate_hook_path path =
    if is_empty path then path else if not (is_absolute path) then [] else path

-- One entry of the list; an exception skips it.
address_entry : Stoi → List ℕ → List ℕ
address_entry throws rest = rest
address_entry (int negative id junk) rest =
    if (not negative || id == 0) && not (ltb 15 id) then id ∷ rest else rest

address_entries : List Text → List ℕ
unfolding address_entry stoi
address_entries [] = []
address_entries (token ∷ tokens) = address_entry (stoi token) (address_entries tokens)

unfoldable pub parse_logical_address_list : Text → List ℕ
unfolding address_entries lines
parse_logical_address_list input = if is_empty input then [] else address_entries (lines b',' input)

-- The conversion of an `int` to a `uint32_t`.
abbrev pub to_uint32 : ℤ → ℕ
to_uint32 (pos n) = n % 2 ^ 32
to_uint32 (negsuc n) = (2 ^ 32 - suc n % 2 ^ 32) % 2 ^ 32

unfoldable pub load_throttler : Sections → ThrottlerConfig
unfolding get_int
load_throttler c = record {
  base_interval_ms = to_uint32 (get_int c (codes "Throttler") (codes "BaseIntervalMs") (pos 200));
  max_interval_ms = to_uint32 (get_int c (codes "Throttler") (codes "MaxIntervalMs") (pos 1000));
  max_retry_attempts = to_uint32 (get_int c (codes "Throttler") (codes "MaxRetryAttempts") (pos 3));
}

unfoldable pub load_adapter : Sections → AdapterConfig
unfolding get_string get_bool parse_logical_address_list
load_adapter c =
    let name = codes "Adapter" in
    record {
      device_name = get_string c name (codes "DeviceName") (codes "CEC Controller");
      auto_power_on = get_bool c name (codes "AutoPowerOn") false;
      auto_wake_avr = get_bool c name (codes "AutoWakeAVR") false;
      activate_source = get_bool c name (codes "ActivateSource") false;
      system_audio_mode = get_bool c name (codes "SystemAudioMode") false;
      wake_devices = parse_logical_address_list (get_string c name (codes "WakeDevices") []);
      power_off_devices =
          parse_logical_address_list (get_string c name (codes "PowerOffDevices") []);
    }

abbrev hook_path : Sections → Text → Text
unfolding validate_hook_path get_string
hook_path c event = validate_hook_path (get_string c (codes "Hooks") event [])

unfoldable pub load_hooks : Sections → HooksConfig
unfolding hook_path
load_hooks c = record {
  input_switch = hook_path c (codes "InputSwitch");
  tv_standby_path = hook_path c (codes "TVStandby");
  tv_wake = hook_path c (codes "TVWake");
  host_activated_path = hook_path c (codes "HostActivated");
  host_deactivated_path = hook_path c (codes "HostDeactivated");
}

-- The unknown keys of `[Hooks]` only have a warning.
unfoldable pub load_app_config : Sections → AppConfig
unfolding load_adapter load_throttler load_hooks get_bool
load_app_config c = record {
  adapter = load_adapter c;
  throttler = load_throttler c;
  queue_commands = get_bool c (codes "Daemon") (codes "QueueCommandsDuringSuspend") true;
  standby_enabled = get_bool c (codes "Adapter") (codes "PowerOffOnStandby") false;
  daemon = record {
    enable_power_monitor = get_bool c (codes "Daemon") (codes "EnablePowerMonitor") true;
    scan_devices_at_startup = get_bool c (codes "Daemon") (codes "ScanDevicesAtStartup") false;
  };
  hooks = load_hooks c;
}

-- A hook's path is switched off or absolute.
abbrev pub IsPath : Text → Type 0
IsPath p = (p ≡ []) ⊎ (is_absolute p ≡ true)

pub record AreSettings (a : AppConfig) : Type 0 where
  pub wakes : All (λ id. id ≤ 15) a.adapter.wake_devices
  pub powers_off : All (λ id. id ≤ 15) a.adapter.power_off_devices
  pub base : a.throttler.base_interval_ms < 2 ^ 32
  pub max : a.throttler.max_interval_ms < 2 ^ 32
  pub attempts : a.throttler.max_retry_attempts < 2 ^ 32
  pub paths :
      IsPath a.hooks.input_switch
      × IsPath a.hooks.tv_standby_path
      × IsPath a.hooks.tv_wake
      × IsPath a.hooks.host_activated_path
      × IsPath a.hooks.host_deactivated_path

validate_hook_path-IsPath : (path : Text) → IsPath (validate_hook_path path)
unfolding validate_hook_path
validate_hook_path-IsPath [] = inl refl
validate_hook_path-IsPath (c ∷ cs) =
    if_ind IsPath (not (c == b'/')) (λ _. inl refl) (λ b. inr (ground (arith, b)))

address_entry-All :
    (s : Stoi) (rest : List ℕ)
    → All (λ id. id ≤ 15) rest
    → All (λ id. id ≤ 15) (address_entry s rest)
unfolding address_entry
address_entry-All throws rest h = h
address_entry-All (int negative id junk) rest h =
    if_ind (All (λ id. id ≤ 15)) ((not negative || id == 0) && not (ltb 15 id))
      (λ b. (ground (arith, b), h)) (λ _. h)

address_entries-All : (tokens : List Text) → All (λ id. id ≤ 15) (address_entries tokens)
unfolding address_entries
address_entries-All [] = tt
address_entries-All (token ∷ tokens) =
    address_entry-All (stoi token) (address_entries tokens) (address_entries-All tokens)

parse_logical_address_list-All :
    (input : Text) → All (λ id. id ≤ 15) (parse_logical_address_list input)
unfolding parse_logical_address_list
parse_logical_address_list-All input =
    if_ind (All (λ id. id ≤ 15)) (is_empty input) (λ _. tt)
      (λ _. address_entries-All (lines b',' input))

to_uint32-bound : (n : ℤ) → to_uint32 n < 2 ^ 32
to_uint32-bound (pos n) = omega arith
to_uint32-bound (negsuc n) = omega arith

-- Whatever the file holds, the addresses to wake and to power off are logical addresses, at most 15,
-- the throttler's numbers fit their 32 bits, and each hook's path is empty or absolute.
pub load_app_config-AreSettings : (c : Sections) → AreSettings (load_app_config c)
unfolding load_app_config load_adapter load_throttler load_hooks hook_path
load_app_config-AreSettings c =
    let path_of : (event : Text) → IsPath (hook_path c event) =
      λ event. validate_hook_path-IsPath (get_string c (codes "Hooks") event []) in
    record {
      wakes =
          parse_logical_address_list-All (get_string c (codes "Adapter") (codes "WakeDevices") []);
      powers_off =
          parse_logical_address_list-All
            (get_string c (codes "Adapter") (codes "PowerOffDevices") []);
      base = to_uint32-bound _;
      max = to_uint32-bound _;
      attempts = to_uint32-bound _;
      paths = (
        path_of (codes "InputSwitch"),
        path_of (codes "TVStandby"),
        path_of (codes "TVWake"),
        path_of (codes "HostActivated"),
        path_of (codes "HostDeactivated"),
      );
    }
