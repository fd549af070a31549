-- ===== src/Examples/Commands.antt =====
-- Runs of the throttler, the dispatch check and the operations, on an adapter that answers `true`.
use cec_control.Prelude.{◌≡◌, refl, Bool, true, false, [], All, arith}
use cec_control.Adapter.{Backend, Device, Outcome, returned, threw}
use cec_control.Throttler.{CommandThrottler, default_config, execute_with_throttle}
use cec_control.Throttler.Interval.{IsConfig}
use cec_control.Throttler.Slots.{IsSpaced, execute_with_throttle-IsSpaced}
use cec_control.Operations.{CecConstants, set_source, select_source}
use cec_control.Operations.Bus.{Selects, set_source-Selects}

-- The state is whether the adapter is connected; a call takes 5 ms.
abbrev pub backend : Backend Bool
backend = record {
  is_connected = λ up. up;
  answer = λ c up. returned up;
  after = λ c up. up;
  takes = λ c up. 5;
}

abbrev pub idle_device : Device Bool
idle_device = record { adapter = true; now = 1000; calls = [] }

abbrev pub fresh : CommandThrottler
fresh = record { next_allowed = 1000; consecutive_failures = 0; begun = [] }

abbrev failing : Device Bool → Outcome Bool × Device Bool
failing d = (threw, d)

abbrev refusing : Device Bool → Outcome Bool × Device Bool
refusing d = (returned false, d)

fresh-IsSpaced : IsSpaced 200 fresh
fresh-IsSpaced = record { apart = tt; next_apart = tt }

default_config-IsConfig : IsConfig default_config
default_config-IsConfig = record { base_fits = omega arith; max_fits = omega arith }

execute_with_throttle-IsSpaced_example :
    IsSpaced 200 (execute_with_throttle default_config failing (fresh, idle_device)).1.0
execute_with_throttle-IsSpaced_example =
    execute_with_throttle-IsSpaced default_config default_config-IsConfig failing fresh idle_device
      fresh-IsSpaced

abbrev pub cec : CecConstants
cec = record {
  device_tv = 0;
  device_broadcast = 15;
  code_unknown = 255;
  code_select_av_input_function = 105;
  code_select_audio_input_function = 106;
  code_input_select = 52;
  code_number1 = 33;
  code_number2 = 34;
  code_number3 = 35;
  code_number4 = 36;
}

set_source-Selects_example :
    All
      (Selects cec backend default_config 3)
      (set_source cec backend default_config 3 (fresh, idle_device)).1.1.calls
set_source-Selects_example = set_source-Selects cec backend default_config 3 fresh idle_device refl

three_selected : (select_source cec backend default_config 3 idle_device).0 ≡ returned true
unfolding select_source
three_selected = refl
