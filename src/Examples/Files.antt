-- ===== src/Examples/Files.antt =====
-- The configuration at concrete inputs.
use cec_control.Prelude.{◌≡◌, refl, ◌≢◌, some, [], ◌∷◌, All, codes, Text, arith}
use cec_control.Registry.Numbers.{skip_spaces}
use cec_control.Configuration.{load, get_string, trim_end}
use cec_control.Configuration.Settings.{AreSettings, load_app_config, load_app_config-AreSettings}
use cec_control.Configuration.Printed.{Setting, IsSetting, print_settings, get_string-load}

abbrev wake_setting : Text → Setting
wake_setting value = record { name = codes "Hooks"; key = codes "TVWake"; value = value }

wake_setting-IsSetting :
    (value : Text)
    → All (λ c. c ≢ b'\n') value
    → skip_spaces value ≡ value
    → trim_end value ≡ value
    → IsSetting (wake_setting value)
unfolding trim_end
wake_setting-IsSetting value l f t = record {
  name_line = ground arith;
  key_line = ground arith;
  value_line = l;
  plain = refl;
  no_equals = ground arith;
  key_end = refl;
  value_front = f;
  value_end = t;
}

wake_settings-IsSetting : All IsSetting (wake_setting (codes "/a") ∷ wake_setting (codes "/b") ∷ [])
unfolding skip_spaces trim_end
wake_settings-IsSetting = (
  wake_setting-IsSetting (codes "/a") (ground arith) refl refl,
  (wake_setting-IsSetting (codes "/b") (ground arith) refl refl, tt),
)

get_string-load_example :
    get_string
      (load (some (print_settings (wake_setting (codes "/a") ∷ wake_setting (codes "/b") ∷ [])))).1
      (codes "Hooks")
      (codes "TVWake")
      []
    ≡ codes "/b"
get_string-load_example =
    get_string-load (wake_setting (codes "/a") ∷ wake_setting (codes "/b") ∷ []) (codes "Hooks")
      (codes "TVWake") [] wake_settings-IsSetting

load_app_config-AreSettings_example :
    AreSettings
      (load_app_config ((codes "Throttler", (codes "BaseIntervalMs", codes "-1") ∷ []) ∷ []))
load_app_config-AreSettings_example =
    load_app_config-AreSettings
      ((codes "Throttler", (codes "BaseIntervalMs", codes "-1") ∷ []) ∷ [])
