-- ===== src/Operations.antt =====
-- src/daemon/cec/operations.cpp: what a wire command does on the bus, as throttled adapter calls.
pub mod Bus
use cec_control.Prelude.{
  ℕ, suc, ◌+◌, ◌-◌, ◌*◌, ◌%◌, ◌^◌, Bool, true, false, List, [], ◌∷◌, ◌==◌, ◌||◌, ltb, not,
  if◌then◌else◌,
}
use cec_control.Adapter.{
  Backend, Device, Call, Outcome, Action, returned, threw, ◌>>=◌, ◌>>◌, pure, sleep_for, perform,
  power_on_device, standby_device, is_device_active, volume_up, volume_down, toggle_mute,
  send_keypress, set_stream_path,
}
use cec_control.Throttler.{ThrottlerConfig, CommandThrottler, Throttled, execute_with_throttle}

-- libcec's constants, by the names that the source uses (cec.h).
pub record CecConstants : Type 0 where
  pub device_tv : ℕ
  pub device_broadcast : ℕ
  pub code_unknown : ℕ
  pub code_select_av_input_function : ℕ
  pub code_select_audio_input_function : ℕ
  pub code_input_select : ℕ
  pub code_number1 : ℕ
  pub code_number2 : ℕ
  pub code_number3 : ℕ
  pub code_number4 : ℕ

abbrev pub first_hdmi_source : ℕ
first_hdmi_source = 2

abbrev pub last_hdmi_source : ℕ
last_hdmi_source = 5

abbrev press_to_release_delay : ℕ
press_to_release_delay = 50

abbrev inter_press_delay : ℕ
inter_press_delay = 100

-- Called for a source in the HDMI range, where the subtraction does not go below zero.
unfoldable pub hdmi_physical_address : ℕ → ℕ
hdmi_physical_address source = (source - first_hdmi_source + 1) * 2 ^ 12 % 65536

module _ {S : Type 0} (cec : CecConstants) (backend : Backend S) (config : ThrottlerConfig) where
  open cec use {
    device_tv, code_unknown, code_select_av_input_function, code_select_audio_input_function,
    code_input_select, code_number1, code_number2, code_number3, code_number4,
  }

  -- An entry point of `ops`: throttled, and refused at once without a connection.
  abbrev pub Operation : Type 0
  Operation = Throttled S → Outcome Bool × Throttled S

  abbrev when_connected : Action S Bool → Operation
  when_connected command (t, d) =
      if not (backend.is_connected d.adapter)
      then (returned false, (t, d))
      else execute_with_throttle config command (t, d)

  power_command : Call → ℕ → Action S Bool
  power_command call address = do
    active ← perform backend (is_device_active address)
    perform backend call

  unfoldable pub power_on_device_op : ℕ → Operation
  unfolding power_command
  power_on_device_op address = when_connected (power_command (power_on_device address) address)

  unfoldable pub power_off_device_op : ℕ → Operation
  unfolding power_command
  power_off_device_op address = when_connected (power_command (standby_device address) address)

  -- The device is only named in the log.
  unfoldable pub set_volume : ℕ → Bool → Operation
  set_volume address up = when_connected (perform backend (if up then volume_up else volume_down))

  unfoldable pub set_mute : ℕ → Bool → Operation
  set_mute address mute = when_connected (perform backend toggle_mute)

  -- The answer to the release is not looked at; an exception still leaves the command.
  release_key : ℕ → Action S Bool
  release_key address = do
    sleep_for press_to_release_delay
    released ← perform backend (send_keypress address code_unknown true)
    pure true

  unfoldable pub press_and_release : ℕ → ℕ → Action S Bool
  unfolding release_key
  press_and_release address key = do
    pressed ← perform backend (send_keypress address key false)
    if not pressed then pure false else release_key address

  unfoldable pub hdmi_number_key : ℕ → ℕ
  hdmi_number_key source =
      if ltb source first_hdmi_source || ltb last_hdmi_source source
      then code_unknown
      else if source == 2
      then code_number1
      else if source == 3
      then code_number2
      else if source == 4
      then code_number3
      else code_number4

  select_by_keys : ℕ → Action S Bool
  unfolding press_and_release hdmi_number_key
  select_by_keys source = do
    pressed ← perform backend (send_keypress device_tv code_input_select false)
    if not pressed
        then pure false
        else (sleep_for inter_press_delay >> press_and_release device_tv (hdmi_number_key source))

  select_hdmi : ℕ → Action S Bool
  unfolding select_by_keys hdmi_physical_address
  select_hdmi source = do
    set ← perform backend (set_stream_path (hdmi_physical_address source))
    if set then pure true else select_by_keys source

  unfoldable pub select_source : ℕ → Action S Bool
  unfolding press_and_release select_hdmi
  select_source source =
      if source == 0
      then press_and_release device_tv code_select_av_input_function
      else if source == 1
      then press_and_release device_tv code_select_audio_input_function
      else if ltb source first_hdmi_source || ltb last_hdmi_source source
      then pure false
      else select_hdmi source

  unfoldable pub set_source : ℕ → Operation
  set_source source = when_connected (select_source source)

  unfoldable pub send_key : ℕ → ℕ → Operation
  send_key address code = when_connected (press_and_release address code)
