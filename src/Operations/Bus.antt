-- ===== src/Operations/Bus.antt =====
-- operations.cpp: which calls an operation may make on the adapter.
use cec_control.Prelude.{
  ℕ, zero, suc, ◌-◌, ◌*◌, ◌≤◌, ◌≡◌, refl, inl, inr, Bool, true, false, List, [], ◌∷◌, All, arith,
  Bool-cases,
}
use cec_control.Adapter.{
  Backend, Device, Call, Action, returned, Outcome-cases, send_keypress, set_stream_path,
}
use cec_control.Throttler.{
  ThrottlerConfig, CommandThrottler, reserve_slot_and_sleep, fail_attempt, attempts,
  execute_with_throttle,
}
use cec_control.Operations.{
  CecConstants, select_source, set_source, press_and_release, hdmi_physical_address,
}

-- Code that adds only calls of one kind to those made.
abbrev pub Makes : {S A : Type 0} → (Call → Type 0) → Action S A → Type 0
Makes {S} P m = (d : Device S) → All P d.calls → All P (m d).1.calls

module _ {S : Type 0} (P : Call → Type 0) where
  reserve-calls :
      (c : ThrottlerConfig) (t : CommandThrottler) (d : Device S)
      → (reserve_slot_and_sleep c t d).1.calls ≡ d.calls
  unfolding reserve_slot_and_sleep
  reserve-calls c t d = ground arith

  fail_attempt-calls :
      (attempt : ℕ) (t : CommandThrottler) (d : Device S)
      → (fail_attempt attempt t d).1.calls ≡ d.calls
  unfolding fail_attempt
  fail_attempt-calls attempt t d = refl

  attempts-Makes :
      (c : ThrottlerConfig) (command : Action S Bool)
      → Makes P command
      → (left attempt : ℕ) (t : CommandThrottler) (d : Device S) → All P d.calls
      → All P (attempts c command left attempt (t, d)).1.1.calls
  unfolding attempts
  attempts-Makes c command m zero attempt t d h = h
  attempts-Makes c command m (suc left) attempt t d h =
      let (t1, d1) = reserve_slot_and_sleep c t d in
      let made : All P (command d1).1.calls = m d1 (rw (reserve-calls c t d) h) in
      elim (Outcome-cases (command d1).0) [
        | inl e ↦ rw (e, attempts) made
        | inr (inl e) ↦ rw (e, attempts) made
        | inr (inr e) ↦
            let (t2, d2) = fail_attempt attempt t1 (command d1).1 in
            rw (e, attempts)
              (attempts-Makes c command m left (suc attempt) t2 d2
                (rw (fail_attempt-calls attempt t1 (command d1).1) made))
      ]

module _ {S : Type 0} (cec : CecConstants) (backend : Backend S) (config : ThrottlerConfig) where
  open cec use {
    device_tv, code_unknown, code_select_av_input_function, code_select_audio_input_function,
    code_input_select,
  }

  press_and_release-Makes :
      (P : Call → Type 0) (address key : ℕ)
      → P (send_keypress address key false)
      → P (send_keypress address code_unknown true)
      → Makes P (press_and_release cec backend config address key)
  unfolding press_and_release
  press_and_release-Makes P address key p r d h = ground arith

  -- The calls that choosing a source may make: a key press on the television, or the stream path of
  -- that very HDMI input.
  abbrev pub Selects : ℕ → Call → Type 0
  Selects source (send_keypress address key release) = address ≡ device_tv
  Selects source (set_stream_path address) =
      (2 ≤ source) × (source ≤ 5) × (address ≡ (source - 1) * 4096)
  Selects source _ = ⊥

  hdmi_address :
      (source : ℕ) → 2 ≤ source → source ≤ 5 → hdmi_physical_address source ≡ (source - 1) * 4096
  unfolding hdmi_physical_address
  hdmi_address source h k = omega arith

  select_source-Makes :
      (source : ℕ) → Makes (Selects source) (select_source cec backend config source)
  unfolding select_source
  select_source-Makes source d h = ground (arith, hdmi_address source)

  -- With no calls made before, choosing a source makes no call but key presses on the television and
  -- the stream path of the HDMI input chosen, however often it is retried.
  pub set_source-Selects :
      (source : ℕ) (t : CommandThrottler) (d : Device S)
      → d.calls ≡ []
      → All (Selects source) (set_source cec backend config source (t, d)).1.1.calls
  unfolding set_source execute_with_throttle
  set_source-Selects source t d e =
      let tried =
        attempts-Makes (Selects source) config (select_source cec backend config source)
          (select_source-Makes source) config.max_retry_attempts 0 t d (rw e tt) in
      elim (Bool-cases (backend.is_connected d.adapter)) [
        | inl up ↦ rw up tried
        | inr down ↦ rw (down, e) tt
      ]

  -- The newest call, if a choice of source succeeded.
  abbrev pub Settled : ℕ → List Call → Type 0
  Settled source (send_keypress address key release ∷ cs) =
      (address ≡ device_tv) × (key ≡ code_unknown) × (release ≡ true)
  Settled source (set_stream_path address ∷ cs) = address ≡ (source - 1) * 4096
  Settled source _ = ⊥

  -- A choice of source that succeeds has named the input's stream path or released its key last, and
  -- only the sources 0 to 5 can succeed.
  pub select_source_settles :
      (source : ℕ) (d : Device S)
      → (select_source cec backend config source d).0 ≡ returned true
      → (source ≤ 5) × Settled source (select_source cec backend config source d).1.calls
  unfolding select_source
  select_source_settles source d h = ground (arith, hdmi_address source)
