-- ===== src/AudioModule/Configs.antt =====
-- audio/Module.cpp: setAudioPortConfig and resetAudioPortConfig, for a request without a gain.
use android_device_brcm_rpi.Common.{
  ℕ, ◌+◌, Bool, true, false, not, ◌&&◌, ◌||◌, ◌==◌, ltb, Option, none, some, List, [], ◌∷◌, ◌++◌,
  if◌then◌else◌,
}
use android_device_brcm_rpi.AudioModule.Types.{
  Profile, Ext, unspecified, session, device, mix, Flags, Port, PortConfig, State, Status, ok,
  illegal_argument, illegal_state, aborted,
}
use android_device_brcm_rpi.AudioModule.Lookup.{
  elem, find_port, find_config, replace_config, erase_config, count, find_ids, has_stream,
  is_device, is_ok,
}
use android_device_brcm_rpi.AudioModule.Connections.{is_found}
use android_device_brcm_rpi.AudioModule.Profiles.{
  has_dynamic_profiles_only, find_audio_profile, is_same_flags, generate_default_port_config,
}

-- `out_suggested`, `requestedIsValid` and `requestedIsFullySpecified`.
pub record Suggestion : Type 0 where
  pub config : PortConfig
  pub is_valid : Bool
  pub is_full : Bool

abbrev pub with_flags : Port → Option Flags → Suggestion → Suggestion
with_flags p none s = record s { is_full = false }
with_flags p (some f) s = record s { is_valid = s.is_valid && is_same_flags f p.flags }

abbrev pub has_profile : Option Profile → Bool
has_profile none = false
has_profile (some p) = true

abbrev pub has_config : Option PortConfig → Bool
has_config none = false
has_config (some c) = true

abbrev pub with_format : Bool → Port → Option ℕ → Suggestion → Suggestion
with_format dynamic p none s = record s { is_full = false }
with_format dynamic p (some f) s =
    if (f == 0 && dynamic) || has_profile (find_audio_profile f p.profiles)
    then record s { config = record s.config { format = some f } }
    else record s { is_valid = false }

abbrev pub empty_profile : Profile
empty_profile = record { format = 0; channel_masks = []; sample_rates = [] }

abbrev pub found_profile : Option Profile → Status × Profile
found_profile none = (illegal_argument, empty_profile)
found_profile (some p) = (ok, p)

-- `portProfile`, by the format of the suggestion.
abbrev pub port_profile : Bool → Port → Option ℕ → Status × Profile
port_profile dynamic p none = (aborted, empty_profile)
port_profile dynamic p (some f) =
    if f == 0 && dynamic
    then (ok, empty_profile)
    else found_profile (find_audio_profile f p.profiles)

abbrev pub with_channel_mask : Bool → Profile → Option ℕ → Suggestion → Suggestion
with_channel_mask dynamic profile none s = record s { is_full = false }
with_channel_mask dynamic profile (some c) s =
    if (c == 0 && dynamic) || elem c profile.channel_masks
    then record s { config = record s.config { channel_mask = some c } }
    else record s { is_valid = false }

abbrev pub with_sample_rate : Bool → Profile → Option ℕ → Suggestion → Suggestion
with_sample_rate dynamic profile none s = record s { is_full = false }
with_sample_rate dynamic profile (some r) s =
    if (r == 0 && dynamic) || elem r profile.sample_rates
    then record s { config = record s.config { sample_rate = some r } }
    else record s { is_valid = false }

-- The requested ext and that of the suggestion: whether the tags agree, with what is suggested.
abbrev pub merged_ext : Ext → Ext → Bool × Ext
merged_ext unspecified e = (true, e)
merged_ext session unspecified = (false, unspecified)
merged_ext session session = (true, session)
merged_ext session (device d) = (false, device d)
merged_ext session (mix x) = (false, mix x)
merged_ext (device c) unspecified = (false, unspecified)
merged_ext (device c) session = (false, session)
merged_ext (device c) (device d) = (true, device d)
merged_ext (device c) (mix x) = (false, mix x)
merged_ext (mix y) unspecified = (false, unspecified)
merged_ext (mix y) session = (false, session)
merged_ext (mix y) (device d) = (false, device d)
merged_ext (mix y) (mix x) = (true, mix (record x { handle = y.handle; usecase = y.usecase }))

abbrev pub with_ext : Ext → Suggestion → Suggestion
with_ext requested s =
    let (agree, e) = merged_ext requested s.config.ext in
    record s { config = record s.config { ext = e }; is_valid = s.is_valid && agree }

-- What is suggested for a request before anything is changed.
unfoldable pub suggest : Port → PortConfig → PortConfig → Status × Suggestion
suggest p requested start =
    let dynamic = is_device p.ext && has_dynamic_profiles_only p.profiles in
    let s =
      with_flags p requested.flags (record { config = start; is_valid = true; is_full = true }) in
    let s = with_format dynamic p requested.format s in
    let (st, profile) = port_profile dynamic p s.config.format in
    let s = with_channel_mask dynamic profile requested.channel_mask s in
    let s = with_sample_rate dynamic profile requested.sample_rate s in
    (st, with_ext requested.ext s)

-- The end of `setAudioPortConfigImpl`; the Boolean is `*applied`.
abbrev pub place_config : State → Option PortConfig → Suggestion → State × PortConfig × Bool
place_config m none s =
    let placed = record s.config { id = m.next_port_id } in
    if s.is_valid && s.is_full
    then (
      record m {
        next_port_id = m.next_port_id + 1;
        port_configs = m.port_configs ++ (placed ∷ []);
      },
      placed,
      true,
    )
    else (m, s.config, false)
place_config m (some old) s =
    if s.is_valid
    then (record m { port_configs = replace_config old.id s.config m.port_configs }, s.config, true)
    else (m, s.config, false)

abbrev pub port_id_for : PortConfig → Option PortConfig → ℕ
port_id_for requested none = requested.port_id
port_id_for requested (some old) = old.port_id

abbrev pub start_config : (Port → Option PortConfig) → Port → Option PortConfig → Option PortConfig
start_config fill p none = fill p
start_config fill p (some old) = some old

-- A template for an external device.
abbrev pub is_template : Ext → Option (List ℕ) → Bool
is_template unspecified connected = false
is_template session connected = false
is_template (device d) connected = not (d.connection == 0) && not (is_found connected)
is_template (mix x) connected = false

abbrev pub apply_suggestion :
    State
    → PortConfig
    → Option PortConfig
    → Status × Suggestion
    → Status × State × PortConfig × Bool
apply_suggestion m requested existing (st, s) =
    let placed = place_config m existing s in
    if is_ok st then (ok, placed.0, placed.1, placed.2) else (st, m, s.config, false)

abbrev pub set_started :
    State
    → PortConfig
    → Option PortConfig
    → Port
    → Option PortConfig
    → Status × State × PortConfig × Bool
set_started m requested existing p none = (illegal_argument, m, requested, false)
set_started m requested existing p (some start) =
    apply_suggestion m requested existing (suggest p requested start)

abbrev pub set_on_port :
    (Port → Option PortConfig)
    → State
    → PortConfig
    → Option PortConfig
    → Option Port
    → Status × State × PortConfig × Bool
set_on_port fill m requested existing none = (illegal_argument, m, requested, false)
set_on_port fill m requested existing (some p) =
    if is_template p.ext (find_ids p.id m.connected_device_ports)
    then (illegal_argument, m, requested, false)
    else set_started m requested existing p (start_config fill p existing)

-- The config that is updated: the id of the request is 0 for a new one.
abbrev pub existing_config : State → ℕ → Option PortConfig
existing_config m i = if i == 0 then none else find_config i m.port_configs

unfoldable pub set_audio_port_config_impl :
    (Port → Option PortConfig) → State → PortConfig → Status × State × PortConfig × Bool
unfolding suggest
set_audio_port_config_impl fill m requested =
    let existing = existing_config m requested.id in
    let port_id = port_id_for requested existing in
    if not (requested.id == 0) && not (has_config existing)
    then (illegal_argument, m, requested, false)
    else if port_id == 0
    then (illegal_argument, m, requested, false)
    else set_on_port fill m requested existing (find_port port_id m.ports)

unfoldable pub set_audio_port_config : State → PortConfig → Status × State × PortConfig × Bool
unfolding set_audio_port_config_impl generate_default_port_config
set_audio_port_config m requested =
    set_audio_port_config_impl generate_default_port_config m requested

-- Without an initial config the port config is erased, else it becomes the initial one.
abbrev pub reset_to : ℕ → Option PortConfig → List PortConfig → List PortConfig
reset_to i none configs = erase_config i configs
reset_to i (some initial) configs = replace_config i initial configs

unfoldable pub reset_audio_port_config : State → ℕ → Status × State
reset_audio_port_config m i =
    if not (has_config (find_config i m.port_configs))
    then (illegal_argument, m)
    else if has_stream i m.streams
    then (illegal_state, m)
    else if ltb 0 (count i m.registered)
    then (illegal_state, m)
    else (
      ok,
      record m { port_configs = reset_to i (find_config i m.initial_configs) m.port_configs },
    )
