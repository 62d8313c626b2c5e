-- ===== src/AudioModule/Profiles.antt =====
-- audio/Module.cpp: dynamic profiles, findAudioProfile and generateDefaultPortConfig.
use android_device_brcm_rpi.Common.{
  ℕ, Bool, true, false, ◌&&◌, ◌||◌, ◌==◌, Option, none, some, List, [], ◌∷◌, if◌then◌else◌,
}
use android_device_brcm_rpi.AudioModule.Types.{
  Profile, Device, Flags, input, output, Port, PortConfig,
}
use android_device_brcm_rpi.AudioModule.Lookup.{is_device}

-- `hasDynamicChannelMasks` and `hasDynamicSampleRates`, where 0 is a dynamic value.
abbrev pub has_dynamic_values : List ℕ → Bool
has_dynamic_values [] = true
has_dynamic_values (v ∷ vs) = v == 0 && has_dynamic_values vs

abbrev pub is_dynamic_profile : Profile → Bool
is_dynamic_profile p =
    p.format == 0 || has_dynamic_values p.channel_masks || has_dynamic_values p.sample_rates

abbrev pub has_dynamic_profiles_only : List Profile → Bool
has_dynamic_profiles_only [] = true
has_dynamic_profiles_only (p ∷ ps) = is_dynamic_profile p && has_dynamic_profiles_only ps

abbrev pub find_audio_profile : ℕ → List Profile → Option Profile
find_audio_profile f [] = none
find_audio_profile f (p ∷ ps) = if p.format == f then some p else find_audio_profile f ps

-- `*values.begin()` of a list that is not empty.
abbrev pub first_value : List ℕ → ℕ
first_value [] = 0
first_value (v ∷ vs) = v

abbrev pub static_profile : List Profile → Option Profile
static_profile [] = none
static_profile (p ∷ ps) = if is_dynamic_profile p then static_profile ps else some p

abbrev pub default_config : Port → ℕ → ℕ → ℕ → PortConfig
default_config p format mask rate = record {
  id = 0;
  port_id = p.id;
  sample_rate = some rate;
  channel_mask = some mask;
  format = some format;
  flags = some p.flags;
  ext = p.ext;
}

abbrev pub default_for : Port → Option Profile → Option PortConfig
default_for p none = if is_device p.ext then some (default_config p 0 0 0) else none
default_for p (some profile) = some (
    default_config p profile.format (first_value profile.channel_masks)
      (first_value profile.sample_rates))

unfoldable pub generate_default_port_config : Port → Option PortConfig
generate_default_port_config p = default_for p (static_profile p.profiles)

abbrev pub is_same_flags : Flags → Flags → Bool
is_same_flags (input a) (input b) = a == b
is_same_flags (input a) (output b) = false
is_same_flags (output a) (input b) = false
is_same_flags (output a) (output b) = a == b

abbrev pub is_same_device : Device → Device → Bool
is_same_device d e =
    d.device_type == e.device_type && d.connection == e.connection && d.address == e.address
