-- ===== src/AudioModule/Supported.antt =====
-- audio/Module.cpp: the port configs that setAudioPortConfig creates.
use android_device_brcm_rpi.Common.{
  ℕ, ◌+◌, ◌≡◌, refl, sym, ◌∙◌, Bool, true, not, ◌&&◌, ◌||◌, ◌==◌, Option, none, some, List, [], ◌∷◌,
  ◌++◌, arith, if-elim,
}
use mathlib.Core.Path.{subst}
use android_device_brcm_rpi.AudioModule.Types.{
  Profile, Port, PortConfig, State, Status, ok, illegal_argument, illegal_state, aborted, undefined,
  refused,
}
use android_device_brcm_rpi.AudioModule.Lookup.{elem, find_port, find_ids, is_device, is_ok}
use android_device_brcm_rpi.AudioModule.Profiles.{has_dynamic_profiles_only}
use android_device_brcm_rpi.AudioModule.Configs.{
  Suggestion, with_flags, with_format, port_profile, with_channel_mask, with_sample_rate, with_ext,
  suggest, apply_suggestion, set_started, set_on_port, existing_config, set_audio_port_config_impl,
  is_template,
}

-- A value of a profile, or the default one of a port whose profiles are all dynamic.
abbrev pub IsOffered : Bool → List ℕ → Option ℕ → Type 0
IsOffered dynamic values none = ⊥
IsOffered dynamic values (some v) = ((v == 0 && dynamic) || elem v values) ≡ true

-- The format is that of a profile, which has the channel mask and the sample rate.
abbrev pub IsSupported : Port → PortConfig → Type 0
IsSupported p c =
    let dynamic = is_device p.ext && has_dynamic_profiles_only p.profiles in
    let (st, profile) = port_profile dynamic p c.format in
    (st ≡ ok)
    × IsOffered dynamic profile.channel_masks c.channel_mask
    × IsOffered dynamic profile.sample_rates c.sample_rate

with_channel_mask-IsOffered :
    (dynamic : Bool) (profile : Profile) (o : Option ℕ) (s : Suggestion)
    → let t = with_channel_mask dynamic profile o s in
      t.is_valid ≡ true
      → t.is_full ≡ true
      → (s.is_valid ≡ true)
        × (s.is_full ≡ true)
        × (t.config.format ≡ s.config.format)
        × IsOffered dynamic profile.channel_masks t.config.channel_mask
with_channel_mask-IsOffered dynamic profile none s = λ valid full. cc
with_channel_mask-IsOffered dynamic profile (some c) s =
    let P = λ (t : Suggestion).
      t.is_valid ≡ true
      → t.is_full ≡ true
      → (s.is_valid ≡ true)
        × (s.is_full ≡ true)
        × (t.config.format ≡ s.config.format)
        × IsOffered dynamic profile.channel_masks t.config.channel_mask in
    if-elim P ((c == 0 && dynamic) || elem c profile.channel_masks)
      (λ e valid full. (valid, full, refl, e)) (λ e valid full. cc)

with_sample_rate-IsOffered :
    (dynamic : Bool) (profile : Profile) (o : Option ℕ) (s : Suggestion)
    → let t = with_sample_rate dynamic profile o s in
      t.is_valid ≡ true
      → t.is_full ≡ true
      → (s.is_valid ≡ true)
        × (s.is_full ≡ true)
        × (t.config.format ≡ s.config.format)
        × (t.config.channel_mask ≡ s.config.channel_mask)
        × IsOffered dynamic profile.sample_rates t.config.sample_rate
with_sample_rate-IsOffered dynamic profile none s = λ valid full. cc
with_sample_rate-IsOffered dynamic profile (some r) s =
    let P = λ (t : Suggestion).
      t.is_valid ≡ true
      → t.is_full ≡ true
      → (s.is_valid ≡ true)
        × (s.is_full ≡ true)
        × (t.config.format ≡ s.config.format)
        × (t.config.channel_mask ≡ s.config.channel_mask)
        × IsOffered dynamic profile.sample_rates t.config.sample_rate in
    if-elim P ((r == 0 && dynamic) || elem r profile.sample_rates)
      (λ e valid full. (valid, full, refl, refl, e)) (λ e valid full. cc)

suggest-IsSupported :
    (p : Port) (requested start : PortConfig)
    → let (st, s) = suggest p requested start in
      st ≡ ok → s.is_valid ≡ true → s.is_full ≡ true → IsSupported p s.config
unfolding suggest
suggest-IsSupported p requested start fine valid full =
    let dynamic = is_device p.ext && has_dynamic_profiles_only p.profiles in
    let s1 =
      with_flags p requested.flags (record { config = start; is_valid = true; is_full = true }) in
    let s2 = with_format dynamic p requested.format s1 in
    let (st, profile) = port_profile dynamic p s2.config.format in
    let s3 = with_channel_mask dynamic profile requested.channel_mask s2 in
    let s4 = with_sample_rate dynamic profile requested.sample_rate s3 in
    let (valid3, full3, format4, mask4, rate) =
      with_sample_rate-IsOffered dynamic profile requested.sample_rate s3 (ground (arith, valid))
        full in
    let (valid2, full2, format3, mask) =
      with_channel_mask-IsOffered dynamic profile requested.channel_mask s2 valid3 full3 in
    let c = (with_ext requested.ext s4).config in
    let Fits = λ (f : Option ℕ).
      let (st, profile) = port_profile dynamic p f in
      (st ≡ ok)
      × IsOffered dynamic profile.channel_masks c.channel_mask
      × IsOffered dynamic profile.sample_rates c.sample_rate in
    subst Fits (sym (format4 ∙ format3))
      (fine, subst (IsOffered dynamic profile.channel_masks) (sym mask4) mask, rate)

is_ok-eq : (st : Status) → is_ok st ≡ true → st ≡ ok
is_ok-eq ok e = refl
is_ok-eq illegal_argument e = cc
is_ok-eq illegal_state e = cc
is_ok-eq aborted e = cc
is_ok-eq undefined e = cc
is_ok-eq (refused n) e = cc

-- What stands at the end of the port configs, with the next id.
abbrev pub IsCreated : State → Port → Status × State × PortConfig × Bool → Type 0
IsCreated m p (st, after, c, applied) =
    (c.id ≡ m.next_port_id)
    × (after.next_port_id ≡ m.next_port_id + 1)
    × (after.port_configs ≡ m.port_configs ++ (c ∷ []))
    × IsSupported p c

apply_suggestion-IsCreated :
    (m : State) (p : Port) (requested start : PortConfig)
    → let r = apply_suggestion m requested none (suggest p requested start) in
      r.3 ≡ true → IsCreated m p r
apply_suggestion-IsCreated m p requested start =
    let (st, s) = suggest p requested start in
    let P = λ (r : Status × State × PortConfig × Bool). r.3 ≡ true → IsCreated m p r in
    if-elim P (is_ok st)
      (λ fine.
        let Q = λ (r : State × PortConfig × Bool). r.2 ≡ true → IsCreated m p (ok, r.0, r.1, r.2) in
        if-elim Q (s.is_valid && s.is_full)
          (λ e applied. (
            refl,
            refl,
            refl,
            suggest-IsSupported p requested start (is_ok-eq st fine) (ground (arith, e))
                (ground (arith, e)),
          ))
          (λ e applied. cc))
      (λ bad applied. cc)

set_started-IsCreated :
    (m : State) (p : Port) (requested : PortConfig) (o : Option PortConfig)
    → let r = set_started m requested none p o in r.3 ≡ true → IsCreated m p r
set_started-IsCreated m p requested none applied = cc
set_started-IsCreated m p requested (some start) applied =
    apply_suggestion-IsCreated m p requested start applied

set_on_port-IsCreated :
    (fill : Port → Option PortConfig) (m : State) (p : Port) (requested : PortConfig)
    → let r = set_on_port fill m requested none (some p) in r.3 ≡ true → IsCreated m p r
set_on_port-IsCreated fill m p requested =
    let P = λ (r : Status × State × PortConfig × Bool). r.3 ≡ true → IsCreated m p r in
    if-elim P (is_template p.ext (find_ids p.id m.connected_device_ports)) (λ e applied. cc)
      (λ e applied. set_started-IsCreated m p requested (fill p) applied)

-- A port config that is created is one that the port supports: when a request without an id is applied,
-- by whatever way the default config is generated, the config has the next id, stands behind the others,
-- its format is one of the port's profiles, and its channel mask and sample rate are of that profile;
-- or, for a device port all of whose profiles are dynamic, they are the default ones.
pub set_audio_port_config_impl-IsCreated :
    (fill : Port → Option PortConfig) (m : State) (p : Port) (requested : PortConfig)
    → requested.id ≡ 0
    → find_port requested.port_id m.ports ≡ some p
    → let r = set_audio_port_config_impl fill m requested in r.3 ≡ true → IsCreated m p r
unfolding set_audio_port_config_impl
set_audio_port_config_impl-IsCreated fill m p requested new there =
    let P = λ (r : Status × State × PortConfig × Bool). r.3 ≡ true → IsCreated m p r in
    let fresh : existing_config m requested.id ≡ none = ground (arith, new) in
    rw fresh (
      if-elim P (not (requested.id == 0) && true) (λ e applied. cc)
        (λ e.
          if-elim P (requested.port_id == 0) (λ e applied. cc)
            (λ e. rw there (set_on_port-IsCreated fill m p requested))))
