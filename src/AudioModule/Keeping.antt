-- ===== src/AudioModule/Keeping.antt =====
-- audio/Module.cpp: the operations that leave the patches alone.
use android_device_brcm_rpi.Common.{
  ◌∷◌, ℕ, ◌≡◌, refl, Bool, true, false, not, ◌&&◌, ◌==◌, ltb, Option, none, some, List,
  if◌then◌else◌, Host, call, if-elim,
}
use android_device_brcm_rpi.AudioModule.Types.{
  Device, device, Port, PortConfig, State, Status, Call, create, stream, Answer,
}
use android_device_brcm_rpi.AudioModule.Lookup.{
  find_port, find_config, find_ids, is_ok, status_of, count, is_device, has_stream,
}
use android_device_brcm_rpi.AudioModule.Connections.{is_found}
use android_device_brcm_rpi.AudioModule.Profiles.{
  generate_default_port_config, has_dynamic_profiles_only,
}
use android_device_brcm_rpi.AudioModule.Configs.{
  Suggestion, set_audio_port_config, set_audio_port_config_impl, reset_audio_port_config,
  place_config, set_started, set_on_port, start_config, is_template, existing_config, port_id_for,
  has_config, suggest,
}
use android_device_brcm_rpi.AudioModule.Opening.{
  Utilities, Arguments, open_input_stream, open_output_stream, open_stream, opened_or, open_on,
  check_tracks, create_stream_context, find_port_id_for_new_stream, find_connected_port_config_ids,
  tell_ids, is_input, allows_output,
}
use android_device_brcm_rpi.AudioModule.Devices.{
  set_module_debug, is_same_bool, has_connected, routable_port_ids, has_dynamic_port, add_connected,
  populate, connect_port, connect_device, connect_template, device_of, is_device_connected,
  address_of, has_no_device,
}
use android_device_brcm_rpi.AudioModule.Disconnecting.{
  has_client_config, remove_connected, disconnect_port,
}
use android_device_brcm_rpi.AudioModule.Links.{IsValid}

-- The patches and the table of patches by port are those of another module.
abbrev pub KeepsPatches : State → State → Type 0
KeepsPatches m after =
    (after.patches ≡ m.patches)
    × (after.registered ≡ m.registered)
    × (after.next_patch_id ≡ m.next_patch_id)

pub KeepsPatches-IsValid : (m after : State) → KeepsPatches m after → IsValid m → IsValid after
KeepsPatches-IsValid m after (patches, registered, next) valid =
    rw (patches, registered, next) valid

pub reset_audio_port_config-KeepsPatches :
    (m : State) (i : ℕ) → KeepsPatches m (reset_audio_port_config m i).1
unfolding reset_audio_port_config
reset_audio_port_config-KeepsPatches m i =
    let P = λ (r : Status × State). KeepsPatches m r.1 in
    let same : KeepsPatches m m = (refl, refl, refl) in
    if-elim P (not (has_config (find_config i m.port_configs))) (λ e. same)
      (λ e.
        if-elim P (has_stream i m.streams) (λ e. same)
          (λ e. if-elim P (ltb 0 (count i m.registered)) (λ e. same) (λ e. same)))

place_config-KeepsPatches :
    (m : State) (o : Option PortConfig) (s : Suggestion) → KeepsPatches m (place_config m o s).0
place_config-KeepsPatches m none s =
    let P = λ (r : State × PortConfig × Bool). KeepsPatches m r.0 in
    if-elim P (s.is_valid && s.is_full) (λ e. (refl, refl, refl)) (λ e. (refl, refl, refl))
place_config-KeepsPatches m (some old) s =
    let P = λ (r : State × PortConfig × Bool). KeepsPatches m r.0 in
    if-elim P s.is_valid (λ e. (refl, refl, refl)) (λ e. (refl, refl, refl))

set_started-KeepsPatches :
    (m : State) (requested : PortConfig) (existing : Option PortConfig) (p : Port)
    (o : Option PortConfig)
    → KeepsPatches m (set_started m requested existing p o).1
set_started-KeepsPatches m requested existing p none = (refl, refl, refl)
set_started-KeepsPatches m requested existing p (some start) =
    let P = λ (r : Status × State × PortConfig × Bool). KeepsPatches m r.1 in
    let (st, s) = suggest p requested start in
    if-elim P (is_ok st) (λ e. place_config-KeepsPatches m existing s) (λ e. (refl, refl, refl))

set_on_port-KeepsPatches :
    (fill : Port → Option PortConfig) (m : State) (requested : PortConfig)
    (existing : Option PortConfig) (o : Option Port)
    → KeepsPatches m (set_on_port fill m requested existing o).1
set_on_port-KeepsPatches fill m requested existing none = (refl, refl, refl)
set_on_port-KeepsPatches fill m requested existing (some p) =
    let P = λ (r : Status × State × PortConfig × Bool). KeepsPatches m r.1 in
    if-elim P (is_template p.ext (find_ids p.id m.connected_device_ports)) (λ e. (refl, refl, refl))
      (λ e. set_started-KeepsPatches m requested existing p (start_config fill p existing))

pub set_audio_port_config-KeepsPatches :
    (m : State) (requested : PortConfig) → KeepsPatches m (set_audio_port_config m requested).1
unfolding set_audio_port_config set_audio_port_config_impl
set_audio_port_config-KeepsPatches m requested =
    let P = λ (r : Status × State × PortConfig × Bool). KeepsPatches m r.1 in
    let existing = existing_config m requested.id in
    if-elim P (not (requested.id == 0) && not (has_config existing)) (λ e. (refl, refl, refl))
      (λ e.
        if-elim P (port_id_for requested existing == 0) (λ e. (refl, refl, refl))
          (λ e.
            set_on_port-KeepsPatches generate_default_port_config m requested existing
              (find_port (port_id_for requested existing) m.ports)))

pub set_module_debug-KeepsPatches :
    (simulate negative : Bool) (m : State) → KeepsPatches m (set_module_debug simulate negative m).1
unfolding set_module_debug
set_module_debug-KeepsPatches simulate negative m =
    let P = λ (r : Status × State). KeepsPatches m r.1 in
    if-elim P
      (not (is_same_bool m.simulate_device_connections simulate)
        && has_connected m.connected_device_ports)
      (λ e. (refl, refl, refl))
      (λ e. if-elim P negative (λ e. (refl, refl, refl)) (λ e. (refl, refl, refl)))

module _ (h : Host Call Answer) where
  connect_port-KeepsPatches :
      (m : State) (template : ℕ) (p : Port) (w : List Call)
      → KeepsPatches m (connect_port h m template p w).1
  unfolding connect_port add_connected
  connect_port-KeepsPatches m template p w =
      let (st, profiles, w2) = populate h m template p w in
      let P = λ (r : Status × State × Port × List Call). KeepsPatches m r.1 in
      if-elim P (not (is_ok st)) (λ e. (refl, refl, refl))
        (λ e.
          if-elim P
            (has_dynamic_profiles_only profiles
              && has_dynamic_port (routable_port_ids template m.routes) m.ports)
            (λ e. (refl, refl, refl)) (λ e. (refl, refl, refl)))

  connect_device-KeepsPatches :
      (m : State) (p : Port) (given : Option Device) (o : Option Device) (w : List Call)
      → KeepsPatches m (connect_device h m p given o w).1
  connect_device-KeepsPatches m p given none w = (refl, refl, refl)
  connect_device-KeepsPatches m p given (some d) w =
      let there = record d { address = address_of given } in
      let P = λ (r : Status × State × Port × List Call). KeepsPatches m r.1 in
      if-elim P (d.connection == 0) (λ e. (refl, refl, refl))
        (λ e.
          if-elim P (is_found (find_ids p.id m.connected_device_ports)) (λ e. (refl, refl, refl))
            (λ e.
              if-elim P (has_no_device given) (λ e. (refl, refl, refl))
                (λ e.
                  if-elim P (is_device_connected there m.ports m.connected_device_ports)
                    (λ e. (refl, refl, refl))
                    (λ e. connect_port-KeepsPatches m p.id (record p { ext = device there }) w))))

  pub connect_template-KeepsPatches :
      (m : State) (requested : Port) (o : Option Port) (given : Option Device) (w : List Call)
      → KeepsPatches m (connect_template h m requested o given w).1
  connect_template-KeepsPatches m requested none given w = (refl, refl, refl)
  connect_template-KeepsPatches m requested (some p) given w =
      connect_device-KeepsPatches m p given (device_of p.ext) w

  pub disconnect_port-KeepsPatches :
      (m : State) (i : ℕ) (o : Option Port) (ids : Option (List ℕ)) (w : List Call)
      → KeepsPatches m (disconnect_port h m i o ids w).1
  unfolding disconnect_port remove_connected
  disconnect_port-KeepsPatches m i none ids w = (refl, refl, refl)
  disconnect_port-KeepsPatches m i (some p) none w = (refl, refl, refl)
  disconnect_port-KeepsPatches m i (some p) (some ids) w =
      let P = λ (r : Status × State × List Call). KeepsPatches m r.1 in
      if-elim P (not (is_device p.ext)) (λ e. (refl, refl, refl))
        (λ e.
          if-elim P (has_client_config i m.initial_configs m.port_configs) (λ e. (refl, refl, refl))
            (λ e. (refl, refl, refl)))

module _ (u : Utilities) (h : Host Call Answer) where
  opened_or-KeepsPatches :
      (m opened : State) (made : Status × List Call) (created : Answer × List Call) (alone : Bool)
      (told : Status × List Call)
      → KeepsPatches m opened
      → KeepsPatches m (opened_or u h m opened made created alone told).1
  opened_or-KeepsPatches m opened (st1, w1) (a, w2) alone (st3, w3) same =
      let P = λ (r : Status × State × List Call). KeepsPatches m r.1 in
      if-elim P (not (is_ok st1)) (λ e. (refl, refl, refl))
        (λ e.
          if-elim P (not (is_ok (status_of a))) (λ e. (refl, refl, refl))
            (λ e.
              if-elim P alone (λ e. same)
                (λ e. if-elim P (not (is_ok st3)) (λ e. (refl, refl, refl)) (λ e. same))))

  open_stream-KeepsPatches :
      (m : State) (i : ℕ) (p : Port) (o : Option PortConfig) (frames : ℕ) (w : List Call)
      → KeepsPatches m (open_stream u h m i p o frames w).1
  unfolding open_stream
  open_stream-KeepsPatches m i p none frames w = (refl, refl, refl)
  open_stream-KeepsPatches m i p (some c) frames w =
      let made = create_stream_context u h c frames w in
      let created = call h (create stream i frames) made.1 in
      opened_or-KeepsPatches m (record m { streams = (i, false) ∷ (p.id, false) ∷ m.streams }) made
        created (count i m.registered == 0)
        (tell_ids u h m i (find_connected_port_config_ids m i m.registered) created.1)
        (refl, refl, refl)

  open_on-KeepsPatches :
      (for_input : Bool) (m : State) (a : Arguments) (st : Status) (o : Option Port) (w : List Call)
      → KeepsPatches m (open_on u h for_input m a (st, o) w).1
  unfolding open_on
  open_on-KeepsPatches for_input m a st none w = (refl, refl, refl)
  open_on-KeepsPatches for_input m a st (some p) w =
      let P = λ (r : Status × State × List Call). KeepsPatches m r.1 in
      if-elim P (if for_input then is_input u h p.flags else allows_output u h p.flags a)
        (λ e.
          open_stream-KeepsPatches m a.port_config_id p
            (find_config a.port_config_id m.port_configs) a.buffer_size_frames w)
        (λ e. (refl, refl, refl))

  pub open_input_stream-KeepsPatches :
      (m : State) (a : Arguments) (w : List Call) → KeepsPatches m (open_input_stream u h m a w).1
  unfolding open_input_stream
  open_input_stream-KeepsPatches m a w =
      let (st, o) = find_port_id_for_new_stream m a.port_config_id in
      let P = λ (r : Status × State × List Call). KeepsPatches m r.1 in
      if-elim P (not (check_tracks u h false a.tracks)) (λ e. (refl, refl, refl))
        (λ e. open_on-KeepsPatches true m a st o w)

  pub open_output_stream-KeepsPatches :
      (m : State) (a : Arguments) (w : List Call) → KeepsPatches m (open_output_stream u h m a w).1
  unfolding open_output_stream
  open_output_stream-KeepsPatches m a w =
      let (st, o) = find_port_id_for_new_stream m a.port_config_id in
      let P = λ (r : Status × State × List Call). KeepsPatches m r.1 in
      if-elim P (not (check_tracks u h true a.tracks)) (λ e. (refl, refl, refl))
        (λ e. open_on-KeepsPatches false m a st o w)
