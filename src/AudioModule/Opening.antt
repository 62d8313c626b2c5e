-- ===== src/AudioModule/Opening.antt =====
-- audio/Module.cpp: findPortIdForNewStream, createStreamContext, openInputStream, openOutputStream;
-- audio/include/core-impl/Module.h: calculateBufferSizeFramesForPcm.
use android_device_brcm_rpi.Common.{
  ℕ, zero, suc, ◌+◌, ◌*◌, ◌/◌, ◌^◌, Bool, true, false, not, ◌&&◌, ◌||◌, ◌==◌, ltb, leb, Option,
  none, some, List, [], ◌∷◌, ◌++◌, if◌then◌else◌, Host, call,
}
use android_device_brcm_rpi.AudioModule.Types.{
  Device, Mix, Ext, unspecified, session, device, mix, Flags, input, output, Port, PortConfig,
  Patch, State, Status, ok, illegal_argument, illegal_state, aborted, Call, connect_stream,
  nominal_latency, buffer_size, mmap_buffer, context, stream, create, Answer,
}
use android_device_brcm_rpi.AudioModule.Lookup.{
  elem, find_port, find_config, find_patch, has_stream, stream_count, count, status_of, value_of,
  is_ok,
}
use android_device_brcm_rpi.AudioModule.Connections.{id_set, devices_of}
use android_device_brcm_rpi.AudioModule.Patches.{rate_of, is_set, is_sizable}

-- `while (powerOf2 < multipleOf16) powerOf2 <<= 1`, with fuel.
unfoldable pub power_from : ℕ → ℕ → ℕ → Option ℕ
power_from zero p n = none
power_from (suc fuel) p n = let rest = power_from fuel (2 * p) n in if ltb p n then rest else some p

-- `(rawSizeFrames + 15) & ~15`.
abbrev pub multiple_of_16 : ℕ → ℕ
multiple_of_16 raw = (raw + 15) / 16 * 16

-- From the frames that the latency takes at the sample rate. A shift of `int32_t` is defined below
-- 2 ^ 31, so that there are at most 31 powers.
unfoldable pub pcm_size : ℕ → ℕ → Option ℕ
unfolding power_from
pcm_size raw rate =
    if ltb rate 44100 || leb (multiple_of_16 raw) 512
    then some (multiple_of_16 raw)
    else power_from 31 1 (multiple_of_16 raw)

abbrev pub mix_of : Ext → Option Mix
mix_of unspecified = none
mix_of session = none
mix_of (device d) = none
mix_of (mix x) = some x

abbrev pub check_stream_count : State → Port → Option Mix → Status
check_stream_count m p none = illegal_argument
check_stream_count m p (some x) =
    if not (x.max_open_stream_count == 0)
      && leb x.max_open_stream_count (stream_count p.id m.streams)
    then illegal_state
    else ok

abbrev pub check_port : State → PortConfig → Option Port → Status × Option Port
check_port m c none = (illegal_argument, none)
check_port m c (some p) =
    if has_stream c.id m.streams
    then (illegal_state, none)
    else if is_ok (check_stream_count m p (mix_of p.ext))
    then (ok, some p)
    else (check_stream_count m p (mix_of p.ext), none)

-- `CHECK(portId != in_portConfigId)` ends the process.
abbrev pub check_config : State → Option PortConfig → Status × Option Port
check_config m none = (illegal_argument, none)
check_config m (some c) =
    if c.port_id == c.id then (aborted, none) else check_port m c (find_port c.port_id m.ports)

unfoldable pub find_port_id_for_new_stream : State → ℕ → Status × Option Port
find_port_id_for_new_stream m i = check_config m (find_config i m.port_configs)

abbrev pub one_side : ℕ → Option Patch → Option (List ℕ) → Option (List ℕ)
one_side i none ids = none
one_side i (some p) none = none
one_side i (some p) (some ids) =
    if elem i p.source_port_config_ids
    then some (id_set (p.sink_port_config_ids ++ ids))
    else some (id_set (p.source_port_config_ids ++ ids))

-- `findConnectedPortConfigIds`: `none` is LOG(FATAL).
unfoldable pub find_connected_port_config_ids : State → ℕ → List (ℕ × ℕ) → Option (List ℕ)
find_connected_port_config_ids m i [] = some []
find_connected_port_config_ids m i ((k, v) ∷ registered) =
    let rest = find_connected_port_config_ids m i registered in
    if k == i then one_side i (find_patch v m.patches) rest else rest

-- The functions of the AIDL utilities that the opening of a stream asks.
pub record Utilities : Type 0 where
  pub frame_size : Option ℕ → Option ℕ → ℕ
  pub has_mmap_flag : Flags → Bool
  pub is_compress_offload : ℕ → Bool
  pub is_non_blocking : ℕ → Bool
  pub is_vendor_extension : ℕ → Bool
  pub is_audio_mime_type : ℕ → Bool

-- A codec is 0 where it is absent or empty. A buffer size of 0 stands for each that is not positive.
pub record Arguments : Type 0 where
  pub port_config_id : ℕ
  pub buffer_size_frames : ℕ
  pub tracks : List (List ℕ × ℕ)
  pub has_offload_info : Bool
  pub has_callback : Bool

module _ (u : Utilities) (h : Host Call Answer) where
  -- `validateMetadataAttributeTags`.
  abbrev pub check_tags : List ℕ → Bool
  check_tags [] = true
  check_tags (t ∷ ts) = u.is_vendor_extension t && check_tags ts

  abbrev pub check_tracks : Bool → List (List ℕ × ℕ) → Bool
  check_tracks codecs [] = true
  check_tracks codecs ((tags, codec) ∷ ts) =
      check_tags tags
      && (not codecs || codec == 0 || u.is_audio_mime_type codec)
      && check_tracks codecs ts

  abbrev pub has_mmap : PortConfig → Bool
  has_mmap c = elim c.flags [ none ↦ false | some f ↦ u.has_mmap_flag f ]

  -- `getSoundDose` returns success. `value()` of a missing member ends the process.
  unfoldable pub create_stream_context : PortConfig → ℕ → List Call → Status × List Call
  create_stream_context c frames w =
      let frame_size = u.frame_size c.format c.channel_mask in
      let (latency, w1) = call h (nominal_latency c.id) w in
      let (size, w2) = call h (buffer_size c.format (value_of latency) (rate_of c)) w1 in
      let (mapped, w3) = call h (create mmap_buffer frames frame_size) w2 in
      let w4 = if has_mmap c then w3 else w2 in
      let (made, w5) = call h (create context frames frame_size) w4 in
      if frames == 0
      then (illegal_argument, w)
      else if not (is_sizable c)
      then (aborted, w1)
      else if not (is_ok (status_of size))
      then (illegal_state, w2)
      else if ltb frames (value_of size)
      then (illegal_argument, w2)
      else if not (is_set c.channel_mask)
      then (aborted, w2)
      else if frame_size == 0
      then (illegal_argument, w2)
      else if ltb (2 ^ 30 / frames) frame_size
      then (illegal_argument, w2)
      else if has_mmap c && not (is_ok (status_of mapped))
      then (status_of mapped, w3)
      else if not (is_ok (status_of made))
      then (illegal_state, w5)
      else (ok, w5)

  abbrev pub tell_devices : ℕ → Option (List Device) → List Call → Status × List Call
  tell_devices i none w = (aborted, w)
  tell_devices i (some ds) w = let (a, w) = call h (connect_stream i ds) w in (status_of a, w)

  abbrev pub tell_ids : State → ℕ → Option (List ℕ) → List Call → Status × List Call
  tell_ids m i none w = (aborted, w)
  tell_ids m i (some ids) w = tell_devices i (devices_of m.port_configs ids) w

  -- The end of an opening: what the context, the stream and the telling of its devices gave; a stream
  -- without a patch is not told any.
  abbrev pub opened_or :
      State
      → State
      → Status × List Call
      → Answer × List Call
      → Bool
      → Status × List Call
      → Status × State × List Call
  opened_or m opened (st1, w1) (a, w2) alone (st3, w3) =
      if not (is_ok st1)
      then (st1, m, w1)
      else if not (is_ok (status_of a))
      then (status_of a, m, w2)
      else if alone
      then (ok, opened, w2)
      else if not (is_ok st3)
      then (st3, m, w3)
      else (ok, opened, w3)

  -- What both directions do after their checks, with `Streams::insert`.
  unfoldable pub open_stream :
      State → ℕ → Port → Option PortConfig → ℕ → List Call → Status × State × List Call
  unfolding create_stream_context find_connected_port_config_ids
  open_stream m i p none frames w = (illegal_argument, m, w)
  open_stream m i p (some c) frames w =
      let made = create_stream_context c frames w in
      let created = call h (create stream i frames) made.1 in
      let told = tell_ids m i (find_connected_port_config_ids m i m.registered) created.1 in
      opened_or m (record m { streams = (i, false) ∷ (p.id, false) ∷ m.streams }) made created
        (count i m.registered == 0) told

  abbrev pub is_input : Flags → Bool
  is_input (input f) = true
  is_input (output f) = false

  -- The checks of the flags of an output port.
  abbrev pub allows_output : Flags → Arguments → Bool
  allows_output (input f) a = false
  allows_output (output f) a =
      (not (u.is_compress_offload f) || a.has_offload_info)
      && (not (u.is_non_blocking f) || a.has_callback)

  unfoldable pub open_on :
      Bool → State → Arguments → Status × Option Port → List Call → Status × State × List Call
  unfolding open_stream
  open_on for_input m a (st, none) w = (st, m, w)
  open_on for_input m a (st, some p) w =
      if (if for_input then is_input p.flags else allows_output p.flags a)
      then open_stream m a.port_config_id p (find_config a.port_config_id m.port_configs)
          a.buffer_size_frames w
      else (illegal_argument, m, w)

  unfoldable pub open_input_stream : State → Arguments → List Call → Status × State × List Call
  unfolding find_port_id_for_new_stream open_on
  open_input_stream m a w =
      if not (check_tracks false a.tracks)
      then (illegal_argument, m, w)
      else open_on true m a (find_port_id_for_new_stream m a.port_config_id) w

  unfoldable pub open_output_stream : State → Arguments → List Call → Status × State × List Call
  unfolding find_port_id_for_new_stream open_on
  open_output_stream m a w =
      if not (check_tracks true a.tracks)
      then (illegal_argument, m, w)
      else open_on false m a (find_port_id_for_new_stream m a.port_config_id) w
