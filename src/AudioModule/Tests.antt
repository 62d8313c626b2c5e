-- ===== src/AudioModule/Tests.antt =====
-- A module at concrete inputs: an output mix port, a dynamic one, two built-in devices and a template.
use android_device_brcm_rpi.Common.{
  Bool, Option, ℕ, ◌≡◌, refl, inl, inr, Bool-cases, ==_iff, true, false, none, some, List, [], ◌∷◌,
  Host, arith, ◌==◌, eq_bytes, if◌then◌else◌,
}
use android_device_brcm_rpi.AudioModule.Types.{
  Profile, Device, device, mix, output, Port, PortConfig, Patch, State, ok, aborted, refused,
  undefined, Call, connect_stream, check_endpoints, nominal_latency, buffer_size, populate_port,
  connection_changed, create, Answer, done, populated, failed,
}
use android_device_brcm_rpi.AudioModule.Connections.{
  update_connections, update_streams_connected_state, devices_of,
}
use android_device_brcm_rpi.AudioModule.Restoring.{Settled, TakesBack}
use android_device_brcm_rpi.AudioModule.Transaction.{Outcome, update_connections-Outcome}
use android_device_brcm_rpi.AudioModule.Patches.{set_audio_patch, reset_audio_patch}
use android_device_brcm_rpi.AudioModule.Undoing.{IsUndone, set_audio_patch-IsUndone}
use android_device_brcm_rpi.AudioModule.Configs.{
  set_audio_port_config, reset_audio_port_config, set_audio_port_config_impl,
}
use android_device_brcm_rpi.AudioModule.Profiles.{generate_default_port_config}
use android_device_brcm_rpi.AudioModule.Supported.{IsCreated, set_audio_port_config_impl-IsCreated}
use android_device_brcm_rpi.AudioModule.Opening.{
  Arguments, open_output_stream, open_input_stream, Utilities, pcm_size,
  find_port_id_for_new_stream,
}
use android_device_brcm_rpi.AudioModule.Sizes.{IsSize, pcm_size-IsSize}
use android_device_brcm_rpi.AudioModule.Devices.{connect_external_device}
use android_device_brcm_rpi.AudioModule.Disconnecting.{disconnect_external_device}
use android_device_brcm_rpi.AudioModule.Numbering.{IsNumbered}
use android_device_brcm_rpi.AudioModule.Reconnection.{
  IsTakenBack, connect_external_device-IsTakenBack,
}
use android_device_brcm_rpi.AudioModule.Limits.{IsLimited, open_output_stream-IsLimited}
use android_device_brcm_rpi.AudioModule.Requests.{
  serve, Request, set_patch, reset_patch, reset_config, connect, disconnect, run,
}
use android_device_brcm_rpi.AudioModule.Run.{IsConsistent, run-IsValid}

abbrev pcm : Profile
pcm = record { format = 1; channel_masks = 3 ∷ []; sample_rates = 48000 ∷ [] }

abbrev surround : Profile
surround = record { format = 2; channel_masks = 63 ∷ []; sample_rates = 96000 ∷ [] }

abbrev speaker : Device
speaker = record { device_type = 1; connection = 0; address = 0 }

abbrev headset : Device
headset = record { device_type = 2; connection = 0; address = 0 }

abbrev hdmi : Device
hdmi = record { device_type = 3; connection = 1; address = 0 }

abbrev primary_mix : Port
primary_mix = record {
  id = 1;
  flags = output 0;
  profiles = pcm ∷ surround ∷ [];
  ext = mix (record { handle = 0; usecase = 0; max_open_stream_count = 1 });
}

abbrev device_port : ℕ → Device → Port
device_port i d = record { id = i; flags = output 0; profiles = []; ext = device d }

abbrev template : Port
template = device_port 4 hdmi

abbrev hdmi_mix : Port
hdmi_mix = record {
  id = 5;
  flags = output 0;
  profiles = [];
  ext = mix (record { handle = 0; usecase = 0; max_open_stream_count = 1 });
}

abbrev device_config : ℕ → Device → PortConfig
device_config i d = record {
  id = i;
  port_id = i;
  sample_rate = some 0;
  channel_mask = some 0;
  format = some 0;
  flags = some (output 0);
  ext = device d;
}

abbrev mix_config : PortConfig
mix_config = record {
  id = 10;
  port_id = 1;
  sample_rate = some 48000;
  channel_mask = some 3;
  format = some 1;
  flags = some (output 0);
  ext = mix (record { handle = 7; usecase = 0; max_open_stream_count = 1 });
}

abbrev to_speaker : Patch
to_speaker = record {
  id = 1;
  source_port_config_ids = 10 ∷ [];
  sink_port_config_ids = 2 ∷ [];
  minimum_stream_buffer_size_frames = 0;
  latencies_ms = [];
}

abbrev to_headset : ℕ → Patch
to_headset i = record to_speaker { id = i; sink_port_config_ids = 3 ∷ [] }

-- A stream plays to the speaker.
abbrev playing : State
playing = record {
  ports = primary_mix ∷ device_port 2 speaker ∷ device_port 3 headset ∷ template ∷ hdmi_mix ∷ [];
  port_configs = device_config 2 speaker ∷ device_config 3 headset ∷ mix_config ∷ [];
  initial_configs = device_config 2 speaker ∷ device_config 3 headset ∷ [];
  routes =
      record { source_port_ids = 1 ∷ []; sink_port_id = 2; is_exclusive = false }
      ∷ record { source_port_ids = 1 ∷ []; sink_port_id = 3; is_exclusive = false }
      ∷ record { source_port_ids = 5 ∷ []; sink_port_id = 4; is_exclusive = false }
      ∷ [];
  patches = to_speaker ∷ [];
  next_port_id = 11;
  next_patch_id = 2;
  connected_device_ports = [];
  registered = (10, 1) ∷ (1, 1) ∷ (2, 1) ∷ [];
  streams = (10, false) ∷ (1, false) ∷ [];
  connected_profiles = [];
  simulate_device_connections = false;
}

-- A device that has a static profile; everything succeeds.
abbrev willing : Host Call Answer
willing w (connect_stream i ds) = done 0
willing w (check_endpoints a b) = done 0
willing w (nominal_latency i) = done 10
willing w (buffer_size f l r) = done 480
willing w (populate_port p i) = populated (surround ∷ [])
willing w (connection_changed p c) = done 0
willing w (create c a b) = done 0

-- A stream that refuses the headset.
abbrev refusing : Host Call Answer
refusing w (connect_stream i []) = done 0
refusing w (connect_stream i (d ∷ ds)) = if d.device_type == 2 then failed 5 else done 0
refusing w (check_endpoints a b) = done 0
refusing w (nominal_latency i) = done 10
refusing w (buffer_size f l r) = done 480
refusing w (populate_port p i) = failed 1
refusing w (connection_changed p c) = done 0
refusing w (create c a b) = done 0

-- The stream is told of the headset, refuses, and gets the speaker back.
refused_headset :
    update_connections refusing playing.port_configs playing.streams
      ((10, 2 ∷ []) ∷ [])
      ((10, 3 ∷ []) ∷ [])
      []
    ≡ (refused 5, connect_stream 10 (speaker ∷ []) ∷ connect_stream 10 (headset ∷ []) ∷ [])
unfolding update_connections eq_bytes devices_of
refused_headset = refl

-- But a stream takes the speaker back.
refusing-TakesBack : TakesBack refusing playing.port_configs playing.streams ((10, 2 ∷ []) ∷ [])
unfolding devices_of
refusing-TakesBack i ds w e = elim (Bool-cases (i == 10)) [
  | inl same ↦ ground (arith, e, same)
  | inr other ↦ ground (arith, e, other)
]

playing-Settled :
    Settled refusing playing.port_configs playing.streams
      ((10, 2 ∷ []) ∷ [])
      ((10, 3 ∷ []) ∷ [])
      ((10, 2 ∷ []) ∷ [])
      (connect_stream 10 (speaker ∷ []) ∷ [])
unfolding devices_of
playing-Settled i there scope = elim (Bool-cases (i == 10)) [
  | inl e ↦ let same : i ≡ 10 = (==_iff i 10).0 e in rw same refl
  | inr e ↦ ground (arith, scope, e)
]

update_connections-Outcome_example :
    Outcome refusing playing.port_configs playing.streams ((10, 2 ∷ []) ∷ []) ((10, 3 ∷ []) ∷ []) (
      update_connections refusing playing.port_configs playing.streams
        ((10, 2 ∷ []) ∷ [])
        ((10, 3 ∷ []) ∷ [])
        (connect_stream 10 (speaker ∷ []) ∷ []))
update_connections-Outcome_example =
    update_connections-Outcome refusing playing.port_configs playing.streams ((10, 2 ∷ []) ∷ [])
      ((10, 3 ∷ []) ∷ []) (connect_stream 10 (speaker ∷ []) ∷ []) (refl, tt) playing-Settled
      refusing-TakesBack

-- A failed update of the patch: the patch stays, without its entries.
failed_update :
    let r = set_audio_patch refusing playing (to_headset 1) [] in
    (r.0 ≡ refused 5) × (r.1.patches ≡ to_speaker ∷ []) × (r.1.registered ≡ [])
unfolding set_audio_patch update_streams_connected_state eq_bytes devices_of
failed_update = (refl, refl, refl)

-- A failed creation of a patch compares an invalid iterator.
failed_creation : (set_audio_patch refusing playing (to_headset 0) []).0 ≡ undefined
unfolding set_audio_patch update_streams_connected_state devices_of
failed_creation = refl

set_audio_patch-IsUndone_example :
    let r = set_audio_patch refusing playing (to_headset 1) [] in IsUndone playing 1 r.0 r.1
set_audio_patch-IsUndone_example = set_audio_patch-IsUndone refusing playing (to_headset 1) []

-- The default config of a device port has the id of the port: a stream on it ends the process.
checked_away : (find_port_id_for_new_stream playing 2).0 ≡ aborted
unfolding find_port_id_for_new_stream
checked_away = refl

abbrev request : PortConfig
request = record mix_config {
  id = 0;
  format = some 2;
  channel_mask = some 63;
  sample_rate = some 96000;
}

set_audio_port_config_impl-IsCreated_example :
    IsCreated playing primary_mix
      (set_audio_port_config_impl generate_default_port_config playing request)
unfolding set_audio_port_config_impl generate_default_port_config
set_audio_port_config_impl-IsCreated_example =
    set_audio_port_config_impl-IsCreated generate_default_port_config playing primary_mix request
      refl refl refl

-- An update of the format alone keeps a channel mask that the profile does not have.
mixed_update :
    let r = set_audio_port_config playing (record {
      id = 10;
      port_id = 1;
      sample_rate = none;
      channel_mask = none;
      format = some 2;
      flags = none;
      ext = mix_config.ext;
    }) in
    (r.3 ≡ true) × (r.2.format ≡ some 2) × (r.2.channel_mask ≡ some 3)
unfolding set_audio_port_config
mixed_update = (refl, refl, refl)

pcm_size-IsSize_example : IsSize 1920 (pcm_size 1920 48000)
pcm_size-IsSize_example = pcm_size-IsSize 1920 48000 (omega arith)

pcm_size_large : pcm_size 1920 48000 ≡ some 2048
unfolding pcm_size
pcm_size_large = refl

playing-IsNumbered : IsNumbered playing
playing-IsNumbered = (
  (
    omega arith,
    refl,
    (omega arith, refl, (omega arith, refl, (omega arith, refl, (omega arith, refl, tt)))),
  ),
  (
    omega arith,
    (omega arith, tt),
    (omega arith, (omega arith, tt), (omega arith, (omega arith, tt), tt)),
  ),
  (omega arith, (omega arith, (omega arith, tt))),
  tt,
)

-- The connection of the HDMI device succeeds.
connected_hdmi : (connect_external_device willing playing template []).0 ≡ ok
unfolding connect_external_device
connected_hdmi = refl

connect_external_device-IsTakenBack_example :
    IsTakenBack willing playing (connect_external_device willing playing template [])
connect_external_device-IsTakenBack_example =
    connect_external_device-IsTakenBack willing playing template [] playing-IsNumbered
      (refl, (refl, (refl, (refl, (refl, tt)))))

abbrev utilities : Utilities
utilities = record {
  frame_size = λ f c. 4;
  has_mmap_flag = λ f. false;
  is_compress_offload = λ f. false;
  is_non_blocking = λ f. false;
  is_vendor_extension = λ t. true;
  is_audio_mime_type = λ t. true;
}

abbrev is_there_state : Option (State × List Call) → Bool
is_there_state none = false
is_there_state (some r) = true

abbrev session_requests : List Request
session_requests =
    set_patch (to_headset 1)
    ∷ connect template
    ∷ reset_patch 1
    ∷ reset_config 10
    ∷ set_patch (to_headset 0)
    ∷ disconnect 11
    ∷ []

-- No call of the session ends the process.
session_goes : is_there_state (run utilities willing playing session_requests []) ≡ true
unfolding run serve set_audio_patch reset_audio_patch update_streams_connected_state eq_bytes
    devices_of connect_external_device disconnect_external_device reset_audio_port_config
session_goes = refl

-- A failed creation of a patch ends the run.
failed_creation_over : run utilities refusing playing (set_patch (to_headset 0) ∷ []) [] ≡ none
unfolding run serve set_audio_patch update_streams_connected_state devices_of
failed_creation_over = refl

run-IsValid_example : IsConsistent (run utilities willing playing session_requests [])
run-IsValid_example =
    run-IsValid utilities willing playing session_requests []
      (omega arith, (omega arith, refl, tt), (refl, (refl, (refl, tt))))

abbrev silent : State
silent = record playing { streams = [] }

abbrev arguments : Arguments
arguments = record {
  port_config_id = 10;
  buffer_size_frames = 960;
  tracks = [];
  has_offload_info = false;
  has_callback = false;
}

-- The stream is opened, and told of the speaker, to which a patch exists.
opened_to_speaker :
    let r = open_output_stream utilities willing silent arguments [] in
    (r.0 ≡ ok) × (r.1.streams ≡ (10, false) ∷ (1, false) ∷ [])
unfolding open_output_stream devices_of
opened_to_speaker = (refl, refl)

open_output_stream-IsLimited_example :
    IsLimited silent 10 primary_mix
      (record { handle = 0; usecase = 0; max_open_stream_count = 1 })
      (open_output_stream utilities willing silent arguments [])
    × IsLimited silent 10 primary_mix
        (record { handle = 0; usecase = 0; max_open_stream_count = 1 })
        (open_input_stream utilities willing silent arguments [])
open_output_stream-IsLimited_example =
    open_output_stream-IsLimited utilities willing silent arguments mix_config primary_mix
      (record { handle = 0; usecase = 0; max_open_stream_count = 1 }) [] refl refl refl
