-- ===== src/Submix/Route.antt =====
-- audio/r_submix/SubmixRoute.cpp and .h: a route. The MonoPipe and its reader are calls.
use android_device_brcm_rpi.Common.{
  ℕ, zero, suc, ◌+◌, Bool, true, false, not, ◌&&◌, ◌||◌, ◌==◌, List, if◌then◌else◌, ℤ, pos, negsuc,
  Host, call,
}

-- The parts of AudioConfig; a layout and a format stand as a number.
pub record Config : Type 0 where
  pub sample_rate : ℕ
  pub format : ℕ
  pub channel_layout : ℕ
  pub frame_size : ℕ
  pub frame_count : ℕ

-- The fields of a route; `sink` and `source` tell whether there is one.
pub record Route : Type 0 where
  pub pipe_config : Config
  pub stream_in_open : Bool
  pub input_ref_count : ℤ
  pub stream_in_standby : Bool
  pub stream_out_standby_transition : Bool
  pub stream_out_open : Bool
  pub stream_out_standby : Bool
  pub read_counter_frames : ℕ
  pub sink : Bool
  pub source : Bool

-- `convert_format` is the conversion of an AIDL format to a legacy one.
pub data Call : Type 0 where
  convert_format : ℕ → Call
  make_sink : ℕ → ℕ → Call
  negotiate_sink make_source negotiate_source max_frames : Call
  shutdown_sink : Bool → Call

-- A number is what is returned, `failed` an error or a null pointer.
pub data Answer : Type 0 where
  done : ℕ → Answer
  failed : Answer

pub data Status : Type 0 where
  status_ok bad_format unexpected_null bad_index : Status

abbrev pub initial_route : Config → Route
initial_route config = record {
  pipe_config = config;
  stream_in_open = false;
  input_ref_count = pos 0;
  stream_in_standby = true;
  stream_out_standby_transition = false;
  stream_out_open = false;
  stream_out_standby = true;
  read_counter_frames = 0;
  sink = false;
  source = false;
}

unfoldable pub is_stream_config_compatible : Config → Route → Bool
is_stream_config_compatible c r =
    if not (c.channel_layout == r.pipe_config.channel_layout)
    then false
    else if not (c.sample_rate == r.pipe_config.sample_rate)
    then false
    else c.format == r.pipe_config.format

abbrev pub has_atleast_one_stream_open : Route → Bool
has_atleast_one_stream_open r = r.stream_in_open || r.stream_out_open

unfoldable pub is_stream_config_valid : Bool → Config → Route → Bool
unfolding is_stream_config_compatible
is_stream_config_valid is_input c r =
    if not is_input && r.stream_out_open
    then false
    else if has_atleast_one_stream_open r && not (is_stream_config_compatible c r)
    then false
    else true

unfoldable pub should_block_write : Route → Bool
should_block_write r = r.stream_in_open && (not r.stream_in_standby || r.read_counter_frames == 0)

unfoldable pub update_read_counter_frames : ℕ → Route → ℕ × Route
update_read_counter_frames n r =
    let total = r.read_counter_frames + n in (total, record r { read_counter_frames = total })

abbrev shutdown_if : Host Call Answer → Bool → Bool → List Call → List Call
shutdown_if h there down w = if there then (let (_, w) = call h (shutdown_sink down) w in w) else w

abbrev pub increment : ℤ → ℤ
increment (pos n) = pos (suc n)
increment (negsuc zero) = pos 0
increment (negsuc (suc n)) = negsuc n

abbrev pub decrement : ℤ → ℤ
decrement (pos zero) = negsuc 0
decrement (pos (suc n)) = pos n
decrement (negsuc n) = negsuc (suc n)

abbrev pub is_zero : ℤ → Bool
is_zero (pos zero) = true
is_zero (pos (suc n)) = false
is_zero (negsuc n) = false

unfoldable pub open_stream : Host Call Answer → Bool → Route → List Call → Route × List Call
open_stream h true r w = (
  record r {
    input_ref_count = if r.stream_in_open then increment r.input_ref_count else pos 1;
    stream_in_open = true;
    stream_in_standby = true;
    read_counter_frames = 0;
  },
  shutdown_if h r.sink false w,
)
open_stream h false r w = (record r { stream_out_open = true }, w)

unfoldable pub close_stream : Host Call Answer → Bool → Route → List Call → Route × List Call
close_stream h true r w =
    let count = decrement r.input_ref_count in
    if is_zero count
    then (record r { input_ref_count = count; stream_in_open = false }, shutdown_if h r.sink true w)
    else (record r { input_ref_count = count }, w)
close_stream h false r w = (record r { stream_out_open = false }, shutdown_if h r.sink true w)

unfoldable pub standby : Bool → Route → Route
standby true r = record r { stream_in_standby = true }
standby false r =
    if not r.stream_out_standby
    then record r { stream_out_standby = true; stream_out_standby_transition = true }
    else r

unfoldable pub exit_standby : Bool → Route → Route
exit_standby true r =
    if r.stream_in_standby || r.stream_out_standby_transition
    then record r {
      stream_in_standby = false;
      stream_out_standby_transition = false;
      read_counter_frames = 0;
    }
    else r
exit_standby false r =
    if r.stream_out_standby
    then record r { stream_out_standby = false; stream_out_standby_transition = true }
    else r

abbrev is_index_zero : Answer → Bool
is_index_zero (done n) = n == 0
is_index_zero failed = false

abbrev succeeds : Answer → Bool
succeeds (done n) = true
succeeds failed = false

abbrev value_of : Answer → ℕ
value_of (done n) = n
value_of failed = 0

-- The sink is made for the rate and the layout: its size in frames, which the source computes from
-- the rate in `float`, is left to the call.
unfoldable pub create_pipe :
    Host Call Answer → Config → Route → List Call → Status × Route × List Call
create_pipe h c r w =
    let (converted, w0) = call h (convert_format c.format) w in
    let (sink, w1) = call h (make_sink c.sample_rate c.channel_layout) w0 in
    let (sink_index, w2) = call h negotiate_sink w1 in
    let (source, w3) = call h make_source w2 in
    let (source_index, w4) = call h negotiate_source w3 in
    let (frames, w5) = call h max_frames w4 in
    if not (succeeds converted)
    then (bad_format, r, w0)
    else if not (succeeds sink)
    then (unexpected_null, r, w1)
    else if not (is_index_zero sink_index)
    then (bad_index, r, w2)
    else if not (succeeds source)
    then (unexpected_null, r, w3)
    else if not (is_index_zero source_index)
    then (bad_index, r, w4)
    else (
      status_ok,
      record r {
        pipe_config = record c { frame_count = value_of frames };
        sink = true;
        source = true;
      },
      w5,
    )

unfoldable pub release_pipe : Route → Config × Route
release_pipe r = (r.pipe_config, record r { sink = false; source = false })

unfoldable pub reset_pipe : Host Call Answer → Route → List Call → Status × Route × List Call
unfolding create_pipe release_pipe
reset_pipe h r w = let (c, r) = release_pipe r in create_pipe h c r w
