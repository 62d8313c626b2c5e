-- ===== src/Mpeg/Header.antt =====
-- audio/stub/MpegAudioHeader.cpp, the body of findMpegFrame's loop: the four bytes of a header.
use android_device_brcm_rpi.Common.{
  ℕ, ◌+◌, ◌*◌, ◌/◌, ◌^◌, Bool, true, false, not, ◌&&◌, ◌||◌, ◌==◌, bit_and, Option, none, some,
  if◌then◌else◌,
}
use android_device_brcm_rpi.Mpeg.Tables.{
  Version, Layer, version_reserved, mpeg_2_5, mpeg_2, mpeg_1, layer_reserved, layer_1, layer_2,
  layer_3, version_of, layer_of, get_bitrate, get_sample_rate,
}

pub record MpegFrame : Type 0 where
  pub frame_length_bytes : ℕ
  pub frame_size : ℕ
  pub is_id3v2 : Bool
  pub is_id3v1 : Bool
  pub bytes_pending : ℕ
  pub sample_rate : ℕ
  pub bit_rate : ℕ

abbrev pub empty_frame : MpegFrame
empty_frame = record {
  frame_length_bytes = 0;
  frame_size = 0;
  is_id3v2 = false;
  is_id3v1 = false;
  bytes_pending = 0;
  sample_rate = 0;
  bit_rate = 0;
}

-- Eleven set bits.
unfoldable pub is_sync : ℕ → ℕ → Bool
is_sync b0 b1 = b0 == 0xff && bit_and b1 0xe0 == 0xe0

abbrev is_version_reserved : Version → Bool
is_version_reserved version_reserved = true
is_version_reserved mpeg_2_5 = false
is_version_reserved mpeg_2 = false
is_version_reserved mpeg_1 = false

abbrev is_layer_reserved : Layer → Bool
is_layer_reserved layer_reserved = true
is_layer_reserved layer_1 = false
is_layer_reserved layer_2 = false
is_layer_reserved layer_3 = false

-- A frame of Layer 1 is measured in slots of four bytes.
unfoldable pub frame_length : Layer → ℕ → ℕ → ℕ → ℕ
frame_length layer_1 kbps rate padding = (384 / 4 * (kbps * 1000) / (rate * 8) + padding) * 4
frame_length _ kbps rate padding = 1152 * (kbps * 1000) / (rate * 8) + padding

abbrev frame_samples : Layer → ℕ
frame_samples layer_1 = 384
frame_samples _ = 1152

-- The rates of a header, when both are there.
unfoldable pub with_rates : MpegFrame → Layer → ℕ → Option ℕ → Option ℕ → Option MpegFrame
with_rates f layer padding none _ = none
with_rates f layer padding (some kbps) none = none
with_rates f layer padding (some kbps) (some rate) = some (record f {
  sample_rate = rate;
  bit_rate = kbps * 1000;
  frame_size = frame_samples layer;
  frame_length_bytes = frame_length layer kbps rate padding;
})

-- What a header at this place adds to the frame; `none` where the loop goes on to the next byte.
unfoldable pub parse_header : MpegFrame → ℕ → ℕ → ℕ → Option MpegFrame
parse_header f b0 b1 b2 =
    let version = version_of (bit_and (b1 / 2 ^ 3) 0x03) in
    let layer = layer_of (bit_and (b1 / 2 ^ 1) 0x03) in
    let bitrate_index = bit_and (b2 / 2 ^ 4) 0x0f in
    let sample_rate_index = bit_and (b2 / 2 ^ 2) 0x03 in
    let padding = bit_and (b2 / 2 ^ 1) 0x01 in
    if not (is_sync b0 b1)
    then none
    else if is_version_reserved version || is_layer_reserved layer
    then none
    else with_rates f layer padding (get_bitrate version layer bitrate_index)
        (get_sample_rate version sample_rate_index)
