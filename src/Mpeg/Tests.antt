-- ===== src/Mpeg/Tests.antt =====
-- Runs of findMpegFrame, and the theorems at such inputs.
use android_device_brcm_rpi.Common.{
  ℕ, ◌<◌, ◌≡◌, refl, true, false, zero, suc, none, some, List, [], ◌∷◌, length, drop, arith,
  eq_bytes,
}
use android_device_brcm_rpi.Mpeg.Tables.{get_bitrate, get_sample_rate}
use android_device_brcm_rpi.Mpeg.Header.{
  MpegFrame, empty_frame, is_sync, frame_length, with_rates, parse_header,
}
use android_device_brcm_rpi.Mpeg.Scan.{
  scan, take_frame, find_mpeg_frame, after_tag, find_tag, find_id3v1_tag, find_id3v2_tag,
}
use android_device_brcm_rpi.Mpeg.Frames.{IsProper, parse_header-IsProper}
use android_device_brcm_rpi.Mpeg.Consumed.{header_at, scan-header_at, find_mpeg_frame-uses}

-- MPEG-1 Layer 3, 128 kbit/s at 44100 Hz: 417 bytes. One byte of rubbish stands before it.
abbrev frame : MpegFrame
frame = record {
  frame_length_bytes = 417;
  frame_size = 1152;
  is_id3v2 = false;
  is_id3v1 = false;
  bytes_pending = 0;
  sample_rate = 44100;
  bit_rate = 128000;
}

abbrev partial_buffer : List ℕ
partial_buffer = 7 ∷ 0xff ∷ 0xfb ∷ 0x90 ∷ 0 ∷ 1 ∷ []

find_partial : find_mpeg_frame partial_buffer ≡ (some (record frame { bytes_pending = 412 }), [])
unfolding find_mpeg_frame after_tag find_tag find_id3v1_tag find_id3v2_tag eq_bytes scan take_frame
    parse_header is_sync get_bitrate get_sample_rate with_rates frame_length
find_partial = refl

parse_header-IsProper_example : (is_sync 0xff 0xfb ≡ true) × IsProper frame
unfolding parse_header is_sync get_bitrate get_sample_rate with_rates frame_length
parse_header-IsProper_example =
    parse_header-IsProper empty_frame frame 0xff 0xfb 0x90 (omega arith) refl

none_before : (j : ℕ) → j < 1 → header_at empty_frame partial_buffer j ≡ none
unfolding header_at parse_header is_sync
none_before zero h = refl
none_before (suc j) h = absurd (omega arith)

scan-header_at_example : scan empty_frame partial_buffer ≡ take_frame frame (drop 1 partial_buffer)
unfolding header_at parse_header is_sync get_bitrate get_sample_rate with_rates frame_length
scan-header_at_example = scan-header_at empty_frame frame partial_buffer 1 none_before refl

find_mpeg_frame-uses_example :
    (length (find_mpeg_frame partial_buffer).1 < 6)
    × (0 < 412 → length (find_mpeg_frame partial_buffer).1 ≡ 0)
unfolding find_mpeg_frame after_tag find_tag find_id3v1_tag find_id3v2_tag eq_bytes scan take_frame
    parse_header is_sync get_bitrate get_sample_rate with_rates frame_length
find_mpeg_frame-uses_example =
    find_mpeg_frame-uses partial_buffer (record frame { bytes_pending = 412 }) (omega arith) refl
