-- ===== src/Mpeg/Scan.antt =====
-- audio/stub/MpegAudioHeader.cpp: findID3v1Tag, findID3v2Tag, findMpegFrame.
use android_device_brcm_rpi.Common.{
  ℕ, ◌+◌, ◌-◌, ◌*◌, ◌^◌, Bool, true, false, ◌&&◌, ltb, bit_or, Option, none, some, List, [], ◌∷◌,
  length, drop, take, get_or, eq_bytes, codes, if◌then◌else◌,
}
use android_device_brcm_rpi.Mpeg.Header.{MpegFrame, empty_frame, parse_header}

-- `n` bytes used of what is there, with the bytes missing.
abbrev pub pending : ℕ → List ℕ → ℕ
pending n buf = n - length buf

unfoldable pub find_id3v1_tag : List ℕ → MpegFrame → Bool × List ℕ × MpegFrame
find_id3v1_tag buf f =
    if ltb (length buf) 3
    then (false, buf, record f { bytes_pending = pending 3 buf })
    else if eq_bytes (take 3 buf) (codes "TAG")
    then (true, drop 128 buf, record f { bytes_pending = pending 128 buf; is_id3v1 = true })
    else (false, buf, record f { bytes_pending = 0 })

-- "ID3", two bytes below 0xff, any byte, four bytes below 0x80.
unfoldable pub is_id3v2_header : List ℕ → Bool
is_id3v2_header buf =
    eq_bytes (take 3 buf) (codes "ID3")
    && (ltb (get_or buf 3 0) 0xff
        && (ltb (get_or buf 4 0) 0xff
            && (ltb (get_or buf 6 0) 0x80
                && (ltb (get_or buf 7 0) 0x80
                    && (ltb (get_or buf 8 0) 0x80 && ltb (get_or buf 9 0) 0x80)))))

unfoldable pub id3v2_size : List ℕ → ℕ
id3v2_size buf =
    bit_or
      (bit_or (bit_or (get_or buf 6 0 * 2 ^ 21) (get_or buf 7 0 * 2 ^ 14)) (get_or buf 8 0 * 2 ^ 7))
      (get_or buf 9 0)
    + 10

unfoldable pub find_id3v2_tag : List ℕ → MpegFrame → Bool × List ℕ × MpegFrame
find_id3v2_tag buf f =
    if ltb (length buf) 10
    then (false, buf, record f { bytes_pending = pending 10 buf })
    else if is_id3v2_header buf
    then (
      true,
      drop (id3v2_size buf) buf,
      record f { bytes_pending = pending (id3v2_size buf) buf; is_id3v2 = true },
    )
    else (false, buf, record f { bytes_pending = 0 })

-- The frame that was found and what is left of the buffer; `none` leaves fewer than four bytes.
unfoldable pub take_frame : MpegFrame → List ℕ → Option MpegFrame × List ℕ
take_frame f buf = (
  some (
      if ltb (length buf) f.frame_length_bytes
      then record f { bytes_pending = pending f.frame_length_bytes buf }
      else f),
  drop f.frame_length_bytes buf,
)

-- The loop.
unfoldable pub scan : MpegFrame → List ℕ → Option MpegFrame × List ℕ
scan f (b0 ∷ b1 ∷ b2 ∷ b3 ∷ rest) = elim (parse_header f b0 b1 b2) [
  | some g ↦ take_frame g (b0 ∷ b1 ∷ b2 ∷ b3 ∷ rest)
  | none ↦ scan f (b1 ∷ b2 ∷ b3 ∷ rest)
]
scan f buf = (none, buf)

abbrev pub is_empty : List ℕ → Bool
is_empty [] = true
is_empty (_ ∷ _) = false

-- What follows the search for a tag.
unfoldable pub after_tag : Bool × List ℕ × MpegFrame → Option MpegFrame × List ℕ
after_tag (found, buf, f) = if found && is_empty buf then (some f, buf) else scan f buf

unfoldable pub find_tag : List ℕ → Bool × List ℕ × MpegFrame
find_tag buf =
    let (found, rest, f) = find_id3v2_tag buf empty_frame in
    if found then (true, rest, f) else find_id3v1_tag rest f

unfoldable pub find_mpeg_frame : List ℕ → Option MpegFrame × List ℕ
find_mpeg_frame buf = after_tag (find_tag buf)
