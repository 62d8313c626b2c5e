-- ===== src/Mpeg/Frames.antt =====
-- Every frame header that the loop accepts has its rates and a length between 32 and 2881 bytes.
use android_device_brcm_rpi.Common.{
  ℕ, ◌/◌, ◌^◌, ◌≤◌, ◌<◌, ◌≡◌, refl, Bool, true, ◌&&◌, leb, ltb, bit_and, holds_below,
  holds_below-at, Option, none, some, length, arith,
}
use android_device_brcm_rpi.Mpeg.Tables.{
  Version, Layer, version_reserved, mpeg_2_5, mpeg_2, mpeg_1, layer_reserved, layer_1, layer_2,
  layer_3, version_of, layer_of, get_bitrate, get_sample_rate,
}
use android_device_brcm_rpi.Mpeg.Header.{
  MpegFrame, empty_frame, is_sync, frame_length, with_rates, parse_header,
}

-- The tests of one entry of both tables.
abbrev proper : ℕ → ℕ → ℕ → Bool
proper length rate bits = leb 32 length && (leb length 2881 && (leb 8000 rate && leb 8000 bits))

check : Version → Layer → ℕ → ℕ → ℕ → Bool
check v l padding i j =
    elim (with_rates empty_frame l padding (get_bitrate v l i) (get_sample_rate v j)) [
      | none ↦ true
      | some g ↦ proper g.frame_length_bytes g.sample_rate g.bit_rate
    ]

check_table :
    (v : Version) (l : Layer)
    → holds_below 2 (λ p. holds_below 16 (λ i. holds_below 4 (λ j. check v l p i j))) ≡ true
unfolding holds_below check with_rates get_bitrate get_sample_rate frame_length
check_table mpeg_1 layer_1 = refl
check_table mpeg_1 layer_2 = refl
check_table mpeg_1 layer_3 = refl
check_table mpeg_1 layer_reserved = refl
check_table mpeg_2 layer_1 = refl
check_table mpeg_2 layer_2 = refl
check_table mpeg_2 layer_3 = refl
check_table mpeg_2 layer_reserved = refl
check_table mpeg_2_5 layer_1 = refl
check_table mpeg_2_5 layer_2 = refl
check_table mpeg_2_5 layer_3 = refl
check_table mpeg_2_5 layer_reserved = refl
check_table version_reserved layer_1 = refl
check_table version_reserved layer_2 = refl
check_table version_reserved layer_3 = refl
check_table version_reserved layer_reserved = refl

and_1-lt : (x : ℕ) → x < 128 → bit_and x 0x01 < 2
unfolding holds_below
and_1-lt x h = let e = holds_below-at 128 (λ y. ltb (bit_and y 0x01) 2) x refl h in ground arith

and_3-lt : (x : ℕ) → x < 64 → bit_and x 0x03 < 4
unfolding holds_below
and_3-lt x h = let e = holds_below-at 64 (λ y. ltb (bit_and y 0x03) 4) x refl h in ground arith

and_15-lt : (x : ℕ) → x < 16 → bit_and x 0x0f < 16
unfolding holds_below
and_15-lt x h = let e = holds_below-at 16 (λ y. ltb (bit_and y 0x0f) 16) x refl h in ground arith

checked : (v : Version) (l : Layer) (p i j : ℕ) → p < 2 → i < 16 → j < 4 → check v l p i j ≡ true
checked v l p i j hp hi hj =
    holds_below-at 4 _ j (holds_below-at 16 _ i (holds_below-at 2 _ p (check_table v l) hp) hi) hj

-- What is known of a frame that a header gave.
pub record IsProper (g : MpegFrame) : Type 0 where
  pub long_enough : 32 ≤ g.frame_length_bytes
  pub short_enough : g.frame_length_bytes ≤ 2881
  pub sampled : 8000 ≤ g.sample_rate
  pub some_rate : 8000 ≤ g.bit_rate

with_rates-IsProper :
    (f g : MpegFrame) (l : Layer) (p : ℕ) (b r : Option ℕ)
    → with_rates f l p b r ≡ some g
    → (elim (with_rates empty_frame l p b r) [
      | none ↦ true
      | some e ↦ proper e.frame_length_bytes e.sample_rate e.bit_rate
    ])
      ≡ true
    → IsProper g
unfolding with_rates
with_rates-IsProper f g l p none r e h = ground arith
with_rates-IsProper f g l p (some b) none e h = ground arith
with_rates-IsProper f g l p (some b) (some r) e h = ground arith

abbrev version_at : ℕ → Version
version_at b1 = version_of (bit_and (b1 / 2 ^ 3) 0x03)

abbrev layer_at : ℕ → Layer
layer_at b1 = layer_of (bit_and (b1 / 2 ^ 1) 0x03)

parse_header-some :
    (f g : MpegFrame) (b0 b1 b2 : ℕ)
    → parse_header f b0 b1 b2 ≡ some g
    → (is_sync b0 b1 ≡ true)
      × (with_rates f
            (layer_at b1)
            (bit_and (b2 / 2 ^ 1) 0x01)
            (get_bitrate (version_at b1) (layer_at b1) (bit_and (b2 / 2 ^ 4) 0x0f))
            (get_sample_rate (version_at b1) (bit_and (b2 / 2 ^ 2) 0x03))
          ≡ some g)
unfolding parse_header
parse_header-some f g b0 b1 b2 e = ground arith

-- A header of three bytes, the last a byte, is accepted only at a sync word, and gives a frame of 32
-- to 2881 bytes with a sample rate and a bit rate of at least 8000.
pub parse_header-IsProper :
    (f g : MpegFrame) (b0 b1 b2 : ℕ)
    → b2 < 256
    → parse_header f b0 b1 b2 ≡ some g
    → (is_sync b0 b1 ≡ true) × IsProper g
unfolding check
parse_header-IsProper f g b0 b1 b2 h e =
    let (sync, rates) = parse_header-some f g b0 b1 b2 e in
    (
      sync,
      with_rates-IsProper f g (layer_at b1) _ _ _ rates (
          checked (version_at b1) (layer_at b1) _ _ _ (and_1-lt (b2 / 2 ^ 1) (omega arith))
            (and_15-lt (b2 / 2 ^ 4) (omega arith)) (and_3-lt (b2 / 2 ^ 2) (omega arith))),
    )
