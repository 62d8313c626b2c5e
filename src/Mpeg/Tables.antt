-- ===== src/Mpeg/Tables.antt =====
-- audio/stub/MpegAudioHeader.cpp: versions, layers, getBitrate and getSampleRate with their tables.
use android_device_brcm_rpi.Common.{
  ℕ, zero, suc, ◌==◌, Option, none, some, List, [], ◌∷◌, get_elem?, get_or, if◌then◌else◌,
}

-- `Version` and `Layer`, in the order of their two-bit codes.
pub data Version : Type 0 where
  mpeg_2_5 version_reserved mpeg_2 mpeg_1 : Version

pub data Layer : Type 0 where
  layer_reserved layer_3 layer_2 layer_1 : Layer

abbrev pub version_of : ℕ → Version
version_of zero = mpeg_2_5
version_of (suc zero) = version_reserved
version_of (suc (suc zero)) = mpeg_2
version_of (suc (suc (suc n))) = mpeg_1

abbrev pub layer_of : ℕ → Layer
layer_of zero = layer_reserved
layer_of (suc zero) = layer_3
layer_of (suc (suc zero)) = layer_2
layer_of (suc (suc (suc n))) = layer_1

abbrev bitrate_row : ℕ → ℕ → ℕ → ℕ → ℕ → List ℕ
bitrate_row a b c d e = a ∷ b ∷ c ∷ d ∷ e ∷ []

-- In kilobits per second: V1,L1; V1,L2; V1,L3; V2,L1; V2,L2&L3.
abbrev bitrate_table : List (List ℕ)
bitrate_table =
    bitrate_row 0 0 0 0 0
    ∷ bitrate_row 32 32 32 32 8
    ∷ bitrate_row 64 48 40 48 16
    ∷ bitrate_row 96 56 48 56 24
    ∷ bitrate_row 128 64 56 64 32
    ∷ bitrate_row 160 80 64 80 40
    ∷ bitrate_row 192 96 80 96 48
    ∷ bitrate_row 224 112 96 112 56
    ∷ bitrate_row 256 128 112 128 64
    ∷ bitrate_row 288 160 128 144 80
    ∷ bitrate_row 320 192 160 160 96
    ∷ bitrate_row 352 224 192 176 112
    ∷ bitrate_row 384 256 224 192 128
    ∷ bitrate_row 416 320 256 224 144
    ∷ bitrate_row 448 384 320 256 160
    ∷ bitrate_row 0 0 0 0 0
    ∷ []

abbrev sample_rate_table : List (List ℕ)
sample_rate_table =
    (44100 ∷ 22050 ∷ 11025 ∷ [])
    ∷ (48000 ∷ 24000 ∷ 12000 ∷ [])
    ∷ (32000 ∷ 16000 ∷ 8000 ∷ [])
    ∷ (0 ∷ 0 ∷ 0 ∷ [])
    ∷ []

abbrev bitrate_column : Version → Layer → ℕ
bitrate_column mpeg_1 layer_1 = 0
bitrate_column mpeg_1 layer_2 = 1
bitrate_column mpeg_1 _ = 2
bitrate_column _ layer_1 = 3
bitrate_column _ _ = 4

abbrev sample_rate_column : Version → ℕ
sample_rate_column mpeg_1 = 0
sample_rate_column mpeg_2 = 1
sample_rate_column _ = 2

abbrev non_zero : ℕ → Option ℕ
non_zero n = if n == 0 then none else some n

-- An entry of a table; no entry past the rows, or where it is 0.
abbrev table_entry : List (List ℕ) → ℕ → ℕ → Option ℕ
table_entry rows i column = elim (get_elem? rows i) [
  | none ↦ none
  | some row ↦ non_zero (get_or row column 0)
]

unfoldable pub get_bitrate : Version → Layer → ℕ → Option ℕ
get_bitrate version layer i = table_entry bitrate_table i (bitrate_column version layer)

unfoldable pub get_sample_rate : Version → ℕ → Option ℕ
get_sample_rate version i = table_entry sample_rate_table i (sample_rate_column version)
