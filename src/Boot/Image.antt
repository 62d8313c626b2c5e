-- ===== src/Boot/Image.antt =====
-- boot_control/BootControl.h and BootControl.cpp: `struct Control`, packed to 32 bytes in the order
-- of a little-endian machine, and its CRC-32.
use android_device_brcm_rpi.Common.{
  ℕ, zero, suc, ◌+◌, ◌-◌, ◌*◌, ◌/◌, ◌%◌, ◌^◌, bit_xor, ◌==◌, List, [], ◌∷◌, ◌++◌, get_or, take,
  drop, if◌then◌else◌,
}
use android_device_brcm_rpi.Boot.Flags.{Slot}

-- `slot_suffix[4]` is the four fields `suffix0` to `suffix3`, `slots[4]` a list of four.
pub record Control : Type 0 where
  pub suffix0 : ℕ
  pub suffix1 : ℕ
  pub suffix2 : ℕ
  pub suffix3 : ℕ
  pub magic : ℕ
  pub version : ℕ
  pub slot_count : ℕ
  pub reserved0 : ℕ
  pub slots : List Slot
  pub reserved1 : List ℕ
  pub crc32 : ℕ

abbrev pub blank_slot : Slot
blank_slot = record { flags = 0; reserved = 0 }

-- A `uint32_t` as bytes, and back from the bytes at an offset.
abbrev pub le32 : ℕ → List ℕ
le32 n = n % 2 ^ 8 ∷ n / 2 ^ 8 % 2 ^ 8 ∷ n / 2 ^ 16 % 2 ^ 8 ∷ n / 2 ^ 24 % 2 ^ 8 ∷ []

abbrev pub word_at : List ℕ → ℕ → ℕ
word_at bs i =
    get_or bs i 0
    + get_or bs (i + 1) 0 * 2 ^ 8
    + get_or bs (i + 2) 0 * 2 ^ 16
    + get_or bs (i + 3) 0 * 2 ^ 24

abbrev pub slot_bytes : List Slot → List ℕ
slot_bytes [] = []
slot_bytes (s ∷ ss) = s.flags ∷ s.reserved ∷ slot_bytes ss

-- The bytes before `crc32`: `offsetof(Control, crc32)` is 28.
abbrev pub body_bytes : Control → List ℕ
body_bytes c =
    c.suffix0
    ∷ c.suffix1
    ∷ c.suffix2
    ∷ c.suffix3
    ∷ (le32 c.magic
        ++ (c.version ∷ c.slot_count ∷ c.reserved0 ∷ (slot_bytes c.slots ++ c.reserved1)))

unfoldable pub to_bytes : Control → List ℕ
to_bytes c = body_bytes c ++ le32 c.crc32

abbrev pub slot_at : List ℕ → ℕ → Slot
slot_at bs i = record { flags = get_or bs i 0; reserved = get_or bs (i + 1) 0 }

-- The record that 32 bytes are read as.
unfoldable pub of_bytes : List ℕ → Control
of_bytes bs = record {
  suffix0 = get_or bs 0 0;
  suffix1 = get_or bs 1 0;
  suffix2 = get_or bs 2 0;
  suffix3 = get_or bs 3 0;
  magic = word_at bs 4;
  version = get_or bs 8 0;
  slot_count = get_or bs 9 0;
  reserved0 = get_or bs 10 0;
  slots = slot_at bs 11 ∷ slot_at bs 13 ∷ slot_at bs 15 ∷ slot_at bs 17 ∷ [];
  reserved1 = take 9 (drop 19 bs);
  crc32 = word_at bs 28;
}

-- One round of the inner loop: `-(value & 1)` is all ones or zero.
abbrev pub crc_bit : ℕ → ℕ
crc_bit value = bit_xor (value / 2) (if value % 2 == 1 then 0xedb88320 else 0)

pub crc_bits : ℕ → ℕ → ℕ
crc_bits zero value = value
crc_bits (suc n) value = crc_bits n (crc_bit value)

pub crc_loop : List ℕ → ℕ → ℕ
unfolding crc_bits
crc_loop [] value = value
crc_loop (b ∷ bs) value = crc_loop bs (crc_bits 8 (bit_xor value b))

-- `~value` on `uint32_t` is 2^32 - 1 - value; `% 2 ^ 32` keeps the result a word.
unfoldable pub crc_of : List ℕ → ℕ
unfolding crc_loop
crc_of bs = (2 ^ 32 - 1 - crc_loop bs (2 ^ 32 - 1)) % 2 ^ 32
