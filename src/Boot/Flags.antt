-- ===== src/Boot/Flags.antt =====
-- boot_control/BootControl.cpp: the flags byte of a slot (priority, tries, setState, successful).
use android_device_brcm_rpi.Common.{
  ℕ, ◌*◌, ◌/◌, ◌%◌, ◌^◌, ◌<◌, ◌≡◌, refl, Bool, true, false, not, ◌&&◌, bit_and, bit_or, ◌==◌,
  if◌then◌else◌, arith, holds_below, holds_below-at, ==_iff,
}

-- The packed `struct Slot`: two bytes.
pub record Slot : Type 0 where
  pub flags : ℕ
  pub reserved : ℕ

unfoldable pub priority : Slot → ℕ
priority slot = bit_and slot.flags 0x0f

unfoldable pub tries : Slot → ℕ
tries slot = bit_and (slot.flags / 2 ^ 4) 0x07

unfoldable pub successful : Slot → Bool
successful slot = not (bit_and slot.flags 0x80 == 0)

-- The `int` expression that `setState` narrows to `uint8_t`.
abbrev pub packed : ℕ → ℕ → Bool → ℕ
packed p t s = bit_or (bit_or (bit_and p 0x0f) (bit_and t 0x07 * 2 ^ 4)) (if s then 0x80 else 0)

unfoldable pub set_state : Slot → ℕ → ℕ → Bool → Slot
set_state slot p t s = record slot { flags = packed p t s % 2 ^ 8 }

and_15 : (x : ℕ) → x < 256 → bit_and x 0x0f ≡ x % 16
unfolding holds_below
and_15 x h = (==_iff _ _).0 (holds_below-at 256 (λ y. bit_and y 0x0f == y % 16) x refl h)

and_7 : (x : ℕ) → x < 256 → bit_and x 0x07 ≡ x % 8
unfolding holds_below
and_7 x h = (==_iff _ _).0 (holds_below-at 256 (λ y. bit_and y 0x07 == y % 8) x refl h)

bit : Bool → ℕ
bit s = if s then 0x80 else 0

-- What one byte `f` must read back as.
reads : ℕ → ℕ → ℕ → Bool → Bool
reads f p t s =
    bit_and (f % 2 ^ 8) 0x0f == p
    && bit_and (f % 2 ^ 8 / 2 ^ 4) 0x07 == t
    && (if s then not (bit_and (f % 2 ^ 8) 0x80 == 0) else bit_and (f % 2 ^ 8) 0x80 == 0)

reads_table :
    (s : Bool)
    → holds_below 16 (λ p.
      holds_below 8 (λ t. reads (bit_or (bit_or p (t * 2 ^ 4)) (if s then 0x80 else 0)) p t s))
      ≡ true
unfolding holds_below reads
reads_table true = refl
reads_table false = refl

reads_all :
    (p t : ℕ) (s : Bool)
    → p < 16
    → t < 8
    → reads (bit_or (bit_or p (t * 2 ^ 4)) (if s then 0x80 else 0)) p t s ≡ true
reads_all p t s hp ht = holds_below-at 8 _ t (holds_below-at 16 _ p (reads_table s) hp) ht

-- `setState` keeps the priority modulo 16, the tries modulo 8 and the flag of success, each readable
-- by its own accessor whatever the others are, and leaves the reserved byte alone.
pub set_state_lem :
    (slot : Slot) (p t : ℕ) (s : Bool)
    → p < 256
    → t < 256
    → (priority (set_state slot p t s) ≡ p % 16)
      × (tries (set_state slot p t s) ≡ t % 8)
      × (successful (set_state slot p t s) ≡ s)
      × ((set_state slot p t s).reserved ≡ slot.reserved)
unfolding priority tries successful set_state reads
set_state_lem slot p t s hp ht =
    ground (arith, and_15 p hp, and_7 t ht, reads_all (p % 16) (t % 8) s)
