-- ===== src/Boot/Slots.antt =====
-- What the calls of IBootControl do to the slots.
use android_device_brcm_rpi.Common.{
  ℕ, zero, suc, ◌-◌, ◌<◌, ◌≡◌, ◌≢◌, ◌↔◌, refl, sym, Bool, true, false, not, ◌&&◌, ◌||◌, none, List,
  [], ◌∷◌, get_or, set, length, arith, Host, ℤ, pos, negsuc, ◌==◌, ◌⊎◌, inl, inr,
}
use android_device_brcm_rpi.Boot.Flags.{Slot, priority, tries, successful, set_state, set_state_lem}
use android_device_brcm_rpi.Boot.Image.{Control, blank_slot}
use android_device_brcm_rpi.Boot.Device.{Call, Answer, suffix_is, save}
use android_device_brcm_rpi.Boot.Service.{
  ok, invalid_slot, put_state, set_suffix, current_slot, commit, mark_boot_successful,
  set_active_boot_slot, set_slot_as_unbootable, valid_slot, slot_of, slot_bootable, slot_successful,
  is_slot_bootable, is_slot_marked_successful, get_active_boot_slot, get_suffix,
}
use android_device_brcm_rpi.Boot.Storage.{IsValid}

get_or-set_self :
    (ss : List Slot) (i : ℕ) (s d : Slot) → i < length ss → get_or (set ss i s) i d ≡ s
get_or-set_self [] i s d h = absurd (omega arith)
get_or-set_self (x ∷ xs) zero s d h = refl
get_or-set_self (x ∷ xs) (suc i) s d h = get_or-set_self xs i s d (omega arith)

get_or-set_ne :
    (ss : List Slot) (i j : ℕ) (s d : Slot) → i ≢ j → get_or (set ss i s) j d ≡ get_or ss j d
get_or-set_ne [] i j s d h = refl
get_or-set_ne (x ∷ xs) zero zero s d h = absurd (h refl)
get_or-set_ne (x ∷ xs) zero (suc j) s d h = refl
get_or-set_ne (x ∷ xs) (suc i) zero s d h = refl
get_or-set_ne (x ∷ xs) (suc i) (suc j) s d h = get_or-set_ne xs i j s d (omega arith)

-- What is read of one slot.
pub record Reads (s : Slot) (p t : ℕ) (done : Bool) : Type 0 where
  pub priority_is : priority s ≡ p
  pub tries_is : tries s ≡ t
  pub successful_is : successful s ≡ done

put_state-Reads :
    (c : Control) (i p t : ℕ) (s : Bool)
    → i < length c.slots
    → p < 16
    → t < 8
    → Reads (slot_of (put_state c i p t s) i) p t s
unfolding put_state
put_state-Reads c i p t s hi hp ht =
    let (a, b, d, _) = set_state_lem (slot_of c i) p t s (omega arith) (omega arith) in
    rw (get_or-set_self c.slots i (set_state (slot_of c i) p t s) blank_slot hi) (record {
      priority_is = rw a (omega arith);
      tries_is = rw b (omega arith);
      successful_is = d;
    })

slots-save : (h : Host Call Answer) (c : Control) (w : List Call) → (save h c w).1.slots ≡ c.slots
unfolding save
slots-save h c w = ground arith

slots-commit :
    (h : Host Call Answer) (c : Control) (current trial : ℕ) (w : List Call)
    → ((commit h c current trial w).1.slots ≡ c.slots)
      × (suffix_is (commit h c current trial w).1 b'b' ≡ suffix_is c b'b')
unfolding commit save suffix_is
slots-commit h c current trial w = ground arith

-- `IsSlotBootable` as the source tests it, from what is read.
bootable_of :
    (c : Control) (i p t : ℕ) (s : Bool)
    → i < 2
    → Reads (slot_of c i) p t s
    → (slot_bootable c (pos i) ≡ not (p == 0) && (not (t == 0) || s))
      × (slot_successful c (pos i) ≡ s)
unfolding slot_bootable slot_successful
bootable_of c i p t s hi r = ground arith

-- The slots and the suffix after a call, also when the commit failed.
set_active_slots :
    (h : Host Call Answer) (c : Control) (i : ℕ) (w : List Call)
    → i < 2
    → ((set_active_boot_slot h c (pos i) w).1.slots ≡ (put_state c i 15 7 false).slots)
      × (suffix_is (set_active_boot_slot h c (pos i) w).1 b'b' ≡ (i == 1))
unfolding set_active_boot_slot valid_slot suffix_is
set_active_slots h c i w hi = ground (
  arith,
  slots-commit h (set_suffix (put_state c i 15 7 false) i) (current_slot h w).0 i
      (current_slot h w).1,
)

mark_slots :
    (h : Host Call Answer) (c : Control) (w : List Call)
    → ((mark_boot_successful h c w).1.slots ≡ (put_state c (current_slot h w).0 15 7 true).slots)
      × (suffix_is (mark_boot_successful h c w).1 b'b' ≡ ((current_slot h w).0 == 1))
unfolding mark_boot_successful suffix_is current_slot
mark_slots h c w = ground (
  arith,
  slots-commit h (set_suffix (put_state c (current_slot h w).0 15 7 true) (current_slot h w).0)
      (current_slot h w).0 (1 - (current_slot h w).0) (current_slot h w).1,
)

current_slot-lt : (h : Host Call Answer) (w : List Call) → (current_slot h w).0 < 2
unfolding current_slot
current_slot-lt h w = ground arith

slot_of-put_state_ne :
    (c : Control) (i j p t : ℕ) (s : Bool) → j ≢ i → slot_of (put_state c i p t s) j ≡ slot_of c j
unfolding put_state
slot_of-put_state_ne c i j p t s ne =
    get_or-set_ne c.slots i j (set_state (slot_of c i) p t s) blank_slot (λ e. ne (sym e))

-- What the calls below promise of the record `d` that they leave.
pub record Chosen (c d : Control) (i p t : ℕ) (done : Bool) : Type 0 where
  pub reads : Reads (slot_of d i) p t done
  pub bootable : slot_bootable d (pos i) ≡ not (p == 0) && (not (t == 0) || done)
  pub successful_is : slot_successful d (pos i) ≡ done
  pub others : (j : ℕ) → j ≢ i → slot_of d j ≡ slot_of c j

Chosen-put_state :
    (c d : Control) (i p t : ℕ) (s : Bool)
    → IsValid c
    → i < 2
    → p < 16
    → t < 8
    → d.slots ≡ (put_state c i p t s).slots
    → Chosen c d i p t s
Chosen-put_state c d i p t s v hi hp ht e =
    let r : Reads (slot_of d i) p t s =
      rw e (put_state-Reads c i p t s (omega (arith, v.four)) hp ht) in
    record {
      reads = r;
      bootable = (bootable_of d i p t s hi r).0;
      successful_is = (bootable_of d i p t s hi r).1;
      others = λ j ne. rw e (slot_of-put_state_ne c i j p t s ne);
    }

-- After `setActiveBootSlot(i)` for a slot 0 or 1, whether or not the commit succeeded, slot i is
-- the active one of the record in memory: bootable with priority 15 and 7 tries, not marked
-- successful; every other slot is as it was.
pub set_active_boot_slot_lem :
    (h : Host Call Answer) (c : Control) (i : ℕ) (w : List Call)
    → IsValid c
    → i < 2
    → (get_active_boot_slot (set_active_boot_slot h c (pos i) w).1 ≡ i)
      × Chosen c (set_active_boot_slot h c (pos i) w).1 i 15 7 false
unfolding get_active_boot_slot
set_active_boot_slot_lem h c i w v hi =
    let (slots, suffix) = set_active_slots h c i w hi in
    (
      rw suffix (ground arith),
      Chosen-put_state c _ i 15 7 false v hi (omega arith) (omega arith) slots,
    )

-- After `markBootSuccessful`, whether or not the commit succeeded, the slot that the system was
-- booted from is the active one, bootable with priority 15 and 7 tries and marked successful;
-- every other slot is as it was.
pub mark_boot_successful_lem :
    (h : Host Call Answer) (c : Control) (w : List Call)
    → IsValid c
    → (get_active_boot_slot (mark_boot_successful h c w).1 ≡ (current_slot h w).0)
      × Chosen c (mark_boot_successful h c w).1 (current_slot h w).0 15 7 true
unfolding get_active_boot_slot
mark_boot_successful_lem h c w v =
    let (slots, suffix) = mark_slots h c w in
    let lt = current_slot-lt h w in
    (
      rw suffix (ground arith),
      Chosen-put_state c _ (current_slot h w).0 15 7 true v lt (omega arith) (omega arith) slots,
    )

-- `setSlotAsUnbootable(i)` for a slot 0 or 1 of a well-formed record leaves the slot not bootable in
-- memory, with priority 0, no tries and not marked successful, and every other slot as it was; it
-- reports success exactly when the changed record was saved.
pub set_slot_as_unbootable_lem :
    (h : Host Call Answer) (c : Control) (i : ℕ) (w : List Call)
    → IsValid c
    → i < 2
    → (slot_bootable (set_slot_as_unbootable h c (pos i) w).1 (pos i) ≡ false)
      × Chosen c (set_slot_as_unbootable h c (pos i) w).1 i 0 0 false
      × (((set_slot_as_unbootable h c (pos i) w).0 ≡ ok)
          ↔ ((save h (put_state c i 0 0 false) w).0 ≡ true))
unfolding set_slot_as_unbootable valid_slot
set_slot_as_unbootable_lem h c i w v hi =
    let d = (set_slot_as_unbootable h c (pos i) w).1 in
    let slots : d.slots ≡ (put_state c i 0 0 false).slots =
      ground (arith, slots-save h (put_state c i 0 0 false) w) in
    let chosen : Chosen c d i 0 0 false =
      Chosen-put_state c d i 0 0 false v hi (omega arith) (omega arith) slots in
    (chosen.bootable, chosen, ground arith)

-- The slot numbers of the service.
abbrev pub IsSlot : ℤ → Type 0
IsSlot i = (i ≡ pos 0) ⊎ (i ≡ pos 1)

module _ (h : Host Call Answer) (c : Control) (i : ℤ) (w : List Call) where
  -- Every call takes the number: what it reports is not INVALID_SLOT, and there is a suffix.
  abbrev pub Taken : Type 0
  Taken =
      ((set_active_boot_slot h c i w).0 ≢ invalid_slot)
      × ((set_slot_as_unbootable h c i w).0 ≢ invalid_slot)
      × (is_slot_bootable c i ≢ none)
      × (is_slot_marked_successful c i ≢ none)
      × (length (get_suffix i) ≡ 2)

  -- No call does: INVALID_SLOT, with the record as it was and no system call, and an empty suffix.
  abbrev pub Refused : Type 0
  Refused =
      (set_active_boot_slot h c i w ≡ (invalid_slot, c, w))
      × (set_slot_as_unbootable h c i w ≡ (invalid_slot, c, w))
      × (is_slot_bootable c i ≡ none)
      × (is_slot_marked_successful c i ≡ none)
      × (get_suffix i ≡ [])

  Refused-invalid : valid_slot i ≡ false → Refused
  unfolding set_active_boot_slot set_slot_as_unbootable is_slot_bootable is_slot_marked_successful
      get_suffix
  Refused-invalid e = (rw e, rw e, rw e, rw e, rw e)

  Taken-valid : valid_slot i ≡ true → Taken
  unfolding set_active_boot_slot set_slot_as_unbootable is_slot_bootable is_slot_marked_successful
      get_suffix
  Taken-valid e = (ground arith, ground arith, ground arith, ground arith, ground arith)

-- Every call that takes a slot number accepts exactly 0 and 1. Of any other number the calls that
-- change the record report INVALID_SLOT, change nothing and make no system call, the two queries of
-- a slot report INVALID_SLOT, and the suffix is the empty text; of 0 and 1 no call reports
-- INVALID_SLOT, and the suffix has two characters.
pub invalid_slot_lem :
    (h : Host Call Answer) (c : Control) (i : ℤ) (w : List Call)
    → (IsSlot i × Taken h c i w) ⊎ ((¬ IsSlot i) × Refused h c i w)
unfolding valid_slot
invalid_slot_lem h c (pos zero) w = inl (inl refl, Taken-valid h c (pos 0) w refl)
invalid_slot_lem h c (pos (suc zero)) w = inl (inr refl, Taken-valid h c (pos 1) w refl)
invalid_slot_lem h c (pos (suc (suc n))) w =
    inr (λ s. ground arith, Refused-invalid h c (pos (suc (suc n))) w (ground arith))
invalid_slot_lem h c (negsuc n) w = inr (λ s. ground arith, Refused-invalid h c (negsuc n) w refl)
