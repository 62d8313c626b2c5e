-- ===== src/Boot/Service.antt =====
-- boot_control/BootControl.cpp: the constructor and the calls of IBootControl. `control_` and the
-- record of calls are passed along; a slot argument is an `int`.
use android_device_brcm_rpi.Common.{
  ℕ, ◌-◌, Bool, true, false, not, ◌==◌, ltb, ◌&&◌, ◌||◌, Option, none, some, List, [], ◌∷◌, get_or,
  set, if◌then◌else◌, Host, call, codes, eq_bytes, ℤ, pos, negsuc,
}
use android_device_brcm_rpi.Boot.Flags.{Slot, priority, tries, successful, set_state}
use android_device_brcm_rpi.Boot.Image.{Control, blank_slot}
use android_device_brcm_rpi.Boot.Device.{
  Call, Answer, magic_word, suffix_is, load, save, sync_boot_files, get_suffix_property,
  set_trial_property, read_of,
}

pub data Status : Type 0 where
  ok invalid_slot command_failed : Status

pub data MergeStatus : Type 0 where
  merge_none : MergeStatus
  merge_other : ℕ → MergeStatus

abbrev pub default_tries : ℕ
default_tries = 7

-- `SlotSuffix(slot)` is "_a" for slot 0 and "_b" for any other.
abbrev pub slot_letter : ℕ → ℕ
slot_letter slot = if slot == 0 then b'a' else b'b'

-- `memcpy(control_.slot_suffix, SlotSuffix(slot), 3)`: the text and its NUL.
abbrev pub set_suffix : Control → ℕ → Control
set_suffix c slot = record c { suffix0 = b'_'; suffix1 = slot_letter slot; suffix2 = 0 }

unfoldable pub current_slot : Host Call Answer → List Call → ℕ × List Call
current_slot h w =
    let (suffix, w) = call h get_suffix_property w in
    (if eq_bytes (read_of suffix) (codes "_b") then 1 else 0, w)

abbrev pub slot_of : Control → ℕ → Slot
slot_of c i = get_or c.slots i blank_slot

-- `setState(&control_.slots[i], ...)`
unfoldable pub put_state : Control → ℕ → ℕ → ℕ → Bool → Control
put_state c i p t s = record c { slots = set c.slots i (set_state (slot_of c i) p t s) }

unfoldable pub valid_slot : ℤ → Bool
valid_slot (pos n) = ltb n 2
valid_slot (negsuc n) = false

abbrev pub index : ℤ → ℕ
index (pos n) = n
index (negsuc n) = 0

unfoldable pub slot_bootable : Control → ℤ → Bool
unfolding valid_slot
slot_bootable c i =
    valid_slot i
    && (not (priority (slot_of c (index i)) == 0)
        && (not (tries (slot_of c (index i)) == 0) || successful (slot_of c (index i))))

unfoldable pub slot_successful : Control → ℤ → Bool
unfolding valid_slot
slot_successful c i = valid_slot i && successful (slot_of c (index i))

-- `memset` and the fields that the constructor fills when nothing acceptable is stored.
unfoldable pub fresh_control : ℕ → Control
unfolding put_state
fresh_control slot =
    let c : Control = record {
      suffix0 = b'_';
      suffix1 = slot_letter slot;
      suffix2 = 0;
      suffix3 = 0;
      magic = magic_word;
      version = 1;
      slot_count = 2;
      reserved0 = 0;
      slots = blank_slot ∷ blank_slot ∷ blank_slot ∷ blank_slot ∷ [];
      reserved1 = 0 ∷ 0 ∷ 0 ∷ 0 ∷ 0 ∷ 0 ∷ 0 ∷ 0 ∷ 0 ∷ [];
      crc32 = 0;
    } in
    put_state (put_state c 0 7 default_tries (slot == 0)) 1 7 default_tries (slot == 1)

-- What the constructor does after `load`. What `save` returns is ignored.
unfoldable pub start_from : Host Call Answer → Option Control → List Call → Control × List Call
unfolding current_slot fresh_control
start_from h (some c) w = (c, w)
start_from h none w =
    let (slot, w) = current_slot h w in let (_, c, w) = save h (fresh_control slot) w in (c, w)

-- The constructor.
unfoldable pub boot_control : Host Call Answer → List Call → Control × List Call
unfolding start_from
boot_control h w = let (loaded, w) = load h w in start_from h loaded w

unfoldable pub get_active_boot_slot : Control → ℕ
get_active_boot_slot c = if suffix_is c b'b' then 1 else 0

abbrev pub get_number_slots : ℕ
get_number_slots = 2

abbrev pub get_snapshot_merge_status : MergeStatus
get_snapshot_merge_status = merge_none

unfoldable pub get_suffix : ℤ → List ℕ
unfolding valid_slot
get_suffix i = if not (valid_slot i) then [] else b'_' ∷ slot_letter (index i) ∷ []

-- `none` is the error INVALID_SLOT.
unfoldable pub is_slot_bootable : Control → ℤ → Option Bool
is_slot_bootable c i = if not (valid_slot i) then none else some (slot_bootable c i)

unfoldable pub is_slot_marked_successful : Control → ℤ → Option Bool
is_slot_marked_successful c i = if not (valid_slot i) then none else some (slot_successful c i)

-- `if (!save() || !syncBootFiles(current, trial))`: true when both succeed.
unfoldable pub commit : Host Call Answer → Control → ℕ → ℕ → List Call → Bool × Control × List Call
commit h c current trial w =
    let (saved, c, w) = save h c w in
    if not saved
    then (false, c, w)
    else (let (synced, w) = sync_boot_files h current trial w in (synced, c, w))

unfoldable pub mark_boot_successful :
    Host Call Answer → Control → List Call → Status × Control × List Call
mark_boot_successful h c w =
    let (current, w) = current_slot h w in
    let c = set_suffix (put_state c current 15 default_tries true) current in
    let (committed, c, w) = commit h c current (1 - current) w in
    if not committed
    then (command_failed, c, w)
    else (let (_, w) = call h (set_trial_property 0) w in (ok, c, w))

unfoldable pub set_active_boot_slot :
    Host Call Answer → Control → ℤ → List Call → Status × Control × List Call
set_active_boot_slot h c i w =
    if not (valid_slot i)
    then (invalid_slot, c, w)
    else (let (current, w) = current_slot h w in
        let slot = index i in
        let c = set_suffix (put_state c slot 15 default_tries false) slot in
        let (committed, c, w) = commit h c current slot w in
        if not committed
        then (command_failed, c, w)
        else if slot == current
        then (ok, c, w)
        else (let (_, w) = call h (set_trial_property 1) w in (ok, c, w)))

unfoldable pub set_slot_as_unbootable :
    Host Call Answer → Control → ℤ → List Call → Status × Control × List Call
set_slot_as_unbootable h c i w =
    if not (valid_slot i)
    then (invalid_slot, c, w)
    else (let (saved, c, w) = save h (put_state c (index i) 0 0 false) w in
        (if saved then ok else command_failed, c, w))

unfoldable pub set_snapshot_merge_status : MergeStatus → Status
set_snapshot_merge_status merge_none = ok
set_snapshot_merge_status (merge_other n) = command_failed
