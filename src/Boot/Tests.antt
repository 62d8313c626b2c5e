-- ===== src/Boot/Tests.antt =====
-- Runs of boot_control/BootControl.cpp on a device that works, and the theorems at such inputs.
use android_device_brcm_rpi.Common.{
  ◌↔◌, ◌⊎◌, ℕ, ◌≡◌, refl, true, false, List, [], ◌∷◌, Host, codes, eq_bytes, pos, some, arith,
}
use android_device_brcm_rpi.Boot.Flags.{priority, tries, successful, set_state}
use android_device_brcm_rpi.Boot.Image.{crc_of}
use android_device_brcm_rpi.Boot.Device.{
  boot_a, boot_b, Call, Answer, save, load, done, bytes, autoboot_text, sync_boot_files,
  write_autoboot, make_block_device_writable, write_mounted, get_suffix_property, pread_control,
  pwrite_control,
}
use android_device_brcm_rpi.Boot.Service.{
  set_slot_as_unbootable, ok, fresh_control, boot_control, current_slot, put_state,
  set_active_boot_slot, mark_boot_successful, slot_bootable, get_active_boot_slot,
}
use android_device_brcm_rpi.Boot.Storage.{
  IsValid, fresh_control-IsValid, mark_successful, set_active, serve_all, serve_all-boot_control,
}
use android_device_brcm_rpi.Boot.Reload.{ReadsBack, load-save}
use android_device_brcm_rpi.Boot.Autoboot.{holds, sync_boot_files-holds}
use android_device_brcm_rpi.Boot.Slots.{
  Chosen, set_active_boot_slot_lem, mark_boot_successful_lem, set_slot_as_unbootable_lem,
  invalid_slot_lem, IsSlot, Taken, Refused,
}

abbrev last_written : List Call → List ℕ
last_written [] = []
last_written (pwrite_control bs ∷ w) = bs
last_written (_ ∷ w) = last_written w

-- A kernel where every call succeeds, on a system booted from slot 0.
abbrev device : Host Call Answer
device w (pwrite_control bs) = done 32
device w pread_control = bytes (last_written w)
device w get_suffix_property = bytes (codes "_a")
device w _ = done 0

device-ReadsBack : ReadsBack device
device-ReadsBack bs w e = refl

-- The check value of this CRC.
crc_of_check : crc_of (codes "123456789") ≡ 0xcbf43926
unfolding crc_of
crc_of_check = refl

-- A new device starts on slot 0, marked successful.
boot_control_new : slot_bootable (boot_control device []).0 (pos 0) ≡ true
unfolding boot_control load save slot_bootable priority tries successful set_state put_state
    eq_bytes
boot_control_new = refl

serve_all_example :
    IsValid
      (serve_all device
        (set_active (pos 1) ∷ mark_successful ∷ [])
        (boot_control device []).0
        (boot_control device []).1).0
serve_all_example = serve_all-boot_control device (set_active (pos 1) ∷ mark_successful ∷ []) []

load-save_example :
    ((load device (save device (fresh_control 1) []).2).0
      ≡ some (save device (fresh_control 1) []).1)
    × ((save device (fresh_control 1) []).1
        ≡ record (fresh_control 1) { crc32 = (save device (fresh_control 1) []).1.crc32 })
unfolding save
load-save_example =
    load-save device (fresh_control 1) [] device-ReadsBack (fresh_control-IsValid 1) refl refl

sync_boot_files-holds_example :
    (holds device boot_a (autoboot_text 0 1) (sync_boot_files device 0 1 []).1 ≡ true)
    × (holds device boot_b (autoboot_text 0 1) (sync_boot_files device 0 1 []).1 ≡ true)
unfolding sync_boot_files write_autoboot make_block_device_writable write_mounted
sync_boot_files-holds_example = sync_boot_files-holds device 0 1 [] refl

set_active_boot_slot_example :
    (get_active_boot_slot (set_active_boot_slot device (fresh_control 0) (pos 1) []).1 ≡ 1)
    × Chosen
        (fresh_control 0)
        (set_active_boot_slot device (fresh_control 0) (pos 1) []).1
        1
        15
        7
        false
set_active_boot_slot_example =
    set_active_boot_slot_lem device (fresh_control 0) 1 [] (fresh_control-IsValid 0) (omega arith)

mark_boot_successful_example :
    (get_active_boot_slot (mark_boot_successful device (fresh_control 1) []).1
      ≡ (current_slot device []).0)
    × Chosen
        (fresh_control 1)
        (mark_boot_successful device (fresh_control 1) []).1
        (current_slot device []).0
        15
        7
        true
mark_boot_successful_example =
    mark_boot_successful_lem device (fresh_control 1) [] (fresh_control-IsValid 1)

set_slot_as_unbootable_example :
    (slot_bootable (set_slot_as_unbootable device (fresh_control 0) (pos 1) []).1 (pos 1) ≡ false)
    × Chosen
        (fresh_control 0)
        (set_slot_as_unbootable device (fresh_control 0) (pos 1) []).1
        1
        0
        0
        false
    × (((set_slot_as_unbootable device (fresh_control 0) (pos 1) []).0 ≡ ok)
        ↔ ((save device (put_state (fresh_control 0) 1 0 0 false) []).0 ≡ true))
set_slot_as_unbootable_example =
    set_slot_as_unbootable_lem device (fresh_control 0) 1 [] (fresh_control-IsValid 0) (omega arith)

invalid_slot_example :
    (IsSlot (pos 2) × Taken device (fresh_control 0) (pos 2) [])
    ⊎ ((¬ IsSlot (pos 2)) × Refused device (fresh_control 0) (pos 2) [])
invalid_slot_example = invalid_slot_lem device (fresh_control 0) (pos 2) []
