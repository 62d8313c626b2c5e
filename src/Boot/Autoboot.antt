-- ===== src/Boot/Autoboot.antt =====
-- The bootloader's two autoboot files, as syncBootFiles leaves them.
use android_device_brcm_rpi.Common.{
  ℕ, ◌≡◌, Bool, true, false, ◌&&◌, List, [], ◌∷◌, arith, Host, eq_bytes, eq_bytes_refl,
}
use android_device_brcm_rpi.Boot.Device.{
  Part, boot_a, boot_b, Call, Answer, succeeds, is_errno_busy, autoboot_text,
  make_block_device_writable, write_mounted, write_autoboot, sync_boot_files, mkdir, mount,
  write_autoboot_file,
}

eq_part : Part → Part → Bool
eq_part boot_a boot_a = true
eq_part boot_b boot_b = true
eq_part _ _ = false

-- The last write of the file of a partition, if it was of this text and succeeded.
is_write : Part → List ℕ → Call → Bool
unfolding eq_part
is_write p text (write_autoboot_file q t) = eq_part p q && eq_bytes text t
is_write p text _ = false

writes_part : Part → Call → Bool
unfolding eq_part
writes_part p (write_autoboot_file q t) = eq_part p q
writes_part p _ = false

-- Whether the last attempt to write the file of `p` succeeded and wrote this text.
pub holds : Host Call Answer → Part → List ℕ → List Call → Bool
unfolding is_write writes_part
holds h p text [] = false
holds h p text (c ∷ w) = elim (writes_part p c) [
  | true ↦ is_write p text c && succeeds (h w c)
  | false ↦ holds h p text w
]

module _ (h : Host Call Answer) where
  holds-writable :
      (p q : Part) (text : List ℕ) (w : List Call)
      → holds h p text (make_block_device_writable h q w).1 ≡ holds h p text w
  unfolding holds make_block_device_writable
  holds-writable p q text w = ground arith

  write_mounted-holds :
      (p : Part) (text : List ℕ) (already : Bool) (w : List Call)
      → (write_mounted h p text already w).0 ≡ true
      → holds h p text (write_mounted h p text already w).1 ≡ true
  unfolding holds write_mounted
  write_mounted-holds boot_a text already w e = ground (arith, eq_bytes_refl text)
  write_mounted-holds boot_b text already w e = ground (arith, eq_bytes_refl text)

  write_autoboot-holds :
      (p : Part) (current trial : ℕ) (w : List Call)
      → (write_autoboot h p current trial w).0 ≡ true
      → holds h p (autoboot_text current trial) (write_autoboot h p current trial w).1 ≡ true
  unfolding write_autoboot
  write_autoboot-holds p current trial w e =
      let w' = mkdir p ∷ (make_block_device_writable h p w).1 in
      ground (
        arith,
        write_mounted-holds p (autoboot_text current trial) (is_errno_busy (h w' (mount p)))
            (mount p ∷ w'),
      )

  -- Writing one file leaves the other's.
  write_autoboot_keeps :
      (current trial : ℕ) (text : List ℕ) (w : List Call)
      → holds h boot_a text (write_autoboot h boot_b current trial w).1 ≡ holds h boot_a text w
  unfolding holds write_autoboot write_mounted make_block_device_writable
  write_autoboot_keeps current trial text w = ground arith

  -- When `syncBootFiles` returns true, the last write of each partition's autoboot.txt succeeded
  -- and was of the text that boots `current` and, on trial, `trial`.
  pub sync_boot_files-holds :
      (current trial : ℕ) (w : List Call)
      → (sync_boot_files h current trial w).0 ≡ true
      → (holds h boot_a (autoboot_text current trial) (sync_boot_files h current trial w).1 ≡ true)
        × (holds h boot_b (autoboot_text current trial) (sync_boot_files h current trial w).1
            ≡ true)
  unfolding sync_boot_files
  sync_boot_files-holds current trial w e = ground (
    arith,
    write_autoboot-holds boot_a current trial w,
    write_autoboot-holds boot_b current trial (write_autoboot h boot_a current trial w).1,
    write_autoboot_keeps current trial (autoboot_text current trial)
        (write_autoboot h boot_a current trial w).1,
  )
