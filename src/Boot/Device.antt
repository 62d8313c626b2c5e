-- ===== src/Boot/Device.antt =====
-- boot_control/BootControl.cpp: storage of the control record (load, save) and of the bootloader's
-- autoboot files (MakeBlockDeviceWritable, writeAutoboot, syncBootFiles). A system call is a `Call`;
-- what the kernel answers comes from the `Host`. Log messages are left out.
use android_device_brcm_rpi.Common.{
  ℕ, Bool, true, false, not, ◌&&◌, ◌||◌, ◌==◌, Option, none, some, List, [], ◌∷◌, ◌++◌, length,
  take, if◌then◌else◌, Host, call, codes,
}
use android_device_brcm_rpi.Boot.Image.{Control, to_bytes, of_bytes, crc_of}

pub data Errno : Type 0 where
  eexist : Errno
  ebusy : Errno
  other : ℕ → Errno

-- `boot_a` and `boot_b`: the source's partitions 1 and 2.
pub data Part : Type 0 where
  boot_a boot_b : Part

pub data Call : Type 0 where
  get_suffix_property : Call
  set_trial_property : ℕ → Call
  open_misc_rdonly open_misc_rdwr : Call
  pread_control : Call
  pwrite_control : List ℕ → Call
  open_block blkroget blkroset mkdir mount umount : Part → Call
  write_autoboot_file : Part → List ℕ → Call
  sync : Call

-- `done v` is success with an integer (a count, or what `ioctl` stored), `bytes` with a buffer.
pub data Answer : Type 0 where
  failed : Errno → Answer
  done : ℕ → Answer
  bytes : List ℕ → Answer

abbrev pub succeeds : Answer → Bool
succeeds (failed e) = false
succeeds (done v) = true
succeeds (bytes bs) = true

abbrev pub is_done : ℕ → Answer → Bool
is_done n (done v) = v == n
is_done n (failed e) = false
is_done n (bytes bs) = false

abbrev pub is_errno_exist : Answer → Bool
is_errno_exist (failed eexist) = true
is_errno_exist (failed ebusy) = false
is_errno_exist (failed (other n)) = false
is_errno_exist (done v) = false
is_errno_exist (bytes bs) = false

abbrev pub is_errno_busy : Answer → Bool
is_errno_busy (failed ebusy) = true
is_errno_busy (failed eexist) = false
is_errno_busy (failed (other n)) = false
is_errno_busy (done v) = false
is_errno_busy (bytes bs) = false

-- The buffer of a read; it is as long as the count that the read returned.
abbrev pub read_of : Answer → List ℕ
read_of (bytes bs) = bs
read_of (failed e) = []
read_of (done v) = []

abbrev pub magic_word : ℕ
magic_word = 0x42414342

-- `strcmp(slot_suffix, "_a") == 0`, for either letter: the bytes up to the NUL.
unfoldable pub suffix_is : Control → ℕ → Bool
suffix_is c letter = c.suffix0 == b'_' && (c.suffix1 == letter && c.suffix2 == 0)

-- The tests of `load` on a candidate; `expected` is the CRC of the bytes read.
unfoldable pub acceptable : Control → ℕ → Bool
unfolding suffix_is
acceptable c expected =
    c.magic == magic_word
    && (c.version == 1
        && (c.slot_count == 2 && (c.crc32 == expected && (suffix_is c b'a' || suffix_is c b'b'))))

-- `none` is `false`, where `control_` is left alone; `some candidate` is what it becomes.
unfoldable pub load : Host Call Answer → List Call → Option Control × List Call
load h w =
    let (fd, w) = call h open_misc_rdonly w in
    if not (succeeds fd)
    then (none, w)
    else (let (got, w) = call h pread_control w in
        let candidate = of_bytes (read_of got) in
        let expected = crc_of (take 28 (read_of got)) in
        if not (length (read_of got) == 32)
        then (none, w)
        else if acceptable candidate expected
        then (some candidate, w)
        else (none, w))

-- The record with its CRC renewed, and whether all of it was written.
unfoldable pub save : Host Call Answer → Control → List Call → Bool × Control × List Call
save h c w =
    let c' = record c { crc32 = crc_of (take 28 (to_bytes c)) } in
    let (fd, w) = call h open_misc_rdwr w in
    if not (succeeds fd)
    then (false, c', w)
    else (let (n, w) = call h (pwrite_control (to_bytes c')) w in (is_done 32 n, c', w))

-- The first `BLKROGET` may fail: the write is then tried all the same.
unfoldable pub make_block_device_writable : Host Call Answer → Part → List Call → Bool × List Call
make_block_device_writable h p w =
    let (fd, w) = call h (open_block p) w in
    if not (succeeds fd)
    then (false, w)
    else (let (before, w) = call h (blkroget p) w in
        if is_done 0 before
        then (true, w)
        else (let (set, w) = call h (blkroset p) w in
            if not (succeeds set)
            then (false, w)
            else (let (after, w) = call h (blkroget p) w in (is_done 0 after, w))))

-- `SlotPartition(slot)`, as the file has it: slot 0 is partition 1.
abbrev pub slot_partition : ℕ → List ℕ
slot_partition slot = if slot == 0 then codes "1" else codes "2"

-- The text of autoboot.txt; 10 is the newline.
unfoldable pub autoboot_text : ℕ → ℕ → List ℕ
autoboot_text current trial =
    codes "[all]"
    ++ (10
        ∷ (codes "tryboot_a_b=1"
            ++ (10
                ∷ (codes "boot_partition="
                    ++ (slot_partition current
                        ++ (10
                            ∷ (codes "[tryboot]"
                                ++ (10
                                    ∷ (codes "boot_partition="
                                        ++ (slot_partition trial ++ (10 ∷ [])))))))))))

-- After the mount: write, sync, and unmount what was not mounted before. A failed `umount` is only
-- logged.
unfoldable pub write_mounted :
    Host Call Answer → Part → List ℕ → Bool → List Call → Bool × List Call
write_mounted h p content already w =
    let (wrote, w) = call h (write_autoboot_file p content) w in
    let (_, w) = call h sync w in
    if already
    then (succeeds wrote, w)
    else (let (_, w) = call h (umount p) w in (succeeds wrote, w))

unfoldable pub write_autoboot : Host Call Answer → Part → ℕ → ℕ → List Call → Bool × List Call
write_autoboot h p current trial w =
    let (writable, w) = make_block_device_writable h p w in
    if not writable
    then (false, w)
    else (let (made, w) = call h (mkdir p) w in
        if not (succeeds made) && not (is_errno_exist made)
        then (false, w)
        else (let (mounted, w) = call h (mount p) w in
            let already = is_errno_busy mounted in
            if not (succeeds mounted) && not already
            then (false, w)
            else write_mounted h p (autoboot_text current trial) already w))

-- The second file is written only if the first was.
unfoldable pub sync_boot_files : Host Call Answer → ℕ → ℕ → List Call → Bool × List Call
sync_boot_files h current trial w =
    let (first, w) = write_autoboot h boot_a current trial w in
    if first then write_autoboot h boot_b current trial w else (false, w)
