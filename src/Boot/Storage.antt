-- ===== src/Boot/Storage.antt =====
-- What the control record promises to the next start of the service: every call keeps it in the
-- form that `load` accepts, and what `save` has written is what the next `load` returns.
use android_device_brcm_rpi.Common.{
  ℕ, ◌-◌, ◌^◌, ◌<◌, ◌≡◌, refl, Bool, true, false, ◌||◌, Option, none, some, List, [], ◌∷◌, length,
  length-set, length-drop, take, drop, arith, Host, ℤ,
}
use android_device_brcm_rpi.Boot.Flags.{set_state}
use android_device_brcm_rpi.Boot.Image.{Control, to_bytes, of_bytes, crc_of}
use android_device_brcm_rpi.Boot.Device.{
  Call, Answer, magic_word, suffix_is, acceptable, load, save, read_of, open_misc_rdonly,
  pread_control,
}
use android_device_brcm_rpi.Boot.Service.{
  Status, put_state, set_suffix, current_slot, fresh_control, start_from, boot_control, commit,
  mark_boot_successful, set_active_boot_slot, set_slot_as_unbootable, index, slot_of,
}

pub record IsValid (c : Control) : Type 0 where
  pub magic_ok : c.magic ≡ magic_word
  pub version_ok : c.version ≡ 1
  pub count_ok : c.slot_count ≡ 2
  pub suffix_ok : (suffix_is c b'a' || suffix_is c b'b') ≡ true
  pub four : length c.slots ≡ 4
  pub nine : length c.reserved1 ≡ 9
  pub crc_word : c.crc32 < 2 ^ 32

crc_of-lt : (bs : List ℕ) → crc_of bs < 2 ^ 32
unfolding crc_of
crc_of-lt bs = omega arith

pub save-IsValid :
    (h : Host Call Answer) (c : Control) (w : List Call) → IsValid c → IsValid (save h c w).1
unfolding save suffix_is
save-IsValid h c w v = ground (arith, crc_of-lt (take 28 (to_bytes c)))

put_state-IsValid : (c : Control) (i p t : ℕ) (s : Bool) → IsValid c → IsValid (put_state c i p t s)
unfolding put_state suffix_is
put_state-IsValid c i p t s v = ground (arith, length-set c.slots i (set_state (slot_of c i) p t s))

set_suffix-IsValid : (c : Control) (slot : ℕ) → IsValid c → IsValid (set_suffix c slot)
unfolding suffix_is
set_suffix-IsValid c slot v = ground arith

pub fresh_control-IsValid : (slot : ℕ) → IsValid (fresh_control slot)
unfolding fresh_control suffix_is
fresh_control-IsValid slot = ground arith

commit-IsValid :
    (h : Host Call Answer) (c : Control) (current trial : ℕ) (w : List Call)
    → IsValid c
    → IsValid (commit h c current trial w).1
unfolding commit
commit-IsValid h c current trial w v = ground (arith, save-IsValid h c w v)

length-take_9 : (xs : List ℕ) → length xs ≡ 13 → length (take 9 xs) ≡ 9
length-take_9 (_ ∷ _ ∷ _ ∷ _ ∷ _ ∷ _ ∷ _ ∷ _ ∷ _ ∷ _) h = refl
length-take_9 _ h = absurd (omega arith)

-- The bytes that `load` reads at a point.
abbrev read_bytes : Host Call Answer → List Call → List ℕ
read_bytes h w = read_of (h (open_misc_rdonly ∷ w) pread_control)

load-some :
    (h : Host Call Answer) (w : List Call) (c : Control)
    → (load h w).0 ≡ some c
    → (length (read_bytes h w) ≡ 32)
      × (acceptable (of_bytes (read_bytes h w)) (crc_of (take 28 (read_bytes h w))) ≡ true)
      × (of_bytes (read_bytes h w) ≡ c)
unfolding load
load-some h w c e = ground arith

accepted-IsValid :
    (c : Control) (expected : ℕ)
    → acceptable c expected ≡ true
    → expected < 2 ^ 32
    → length c.slots ≡ 4
    → length c.reserved1 ≡ 9
    → IsValid c
unfolding acceptable
accepted-IsValid c expected e lt four nine = ground arith

of_bytes-lengths :
    (bs : List ℕ)
    → length bs ≡ 32
    → (length (of_bytes bs).slots ≡ 4) × (length (of_bytes bs).reserved1 ≡ 9)
unfolding of_bytes
of_bytes-lengths bs h = (refl, length-take_9 (drop 19 bs) (omega (arith, length-drop 19 bs)))

-- What `load` accepts is valid.
load-IsValid :
    (h : Host Call Answer) (w : List Call) (c : Control) → (load h w).0 ≡ some c → IsValid c
load-IsValid h w c e =
    let (len, accepted, same) = load-some h w c e in
    let (four, nine) = of_bytes-lengths (read_bytes h w) len in
    rw same at (accepted-IsValid _ _ accepted (crc_of-lt _) four nine)

start_from-IsValid :
    (h : Host Call Answer) (o : Option Control) (w : List Call)
    → ((c : Control) → o ≡ some c → IsValid c)
    → IsValid (start_from h o w).0
unfolding start_from
start_from-IsValid h (some c) w v = v c refl
start_from-IsValid h none w v = save-IsValid h _ _ (fresh_control-IsValid _)

-- Whatever is stored on the device and whatever fails, the constructor ends with a valid record.
pub boot_control-IsValid : (h : Host Call Answer) (w : List Call) → IsValid (boot_control h w).0
unfolding boot_control
boot_control-IsValid h w = start_from-IsValid h (load h w).0 (load h w).1 (load-IsValid h w)

-- The three calls that change the record; the argument is the client's `int`.
pub data Request : Type 0 where
  mark_successful : Request
  set_active set_unbootable : ℤ → Request

pub serve : Host Call Answer → Request → Control → List Call → Status × Control × List Call
serve h mark_successful c w = mark_boot_successful h c w
serve h (set_active i) c w = set_active_boot_slot h c i w
serve h (set_unbootable i) c w = set_slot_as_unbootable h c i w

serve-IsValid :
    (h : Host Call Answer) (r : Request) (c : Control) (w : List Call)
    → IsValid c
    → IsValid (serve h r c w).1
unfolding serve mark_boot_successful set_active_boot_slot set_slot_as_unbootable
serve-IsValid h mark_successful c w v = ground (
  arith,
  commit-IsValid h _ (current_slot h w).0 (1 - (current_slot h w).0) (current_slot h w).1 (
      set_suffix-IsValid _ (current_slot h w).0
        (put_state-IsValid c (current_slot h w).0 15 7 true v)),
)
serve-IsValid h (set_active i) c w v = ground (
  arith,
  commit-IsValid h _ (current_slot h w).0 (index i) (current_slot h w).1
      (set_suffix-IsValid _ (index i) (put_state-IsValid c (index i) 15 7 false v)),
)
serve-IsValid h (set_unbootable i) c w v =
    ground (arith, save-IsValid h _ w (put_state-IsValid c (index i) 0 0 false v))

pub serve_all : Host Call Answer → List Request → Control → List Call → Control × List Call
serve_all h [] c w = (c, w)
serve_all h (r ∷ rs) c w = let (_, c, w) = serve h r c w in serve_all h rs c w

serve_all-IsValid :
    (h : Host Call Answer) (rs : List Request) (c : Control) (w : List Call)
    → IsValid c
    → IsValid (serve_all h rs c w).0
unfolding serve_all
serve_all-IsValid h [] c w v = v
serve_all-IsValid h (r ∷ rs) c w v = serve_all-IsValid h rs _ _ (serve-IsValid h r c w v)

-- From any start of the service, whatever the device holds and whichever system calls fail, and
-- after any list of the three changing calls with any arguments, the record in memory has the magic
-- word, version 1, two slots, a suffix "_a" or "_b" and a CRC of one word.
pub serve_all-boot_control :
    (h : Host Call Answer) (rs : List Request) (w : List Call)
    → IsValid (serve_all h rs (boot_control h w).0 (boot_control h w).1).0
serve_all-boot_control h rs w = serve_all-IsValid h rs _ _ (boot_control-IsValid h w)
