-- ===== src/Boot/Reload.antt =====
-- A record that was saved is the record that the next start of the service loads.
use android_device_brcm_rpi.Common.{
  ℕ, ◌^◌, ◌<◌, ◌≡◌, refl, sym, ap, ◌∙◌, true, some, List, [], ◌∷◌, length, take, arith, Host,
}
use android_device_brcm_rpi.Boot.Flags.{Slot}
use android_device_brcm_rpi.Boot.Image.{Control, to_bytes, of_bytes, crc_of}
use android_device_brcm_rpi.Boot.Device.{
  Call, Answer, suffix_is, acceptable, load, save, is_done, succeeds, bytes, open_misc_rdonly,
  open_misc_rdwr, pread_control, pwrite_control,
}
use android_device_brcm_rpi.Boot.Storage.{IsValid, save-IsValid}

-- Storage as `pwrite` and `pread` are documented: what was written in full is what the next read of
-- the same range returns.
abbrev pub ReadsBack : Host Call Answer → Type 0
ReadsBack h =
    (bs : List ℕ) (w : List Call)
    → is_done 32 (h w (pwrite_control bs)) ≡ true
    → h (open_misc_rdonly ∷ pwrite_control bs ∷ w) pread_control ≡ bytes bs

-- The bytes of a record of four slots and nine reserved bytes, read back.
reread :
    (a b d e m v n z k : ℕ) (s0 s1 s2 s3 : Slot) (r0 r1 r2 r3 r4 r5 r6 r7 r8 : ℕ) (c : Control)
    → m < 2 ^ 32
    → k < 2 ^ 32
    → c ≡ (record {
      suffix0 = a;
      suffix1 = b;
      suffix2 = d;
      suffix3 = e;
      magic = m;
      version = v;
      slot_count = n;
      reserved0 = z;
      slots = s0 ∷ s1 ∷ s2 ∷ s3 ∷ [];
      reserved1 = r0 ∷ r1 ∷ r2 ∷ r3 ∷ r4 ∷ r5 ∷ r6 ∷ r7 ∷ r8 ∷ [];
      crc32 = k;
    })
    → of_bytes (to_bytes c) ≡ c
unfolding of_bytes to_bytes
reread a b d e m v n z k s0 s1 s2 s3 r0 r1 r2 r3 r4 r5 r6 r7 r8 c hm hk same =
    rw same (ground arith)

-- A list of four, or of nine, by its items.
four_items :
    (ss : List Slot)
    → length ss ≡ 4
    → (a : Slot) × (b : Slot) × (c : Slot) × (d : Slot) × (ss ≡ a ∷ b ∷ c ∷ d ∷ [])
four_items (a ∷ b ∷ c ∷ d ∷ []) h = (a, b, c, d, refl)
four_items _ h = absurd (omega arith)

abbrev Nine : List ℕ → Type 0
Nine rs =
    (a : ℕ) × (b : ℕ) × (c : ℕ) × (d : ℕ) × (e : ℕ) × (f : ℕ) × (g : ℕ) × (i : ℕ) × (j : ℕ) × (rs
      ≡ a ∷ b ∷ c ∷ d ∷ e ∷ f ∷ g ∷ i ∷ j ∷ [])

length-Nine : (rs : List ℕ) → length rs ≡ 9 → Nine rs
length-Nine (a ∷ b ∷ c ∷ d ∷ e ∷ f ∷ g ∷ i ∷ j ∷ []) h = (a, b, c, d, e, f, g, i, j, refl)
length-Nine _ h = absurd (omega arith)

-- A valid record is read back from its bytes, which are 32.
of_bytes-to_bytes : (c : Control) → IsValid c → of_bytes (to_bytes c) ≡ c
of_bytes-to_bytes c v =
    let (s0, s1, s2, s3, es) = four_items c.slots v.four in
    let (r0, r1, r2, r3, r4, r5, r6, r7, r8, er) = length-Nine c.reserved1 v.nine in
    reread c.suffix0 c.suffix1 c.suffix2 c.suffix3 c.magic c.version c.slot_count c.reserved0
      c.crc32 s0 s1 s2 s3 r0 r1 r2 r3 r4 r5 r6 r7 r8 c (omega (arith, v.magic_ok)) v.crc_word
      (λ i. record c { slots = es i; reserved1 = er i })

-- Renewing the CRC leaves the 28 bytes before it.
body_kept :
    (c : Control) (k : ℕ)
    → IsValid c
    → (take 28 (to_bytes (record c { crc32 = k })) ≡ take 28 (to_bytes c))
      × (length (to_bytes (record c { crc32 = k })) ≡ 32)
unfolding to_bytes
body_kept c k v =
    let (s0, s1, s2, s3, es) = four_items c.slots v.four in
    let (r0, r1, r2, r3, r4, r5, r6, r7, r8, er) = length-Nine c.reserved1 v.nine in
    rw (es, er) (refl, refl)

-- The record as `save` leaves it is one that `load` accepts, if it was valid.
saved-acceptable :
    (c : Control)
    → IsValid c
    → let c' = record c { crc32 = crc_of (take 28 (to_bytes c)) } in
      acceptable c' (crc_of (take 28 (to_bytes c'))) ≡ true
unfolding acceptable suffix_is
saved-acceptable c v = ground (arith, ap crc_of (body_kept c (crc_of (take 28 (to_bytes c))) v).0)

module _ (h : Host Call Answer) (c : Control) (w : List Call) where
  save_calls :
      (save h c w).0 ≡ true
      → ((save h c w).2 ≡ pwrite_control (to_bytes (save h c w).1) ∷ open_misc_rdwr ∷ w)
        × (is_done 32 (h (open_misc_rdwr ∷ w) (pwrite_control (to_bytes (save h c w).1))) ≡ true)
        × ((save h c w).1 ≡ record c { crc32 = crc_of (take 28 (to_bytes c)) })
  unfolding save
  save_calls e = ground arith

load_accepts :
    (h : Host Call Answer) (w : List Call) (c : Control)
    → succeeds (h w open_misc_rdonly) ≡ true
    → h (open_misc_rdonly ∷ w) pread_control ≡ bytes (to_bytes c)
    → length (to_bytes c) ≡ 32
    → of_bytes (to_bytes c) ≡ c
    → acceptable c (crc_of (take 28 (to_bytes c))) ≡ true
    → (load h w).0 ≡ some c
unfolding load
load_accepts h w c opens reads len same ok = rw (opens, reads, len, same, ok)

-- After a `save` of a valid record that reported success, `load` returns the record as `save` left
-- it, which is the record saved but for the CRC, provided that the device can be opened and that its
-- storage reads back.
pub load-save :
    (h : Host Call Answer) (c : Control) (w : List Call)
    → ReadsBack h
    → IsValid c
    → (save h c w).0 ≡ true
    → succeeds (h (save h c w).2 open_misc_rdonly) ≡ true
    → ((load h (save h c w).2).0 ≡ some (save h c w).1)
      × ((save h c w).1 ≡ record c { crc32 = (save h c w).1.crc32 })
load-save h c w back v e opens =
    let (calls, wrote, same) = save_calls h c w e in
    let v' : IsValid (save h c w).1 = save-IsValid h c w v in
    (
      load_accepts h (save h c w).2 (save h c w).1 opens (rw calls (back _ _ wrote))
          (rw same (body_kept c (crc_of (take 28 (to_bytes c))) v).1)
          (of_bytes-to_bytes (save h c w).1 v') (rw same (saved-acceptable c v)),
      same ∙ sym (ap (λ (d : Control). record c { crc32 = d.crc32 }) same),
    )
