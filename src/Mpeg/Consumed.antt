-- ===== src/Mpeg/Consumed.antt =====
-- What findMpegFrame finds, and how much of the buffer it uses.
use android_device_brcm_rpi.Common.{
  ℕ, zero, suc, ◌≤◌, ◌<◌, ◌≡◌, inl, inr, refl, ◌∙◌, Bool, true, false, ◌&&◌, ltb, Option, none,
  some, List, [], ◌∷◌, length, length-drop, drop, arith, Option-cases, Bool-cases, eq_bytes, codes,
  take, ltb→lt,
}
use android_device_brcm_rpi.Mpeg.Header.{MpegFrame, empty_frame, parse_header, with_rates}
use android_device_brcm_rpi.Mpeg.Scan.{
  find_id3v1_tag, find_id3v2_tag, id3v2_size, take_frame, scan, after_tag, find_tag,
  find_mpeg_frame, pending, is_empty, is_id3v2_header,
}
use android_device_brcm_rpi.Mpeg.Frames.{parse_header-IsProper}

-- The frame of the header that starts the buffer, if four bytes are there.
unfoldable pub head_of : MpegFrame → List ℕ → Option MpegFrame
head_of f (b0 ∷ b1 ∷ b2 ∷ b3 ∷ rest) = parse_header f b0 b1 b2
head_of f [] = none
head_of f (_ ∷ []) = none
head_of f (_ ∷ _ ∷ []) = none
head_of f (_ ∷ _ ∷ _ ∷ []) = none

-- The frame of the header at an offset.
unfoldable pub header_at : MpegFrame → List ℕ → ℕ → Option MpegFrame
unfolding head_of
header_at f buf i = head_of f (drop i buf)

head_of_short : (f : MpegFrame) (buf : List ℕ) → length buf < 4 → head_of f buf ≡ none
unfolding head_of
head_of_short f [] h = refl
head_of_short f (_ ∷ []) h = refl
head_of_short f (_ ∷ _ ∷ []) h = refl
head_of_short f (_ ∷ _ ∷ _ ∷ []) h = refl
head_of_short f (_ ∷ _ ∷ _ ∷ _ ∷ r) h = absurd (omega arith)

pub header_at_short :
    (f : MpegFrame) (buf : List ℕ) (i : ℕ) → length buf < 4 → header_at f buf i ≡ none
unfolding header_at
header_at_short f buf i h = head_of_short f (drop i buf) (omega (arith, length-drop i buf))

-- The loop takes the first header there is: with no header before offset `i` and a frame `g` at `i`,
-- that frame is taken off the buffer from there on.
pub scan-header_at :
    (f g : MpegFrame) (buf : List ℕ) (i : ℕ)
    → ((j : ℕ) → j < i → header_at f buf j ≡ none)
    → header_at f buf i ≡ some g
    → scan f buf ≡ take_frame g (drop i buf)
unfolding scan header_at
scan-header_at f g (b0 ∷ b1 ∷ b2 ∷ b3 ∷ rest) zero before e =
    let here : parse_header f b0 b1 b2 ≡ some g = e in rw (here, scan)
scan-header_at f g (b0 ∷ b1 ∷ b2 ∷ b3 ∷ rest) (suc i) before e =
    let first : parse_header f b0 b1 b2 ≡ none = before 0 (omega arith) in
    rw (first, scan)
      (scan-header_at f g (b1 ∷ b2 ∷ b3 ∷ rest) i (λ j h. before (suc j) (omega arith)) e)
scan-header_at f g [] i before e = cc (header_at_short f [] i (omega arith))
scan-header_at f g (a ∷ []) i before e = cc (header_at_short f (a ∷ []) i (omega arith))
scan-header_at f g (a ∷ b ∷ []) i before e = cc (header_at_short f (a ∷ b ∷ []) i (omega arith))
scan-header_at f g (a ∷ b ∷ c ∷ []) i before e =
    cc (header_at_short f (a ∷ b ∷ c ∷ []) i (omega arith))

-- With no header at any offset nothing is found, and fewer than four bytes are left.
pub scan-none :
    (f : MpegFrame) (buf : List ℕ)
    → ((j : ℕ) → header_at f buf j ≡ none)
    → ((scan f buf).0 ≡ none) × (length (scan f buf).1 < 4)
unfolding scan header_at
scan-none f (b0 ∷ b1 ∷ b2 ∷ b3 ∷ rest) all =
    let first : parse_header f b0 b1 b2 ≡ none = all 0 in
    rw (first, scan) (scan-none f (b1 ∷ b2 ∷ b3 ∷ rest) (λ j. all (suc j)))
scan-none f [] all = (refl, omega arith)
scan-none f (a ∷ []) all = (refl, omega arith)
scan-none f (a ∷ b ∷ []) all = (refl, omega arith)
scan-none f (a ∷ b ∷ c ∷ []) all = (refl, omega arith)

-- Every byte of the buffer is one.
abbrev pub Bytes : List ℕ → Type 0
Bytes [] = Unit {0}
Bytes (b ∷ bs) = (b < 256) × Bytes bs

-- A scan of a buffer that finds a frame leaves less than it was given, and counts as pending exactly
-- what the frame lacks.
scan_shortens :
    (f g : MpegFrame) (buf : List ℕ)
    → Bytes buf
    → (scan f buf).0 ≡ some g
    → length (scan f buf).1 < length buf
unfolding scan take_frame
scan_shortens f g (b0 ∷ b1 ∷ b2 ∷ b3 ∷ rest) bs e = elim (Option-cases (parse_header f b0 b1 b2)) [
  | inl skip ↦
      rw (skip, scan)
        (omega (arith, scan_shortens f g (b1 ∷ b2 ∷ b3 ∷ rest) bs.1 (rw (skip, scan) at e)))
  | inr (g', found) ↦
      let proper = (parse_header-IsProper f g' b0 b1 b2 bs.1.1.0 found).1 in
      rw (found, scan)
        (omega
          (arith, proper.long_enough, length-drop g'.frame_length_bytes (b0 ∷ b1 ∷ b2 ∷ b3 ∷ rest)))
]
scan_shortens f g [] bs e = cc
scan_shortens f g (a ∷ []) bs e = cc
scan_shortens f g (a ∷ b ∷ []) bs e = cc
scan_shortens f g (a ∷ b ∷ c ∷ []) bs e = cc

pending-parse_header :
    (f g : MpegFrame) (b0 b1 b2 : ℕ)
    → parse_header f b0 b1 b2 ≡ some g
    → g.bytes_pending ≡ f.bytes_pending
unfolding parse_header with_rates
pending-parse_header f g b0 b1 b2 e = ground arith

taken_pending :
    (g' g : MpegFrame) (buf : List ℕ)
    → g'.bytes_pending ≡ 0
    → (take_frame g' buf).0 ≡ some g
    → 0 < g.bytes_pending
    → length (take_frame g' buf).1 ≡ 0
unfolding take_frame
taken_pending g' g buf zero_pending e h = ground (arith, length-drop g'.frame_length_bytes buf)

-- A frame from a scan that began with nothing pending is pending only at the buffer's end.
scan_pending :
    (f g : MpegFrame) (buf : List ℕ)
    → f.bytes_pending ≡ 0
    → (scan f buf).0 ≡ some g
    → 0 < g.bytes_pending
    → length (scan f buf).1 ≡ 0
unfolding scan take_frame
scan_pending f g (b0 ∷ b1 ∷ b2 ∷ b3 ∷ rest) zero_pending e h =
    elim (Option-cases (parse_header f b0 b1 b2)) [
      | inl skip ↦
          rw (skip, scan)
            (scan_pending f g (b1 ∷ b2 ∷ b3 ∷ rest) zero_pending (rw (skip, scan) at e) h)
      | inr (g', found) ↦
          let buf = b0 ∷ b1 ∷ b2 ∷ b3 ∷ rest in
          let taken : scan f buf ≡ take_frame g' buf = rw (found, scan) refl in
          rw taken (
            taken_pending g' g buf (pending-parse_header f g' b0 b1 b2 found ∙ zero_pending)
              (rw taken at e) h)
    ]
scan_pending f g [] zero_pending e h = cc
scan_pending f g (a ∷ []) zero_pending e h = cc
scan_pending f g (a ∷ b ∷ []) zero_pending e h = cc
scan_pending f g (a ∷ b ∷ c ∷ []) zero_pending e h = cc

-- The bytes of a suffix.
drop-Bytes : (n : ℕ) (buf : List ℕ) → Bytes buf → Bytes (drop n buf)
drop-Bytes zero buf b = b
drop-Bytes (suc n) [] b = tt
drop-Bytes (suc n) (x ∷ xs) b = drop-Bytes n xs b.1

-- What the search for a tag leaves: part of the buffer, and less of it when there was a tag; with
-- nothing pending if more than two bytes are left.
record TagLeaves (buf : List ℕ) (t : Bool × List ℕ × MpegFrame) : Type 0 where
  bytes : Bytes t.1
  shorter : t.0 ≡ true → length t.1 < length buf
  no_longer : length t.1 ≤ length buf
  settled : 2 < length t.1 → t.2.bytes_pending ≡ 0
  overrun : 0 < t.2.bytes_pending → t.0 ≡ true → length t.1 ≡ 0

dropped-leaves :
    (n : ℕ) (buf : List ℕ) (f : MpegFrame)
    → 0 < n
    → 0 < length buf
    → Bytes buf
    → f.bytes_pending ≡ pending n buf
    → TagLeaves buf (true, drop n buf, f)
dropped-leaves n buf f hn hb b e =
    let len = length-drop n buf in
    record {
      bytes = drop-Bytes n buf b;
      shorter = λ _. omega (arith, len);
      no_longer = omega (arith, len);
      settled = λ h. omega (arith, len);
      overrun = λ h _. omega (arith, len);
    }

kept-leaves :
    (buf : List ℕ) (f : MpegFrame)
    → Bytes buf
    → (2 < length buf → f.bytes_pending ≡ 0)
    → TagLeaves buf (false, buf, f)
kept-leaves buf f b e = record {
  bytes = b;
  shorter = λ h. cc;
  no_longer = omega arith;
  settled = e;
  overrun = λ _ h. cc;
}

size_pos : (buf : List ℕ) → 10 ≤ id3v2_size buf
unfolding id3v2_size
size_pos buf = omega arith

find_id3v1_tag-leaves :
    (buf : List ℕ) (f : MpegFrame) → Bytes buf → TagLeaves buf (find_id3v1_tag buf f)
unfolding find_id3v1_tag
find_id3v1_tag-leaves buf f b = elim (Bool-cases (ltb (length buf) 3)) [
  | inl short ↦ rw short (kept-leaves buf _ b (λ h. absurd (omega (arith, ltb→lt _ _ short))))
  | inr long ↦ rw long (elim (Bool-cases (eq_bytes (take 3 buf) (codes "TAG"))) [
    | inl tag ↦ rw tag (dropped-leaves 128 buf _ (omega arith) (ground arith) b refl)
    | inr other ↦ rw other (kept-leaves buf _ b (λ h. refl))
  ])
]

-- Without such a tag the buffer stays whole.
find_id3v2_tag-leaves :
    (buf : List ℕ) (f : MpegFrame)
    → Bytes buf
    → ((find_id3v2_tag buf f).0 ≡ true → TagLeaves buf (find_id3v2_tag buf f))
      × ((find_id3v2_tag buf f).0 ≡ false → (find_id3v2_tag buf f).1 ≡ buf)
unfolding find_id3v2_tag
find_id3v2_tag-leaves buf f b = elim (Bool-cases (ltb (length buf) 10)) [
  | inl short ↦ rw short (λ h. cc, λ h. refl)
  | inr long ↦ rw long (elim (Bool-cases (is_id3v2_header buf)) [
    | inl tag ↦ rw tag (
      λ h.
          dropped-leaves (id3v2_size buf) buf _ (omega (arith, size_pos buf)) (ground arith) b refl,
      λ h. cc,
    )
    | inr other ↦ rw other (λ h. cc, λ h. refl)
  ])
]

find_tag-leaves : (buf : List ℕ) → Bytes buf → TagLeaves buf (find_tag buf)
unfolding find_tag
find_tag-leaves buf b =
    let (tagged, whole) = find_id3v2_tag-leaves buf empty_frame b in
    elim (Bool-cases (find_id3v2_tag buf empty_frame).0) [
      | inl found ↦ rw found (rw found at (tagged found))
      | inr other ↦
          rw (other, whole other) (find_id3v1_tag-leaves buf (find_id3v2_tag buf empty_frame).2 b)
    ]

scan-some-long : (f g : MpegFrame) (buf : List ℕ) → (scan f buf).0 ≡ some g → 3 < length buf
unfolding scan
scan-some-long f g (b0 ∷ b1 ∷ b2 ∷ b3 ∷ rest) e = omega arith
scan-some-long f g [] e = cc
scan-some-long f g (a ∷ []) e = cc
scan-some-long f g (a ∷ b ∷ []) e = cc
scan-some-long f g (a ∷ b ∷ c ∷ []) e = cc

is_empty-length : (buf : List ℕ) → is_empty buf ≡ true → length buf ≡ 0
is_empty-length [] e = refl
is_empty-length (x ∷ xs) e = cc

and_true : (a b : Bool) → a && b ≡ true → (a ≡ true) × (b ≡ true)
and_true a b e = ground arith

-- A call that finds a frame or a tag in a buffer of bytes leaves strictly less of the buffer, and
-- reports bytes as pending only when it used the buffer up.
pub find_mpeg_frame-uses :
    (buf : List ℕ) (g : MpegFrame)
    → Bytes buf
    → (find_mpeg_frame buf).0 ≡ some g
    → (length (find_mpeg_frame buf).1 < length buf)
      × (0 < g.bytes_pending → length (find_mpeg_frame buf).1 ≡ 0)
unfolding find_mpeg_frame after_tag
find_mpeg_frame-uses buf g b e =
    let t = find_tag buf in
    let v : TagLeaves buf t = find_tag-leaves buf b in
    elim (Bool-cases (t.0 && is_empty t.1)) [
      | inl done ↦
          let (found, empty) = and_true t.0 (is_empty t.1) done in
          rw done (v.shorter found, λ _. is_empty-length t.1 empty)
      | inr more ↦
          let e' : (scan t.2 t.1).0 ≡ some g = rw more at e in
          let long = scan-some-long t.2 g t.1 e' in
          rw more (
            omega (arith, scan_shortens t.2 g t.1 v.bytes e', v.no_longer),
            scan_pending t.2 g t.1 (v.settled (omega arith)) e',
          )
    ]
