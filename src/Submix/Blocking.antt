-- ===== src/Submix/Blocking.antt =====
-- The inputs of a route are counted, and a writer is blocked until the input has been read.
use android_device_brcm_rpi.Common.{
  ℕ, zero, suc, ◌+◌, ◌≡◌, ◌≤◌, refl, ap, ◌∙◌, true, false, ◌==◌, ltb, List, pos, Host, arith,
}
use android_device_brcm_rpi.Submix.Route.{
  Route, Call, Answer, open_stream, close_stream, standby, exit_standby, should_block_write,
  update_read_counter_frames,
}

-- A route with no input.
abbrev pub IsClosed : Route → Type 0
IsClosed r = r.stream_in_open ≡ false

module _ (h : Host Call Answer) where
  abbrev pub opens : ℕ → Route → List Call → Route × List Call
  opens zero r w = (r, w)
  opens (suc n) r w = let (r, w) = open_stream h true r w in opens n r w

  abbrev pub closes : ℕ → Route → List Call → Route × List Call
  closes zero r w = (r, w)
  closes (suc n) r w = let (r, w) = close_stream h true r w in closes n r w

  opens-open :
      (n m : ℕ) (r : Route) (w : List Call)
      → r.stream_in_open ≡ true
      → r.input_ref_count ≡ pos m
      → ((opens n r w).0.stream_in_open ≡ true) × ((opens n r w).0.input_ref_count ≡ pos (n + m))
  unfolding open_stream
  opens-open zero m r w o c = (o, ground (arith, c))
  opens-open (suc n) m r w o c =
      let (r', w') = open_stream h true r w in
      let counted : r'.input_ref_count ≡ pos (suc m) = rw (o, c) refl in
      let (opened, count) = opens-open n (suc m) r' w' refl counted in
      let sum : n + suc m ≡ suc n + m = omega arith in (opened, count ∙ ap (λ k. pos k) sum)

  closes-open :
      (k m : ℕ) (r : Route) (w : List Call)
      → r.stream_in_open ≡ true
      → r.input_ref_count ≡ pos (suc m)
      → k ≤ suc m
      → (closes k r w).0.stream_in_open ≡ ltb k (suc m)
  unfolding close_stream
  closes-open zero m r w o c le = ground (arith, o)
  closes-open (suc zero) zero r w o c le = rw c refl
  closes-open (suc (suc k)) zero r w o c le = absurd (omega arith)
  closes-open (suc k) (suc m) r w o c le =
      let (r', w') = close_stream h true r w in
      let counted : r'.input_ref_count ≡ pos (suc m) = rw c refl in
      let still : r'.stream_in_open ≡ true = rw c o in
      closes-open k m r' w' still counted (omega arith) ∙ ground arith

  -- After `n + 1` inputs were opened on a route that had none, and `k` of them closed again, in this
  -- order, an input is open exactly when `k` is less than `n + 1`.
  pub close_stream-open_stream :
      (n k : ℕ) (r : Route) (w : List Call)
      → IsClosed r
      → k ≤ n + 1
      → let (r', w') = opens (suc n) r w in (closes k r' w').0.stream_in_open ≡ ltb k (suc n)
  unfolding open_stream
  close_stream-open_stream n k r w shut le =
      let (r1, w1) = open_stream h true r w in
      let counted : r1.input_ref_count ≡ pos 1 = rw shut refl in
      let (opened, count) = opens-open n 1 r1 w1 refl counted in
      let (r2, w2) = opens n r1 w1 in
      let total : n + 1 ≡ suc n = omega arith in
      closes-open k n r2 w2 opened (count ∙ ap (λ i. pos i) total) (omega arith)

  -- With an input opened, a writer is to block before the input has left standby; and when the input
  -- has left it, `n` frames have been read and it is in standby again, then only if n is 0.
  pub should_block_write-open_stream :
      (n : ℕ) (r : Route) (w : List Call)
      → (should_block_write (open_stream h true r w).0 ≡ true)
        × (should_block_write (exit_standby true (open_stream h true r w).0) ≡ true)
        × (should_block_write (
              standby true
                (update_read_counter_frames n (exit_standby true (open_stream h true r w).0)).1)
            ≡ (n == 0))
  unfolding should_block_write open_stream standby exit_standby update_read_counter_frames
  should_block_write-open_stream n r w = (refl, refl, ground arith)
