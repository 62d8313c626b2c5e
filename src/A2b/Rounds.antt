-- ===== src/A2b/Rounds.antt =====
-- audio/a2b/ContinuousOutput.cpp: the rounds of run.
use android_device_brcm_rpi.Common.{
  ℕ, zero, suc, ◌+◌, ◌-◌, ◌/◌, ◌%◌, min, Bool, true, false, ◌&&◌, ltb, leb, List, [], ◌∷◌,
  if◌then◌else◌, ℤ, pos, negsuc, replicate,
}
use android_device_brcm_rpi.A2b.Output.{capacity, period_samples, Queue, Statistics, Mixer}

-- a - b, as an integer.
abbrev sub_ℕ : ℕ → ℕ → ℤ
sub_ℕ a b = if leb b a then pos (a - b) else negsuc (b - a - 1)

-- The sum in int64: 2^31 clients or more would be needed to leave it.
infixl 65 ◌+ℤ◌
unfoldable pub ◌+ℤ◌ : ℤ → ℤ → ℤ
pos a +ℤ pos b = pos (a + b)
pos a +ℤ negsuc b = sub_ℕ a (b + 1)
negsuc a +ℤ pos b = sub_ℕ b (a + 1)
negsuc a +ℤ negsuc b = negsuc (a + b + 1)

-- The first `n` samples of the mix with those of the queue added.
unfoldable pub mix_in : (ℕ → ℤ) → ℕ → ℕ → List ℤ → List ℤ
mix_in f start n [] = []
mix_in f start zero (x ∷ xs) = x ∷ xs
mix_in f start (suc n) (x ∷ xs) = (x +ℤ f (start % capacity)) ∷ mix_in f (start + 1) n xs

-- The queue after its part of a period was taken.
unfoldable pub take_period : Bool → Queue → Queue
take_period audible q =
    let n = min q.count period_samples in
    record q {
      read = (q.read + n) % capacity;
      count = q.count - n;
      underrunning = audible && (q.started && ltb n period_samples);
    }

abbrev pub count_starved : Bool → Queue → Statistics → Statistics
count_starved audible q st =
    let n = min q.count period_samples in
    if audible && (q.started && ltb n period_samples)
    then record st {
      underruns = st.underruns + (if q.underrunning then 0 else 1);
      starved_frames = st.starved_frames + (period_samples - n) / 2;
    }
    else st

-- The loop over the clients.
unfoldable pub mix_all :
    Bool → List (ℕ × Queue) → Statistics → List ℤ → List (ℕ × Queue) × Statistics × List ℤ
unfolding mix_in take_period
mix_all audible [] st mix = ([], st, mix)
mix_all audible ((id, q) ∷ rest) st mix =
    let (clients, st', mix') =
      mix_all audible rest (count_starved audible q st)
        (mix_in q.samples q.read (min q.count period_samples) mix) in
    ((id, take_period audible q) ∷ clients, st', mix')

-- `std::clamp` to an int32.
abbrev pub clamp : ℤ → ℤ
clamp (pos n) = pos (min n 2147483647)
clamp (negsuc n) = negsuc (min n 2147483647)

abbrev pub out_sample : Bool → ℤ → ℤ
out_sample audible x = if audible then clamp x else pos 0

unfoldable pub out_samples : Bool → List ℤ → List ℤ
out_samples audible [] = []
out_samples audible (x ∷ xs) = out_sample audible x ∷ out_samples audible xs

-- What a round hands to `mWrite`, and the mixer when that has answered `wrote`.
unfoldable pub round : Bool → Bool → Mixer → List ℤ × Mixer
unfolding mix_all out_samples
round audible wrote m =
    let (clients, st, mix) =
      mix_all audible m.clients m.statistics (replicate period_samples (pos 0)) in
    let m = record m { clients = clients; statistics = st } in
    (
      out_samples audible mix,
      if wrote
          then record m { frames_written = m.frames_written + 240; healthy = true }
          else record m { healthy = false; write_errors = m.write_errors + 1 },
    )
