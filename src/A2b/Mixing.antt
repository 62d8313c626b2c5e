-- ===== src/A2b/Mixing.antt =====
-- What a round of the thread plays: the sum of what the clients have queued, or silence.
use android_device_brcm_rpi.Common.{
  ℕ, zero, suc, ◌+◌, ◌%◌, ◌≡◌, refl, sym, ap, ◌∙◌, min, Bool, true, false, List, [], ◌∷◌,
  if◌then◌else◌, ℤ, pos, length, replicate, arith,
}
use android_device_brcm_rpi.A2b.Output.{capacity, period_samples, Queue, Statistics, Mixer}
use android_device_brcm_rpi.A2b.Rounds.{
  ◌+ℤ◌, count_starved, mix_all, round, out_samples, mix_in, clamp,
}
use android_device_brcm_rpi.A2b.Queueing.{ring, content}

-- The mix with the samples of a client added, as far as the mix goes.
abbrev pub added : List ℤ → List ℤ → List ℤ
added xs [] = []
added [] (y ∷ ys) = y ∷ ys
added (x ∷ xs) (y ∷ ys) = (y +ℤ x) ∷ added xs ys

abbrev pub mixture : List (ℕ × Queue) → List ℤ → List ℤ
mixture [] mix = mix
mixture ((id, q) ∷ rest) mix = mixture rest (added (content q) mix)

abbrev pub clamp_all : List ℤ → List ℤ
clamp_all [] = []
clamp_all (x ∷ xs) = clamp x ∷ clamp_all xs

mix_in-added :
    (f : ℕ → ℤ) (start n : ℕ) (mix : List ℤ)
    → mix_in f start (min n (length mix)) mix ≡ added (ring f start n) mix
unfolding mix_in
mix_in-added f start n [] = refl
mix_in-added f start zero (y ∷ ys) =
    let nothing : min 0 (suc (length ys)) ≡ 0 = omega arith in
    ap (λ k. mix_in f start k (y ∷ ys)) nothing
mix_in-added f start (suc n) (y ∷ ys) =
    let one : min (suc n) (suc (length ys)) ≡ suc (min n (length ys)) = omega arith in
    ap (λ k. mix_in f start k (y ∷ ys)) one
    ∙ ap (λ zs. (y +ℤ f (start % capacity)) ∷ zs) (mix_in-added f (start + 1) n ys)

length-mix_in :
    (f : ℕ → ℤ) (start n : ℕ) (mix : List ℤ) → length (mix_in f start n mix) ≡ length mix
unfolding mix_in
length-mix_in f start n [] = refl
length-mix_in f start zero (y ∷ ys) = refl
length-mix_in f start (suc n) (y ∷ ys) = ap (λ k. suc k) (length-mix_in f (start + 1) n ys)

mix_all-mixture :
    (audible : Bool) (clients : List (ℕ × Queue)) (st : Statistics) (mix : List ℤ)
    → length mix ≡ period_samples
    → ((mix_all audible clients st mix).2 ≡ mixture clients mix)
      × (length (mix_all audible clients st mix).2 ≡ period_samples)
unfolding mix_all
mix_all-mixture audible [] st mix e = (refl, e)
mix_all-mixture audible ((id, q) ∷ rest) st mix e =
    let n = min q.count period_samples in
    let (same, size) =
      mix_all-mixture audible rest (count_starved audible q st) (mix_in q.samples q.read n mix)
        (length-mix_in q.samples q.read n mix ∙ e) in
    (
      same
          ∙ ap (λ ys. mixture rest ys)
              (ap (λ k. mix_in q.samples q.read (min q.count k) mix) (sym e)
                ∙ mix_in-added q.samples q.read q.count mix),
      size,
    )

out_samples-silent : (xs : List ℤ) → out_samples false xs ≡ replicate (length xs) (pos 0)
unfolding out_samples
out_samples-silent [] = refl
out_samples-silent (x ∷ xs) = ap (λ ys. pos 0 ∷ ys) (out_samples-silent xs)

out_samples-clamp_all : (xs : List ℤ) → out_samples true xs ≡ clamp_all xs
unfolding out_samples
out_samples-clamp_all [] = refl
out_samples-clamp_all (x ∷ xs) = ap (λ ys. clamp x ∷ ys) (out_samples-clamp_all xs)

-- What a round writes to the PCM: when muted a period of zeros, whatever the clients have queued;
-- otherwise the sum of what each of them has queued, sample by sample, up to a period, clamped to an
-- int32.
pub round-mixture :
    (audible wrote : Bool) (m : Mixer)
    → (round audible wrote m).0 ≡ (
        if audible
        then clamp_all (mixture m.clients (replicate period_samples (pos 0)))
        else replicate period_samples (pos 0))
unfolding round
round-mixture false wrote m =
    let (same, size) =
      mix_all-mixture false m.clients m.statistics (replicate period_samples (pos 0)) refl in
    out_samples-silent _ ∙ ap (λ n. replicate n (pos 0)) size
round-mixture true wrote m =
    let (same, size) =
      mix_all-mixture true m.clients m.statistics (replicate period_samples (pos 0)) refl in
    out_samples-clamp_all _ ∙ ap clamp_all same
