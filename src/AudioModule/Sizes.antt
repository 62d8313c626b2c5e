-- ===== src/AudioModule/Sizes.antt =====
-- audio/include/core-impl/Module.h: what calculateBufferSizeFramesForPcm returns.
use android_device_brcm_rpi.Common.{
  ℕ, zero, suc, ◌*◌, ◌%◌, ◌^◌, ◌≡◌, ◌⊎◌, inl, inr, refl, ap, ◌∙◌, ◌≤◌, ◌<◌, ◌||◌, ltb, leb, ltb→lt,
  Option, none, some, arith, if-elim,
}
use mathlib.Core.Path.{subst}
use android_device_brcm_rpi.AudioModule.Opening.{power_from, multiple_of_16, pcm_size}

abbrev pub IsPower : ℕ → Type 0
IsPower p = (k : ℕ) × (p ≡ 2 ^ k)

-- Small powers, or multiples of 16.
abbrev pub IsStep : ℕ → Type 0
IsStep p = (p ≡ 1) ⊎ (p ≡ 2) ⊎ (p ≡ 4) ⊎ (p ≡ 8) ⊎ (p % 16 ≡ 0)

abbrev pub IsNext : ℕ → ℕ → Option ℕ → Type 0
IsNext p n none = ⊥
IsNext p n (some q) = IsPower q × IsStep q × (n ≤ q) × ((q ≡ p) ⊎ (q < 2 * n))

IsStep-double : (p : ℕ) → IsStep p → IsStep (2 * p)
IsStep-double p (inl e) = inr (inl (omega arith))
IsStep-double p (inr (inl e)) = inr (inr (inl (omega arith)))
IsStep-double p (inr (inr (inl e))) = inr (inr (inr (inl (omega arith))))
IsStep-double p (inr (inr (inr (inl e)))) = inr (inr (inr (inr (omega arith))))
IsStep-double p (inr (inr (inr (inr e)))) = inr (inr (inr (inr (omega arith))))

IsStep-large : (p : ℕ) → 8 < p → IsStep p → p % 16 ≡ 0
IsStep-large p large step = ground arith

IsNext-double : (p n : ℕ) (o : Option ℕ) → p < n → IsNext (2 * p) n o → IsNext p n o
IsNext-double p n none low none_next = none_next
IsNext-double p n (some q) low (power, step, enough, near) =
    (power, step, enough, inr (ground arith))

double_power : (p k : ℕ) → p * 2 ^ suc k ≡ 2 * p * 2 ^ k
double_power p k = grind arith

power_from-IsNext :
    (fuel p n : ℕ)
    → IsPower p
    → IsStep p
    → n ≤ p * 2 ^ fuel
    → IsNext p n (power_from (suc fuel) p n)
unfolding power_from
power_from-IsNext zero p n power step enough =
    if-elim (IsNext p n) (ltb p n) (λ more. ground arith)
      (λ done. (power, step, ground arith, inl refl))
power_from-IsNext (suc fuel) p n power step enough =
    if-elim (IsNext p n) (ltb p n)
      (λ more. IsNext-double p n (power_from (suc fuel) (2 * p) n) (ltb→lt p n more) (
        power_from-IsNext fuel (2 * p) n (suc power.0, ap (λ k. 2 * k) power.1 ∙ omega arith)
          (IsStep-double p step) (subst (λ k. n ≤ k) (double_power p fuel) enough)))
      (λ done. (power, step, ground arith, inl refl))

abbrev pub IsSize : ℕ → Option ℕ → Type 0
IsSize raw none = ⊥
IsSize raw (some n) =
    (raw ≤ n)
    × (n % 16 ≡ 0)
    × ((n ≡ multiple_of_16 raw) ⊎ (IsPower n × (n < 2 * multiple_of_16 raw)))

IsNext-IsSize :
    (raw : ℕ) (o : Option ℕ)
    → 512 < multiple_of_16 raw
    → IsNext 1 (multiple_of_16 raw) o
    → IsSize raw o
IsNext-IsSize raw none big never = never
IsNext-IsSize raw (some q) big (power, step, enough, near) =
    (omega arith, IsStep-large q (omega arith) step, inr (power, ground arith))

-- The buffer size for PCM is found: for at most 2 ^ 30 frames the search for a power of two ends
-- before the shift overflows. The size is not below the frames that the latency takes and is a
-- multiple of 16: those frames rounded up to a mixer burst of 16 frames, or a power of two that is
-- less than twice the rounded number.
pub pcm_size-IsSize : (raw rate : ℕ) → raw ≤ 2 ^ 30 → IsSize raw (pcm_size raw rate)
unfolding pcm_size
pcm_size-IsSize raw rate small =
    if-elim (IsSize raw) (ltb rate 44100 || leb (multiple_of_16 raw) 512)
      (λ e. (omega arith, omega arith, inl refl))
      (λ e.
        IsNext-IsSize raw (power_from 31 1 (multiple_of_16 raw)) (ground arith)
          (power_from-IsNext 30 1 (multiple_of_16 raw) (0, refl) (inl refl) (omega arith)))
