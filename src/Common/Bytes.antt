-- ===== src/Common/Bytes.antt =====
-- Facts about bytes by evaluation of all of them, strings as lists of bytes, and `int` arguments.
use Prim.Native.Nat.{ℕ, zero, suc, ◌+◌, ◌<◌}
use Prim.Native.Char.{code}
use Prim.Native.String.{String}
use mathlib.Core.Path.{◌≡◌, refl}
use mathlib.Core.Bool.{Bool, true, false, ◌&&◌}
use mathlib.Core.List.{List, [], ◌∷◌}
use native.Mathlib.Omega.{arith}
use android_device_brcm_rpi.Common.Tests.{◌==◌, ==_iff, Bool-cases, if◌then◌else◌}
use mathlib.Core.Logic.{inl, inr}

-- How many numbers of a range, from 0 on, fail a test.
unfoldable pub exceptions : (ℕ → Bool) → ℕ → ℕ
exceptions test zero = 0
exceptions test (suc k) = exceptions test k + (if test k then 0 else 1)

-- A table of the first `size` numbers, evaluated as a whole.
unfoldable pub holds_below : ℕ → (ℕ → Bool) → Bool
unfolding exceptions
holds_below size test = exceptions test size == 0

exceptions-none :
    (test : ℕ → Bool) (size i : ℕ) → i < size → exceptions test size ≡ 0 → test i ≡ true
unfolding exceptions
exceptions-none test zero i small clean = absurd (omega arith)
exceptions-none test (suc k) i small clean =
    let earlier : exceptions test k ≡ 0 = omega arith in
    elim (Bool-cases (test k)) [
      | inr wrong ↦ absurd (ground (arith, clean))
      | inl right ↦ elim (Bool-cases (i == k)) [
        | inl last ↦ rw ((==_iff i k).0 last) right
        | inr other ↦ exceptions-none test k i (ground arith) earlier
      ]
    ]

-- What the table says of one of its numbers.
pub holds_below-at :
    (size : ℕ) (test : ℕ → Bool) (i : ℕ) → holds_below size test ≡ true → i < size → test i ≡ true
unfolding holds_below
holds_below-at size test i table small =
    exceptions-none test size i small ((==_iff (exceptions test size) 0).0 table)

-- The bytes of an ASCII text.
abbrev pub codes : String → List ℕ
codes String.[] = []
codes (String.◌∷◌ c s) = code c ∷ codes s

unfoldable pub eq_bytes : List ℕ → List ℕ → Bool
eq_bytes [] [] = true
eq_bytes [] (_ ∷ _) = false
eq_bytes (_ ∷ _) [] = false
eq_bytes (x ∷ xs) (y ∷ ys) = x == y && eq_bytes xs ys

pub eq_bytes_refl : (xs : List ℕ) → eq_bytes xs xs ≡ true
unfolding eq_bytes
eq_bytes_refl [] = refl
eq_bytes_refl (x ∷ xs) = ground (arith, eq_bytes_refl xs)

pub eq_bytes→eq : (xs ys : List ℕ) → eq_bytes xs ys ≡ true → xs ≡ ys
unfolding eq_bytes
eq_bytes→eq [] [] h = refl
eq_bytes→eq [] (y ∷ ys) h = ground arith
eq_bytes→eq (x ∷ xs) [] h = ground arith
eq_bytes→eq (x ∷ xs) (y ∷ ys) h = ground (arith, eq_bytes→eq xs ys)

-- An `int` that a client passes; `negsuc n` is -(n + 1).
pub data ℤ : Type 0 where
  pos : ℕ → ℤ
  negsuc : ℕ → ℤ
