-- ===== src/A2b/Queueing.antt =====
-- The ring of a client's queue is a queue: what enqueue puts in comes out in order.
use android_device_brcm_rpi.Common.{
  ℕ, zero, suc, ◌+◌, ◌-◌, ◌%◌, ◌≡◌, ◌≤◌, ◌<◌, refl, sym, ap, ◌∙◌, ◌++◌, min, Bool, List, [], ◌∷◌, ℤ,
  length, take, drop, arith,
}
use android_device_brcm_rpi.A2b.Output.{
  capacity, period_samples, Queue, scale, update, put_all, push,
}
use android_device_brcm_rpi.A2b.Rounds.{take_period}

-- `n` samples of a ring from the index `start` on.
abbrev pub ring : (ℕ → ℤ) → ℕ → ℕ → List ℤ
ring f start zero = []
ring f start (suc n) = f (start % capacity) ∷ ring f (start + 1) n

-- What is queued, the next sample first.
abbrev pub content : Queue → List ℤ
content q = ring q.samples q.read q.count

abbrev pub scale_all : List ℤ → List ℤ
scale_all [] = []
scale_all (x ∷ xs) = scale x ∷ scale_all xs

cons_eq : {x y : ℤ} {xs ys : List ℤ} → x ≡ y → xs ≡ ys → (x ∷ xs) ≡ (y ∷ ys)
cons_eq {y = y} {xs = xs} e es = ap (λ z. z ∷ xs) e ∙ ap (λ zs. y ∷ zs) es

append_eq : {xs xs' ys ys' : List ℤ} → xs ≡ xs' → ys ≡ ys' → xs ++ ys ≡ xs' ++ ys'
append_eq {xs' = xs'} {ys = ys} e es = ap (λ zs. zs ++ ys) e ∙ ap (λ zs. xs' ++ zs) es

ring-append :
    (f : ℕ → ℤ) (start n m : ℕ) → ring f start (n + m) ≡ ring f start n ++ ring f (start + n) m
ring-append f start zero m =
    let none_more : 0 + m ≡ m = omega arith in
    let same : start ≡ start + 0 = omega arith in
    ap (λ k. ring f start k) none_more ∙ ap (λ k. ring f k m) same
ring-append f start (suc n) m =
    let one_more : suc n + m ≡ suc (n + m) = omega arith in
    let next : start + 1 + n ≡ start + suc n = omega arith in
    ap (λ k. ring f start k) one_more
    ∙ cons_eq refl
        (ring-append f (start + 1) n m ∙ ap (λ k. ring f (start + 1) n ++ ring f k m) next)

-- Samples outside of those that are written stay.
put_all-before :
    (f : ℕ → ℤ) (start : ℕ) (xs : List ℤ) (i : ℕ)
    → i < start
    → start + length xs ≤ i + capacity
    → put_all f start xs (i % capacity) ≡ f (i % capacity)
unfolding put_all
put_all-before f start [] i lt le = refl
put_all-before f start (x ∷ xs) i lt le =
    put_all-before (update f (start % capacity) (scale x)) (start + 1) xs i (omega arith)
      (omega arith)
    ∙ ground arith

ring-put_all_before :
    (f : ℕ → ℤ) (from n start : ℕ) (xs : List ℤ)
    → from + n ≤ start
    → start + length xs ≤ from + capacity
    → ring (put_all f start xs) from n ≡ ring f from n
ring-put_all_before f from zero start xs le room = refl
ring-put_all_before f from (suc n) start xs le room =
    cons_eq (put_all-before f start xs from (omega arith) room)
      (ring-put_all_before f (from + 1) n start xs (omega arith) (omega arith))

ring-put_all :
    (f : ℕ → ℤ) (start : ℕ) (xs : List ℤ)
    → length xs ≤ capacity
    → ring (put_all f start xs) start (length xs) ≡ scale_all xs
unfolding put_all
ring-put_all f start [] le = refl
ring-put_all f start (x ∷ xs) le =
    let g = update f (start % capacity) (scale x) in
    cons_eq (put_all-before g (start + 1) xs start (omega arith) (omega arith) ∙ ground arith)
      (ring-put_all g (start + 1) xs (omega arith))

length-take-min : (n : ℕ) (xs : List ℤ) → length (take n xs) ≡ min n (length xs)
length-take-min zero xs = omega arith
length-take-min (suc n) [] = omega arith
length-take-min (suc n) (x ∷ xs) = omega (arith, length-take-min n xs)

-- A queue that holds no more than its vector has enqueue's samples appended, scaled to 32 bits and
-- in order, as far as there is space.
pub push-content :
    (q : Queue) (xs : List ℤ)
    → q.count ≤ capacity
    → content (push q xs) ≡ content q ++ scale_all (take (min (length xs) (capacity - q.count)) xs)
unfolding push
push-content q xs le =
    let n = min (length xs) (capacity - q.count) in
    let ys = take n xs in
    let size : length ys ≡ n = omega (arith, length-take-min n xs) in
    let g = put_all q.samples (q.read + q.count) ys in
    ring-append g q.read q.count n
    ∙ append_eq
        (ring-put_all_before q.samples q.read q.count (q.read + q.count) ys (omega arith)
          (omega (arith, size)))
        (ap (λ k. ring g (q.read + q.count) k) (sym size)
          ∙ ring-put_all q.samples (q.read + q.count) ys (omega (arith, size)))

-- The ring does not tell indices apart that are the same modulo its size.
ring-wrap : (f : ℕ → ℤ) (a b n : ℕ) → a % capacity ≡ b % capacity → ring f a n ≡ ring f b n
ring-wrap f a b zero e = refl
ring-wrap f a b (suc n) e = cons_eq (ap f e) (ring-wrap f (a + 1) (b + 1) n (omega arith))

ring-drop : (f : ℕ → ℤ) (start k n : ℕ) → ring f (start + k) (n - k) ≡ drop k (ring f start n)
ring-drop f start zero n =
    let same : start + 0 ≡ start = omega arith in
    let all : n - 0 ≡ n = omega arith in
    ap (λ k. ring f k (n - 0)) same ∙ ap (λ k. ring f start k) all
ring-drop f start (suc k) zero =
    let none_left : 0 - suc k ≡ 0 = omega arith in ap (λ n. ring f (start + suc k) n) none_left
ring-drop f start (suc k) (suc n) =
    let next : start + suc k ≡ start + 1 + k = omega arith in
    let left : suc n - suc k ≡ n - k = omega arith in
    ap (λ i. ring f i (suc n - suc k)) next
    ∙ ap (λ i. ring f (start + 1 + k) i) left
    ∙ ring-drop f (start + 1) k n

-- A round takes from a queue its first samples, a period of them or all that there are, and leaves
-- the others in order; muted or not.
pub take_period-content :
    (audible : Bool) (q : Queue)
    → content (take_period audible q) ≡ drop (min q.count period_samples) (content q)
unfolding take_period
take_period-content audible q =
    let n = min q.count period_samples in
    ring-wrap q.samples ((q.read + n) % capacity) (q.read + n) (q.count - n) (omega arith)
    ∙ ring-drop q.samples q.read n q.count
