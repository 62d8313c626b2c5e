-- ===== src/A2b/Polling.antt =====
-- A poll ends, in time, with an answer that means what it says.
use android_device_brcm_rpi.Common.{
  ℕ, zero, suc, ◌+◌, ◌-◌, ◌≤◌, ◌<◌, ◌≡◌, ◌⊎◌, inl, inr, refl, min, Bool, true, false, ◌==◌, some,
  List, [], ◌∷◌, ap, Host, arith, Bool-cases,
}
use mathlib.Core.Path.{subst}
use android_device_brcm_rpi.A2b.Profile.{
  Register, Call, bus_read, bus_delay, now_ms, Answer, succeeds, value_of,
}
use android_device_brcm_rpi.A2b.Execute.{shows, poll_loop, poll, or_failed}

-- The steady clock: it does not go back over a read of the bus, and goes on by a delay.
pub record Clock (h : Host Call Answer) : Type 0 where
  pub steady :
      (w : List Call) (a r : ℕ)
      → value_of (h w now_ms) ≤ value_of (h (bus_read a r ∷ now_ms ∷ w) now_ms)
  pub delayed :
      (w : List Call) (a r s : ℕ)
      → value_of (h w now_ms) + s ≤ value_of (h (bus_read a r ∷ bus_delay s ∷ now_ms ∷ w) now_ms)

module _ (h : Host Call Answer) (address : ℕ) (r : Register) where
  -- The clock as the loop reads it after its first read.
  abbrev first_time : List Call → ℕ
  first_time w = value_of (h (bus_read address r.reg ∷ w) now_ms)

  poll_loop-total :
      (fuel deadline : ℕ) (w : List Call)
      → Clock h
      → deadline - first_time w < fuel
      → (q : Bool × List Call) × (poll_loop h fuel address r deadline w ≡ some q)
  unfolding poll_loop
  poll_loop-total zero deadline w c lt = absurd (omega arith)
  poll_loop-total (suc fuel) deadline w c lt =
      let w1 = bus_read address r.reg ∷ w in
      let a = h w (bus_read address r.reg) in
      let s = min 5 (deadline - first_time w) in
      elim (Bool-cases (succeeds a)) [
        | inr failed ↦ ((false, w1), rw failed)
        | inl got ↦ elim (Bool-cases (shows r a)) [
          | inl shown ↦ ((true, w1), rw (got, shown))
          | inr other ↦ elim (Bool-cases ((deadline - first_time w) == 0)) [
            | inl late ↦ ((false, now_ms ∷ w1), rw (got, other, late))
            | inr early ↦
                let ih =
                  poll_loop-total fuel deadline (bus_delay s ∷ now_ms ∷ w1) c
                    (ground (arith, c.delayed w1 address r.reg s)) in
                (ih.0, rw (got, other, early) ih.1)
          ]
        ]
      ]

  -- A poll always ends, within one round for each millisecond of its timeout and one more, if the
  -- clock goes on.
  pub poll-total :
      (w : List Call) → Clock h → (q : Bool × List Call) × (poll h address r w ≡ some q)
  unfolding poll
  poll-total w c =
      poll_loop-total (suc r.timeout_ms) (value_of (h w now_ms) + r.timeout_ms) (now_ms ∷ w) c
        (omega (arith, c.steady w address r.reg))

  -- How a poll with a deadline may have ended: with a last read that shows the value wanted, or
  -- with a read that failed, or with the clock at the deadline.
  abbrev pub Ended : ℕ → Bool × List Call → Type 0
  Ended deadline (true, w) =
      (v : List Call) × (w ≡ bus_read address r.reg ∷ v)
      × (succeeds (h v (bus_read address r.reg)) ≡ true)
      × (shows r (h v (bus_read address r.reg)) ≡ true)
  Ended deadline (false, w) =
      ((v : List Call) × (w ≡ bus_read address r.reg ∷ v)
        × (succeeds (h v (bus_read address r.reg)) ≡ false))
      ⊎ ((v : List Call) × (w ≡ now_ms ∷ v) × (deadline ≤ value_of (h v now_ms)))

  Ended-some :
      (deadline : ℕ) (p q : Bool × List Call)
      → Ended deadline p
      → some p ≡ some q
      → Ended deadline q
  Ended-some deadline p q ended e = subst (Ended deadline) (ap (or_failed []) e) ended

  poll_loop-Ended :
      (fuel deadline : ℕ) (w : List Call) (q : Bool × List Call)
      → poll_loop h fuel address r deadline w ≡ some q
      → Ended deadline q
  unfolding poll_loop
  poll_loop-Ended zero deadline w q e = cc
  poll_loop-Ended (suc fuel) deadline w q e =
      let a = h w (bus_read address r.reg) in
      let w1 = bus_read address r.reg ∷ w in
      let s = min 5 (deadline - first_time w) in
      elim (Bool-cases (succeeds a)) [
        | inr failed ↦ Ended-some deadline (false, w1) q (inl (w, refl, failed)) (rw failed at e)
        | inl got ↦ elim (Bool-cases (shows r a)) [
          | inl shown ↦
              Ended-some deadline (true, w1) q (w, refl, got, shown) (rw (got, shown) at e)
          | inr other ↦ elim (Bool-cases ((deadline - first_time w) == 0)) [
            | inl late ↦
                Ended-some deadline (false, now_ms ∷ w1) q (inr (w1, refl, ground arith))
                  (rw (got, other, late) at e)
            | inr early ↦
                poll_loop-Ended fuel deadline (bus_delay s ∷ now_ms ∷ w1) q
                  (rw (got, other, early) at e)
          ]
        ]
      ]

  -- A poll that reports success ended with a read that shows the value wanted under the mask; one
  -- that reports failure ended with a read that failed, or with the clock at `timeout_ms` or more
  -- after the poll began.
  pub poll-Ended :
      (w : List Call) (q : Bool × List Call)
      → poll h address r w ≡ some q
      → Ended (value_of (h w now_ms) + r.timeout_ms) q
  unfolding poll
  poll-Ended w q e =
      poll_loop-Ended (suc r.timeout_ms) (value_of (h w now_ms) + r.timeout_ms) (now_ms ∷ w) q e
