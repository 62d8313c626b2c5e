-- ===== src/A2b/Routing.antt =====
-- The routing of the bus after an execution: NODEADR is cleared.
use android_device_brcm_rpi.Common.{
  ℕ, zero, suc, ◌+◌, ◌-◌, ◌≡◌, inl, inr, refl, ◌∙◌, min, Bool, true, not, ◌==◌, ◌&&◌, List, [], ◌∷◌,
  if◌then◌else◌, Host, arith, Bool-cases,
}
use android_device_brcm_rpi.A2b.Profile.{
  Target, main, node, peripheral, Register, Operation, delay_op, write_op, update_op, verify_op,
  poll_op, Phase, Profile, Call, bus_write, bus_read, bus_delay, now_ms, Answer, succeeds, value_of,
}
use android_device_brcm_rpi.A2b.Execute.{
  select, address_of, update, shows, verify, poll_loop, poll, or_failed, access, target_of, is_main,
  restore, run_operation, goes_on, run_operations, execute,
}

-- Whether the last write to register 1 of the main node, if there was one, wrote 0: neither a node
-- nor a peripheral is selected.
abbrev pub cleared : ℕ → List Call → Bool
cleared m [] = true
cleared m (bus_write address reg value ∷ w) =
    if address == m && reg == 1 then value == 0 else cleared m w
cleared m (_ ∷ w) = cleared m w

-- What parseProfile demands of an operation on the main node: it does not write register 1.
abbrev pub is_safe : Operation → Bool
is_safe (write_op r) = not (is_main r.target && r.reg == 1)
is_safe (update_op r) = not (is_main r.target && r.reg == 1)
is_safe (verify_op r) = true
is_safe (poll_op r) = true
is_safe (delay_op ms) = true

abbrev pub AllSafe : List Operation → Type 0
AllSafe [] = Unit {0}
AllSafe (o ∷ os) = (is_safe o ≡ true) × AllSafe os

module _ (h : Host Call Answer) (m : ℕ) where
  -- A poll only reads.
  cleared-poll_loop :
      (fuel address : ℕ) (r : Register) (deadline : ℕ) (w v : List Call)
      → cleared m v ≡ cleared m w
      → cleared m (or_failed v (poll_loop h fuel address r deadline w)).1 ≡ cleared m w
  unfolding poll_loop
  cleared-poll_loop zero address r deadline w v e = e
  cleared-poll_loop (suc fuel) address r deadline w v e =
      let w1 = bus_read address r.reg ∷ w in
      let s = min 5 (deadline - value_of (h w1 now_ms)) in
      let ih = cleared-poll_loop fuel address r deadline (bus_delay s ∷ now_ms ∷ w1) v e in
      elim (Bool-cases (succeeds (h w (bus_read address r.reg)))) [
        | inr failed ↦ rw failed
        | inl got ↦ elim (Bool-cases (shows r (h w (bus_read address r.reg)))) [
          | inl shown ↦ rw (got, shown)
          | inr other ↦ elim (Bool-cases ((deadline - value_of (h w1 now_ms)) == 0)) [
            | inl late ↦ rw (got, other, late)
            | inr early ↦ rw (got, other, early) ih
          ]
        ]
      ]

  cleared-poll :
      (address : ℕ) (r : Register) (w : List Call)
      → cleared m (or_failed w (poll h address r w)).1 ≡ cleared m w
  unfolding poll
  cleared-poll address r w = cleared-poll_loop (suc r.timeout_ms) address r _ (now_ms ∷ w) w refl

  -- A safe operation on the main node leaves the routing alone.
  cleared-access :
      (o : Operation) (w : List Call)
      → is_safe o ≡ true
      → is_main (target_of o) ≡ true
      → cleared m (access h m o w).1 ≡ cleared m w
  unfolding access update verify
  cleared-access (delay_op ms) w safe e = refl
  cleared-access (write_op r) w safe e = ground arith
  cleared-access (update_op r) w safe e = ground arith
  cleared-access (verify_op r) w safe e = ground arith
  cleared-access (poll_op r) w safe e = cleared-poll (address_of m r.target) r w

  main_only : (t : Target) → is_main t ≡ true → t ≡ main
  main_only main e = refl
  main_only (node i) e = cc
  main_only (peripheral n a) e = cc

  cleared-run_operation :
      (o : Operation) (w : List Call)
      → is_safe o ≡ true
      → cleared m w ≡ true
      → cleared m (run_operation h m o w).1 ≡ true
  unfolding run_operation restore select
  cleared-run_operation o w safe e = elim (Bool-cases (is_main (target_of o))) [
    | inl at_main ↦
        rw (at_main, main_only (target_of o) at_main) (cleared-access o w safe at_main ∙ e)
    | inr remote ↦ rw remote (ground arith)
  ]

  cleared-run_operations :
      (on : Bool) (i : ℕ) (os : List Operation) (w : List Call)
      → AllSafe os
      → cleared m w ≡ true
      → cleared m (run_operations h m on i os w).1 ≡ true
  unfolding run_operations
  cleared-run_operations on i [] w safe e = e
  cleared-run_operations on i (o ∷ os) w (s, safe) e =
      let w' = (run_operation h m o w).1 in
      let one = cleared-run_operation o w s e in
      let all = cleared-run_operations on (i + 1) os w' safe one in
      elim (Bool-cases (run_operation h m o w).0) [
        | inl ok ↦ rw ok all
        | inr bad ↦ elim (Bool-cases on) [
          | inl goes ↦ rw (bad, goes) all
          | inr stops ↦ rw (bad, stops) one
        ]
      ]

-- If the last write to register 1 of the main node was a 0, or there was none, then so it is again
-- after a phase of a profile whose operations on the main node leave register 1 alone: on every
-- outcome of every call, a failed write of the restoring 0 included, which is an attempt in the
-- trace as well.
pub execute-cleared :
    (h : Host Call Answer) (p : Profile) (phase : Phase) (w : List Call)
    → AllSafe (p.sequences phase)
    → cleared p.main_address w ≡ true
    → cleared p.main_address (execute h p phase w).1 ≡ true
unfolding execute
execute-cleared h p phase w safe e =
    cleared-run_operations h p.main_address (goes_on phase) 0 (p.sequences phase) w safe e
