-- ===== src/A2b/Phases.antt =====
-- How far an execution goes: the phases `mute` and `shutdown` attempt every operation, the others
-- stop at the first failure.
use android_device_brcm_rpi.Common.{
  ℕ, suc, ◌+◌, ◌≡◌, refl, Bool, true, false, ◌&&◌, Option, none, some, List, [], ◌∷◌, if◌then◌else◌,
  Host, arith, Bool-cases, take, inl, inr,
}
use mathlib.Core.Path.{subst}
use android_device_brcm_rpi.A2b.Profile.{Operation, Phase, Profile, Call, Answer}
use android_device_brcm_rpi.A2b.Execute.{run_operation, goes_on, run_operations, execute}

-- Every operation attempted, in order.
pub attempt_all : Host Call Answer → ℕ → List Operation → List Call → List Call
attempt_all h m [] w = w
attempt_all h m (o ∷ os) w = attempt_all h m os (run_operation h m o w).1

-- Whether all of them succeed.
pub all_ok : Host Call Answer → ℕ → List Operation → List Call → Bool
all_ok h m [] w = true
all_ok h m (o ∷ os) w = (run_operation h m o w).0 && all_ok h m os (run_operation h m o w).1

-- No error: all operations were attempted and succeeded. An error k: those before operation k
-- succeeded, operation k failed, and the calls are those of all operations for a phase that goes
-- on, of the operations up to k for another.
abbrev pub Ran :
    Host Call Answer → ℕ → Bool → List Operation → List Call → Option ℕ × List Call → Type 0
Ran h m on os w (none, w') = (all_ok h m os w ≡ true) × (w' ≡ attempt_all h m os w)
Ran h m on os w (some k, w') =
    (all_ok h m (take k os) w ≡ true)
    × (all_ok h m (take (suc k) os) w ≡ false)
    × (w' ≡ attempt_all h m (if on then os else take (suc k) os) w)

-- The same, for a round whose first operation has the number i.
abbrev RanFrom :
    Host Call Answer → ℕ → Bool → ℕ → List Operation → List Call → Option ℕ × List Call → Type 0
RanFrom h m on i os w (none, w') = Ran h m on os w (none, w')
RanFrom h m on i os w (some j, w') = (k : ℕ) × (j ≡ k + i) × Ran h m on os w (some k, w')

module _ (h : Host Call Answer) (m : ℕ) (on : Bool) where
  RanFrom-after :
      (i : ℕ) (o : Operation) (os : List Operation) (w : List Call) (q : Option ℕ × List Call)
      → (run_operation h m o w).0 ≡ true
      → RanFrom h m on (i + 1) os (run_operation h m o w).1 q
      → RanFrom h m on i (o ∷ os) w q
  unfolding attempt_all all_ok
  RanFrom-after i o os w (none, w') ok (all, calls) = (rw ok all, calls)
  RanFrom-after i o os w (some j, w') ok (k, e, (before, at, calls)) = (
    suc k,
    omega arith,
    (
      rw ok before,
      rw ok at,
      elim (Bool-cases on) [
        | inl goes ↦ rw goes (rw goes at calls)
        | inr stops ↦ rw stops (rw stops at calls)
      ],
    ),
  )

  RanFrom-calls :
      (i : ℕ) (os : List Operation) (w : List Call) (q : Option ℕ × List Call)
      → on ≡ true
      → RanFrom h m on i os w q
      → q.1 ≡ attempt_all h m os w
  RanFrom-calls i os w (none, w') goes (all, calls) = calls
  RanFrom-calls i os w (some j, w') goes (k, e, (before, at, calls)) = rw goes at calls

  run_operations-RanFrom :
      (i : ℕ) (os : List Operation) (w : List Call)
      → RanFrom h m on i os w (run_operations h m on i os w)
  unfolding run_operations attempt_all all_ok
  run_operations-RanFrom i [] w = (refl, refl)
  run_operations-RanFrom i (o ∷ os) w =
      let w' = (run_operation h m o w).1 in
      let ih = run_operations-RanFrom (i + 1) os w' in
      elim (Bool-cases (run_operation h m o w).0) [
        | inl ok ↦ rw ok (RanFrom-after i o os w (run_operations h m on (i + 1) os w') ok ih)
        | inr bad ↦ elim (Bool-cases on) [
          | inl goes ↦
              rw (bad, goes)
                (
                  0,
                  omega arith,
                  (
                    refl,
                    rw bad,
                    RanFrom-calls (i + 1) os w' (run_operations h m on (i + 1) os w') goes ih,
                  ),
                )
          | inr stops ↦ rw (bad, stops) (0, omega arith, (refl, rw bad, refl))
        ]
      ]

Ran-from :
    (h : Host Call Answer) (m : ℕ) (on : Bool) (os : List Operation) (w : List Call)
    (q : Option ℕ × List Call)
    → RanFrom h m on 0 os w q
    → Ran h m on os w q
Ran-from h m on os w (none, w') ran = ran
Ran-from h m on os w (some j, w') (k, e, ran) =
    subst (λ n. Ran h m on os w (some n, w')) (omega arith) ran

-- An execution of a phase: without an error every operation was attempted, in order, and succeeded;
-- with the error k the operations before k succeeded and operation k failed, and then `mute` and
-- `shutdown` have attempted all operations of the phase all the same, and the other phases those up
-- to k and no more.
pub execute-Ran :
    (h : Host Call Answer) (p : Profile) (phase : Phase) (w : List Call)
    → Ran h p.main_address (goes_on phase) (p.sequences phase) w (execute h p phase w)
unfolding execute
execute-Ran h p phase w =
    Ran-from h p.main_address (goes_on phase) (p.sequences phase) w (execute h p phase w)
      (run_operations-RanFrom h p.main_address (goes_on phase) 0 (p.sequences phase) w)
