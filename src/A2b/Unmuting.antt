-- ===== src/A2b/Unmuting.antt =====
-- audio/a2b/A2bController.cpp: what "unmute" has done when it replies OK.
use android_device_brcm_rpi.Common.{
  if-elim, ℕ, ◌≡◌, ◌≢◌, ◌⊎◌, inl, inr, refl, sym, ap, ◌∙◌, Bool, true, false, not, ◌&&◌, ◌||◌,
  Option, none, some, List, if◌then◌else◌, Host, arith,
}
use android_device_brcm_rpi.A2b.Profile.{Phase, health, unmute, Profile, Call, Answer}
use android_device_brcm_rpi.A2b.Execute.{execute}
use android_device_brcm_rpi.A2b.Controller.{State}
use android_device_brcm_rpi.A2b.Lifecycle.{with_error, run_profile, run}
use android_device_brcm_rpi.A2b.Commands.{try_unmute, do_unmute, Reply, ok_reply}

-- What a run of both phases without an error is: `w2` are the calls after it.
abbrev pub BothRan : Host Call Answer → Profile → List Call → List Call → Type 0
BothRan h p w w2 =
    ((execute h p health w).0 ≡ none)
    × ((execute h p unmute (execute h p health w).1).0 ≡ none)
    × (w2 ≡ (execute h p unmute (execute h p health w).1).1)

-- A reply OK with audio allowed after both phases, or another with audio not allowed.
abbrev pub Unmuted :
    Host Call Answer → Profile → State → List Call → Reply × State × List Call → Type 0
Unmuted h p s w (reply, s', w') =
    ((reply ≡ ok_reply) × (s.clock_failed ≡ false) × BothRan h p w w' × (s'.allow_audio ≡ true))
    ⊎ ((reply ≢ ok_reply) × (s'.allow_audio ≡ false))

module _ (h : Host Call Answer) (p : Profile) where
  with_error-none :
      (phase : Phase) (s : State) (q : Option ℕ × List Call)
      → (with_error phase s q).0 ≡ true
      → (q.0 ≡ none) × ((with_error phase s q).1 ≡ s) × ((with_error phase s q).2 ≡ q.1)
  with_error-none phase s (none, w) e = (refl, refl, refl)
  with_error-none phase s (some k, w) e = cc

  run_profile-none :
      (phase : Phase) (s : State) (mp : Option Profile) (has : Bool) (w : List Call)
      → has ≡ true
      → mp ≡ some p
      → let q : Bool × State × List Call =
          if not has then (true, s, w) else run_profile h phase s mp w in
        q.0 ≡ true → ((execute h p phase w).0 ≡ none) × (q.1 ≡ s) × (q.2 ≡ (execute h p phase w).1)
  run_profile-none phase s mp has w there same =
      rw (there, same) (with_error-none phase s (execute h p phase w))

  -- A phase that succeeds on a bus with a profile ran without an error and keeps the state.
  run-none :
      (phase : Phase) (s : State) (w : List Call)
      → s.has_transport ≡ true
      → s.profile ≡ some p
      → (run h phase s w).0 ≡ true
      → ((execute h p phase w).0 ≡ none)
        × ((run h phase s w).1 ≡ s)
        × ((run h phase s w).2 ≡ (execute h p phase w).1)
  unfolding run
  run-none phase s w there same = run_profile-none phase s s.profile s.has_transport w there same

  try_unmute-BothRan :
      (s : State) (w : List Call)
      → s.has_transport ≡ true
      → s.profile ≡ some p
      → (try_unmute h s w).0 ≡ true
      → (s.clock_failed ≡ false) × BothRan h p w (try_unmute h s w).2
  unfolding try_unmute
  try_unmute-BothRan s w there same =
      let (healthy, s1, w1) = run h health s w in
      let (unmuted, s2, w2) = run h unmute s1 w1 in
      let P = λ (r : Bool × State × List Call).
        r.0 ≡ true → (s.clock_failed ≡ false) × BothRan h p w r.2 in
      if-elim P s.clock_failed (λ c e. cc)
        (λ c.
          if-elim P (not healthy) (λ bad e. cc)
            (λ good e.
              let (first, kept, calls) = run-none health s w there same (ground arith) in
              let (second, kept2, calls2) =
                run-none unmute s1 w1 (ap (λ t. t.has_transport) kept ∙ there)
                  (ap (λ t. t.profile) kept ∙ same) e in
              (
                c,
                (
                  first,
                  ap (λ v. (execute h p unmute v).0) (sym calls) ∙ second,
                  calls2 ∙ ap (λ v. (execute h p unmute v).1) calls,
                ),
              )))

  -- An "unmute" on a ready bus that is not quiesced, with a clock, a transport and the profile p:
  -- when it replies OK, the clock had not failed, the health and then the unmute sequence of the
  -- profile ran without an error and were all that was done, and audio is allowed; with any other
  -- reply audio is not allowed.
  pub do_unmute_lem :
      (s : State) (w : List Call)
      → s.has_transport ≡ true
      → s.profile ≡ some p
      → s.clock_started ≡ true
      → s.ready ≡ true
      → s.quiesced ≡ false
      → Unmuted h p s w (do_unmute h s w)
  unfolding do_unmute
  do_unmute_lem s w there same clock ready quiet =
      let s0 = record s { muted = some false } in
      let (ok, s1, w1) = try_unmute h s0 w in
      let P = λ (r : Reply × State × List Call). Unmuted h p s w r in
      if-elim P (s.quiesced || (s.clock_started && not s.ready)) (λ e. absurd (ground arith))
        (λ e.
          if-elim P (not s.clock_started) (λ c. absurd (ground arith))
            (λ c.
              if-elim P ok
                (λ up.
                  let (fine, ran) = try_unmute-BothRan s0 w there same up in
                  inl (refl, fine, ran, refl))
                (λ bad. inr (λ q. cc, refl))))
