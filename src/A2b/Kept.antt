-- ===== src/A2b/Kept.antt =====
-- What the phases of the bus keep of the controller's state.
use android_device_brcm_rpi.Common.{
  ℕ, ◌≡◌, refl, sym, ap, ◌∙◌, inl, inr, Bool, true, false, not, ◌&&◌, ◌||◌, Option, none, some,
  List, ◌∷◌, if◌then◌else◌, Host, if-elim, arith, Bool-cases,
}
use mathlib.Core.Path.{subst}
use android_device_brcm_rpi.A2b.Profile.{
  Phase, init, mute, unmute, shutdown, health, Profile, Call, open_bus, Answer,
}
use android_device_brcm_rpi.A2b.Execute.{execute, verify_nodes}
use android_device_brcm_rpi.A2b.Controller.{Fault, State, pcm_failure}
use android_device_brcm_rpi.A2b.Lifecycle.{
  with_error, run_profile, initialize_profile, run, stop, verify_profile, bring_up, give_up, finish,
  initialize, starts_muted,
}

-- Not muted, by a command or as the profile starts.
abbrev pub unmuted_for : Option Bool → Option Profile → Bool
unmuted_for (some b) p = not b
unmuted_for none none = false
unmuted_for none (some p) = not p.start_muted

-- A ready bus has a transport, a clock and is not quiesced; audio that is let through has a ready
-- bus, a clock that has not failed, and is not muted.
abbrev pub is_sound : State → Bool
is_sound s =
    (not s.ready || (s.has_transport && (s.clock_started && not s.quiesced)))
    && (not s.allow_audio || (s.ready && (not s.clock_failed && unmuted_for s.muted s.profile)))

abbrev pub set_error : Option Fault → State → State
set_error e s = record s { error = e }

unmuted-starts_muted :
    (m : Option Bool) (p : Profile) → starts_muted m p ≡ false → unmuted_for m (some p) ≡ true
unmuted-starts_muted none p e = ap not e
unmuted-starts_muted (some b) p e = ap not e

abbrev pub silenced : Option Fault → State → State
silenced e s = record s { error = e; ready = false; allow_audio = false }

abbrev opened_up : State → State
opened_up s = record s { allow_audio = true; error = none }

module _ (h : Host Call Answer) where
  with_error-keeps :
      (phase : Phase) (s : State) (q : Option ℕ × List Call)
      → (with_error phase s q).1 ≡ record s { error = (with_error phase s q).1.error }
  with_error-keeps phase s (none, w) = refl
  with_error-keeps phase s (some k, w) = refl

  run_profile-keeps :
      (phase : Phase) (s : State) (p : Option Profile) (w : List Call)
      → (run_profile h phase s p w).1 ≡ record s { error = (run_profile h phase s p w).1.error }
  run_profile-keeps phase s none w = refl
  run_profile-keeps phase s (some p) w = with_error-keeps phase s (execute h p phase w)

  run_if-keeps :
      (phase : Phase) (s : State) (w : List Call) (has : Bool)
      → let q : Bool × State × List Call =
          if not has then (true, s, w) else run_profile h phase s s.profile w in
        q.1 ≡ set_error q.1.error s
  run_if-keeps phase s w false = refl
  run_if-keeps phase s w true = run_profile-keeps phase s s.profile w

  -- A phase changes nothing but the error.
  pub run-keeps :
      (phase : Phase) (s : State) (w : List Call)
      → (run h phase s w).1 ≡ record s { error = (run h phase s w).1.error }
  unfolding run
  run-keeps phase s w = run_if-keeps phase s w s.has_transport

  pub stop-keeps :
      (s : State) (w : List Call)
      → (stop h s w).1
        ≡ record s { error = (stop h s w).1.error; ready = false; allow_audio = false }
  unfolding stop
  stop-keeps s w =
      let s1 = record s { ready = false; allow_audio = false } in
      let (_, s2, w2) = run h mute s1 w in
      run-keeps shutdown s2 w2
      ∙ ap (λ t. set_error ((run h shutdown s2 w2).1.error) t) (run-keeps mute s1 w)

  verify_profile-keeps :
      (s : State) (p : Profile) (w : List Call)
      → (verify_profile h s p w).1 ≡ record s { error = (verify_profile h s p w).1.error }
  unfolding verify_profile
  verify_profile-keeps s p w = elim (Bool-cases (verify_nodes h p w).0) [
    | inl ok ↦ rw ok refl
    | inr bad ↦ rw bad refl
  ]

  pub give_up-keeps :
      (error : Option Fault) (s : State) (w : List Call)
      → (give_up h error s w).1 ≡ record s { error = error; ready = false; allow_audio = false }
  unfolding give_up
  give_up-keeps error s w = ap (λ t. set_error (error) t) (stop-keeps s w)

  bring_up-keeps :
      (p : Profile) (s : State) (w : List Call)
      → (bring_up h p s w).1 ≡ record s { error = (bring_up h p s w).1.error }
  unfolding bring_up
  bring_up-keeps p s w =
      let (ok1, s1, w1) = run h init s w in
      let (ok2, s2, w2) = verify_profile h s1 p w1 in
      let (ok3, s3, w3) = run h health s2 w2 in
      let (ok4, s4, w4) = run h mute s3 w3 in
      let e1 = run-keeps init s w in
      let e2 = verify_profile-keeps s1 p w1 ∙ ap (λ t. set_error (s2.error) t) e1 in
      let e3 = run-keeps health s2 w2 ∙ ap (λ t. set_error (s3.error) t) e2 in
      let e4 = run-keeps mute s3 w3 ∙ ap (λ t. set_error (s4.error) t) e3 in
      elim (Bool-cases ok1) [
        | inr f ↦ rw f e1
        | inl f1 ↦ elim (Bool-cases ok2) [
          | inr f ↦ rw (f1, f) e2
          | inl f2 ↦ elim (Bool-cases ok3) [
            | inr f ↦ rw (f1, f2, f) e3
            | inl f3 ↦ rw (f1, f2, f3) e4
          ]
        ]
      ]

  -- What an initialization keeps, and that it leaves a sound state.
  abbrev pub Initialized : State → State → Type 0
  Initialized s s' =
      (is_sound s' ≡ true)
      × (s'.muted ≡ s.muted)
      × (s'.clock_started ≡ s.clock_started)
      × (s'.quiesced ≡ s.quiesced)

  pub silent-Initialized :
      (s s' : State) (e : Option Fault)
      → s' ≡ record s { error = e; ready = false; allow_audio = false }
      → Initialized s s'
  silent-Initialized s s' e same = subst (Initialized s) (sym same) (refl, refl, refl, refl)

  finish-Initialized :
      (p : Profile) (s : State) (w : List Call)
      → s.has_transport ≡ true
      → s.clock_started ≡ true
      → s.quiesced ≡ false
      → s.allow_audio ≡ false
      → s.profile ≡ some p
      → Initialized s (finish h p s w).1
  unfolding finish
  finish-Initialized p s w t c q a e =
      let s1 = record s { ready = true } in
      let (ok, s2, w2) = run h unmute s1 w in
      let P = λ (r : Bool × State × List Call). Initialized s r.1 in
      if-elim P s.clock_failed
        (λ cf. silent-Initialized s _ (some pcm_failure) (give_up-keeps (some pcm_failure) s1 w))
        (λ cf.
          if-elim P (starts_muted s.muted p) (λ sm. (ground arith, refl, refl, refl))
            (λ sm.
              if-elim P ok
                (λ up.
                  subst (λ t. Initialized s (opened_up t)) (sym (run-keeps unmute s1 w))
                    (ground (arith, unmuted-starts_muted s.muted p sm), refl, refl, refl))
                (λ bad. silent-Initialized s _ (stop h s2 w2).1.error (
                  stop-keeps s2 w2
                  ∙ ap (λ t. silenced (stop h s2 w2).1.error t) (run-keeps unmute s1 w)))))

  initialize_profile-Initialized :
      (s : State) (p : Option Profile) (w : List Call)
      → s.clock_started ≡ true
      → s.quiesced ≡ false
      → s.allow_audio ≡ false
      → s.ready ≡ false
      → s.profile ≡ p
      → Initialized s (initialize_profile h s p w).1
  initialize_profile-Initialized s none w c q a r e = (ground arith, refl, refl, refl)
  initialize_profile-Initialized s (some p) w c q a r e =
      let s1 = record s { has_transport = true } in
      let (up, s2, w2) = bring_up h p s1 (open_bus p.i2c_bus ∷ w) in
      let keeps = bring_up-keeps p s1 (open_bus p.i2c_bus ∷ w) in
      let P = λ (r : Bool × State × List Call). Initialized s r.1 in
      if-elim P up
        (λ ok.
          subst (λ t. Initialized s (finish h p t w2).1) (sym keeps)
            (finish-Initialized p (set_error s2.error s1) w2 refl c q a e))
        (λ bad.
          silent-Initialized s1 _ s2.error
            (give_up-keeps s2.error s2 w2 ∙ ap (λ t. silenced s2.error t) keeps))

  pub initialize-Initialized :
      (s : State) (w : List Call)
      → s.clock_started ≡ true
      → s.quiesced ≡ false
      → Initialized s (initialize h s w).1
  unfolding initialize
  initialize-Initialized s w c q =
      initialize_profile-Initialized (record s { allow_audio = false; ready = false }) s.profile w c
        q refl refl refl
