-- ===== src/A2b/Audible.antt =====
-- When the controller lets audio through.
use android_device_brcm_rpi.Common.{
  if-elim, ℕ, ◌+◌, ◌≡◌, refl, sym, ap, ◌∙◌, Bool, true, false, not, ◌&&◌, ◌||◌, Option, none, some,
  List, [], ◌∷◌, if◌then◌else◌, Host, call, arith,
}
use mathlib.Core.Path.{subst}
use android_device_brcm_rpi.A2b.Profile.{
  mute, unmute, health, Profile, Call, get_profile_property, set_profile_property, Answer, succeeds,
}
use android_device_brcm_rpi.A2b.Controller.{Fault, State, new_state, pcm_failure}
use android_device_brcm_rpi.A2b.Loading.{Loaded, load}
use android_device_brcm_rpi.A2b.Lifecycle.{run, stop, initialize}
use android_device_brcm_rpi.A2b.Commands.{
  acquire, release, Request, status_request, reload_request, mute_request, unmute_request,
  quiesce_request, resume_request, unknown_request, Reply, switch_profile, reload, do_mute,
  try_unmute, do_unmute, wrapped, loaded_into, reload_loaded, property_or_default, failed_to,
  do_quiesce, do_resume, command, check_health, fail_clock, Event, acquired, released, requested,
  health_checked, clock_lost, step, run_events,
}
use android_device_brcm_rpi.A2b.Kept.{
  is_sound, set_error, silenced, run-keeps, stop-keeps, initialize-Initialized,
}

module _ (h : Host Call Answer) where
  abbrev Sound : State → Type 0
  Sound s = is_sound s ≡ true

  -- A state whose bus is not ready and whose audio is off.
  silenced-Sound : (s t : State) (e : Option Fault) → t ≡ silenced e s → Sound t
  silenced-Sound s t e same = subst Sound (sym same) refl

  do_mute-Sound : (s : State) (w : List Call) → Sound s → Sound (do_mute h s w).1
  unfolding do_mute
  do_mute-Sound s w sound =
      let s1 = record s { allow_audio = false; muted = some true } in
      if-elim (λ (r : Reply × State × List Call). Sound r.1) s.clock_started
        (λ c. subst Sound (sym (run-keeps h mute s1 w)) (ground arith)) (λ c. ground arith)

  do_quiesce-Sound : (s : State) (w : List Call) → Sound s → Sound (do_quiesce h s w).1
  unfolding do_quiesce
  do_quiesce-Sound s w sound =
      let s1 = record s { muted = some true; quiesced = true } in
      if-elim (λ (r : Reply × State × List Call). Sound r.1) s.clock_started
        (λ c. silenced-Sound s1 _ (stop h s1 w).1.error (stop-keeps h s1 w)) (λ c. ground arith)

  do_resume-Sound : (s : State) (w : List Call) → Sound s → Sound (do_resume h s w).1
  unfolding do_resume
  do_resume-Sound s w sound =
      let s1 = record s { quiesced = false; muted = some true; clock_failed = false } in
      let (_, s2, w2) = stop h s1 w in
      let kept = stop-keeps h s1 w in
      if-elim (λ (r : Reply × State × List Call). Sound r.1) s.clock_started
        (λ c.
          (initialize-Initialized h s2 w2 (ap (λ t. t.clock_started) kept ∙ c)
            (ap (λ t. t.quiesced) kept)).0)
        (λ c. ground arith)

  -- The checks before the unmute sequence keep all but the error.
  try_unmute-keeps :
      (s : State) (w : List Call) → (try_unmute h s w).1 ≡ set_error (try_unmute h s w).1.error s
  unfolding try_unmute
  try_unmute-keeps s w =
      let (healthy, s1, w1) = run h health s w in
      let (unmuted, s2, w2) = run h unmute s1 w1 in
      let P = λ (r : Bool × State × List Call). r.1 ≡ set_error r.1.error s in
      if-elim P s.clock_failed (λ f. refl)
        (λ f.
          if-elim P (not healthy) (λ e. run-keeps h health s w)
            (λ e.
              run-keeps h unmute s1 w1 ∙ ap (λ t. set_error s2.error t) (run-keeps h health s w)))

  try_unmute-clock :
      (s : State) (w : List Call) → (try_unmute h s w).0 ≡ true → s.clock_failed ≡ false
  unfolding try_unmute
  try_unmute-clock s w e = ground arith

  do_unmute-Sound : (s : State) (w : List Call) → Sound s → Sound (do_unmute h s w).1
  unfolding do_unmute
  do_unmute-Sound s w sound =
      let s0 = record s { muted = some false } in
      let (ok, s1, w1) = try_unmute h s0 w in
      let P = λ (r : Reply × State × List Call). Sound r.1 in
      if-elim P (s.quiesced || (s.clock_started && not s.ready)) (λ e. sound)
        (λ e.
          if-elim P (not s.clock_started) (λ c. ground arith)
            (λ c.
              if-elim P ok
                (λ up.
                  subst (λ t. Sound (record t { allow_audio = true })) (sym (try_unmute-keeps s0 w))
                    (ground (arith, try_unmute-clock s0 w up)))
                (λ bad.
                  subst (λ t. Sound (record t { muted = some true; allow_audio = false }))
                    (sym (stop-keeps h s1 w1)) refl)))

  check_health-Sound : (s : State) (w : List Call) → Sound s → Sound (check_health h s w).0
  unfolding check_health
  check_health-Sound s w sound =
      let (healthy, s1, w1) = run h health s w in
      let (s2, w2) : State × List Call = if s.clock_failed then (s, w) else (s1, w1) in
      let error = if s.clock_failed then some pcm_failure else s1.error in
      let P = λ (r : State × List Call). Sound r.0 in
      if-elim P (not s.clock_started || (not s.ready || s.quiesced)) (λ e. sound)
        (λ e.
          if-elim P (s.clock_failed || not healthy)
            (λ bad.
              subst (λ t. Sound (set_error (wrapped error) t))
                (sym (stop-keeps h (record s2 { muted = some true }) w2)) refl)
            (λ fine. subst Sound (sym (run-keeps h health s w)) sound))

  switch_profile-Sound :
      (p : Profile) (s : State) (w : List Call) → Sound s → Sound (switch_profile h p s w).1
  unfolding switch_profile
  switch_profile-Sound p s w sound =
      let (stopped, s1, w1) = stop h s w in
      let (s2, w2) : State × List Call = if s.clock_started then (s1, w1) else (s, w) in
      let s3 = record s2 { has_transport = false; profile = some p; muted = some true } in
      let (up, s4, w4) = initialize h s3 w2 in
      let (_, s5, w5) = initialize h (record s4 { profile = s2.profile }) w4 in
      let tried = s.clock_started && not s.quiesced in
      let (s6, w6) : State × List Call = if tried then (s4, w4) else (s3, w2) in
      let (a, w7) = call h (set_profile_property p.id) w6 in
      let P = λ (r : Reply × State × List Call). Sound r.1 in
      let kept = stop-keeps h s w in
      let Silent = λ (r : State × List Call).
        (r.0.ready ≡ false)
        × (r.0.allow_audio ≡ false)
        × (r.0.clock_started ≡ s.clock_started)
        × (r.0.quiesced ≡ s.quiesced) in
      let (not_ready, off, clock, quiet) : Silent (s2, w2) =
        if-elim Silent s.clock_started
          (λ c. subst (λ t. Silent (t, w1)) (sym kept) (refl, refl, refl, refl))
          (λ c. (ground arith, ground arith, refl, refl)) in
      let up_state = λ (tr : tried ≡ true).
        initialize-Initialized h s3 w2 (clock ∙ ground arith) (quiet ∙ ground arith) in
      let s6_sound : Sound s6 =
        if-elim (λ (r : State × List Call). Sound r.0) tried (λ tr. (up_state tr).0)
          (λ tr. ground arith) in
      if-elim P (s.clock_started && not stopped) (λ e. silenced-Sound s s1 s1.error kept)
        (λ e.
          if-elim P (tried && not up)
            (λ f.
              (initialize-Initialized h (record s4 { profile = s2.profile }) w4
                ((up_state (ground arith)).2 ∙ clock ∙ ground arith)
                ((up_state (ground arith)).3 ∙ quiet ∙ ground arith)).0)
            (λ f. if-elim P (succeeds a) (λ g. s6_sound) (λ g. s6_sound)))

  reload_loaded-Sound :
      (l : Loaded) (s : State) (w : List Call) → Sound s → Sound (reload_loaded h s l w).1
  reload_loaded-Sound (none, e) s w sound = sound
  reload_loaded-Sound (some p, some e) s w sound = sound
  reload_loaded-Sound (some p, none) s w sound = switch_profile-Sound p s w sound

  reload-Sound : (id : List ℕ) (s : State) (w : List Call) → Sound s → Sound (reload h id s w).1
  unfolding reload
  reload-Sound id s w sound = let (l, w') = load h id w in reload_loaded-Sound l s w' sound

  loaded_into-Sound :
      (l : Loaded) (s : State) → s.ready ≡ false → s.allow_audio ≡ false → Sound (loaded_into s l)
  loaded_into-Sound (none, e) s r a = ground arith
  loaded_into-Sound (some p, e) s r a = ground arith

  loaded_into-clock : (l : Loaded) (s : State) → (loaded_into s l).clock_started ≡ s.clock_started
  loaded_into-clock (none, e) s = refl
  loaded_into-clock (some p, e) s = refl

  acquire-Sound : (s : State) (w : List Call) → Sound s → Sound (acquire h s w).0
  unfolding acquire
  acquire-Sound s w sound =
      let P = λ (r : State × List Call). Sound r.0 in
      let s1 = record s { users = s.users + 1; clock_started = true } in
      let w1 = get_profile_property ∷ w in
      let (l, w2) = load h (property_or_default (h w get_profile_property)) w1 in
      let s2 = loaded_into s1 l in
      if-elim P s.clock_started (λ c. sound)
        (λ c.
          if-elim P (failed_to l.1) (λ f. loaded_into-Sound l s1 (ground arith) (ground arith))
            (λ f.
              if-elim P s2.quiesced (λ q. loaded_into-Sound l s1 (ground arith) (ground arith))
                (λ q. (initialize-Initialized h s2 w2 (loaded_into-clock l s1) q).0)))

  command-Sound : (r : Request) (s : State) (w : List Call) → Sound s → Sound (command h r s w).1
  unfolding command
  command-Sound status_request s w sound = sound
  command-Sound (reload_request id) s w sound = reload-Sound id s w sound
  command-Sound mute_request s w sound = do_mute-Sound s w sound
  command-Sound unmute_request s w sound = do_unmute-Sound s w sound
  command-Sound quiesce_request s w sound = do_quiesce-Sound s w sound
  command-Sound resume_request s w sound = do_resume-Sound s w sound
  command-Sound unknown_request s w sound = sound

  step-Sound : (e : Event) (s : State) (w : List Call) → Sound s → Sound (step h e s w).0
  unfolding step release fail_clock
  step-Sound acquired s w sound = acquire-Sound s w sound
  step-Sound released s w sound = sound
  step-Sound (requested r) s w sound = command-Sound r s w sound
  step-Sound health_checked s w sound = check_health-Sound s w sound
  step-Sound clock_lost s w sound = ground arith

  run_events-Sound :
      (es : List Event) (s : State) (w : List Call) → Sound s → Sound (run_events h es s w).0
  unfolding run_events
  run_events-Sound [] s w sound = sound
  run_events-Sound (e ∷ es) s w sound =
      run_events-Sound es (step h e s w).0 (step h e s w).1 (step-Sound e s w sound)

-- Whatever the clients, the control socket, the health checks and the PCM's failures do to a new
-- controller, one whole call at a time in any order, and whatever the bus and the files answer: a bus that is ready has a
-- transport, a started clock and is not quiesced, and audio is let through only on a ready bus with
-- a clock that has not failed and when neither a command nor the profile's start mutes it.
pub run_events-is_sound :
    (h : Host Call Answer) (es : List Event) (w : List Call)
    → is_sound (run_events h es new_state w).0 ≡ true
run_events-is_sound h es w = run_events-Sound h es new_state w refl
