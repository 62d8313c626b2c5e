-- ===== src/Effects/Running.antt =====
-- audio/EffectImpl.cpp and audio/EffectThread.cpp: when the worker thread exists and when it runs.
use android_device_brcm_rpi.Common.{
  ◌≡◌, refl, sym, Bool, true, false, not, ◌||◌, List, [], ◌∷◌, Host, arith, if-elim,
}
use mathlib.Core.Path.{subst}
use android_device_brcm_rpi.Effects.Instance.{
  Command, start, stop, reset, unknown_command, Outcome, Effect, Call, wake, Answer, new_effect,
  succeeded, is_init, is_idle, is_processing, create_thread, destroy_thread, start_thread,
  stop_thread, finish_draining, open_effect, close, command_impl, command_start, halt, dispatch,
  command, draining_complete, process, thread_round, destroy_effect,
}
use android_device_brcm_rpi.Effects.Lifecycle.{
  Event, opened, reopened, closed, destroyed, worked, commanded, IsGuarded, serve, run,
  serve-IsGuarded, reopen-same, command-IsGuarded, close-IsGuarded,
}

-- The thread exists outside INIT, and is not stopped in PROCESSING, exactly.
abbrev pub IsSound : Effect → Type 0
IsSound e =
    IsGuarded e
    × (is_init e.state ≡ not e.thread.is_joinable)
    × (is_processing e.state ≡ not e.thread.is_stopped)

-- The worker and the state, for an effect that is guarded.
abbrev pub Agrees : Effect → Type 0
Agrees e =
    (is_init e.state ≡ not e.thread.is_joinable) × (is_processing e.state ≡ not e.thread.is_stopped)

module _ (h : Host Call Answer) (wakes : (w : List Call) → succeeded (h w wake) ≡ true) where
  open_effect-Agrees :
      (e : Effect) (floats specific : Bool) (w : List Call)
      → IsSound e
      → Agrees (open_effect h e floats specific w).1
  unfolding open_effect create_thread
  open_effect-Agrees e floats specific w ((calm, still, alive, guarded), thread, runs) =
      ground arith

  close-Agrees : (e : Effect) (w : List Call) → IsSound e → Agrees (close h e w).1
  unfolding close destroy_thread
  close-Agrees e w ((calm, still, alive, guarded), thread, runs) = ground (arith, wakes w)

  halt-Agrees :
      (e : Effect) (c : Command) (w : List Call)
      → is_init e.state ≡ false
      → IsSound e
      → Agrees (halt h e c w).1
  unfolding halt stop_thread
  halt-Agrees e c w lives ((calm, still, alive, guarded), thread, runs) = ground (arith, wakes w)

  command_start-Agrees :
      (e : Effect) (w : List Call)
      → is_init e.state ≡ false
      → IsSound e
      → Agrees (command_start h e w).1
  unfolding command_start start_thread
  command_start-Agrees e w lives ((calm, still, alive, guarded), thread, runs) =
      ground (arith, wakes (command_impl h e start w).1)

  dispatch-Agrees :
      (e : Effect) (c : Command) (w : List Call)
      → is_init e.state ≡ false
      → IsSound e
      → Agrees (dispatch h e c w).1
  dispatch-Agrees e start w lives sound = command_start-Agrees e w lives sound
  dispatch-Agrees e stop w lives sound =
      if-elim (λ (r : Outcome × Effect × List Call). Agrees r.1) (is_idle e.state)
        (λ i. (sound.1, sound.2)) (λ i. halt-Agrees e stop w lives sound)
  dispatch-Agrees e reset w lives sound = halt-Agrees e reset w lives sound
  dispatch-Agrees e unknown_command w lives sound = (sound.1, sound.2)

  command-IsSound :
      (e : Effect) (c : Command) (w : List Call) → IsSound e → IsSound (command h e c w).1
  unfolding command
  command-IsSound e c w sound =
      let agrees =
        if-elim (λ (r : Outcome × Effect × List Call). Agrees r.1) (is_init e.state)
          (λ i. (sound.1, sound.2)) (λ lives. dispatch-Agrees e c w lives sound) in
      (command-IsGuarded h e c w sound.0, agrees.0, agrees.1)

  close-IsSound : (e : Effect) (w : List Call) → IsSound e → IsSound (close h e w).1
  close-IsSound e w sound =
      let agrees = close-Agrees e w sound in (close-IsGuarded h e w sound.0, agrees.0, agrees.1)

  process_same : (e : Effect) (w : List Call) → IsGuarded e → (process h e w).0 ≡ e
  unfolding process draining_complete finish_draining
  process_same e w (calm, still, alive, guarded) = ground arith

  thread_round_same : (e : Effect) (w : List Call) → IsGuarded e → (thread_round h e w).0 ≡ e
  unfolding thread_round
  thread_round_same e w guarded =
      if-elim (λ (r : Effect × List Call). r.0 ≡ e)
        (not e.thread.is_joinable || e.thread.is_exiting || e.thread.is_stopped) (λ i. refl)
        (λ runs. process_same e w guarded)

  serve-IsSound : (e : Effect) (v : Event) (w : List Call) → IsSound e → IsSound (serve h e v w).0
  unfolding serve destroy_effect
  serve-IsSound e (opened floats specific) w sound =
      let agrees = open_effect-Agrees e floats specific w sound in
      (serve-IsGuarded h e (opened floats specific) w sound.0, agrees.0, agrees.1)
  serve-IsSound e reopened w sound = subst IsSound (sym (reopen-same h e w)) sound
  serve-IsSound e closed w sound = close-IsSound e w sound
  serve-IsSound e destroyed w sound =
      let (st1, e1, w1) = command h e reset w in
      close-IsSound e1 w1 (command-IsSound e reset w sound)
  serve-IsSound e worked w sound = subst IsSound (sym (thread_round_same e w sound.0)) sound
  serve-IsSound e (commanded c) w sound = command-IsSound e c w sound

  run_from : (e : Effect) (vs : List Event) (w : List Call) → IsSound e → IsSound (run h e vs w).0
  unfolding run
  run_from e [] w sound = sound
  run_from e (v ∷ vs) w sound =
      let (e', w') = serve h e v w in run_from e' vs w' (serve-IsSound e v w sound)

  -- The worker is silent and changes nothing in a state that is not PROCESSING.
  round_silent :
      (e : Effect) (w : List Call)
      → IsSound e
      → is_processing e.state ≡ false
      → thread_round h e w ≡ (e, w)
  unfolding thread_round
  round_silent e w (guarded, thread, runs) quiet = ground arith

  reset_calm : (e : Effect) (w : List Call) → is_processing (command h e reset w).1.state ≡ false
  unfolding command halt
  reset_calm e w = ground arith

  close_calm :
      (e : Effect) (w : List Call)
      → IsSound e
      → is_processing e.state ≡ false
      → let gone = (close h e w).1 in
        (is_init gone.state ≡ true) × (gone.thread.is_joinable ≡ false)
  unfolding close destroy_thread
  close_calm e w ((calm, still, alive, guarded), thread, runs) quiet = ground (arith, wakes w)

  destroy_sound :
      (e : Effect) (w : List Call)
      → IsSound e
      → let gone = (destroy_effect h e w).0 in
        (is_init gone.state ≡ true) × (gone.thread.is_joinable ≡ false)
  unfolding destroy_effect
  destroy_sound e w sound =
      let (st1, e1, w1) = command h e reset w in
      close_calm e1 w1 (command-IsSound e reset w sound) (reset_calm e w)

  -- The worker runs when it should: where the event flag can always be woken, after any sequence of
  -- calls and rounds of the worker from a new effect, the thread exists outside INIT and is not stopped
  -- in PROCESSING, exactly; a round of it in another state calls nothing and changes nothing; and
  -- destroying the effect then, in any state, leaves it in INIT without a thread.
  pub run-IsSound :
      (vs : List Event) (w : List Call)
      → let e = (run h new_effect vs w).0 in
        IsSound e
        × ((w' : List Call) → is_processing e.state ≡ false → thread_round h e w' ≡ (e, w'))
        × ((w' : List Call)
            → let gone = (destroy_effect h e w').0 in
              (is_init gone.state ≡ true) × (gone.thread.is_joinable ≡ false))
  run-IsSound vs w =
      let e = (run h new_effect vs w).0 in
      let sound = run_from new_effect vs w ((refl, refl, refl, λ i. cc), refl, refl) in
      (sound, λ w'. round_silent e w' sound, λ w'. destroy_sound e w' sound)
