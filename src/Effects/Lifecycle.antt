-- ===== src/Effects/Lifecycle.antt =====
-- audio/EffectImpl.cpp: the state of an effect, its context and its worker thread belong together.
use android_device_brcm_rpi.Common.{
  ◌≡◌, ◌≢◌, refl, sym, Bool, true, false, not, ◌&&◌, ◌||◌, List, [], ◌∷◌, Host, arith, if-elim,
}
use mathlib.Core.Path.{subst}
use android_device_brcm_rpi.Effects.Instance.{
  Command, start, stop, reset, unknown_command, Outcome, null_pointer, Effect, Call, Answer,
  new_effect, is_init, is_idle, is_draining_state, create_thread, destroy_thread, start_thread,
  stop_thread, finish_draining, open_effect, reopen, close, command_impl, command_start, halt,
  dispatch, command, draining_complete, process, thread_round, destroy_effect,
}

-- The calls of the clients, and a round of the worker.
pub data Event : Type 0 where
  opened : Bool → Bool → Event
  reopened closed destroyed worked : Event
  commanded : Command → Event

-- By the state: an effect that is open has its context, its flag and its thread.
abbrev pub IsOpen : Effect → Type 0
IsOpen e =
    (e.has_context ≡ true)
    × (e.has_flag ≡ true)
    × (e.thread.is_joinable ≡ true)
    × (e.thread.is_exiting ≡ false)

abbrev pub IsGuarded : Effect → Type 0
IsGuarded e =
    (is_draining_state e.state ≡ false)
    × (e.thread.is_draining ≡ false)
    × ((e.thread.is_joinable && e.thread.is_exiting) ≡ false)
    × (is_init e.state ≡ false → IsOpen e)

module _ (h : Host Call Answer) where
  open_effect-IsGuarded :
      (e : Effect) (floats specific : Bool) (w : List Call)
      → IsGuarded e
      → IsGuarded (open_effect h e floats specific w).1
  unfolding open_effect create_thread
  open_effect-IsGuarded e floats specific w (calm, still, alive, guarded) = ground arith

  pub close-IsGuarded : (e : Effect) (w : List Call) → IsGuarded e → IsGuarded (close h e w).1
  unfolding close destroy_thread
  close-IsGuarded e w (calm, still, alive, guarded) = ground arith

  halt-IsGuarded :
      (e : Effect) (c : Command) (w : List Call)
      → is_init e.state ≡ false
      → IsGuarded e
      → IsGuarded (halt h e c w).1
  unfolding halt stop_thread
  halt-IsGuarded e c w running (calm, still, alive, guarded) = ground arith

  command_start-IsGuarded :
      (e : Effect) (w : List Call)
      → is_init e.state ≡ false
      → IsGuarded e
      → IsGuarded (command_start h e w).1
  unfolding command_start start_thread
  command_start-IsGuarded e w running (calm, still, alive, guarded) = ground arith

  dispatch-IsGuarded :
      (e : Effect) (c : Command) (w : List Call)
      → is_init e.state ≡ false
      → IsGuarded e
      → IsGuarded (dispatch h e c w).1
  dispatch-IsGuarded e start w runs guarded = command_start-IsGuarded e w runs guarded
  dispatch-IsGuarded e stop w runs guarded =
      if-elim (λ (r : Outcome × Effect × List Call). IsGuarded r.1) (is_idle e.state) (λ i. guarded)
        (λ i. halt-IsGuarded e stop w runs guarded)
  dispatch-IsGuarded e reset w runs guarded = halt-IsGuarded e reset w runs guarded
  dispatch-IsGuarded e unknown_command w runs guarded = guarded

  pub command-IsGuarded :
      (e : Effect) (c : Command) (w : List Call) → IsGuarded e → IsGuarded (command h e c w).1
  unfolding command
  command-IsGuarded e c w guarded =
      if-elim (λ (r : Outcome × Effect × List Call). IsGuarded r.1) (is_init e.state) (λ i. guarded)
        (λ runs. dispatch-IsGuarded e c w runs guarded)

  pub process-IsGuarded : (e : Effect) (w : List Call) → IsGuarded e → IsGuarded (process h e w).0
  unfolding process draining_complete finish_draining
  process-IsGuarded e w (calm, still, alive, guarded) = ground arith

  thread_round-IsGuarded :
      (e : Effect) (w : List Call) → IsGuarded e → IsGuarded (thread_round h e w).0
  unfolding thread_round
  thread_round-IsGuarded e w guarded =
      if-elim (λ (r : Effect × List Call). IsGuarded r.0)
        (not e.thread.is_joinable || e.thread.is_exiting || e.thread.is_stopped) (λ i. guarded)
        (λ runs. process-IsGuarded e w guarded)

  unfoldable pub serve : Effect → Event → List Call → Effect × List Call
  unfolding open_effect reopen close command thread_round destroy_effect
  serve e (opened floats specific) w = let r = open_effect h e floats specific w in (r.1, r.2)
  serve e reopened w = let r = reopen h e w in (r.1, r.2)
  serve e closed w = let r = close h e w in (r.1, r.2)
  serve e destroyed w = destroy_effect h e w
  serve e worked w = thread_round h e w
  serve e (commanded c) w = let r = command h e c w in (r.1, r.2)

  unfoldable pub run : Effect → List Event → List Call → Effect × List Call
  unfolding serve
  run e [] w = (e, w)
  run e (v ∷ vs) w = let (e', w') = serve e v w in run e' vs w'

  pub reopen-same : (e : Effect) (w : List Call) → (reopen h e w).1 ≡ e
  unfolding reopen
  reopen-same e w = ground arith

  pub serve-IsGuarded :
      (e : Effect) (v : Event) (w : List Call) → IsGuarded e → IsGuarded (serve e v w).0
  unfolding serve destroy_effect
  serve-IsGuarded e (opened floats specific) w guarded =
      open_effect-IsGuarded e floats specific w guarded
  serve-IsGuarded e reopened w guarded = subst IsGuarded (sym (reopen-same e w)) guarded
  serve-IsGuarded e closed w guarded = close-IsGuarded e w guarded
  serve-IsGuarded e destroyed w guarded =
      let (st1, e1, w1) = command h e reset w in
      close-IsGuarded e1 w1 (command-IsGuarded e reset w guarded)
  serve-IsGuarded e worked w guarded = thread_round-IsGuarded e w guarded
  serve-IsGuarded e (commanded c) w guarded = command-IsGuarded e c w guarded

  run_from : (e : Effect) (vs : List Event) (w : List Call) → IsGuarded e → IsGuarded (run e vs w).0
  unfolding run
  run_from e [] w guarded = guarded
  run_from e (v ∷ vs) w guarded =
      let (e', w') = serve e v w in run_from e' vs w' (serve-IsGuarded e v w guarded)

  command-null :
      (e : Effect) (c : Command) (w : List Call) → IsGuarded e → (command h e c w).0 ≢ null_pointer
  unfolding command command_start halt command_impl
  command-null e start w (calm, still, alive, guarded) = ground arith
  command-null e stop w (calm, still, alive, guarded) = ground arith
  command-null e reset w (calm, still, alive, guarded) = ground arith
  command-null e unknown_command w (calm, still, alive, guarded) = ground arith

  -- An open effect has what it works with: after any sequence of calls and rounds of the worker, from a
  -- new effect and whatever the effect, the event flag and the queues answer, an effect that is not in
  -- INIT has its context, its event flag and a thread that is not exiting, it does not drain, and so no
  -- command is answered with a null pointer.
  pub run-IsGuarded :
      (vs : List Event) (w : List Call)
      → let e = (run new_effect vs w).0 in
        IsGuarded e × ((c : Command) (w' : List Call) → (command h e c w').0 ≢ null_pointer)
  run-IsGuarded vs w =
      let e = (run new_effect vs w).0 in
      let guarded = run_from new_effect vs w (refl, refl, refl, λ i. cc) in
      (guarded, λ c w'. command-null e c w' guarded)
