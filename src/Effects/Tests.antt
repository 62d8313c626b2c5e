-- ===== src/Effects/Tests.antt =====
-- An effect at concrete inputs.
use android_device_brcm_rpi.Common.{◌≡◌, ◌≢◌, refl, true, false, List, [], ◌∷◌, Host}
use android_device_brcm_rpi.Effects.Instance.{
  Command, start, stop, ok, null_pointer, Call, wake, create_context, Answer, done, failed,
  new_effect, command, thread_round, destroy_effect, is_processing, is_init,
}
use android_device_brcm_rpi.Effects.Lifecycle.{
  Event, opened, worked, commanded, IsGuarded, run, run-IsGuarded,
}
use android_device_brcm_rpi.Effects.Running.{IsSound, run-IsSound}

abbrev kind : Host Call Answer
kind w c = done 8

-- The first call of the event flag fails.
abbrev unwoken : Host Call Answer
unwoken w create_context = done 0
unwoken w wake = failed 1
unwoken w c = done 8

abbrev session : List Event
session = opened true false ∷ commanded start ∷ worked ∷ commanded stop ∷ commanded start ∷ []

-- A start that could not wake the worker is not made up for by the next: the thread stays stopped.
started_twice :
    let e =
      (run unwoken new_effect (opened true false ∷ commanded start ∷ commanded start ∷ []) []).0 in
    (is_processing e.state ≡ true)
    × (e.thread.is_stopped ≡ true)
    × ((command unwoken e start []).0 ≡ ok)
unfolding run command
started_twice = (refl, refl, refl)

run-IsGuarded_example :
    let e = (run unwoken new_effect session []).0 in
    IsGuarded e × ((c : Command) (w : List Call) → (command unwoken e c w).0 ≢ null_pointer)
run-IsGuarded_example = run-IsGuarded unwoken session []

run-IsSound_example :
    let e = (run kind new_effect session []).0 in
    IsSound e
    × ((w : List Call) → is_processing e.state ≡ false → thread_round kind e w ≡ (e, w))
    × ((w : List Call)
        → let gone = (destroy_effect kind e w).0 in
          (is_init gone.state ≡ true) × (gone.thread.is_joinable ≡ false))
run-IsSound_example = run-IsSound kind (λ w. refl) session []
