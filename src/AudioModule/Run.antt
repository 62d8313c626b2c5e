-- ===== src/AudioModule/Run.antt =====
-- audio/Module.cpp: sequences of the operations of a module.
use android_device_brcm_rpi.Common.{
  ℕ, ◌≡◌, true, ◌==◌, Option, none, some, List, [], ◌∷◌, Host, if-elim, arith, ◌≢◌,
}
use android_device_brcm_rpi.AudioModule.Types.{Patch, State, Status, Call, Answer}
use android_device_brcm_rpi.AudioModule.Lookup.{find_patch, find_port, find_ids}
use android_device_brcm_rpi.AudioModule.Configs.{set_audio_port_config, reset_audio_port_config}
use android_device_brcm_rpi.AudioModule.Opening.{
  Utilities, open_input_stream, open_output_stream, find_connected_port_config_ids, one_side,
}
use android_device_brcm_rpi.AudioModule.Devices.{
  set_module_debug, connect_external_device, device_of,
}
use android_device_brcm_rpi.AudioModule.Disconnecting.{disconnect_external_device}
use android_device_brcm_rpi.AudioModule.Links.{AllLinked, IsValid, is_there}
use android_device_brcm_rpi.AudioModule.Validity.{
  set_audio_patch-IsValid, reset_audio_patch-IsValid,
}
use android_device_brcm_rpi.AudioModule.Requests.{
  Request, set_patch, reset_patch, set_config, reset_config, open_input, open_output, close_stream,
  connect, disconnect, set_debug, is_over, unless_over, serve, run,
}
use android_device_brcm_rpi.AudioModule.Keeping.{
  set_module_debug-KeepsPatches, KeepsPatches-IsValid, reset_audio_port_config-KeepsPatches,
  set_audio_port_config-KeepsPatches, connect_template-KeepsPatches, disconnect_port-KeepsPatches,
  open_input_stream-KeepsPatches, open_output_stream-KeepsPatches,
}

one_side-found :
    (i : ℕ) (o : Option Patch) (ids : Option (List ℕ))
    → is_there o ≡ true
    → ids ≢ none
    → one_side i o ids ≢ none
one_side-found i none ids there ne = cc
one_side-found i (some p) none there ne = ne
one_side-found i (some p) (some ids) there ne = ground arith

find_connected_port_config_ids-found :
    (m : State) (i : ℕ) (registered : List (ℕ × ℕ))
    → AllLinked m.patches registered
    → find_connected_port_config_ids m i registered ≢ none
unfolding find_connected_port_config_ids
find_connected_port_config_ids-found m i [] linked = λ e. cc
find_connected_port_config_ids-found m i ((k, v) ∷ registered) (one, all) =
    let ih = find_connected_port_config_ids-found m i registered all in
    if-elim (λ o. o ≢ none) (k == i)
      (λ e.
        one_side-found i (find_patch v m.patches) (find_connected_port_config_ids m i registered)
          one ih)
      (λ e. ih)

-- What holds of the state that a call leaves, where it leaves one.
abbrev Kept : Option (State × List Call) → Type 0
Kept none = Unit {0}
Kept (some (m, w)) = IsValid m

Kept-unless_over : (st : Status) (m : State) (w : List Call) → IsValid m → Kept (unless_over st m w)
Kept-unless_over st m w valid = if-elim Kept (is_over st) (λ e. tt) (λ e. valid)

-- The table of patches by port and the list of patches are consistent, and the search for the
-- devices of a stream does not end the process for a missing patch.
abbrev pub IsConsistent : Option (State × List Call) → Type 0
IsConsistent none = Unit {0}
IsConsistent (some (m, w)) =
    IsValid m × ((i : ℕ) → find_connected_port_config_ids m i m.registered ≢ none)

module _ (u : Utilities) (h : Host Call Answer) where
  serve-Kept : (m : State) (r : Request) (w : List Call) → IsValid m → Kept (serve u h m r w)
  unfolding serve connect_external_device disconnect_external_device
  serve-Kept m (set_patch p) w valid =
      Kept-unless_over _ _ _ (set_audio_patch-IsValid h m p w valid)
  serve-Kept m (reset_patch i) w valid =
      Kept-unless_over _ _ _ (reset_audio_patch-IsValid h m i w valid)
  serve-Kept m (set_config c) w valid = Kept-unless_over _ _ _ (
      KeepsPatches-IsValid m (set_audio_port_config m c).1 (set_audio_port_config-KeepsPatches m c)
        valid)
  serve-Kept m (reset_config i) w valid = Kept-unless_over _ _ _ (
      KeepsPatches-IsValid m (reset_audio_port_config m i).1
        (reset_audio_port_config-KeepsPatches m i) valid)
  serve-Kept m (open_input a) w valid = Kept-unless_over _ _ _ (
      KeepsPatches-IsValid m (open_input_stream u h m a w).1
        (open_input_stream-KeepsPatches u h m a w) valid)
  serve-Kept m (open_output a) w valid = Kept-unless_over _ _ _ (
      KeepsPatches-IsValid m (open_output_stream u h m a w).1
        (open_output_stream-KeepsPatches u h m a w) valid)
  serve-Kept m (close_stream i port) w valid = valid
  serve-Kept m (set_debug simulate negative) w valid = Kept-unless_over _ _ _ (
      KeepsPatches-IsValid m (set_module_debug simulate negative m).1
        (set_module_debug-KeepsPatches simulate negative m) valid)
  serve-Kept m (connect p) w valid = Kept-unless_over _ _ _ (
      KeepsPatches-IsValid m (connect_external_device h m p w).1
        (connect_template-KeepsPatches h m p (find_port p.id m.ports) (device_of p.ext) w) valid)
  serve-Kept m (disconnect i) w valid = Kept-unless_over _ _ _ (
      KeepsPatches-IsValid m (disconnect_external_device h m i w).1
        (disconnect_port-KeepsPatches h m i (find_port i m.ports)
          (find_ids i m.connected_device_ports) w)
        valid)

  -- The table of patches by port and the list of patches stay consistent: after any sequence of the
  -- clients' calls, whatever the streams and the module answer, the ids of the patches are different
  -- and below the next one, and each entry of the table is of a patch of the list, if that was so
  -- before. So the search for the devices of a stream does not end the process for a missing patch.
  -- This is as long as no call of the sequence ends the process or reaches the undefined comparison
  -- that follows a failed creation of a patch: then there is no state to speak of.
  pub run-IsValid :
      (m : State) (rs : List Request) (w : List Call) → IsValid m → IsConsistent (run u h m rs w)
  unfolding run
  run-IsValid m [] w valid =
      (valid, λ i. find_connected_port_config_ids-found m i m.registered valid.2)
  run-IsValid m (r ∷ rs) w valid =
      let P = λ (o : Option (State × List Call)).
        Kept o → IsConsistent (elim o [ none ↦ none | some (m', w') ↦ run u h m' rs w' ]) in
      (elim (serve u h m r w) as P [
        | none ↦ λ kept. tt
        | some (m', w') ↦ λ kept. run-IsValid m' rs w' kept
      ])
        (serve-Kept m r w valid)
