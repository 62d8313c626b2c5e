-- ===== src/AudioModule/Requests.antt =====
-- audio/Module.cpp: the calls of the clients of a module, in any order.
use android_device_brcm_rpi.Common.{
  ℕ, Bool, true, false, Option, none, some, not, ◌&&◌, ◌==◌, List, [], ◌∷◌, if◌then◌else◌, Host,
}
use android_device_brcm_rpi.AudioModule.Types.{
  Port, PortConfig, Patch, State, Status, ok, illegal_argument, illegal_state, aborted, undefined,
  refused, Call, Answer,
}
use android_device_brcm_rpi.AudioModule.Patches.{set_audio_patch, reset_audio_patch}
use android_device_brcm_rpi.AudioModule.Configs.{set_audio_port_config, reset_audio_port_config}
use android_device_brcm_rpi.AudioModule.Opening.{
  Utilities, Arguments, open_input_stream, open_output_stream,
}
use android_device_brcm_rpi.AudioModule.Devices.{set_module_debug, connect_external_device}
use android_device_brcm_rpi.AudioModule.Disconnecting.{disconnect_external_device}

-- The calls of the clients of a module; `close_stream` is what a client does with a stream that it has.
pub data Request : Type 0 where
  set_patch : Patch → Request
  reset_patch : ℕ → Request
  set_config : PortConfig → Request
  reset_config : ℕ → Request
  open_input open_output : Arguments → Request
  close_stream : ℕ → ℕ → Request
  connect : Port → Request
  disconnect : ℕ → Request
  set_debug : Bool → Bool → Request

-- The first open stream at a key is closed; it stands at the id of its port config and at its port's.
abbrev pub close_at : ℕ → List (ℕ × Bool) → List (ℕ × Bool)
close_at i [] = []
close_at i ((j, closed) ∷ ss) =
    if j == i && not closed then (j, true) ∷ ss else (j, closed) ∷ close_at i ss

-- After a call that ended the process, or whose behaviour is undefined, there is no state.
abbrev pub is_over : Status → Bool
is_over ok = false
is_over illegal_argument = false
is_over illegal_state = false
is_over aborted = true
is_over undefined = true
is_over (refused n) = false

abbrev pub unless_over : Status → State → List Call → Option (State × List Call)
unless_over st m w = if is_over st then none else some (m, w)

module _ (u : Utilities) (h : Host Call Answer) where
  unfoldable pub serve : State → Request → List Call → Option (State × List Call)
  unfolding set_audio_patch reset_audio_patch set_audio_port_config reset_audio_port_config
      open_input_stream open_output_stream connect_external_device disconnect_external_device
  serve m (set_patch p) w = let r = set_audio_patch h m p w in unless_over r.0 r.1 r.3
  serve m (reset_patch i) w = let r = reset_audio_patch h m i w in unless_over r.0 r.1 r.2
  serve m (set_config c) w = let r = set_audio_port_config m c in unless_over r.0 r.1 w
  serve m (reset_config i) w = let r = reset_audio_port_config m i in unless_over r.0 r.1 w
  serve m (open_input a) w = let r = open_input_stream u h m a w in unless_over r.0 r.1 r.2
  serve m (open_output a) w = let r = open_output_stream u h m a w in unless_over r.0 r.1 r.2
  serve m (set_debug simulate negative) w =
      let r = set_module_debug simulate negative m in unless_over r.0 r.1 w
  serve m (close_stream i port) w =
      some (record m { streams = close_at port (close_at i m.streams) }, w)
  serve m (connect p) w = let r = connect_external_device h m p w in unless_over r.0 r.1 r.3
  serve m (disconnect i) w = let r = disconnect_external_device h m i w in unless_over r.0 r.1 r.2

  -- The calls one after the other, as far as there is a state to go on from.
  unfoldable pub run : State → List Request → List Call → Option (State × List Call)
  unfolding serve
  run m [] w = some (m, w)
  run m (r ∷ rs) w = elim (serve m r w) [ none ↦ none | some (m', w') ↦ run m' rs w' ]
