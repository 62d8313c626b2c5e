-- ===== src/Stream/Callbacks.antt =====
-- audio/Stream.cpp: `onBufferStateChange` and `onClipStateChange` of an output stream. While `cycle`
-- handles a command they are queued and run after it, so a run of the worker and the driver is a
-- list of events, each of which is whole.
use android_device_brcm_rpi.Common.{
  ℕ, Bool, true, false, ◌==◌, List, [], ◌∷◌, if◌then◌else◌, Host, call,
}
use android_device_brcm_rpi.Stream.Types.{
  State, idle, active, transferring, DrainState, none_draining, all_draining, en, en_sent, Context,
  Logic, Call, Answer, on_transfer_ready, on_drain_ready,
}
use android_device_brcm_rpi.Stream.Worker.{switch_to_transient_state, switch_from_transient_state}
use android_device_brcm_rpi.Stream.Output.{is_en_sent, out_cycle}

abbrev pub is_transferring : State → Bool
is_transferring transferring = true
is_transferring _ = false

abbrev notify : Host Call Answer → Context → Call → List Call → List Call
notify h x c w = if x.has_callback then (call h c w).1 else w

unfoldable pub on_buffer_state_change :
    Host Call Answer → Context → Logic → List Call → Logic × List Call
on_buffer_state_change h x k w =
    if is_transferring k.state
    then (let (k, w) = switch_from_transient_state h x k active w in
        (k, notify h x on_transfer_ready w))
    else if is_en_sent k.drain_state
    then (k, notify h x on_transfer_ready w)
    else (k, w)

-- The end of a clip.
unfoldable pub end_of_clip :
    Host Call Answer → Context → Logic → Bool → List Call → Logic × List Call
end_of_clip h x k has_next w =
    let (k', w) =
      if has_next
      then switch_to_transient_state h k transferring w
      else switch_from_transient_state h x k idle w in
    (record k' { drain_state = none_draining }, w)

unfoldable pub on_clip_state_change :
    Host Call Answer → Context → Logic → DrainState → ℕ → Bool → List Call → Logic × List Call
unfolding end_of_clip
on_clip_state_change h x k none_draining left has_next w = (k, w)
on_clip_state_change h x k all_draining left has_next w =
    if left == 0
    then (let (k, w) = end_of_clip h x k has_next w in (k, notify h x on_drain_ready w))
    else (k, w)
on_clip_state_change h x k en left has_next w =
    if left == 0
    then end_of_clip h x k has_next w
    else (record k { drain_state = en_sent }, notify h x on_drain_ready w)
on_clip_state_change h x k en_sent left has_next w =
    if left == 0
    then (let (k, w) = end_of_clip h x k has_next w in (k, notify h x on_drain_ready w))
    else (k, w)

pub data Event : Type 0 where
  cycles : Event
  buffer_changes : Event
  clip_changes : ℕ → Bool → Event

unfoldable pub step : Host Call Answer → Context → Event → Logic → List Call → Logic × List Call
unfolding out_cycle on_buffer_state_change on_clip_state_change
step h x cycles k w = let (_, k, w) = out_cycle h x k w in (k, w)
step h x buffer_changes k w = on_buffer_state_change h x k w
step h x (clip_changes left has_next) k w = on_clip_state_change h x k k.drain_state left has_next w

unfoldable pub run : Host Call Answer → Context → List Event → Logic → List Call → Logic × List Call
run h x [] k w = (k, w)
run h x (e ∷ es) k w = let (k, w) = step h x e k w in run h x es k w
