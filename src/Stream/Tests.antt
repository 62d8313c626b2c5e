-- ===== src/Stream/Tests.antt =====
-- Runs of the stream workers with a driver that works, and the theorems at such inputs.
use android_device_brcm_rpi.Common.{
  ◌≡◌, refl, true, false, List, [], ◌∷◌, Host, pos, arith, inl, replicate, get_elem?, some,
}
use android_device_brcm_rpi.Stream.Types.{
  standby, idle, active, draining, transfer_paused, drain_all, none_draining, start, burst, drain,
  pause, Context, Logic, Call, Answer, call_ok, get_status, driver_transfer, Command,
  on_drain_ready, status_ok,
}
use android_device_brcm_rpi.Stream.Worker.{initial_reply, initial_logic, refuse}
use android_device_brcm_rpi.Stream.Input.{in_handle, read}
use android_device_brcm_rpi.Stream.Output.{
  out_handle, out_cycle, write_burst, write, consume, play, used_bytes,
}
use android_device_brcm_rpi.Stream.Callbacks.{cycles, buffer_changes, clip_changes, step, run}
use android_device_brcm_rpi.Stream.OutputDiagram.{follows, out_handle-follows, arrow}
use android_device_brcm_rpi.Stream.OutputReplies.{Works, accepts, out_handle-obeys}
use android_device_brcm_rpi.Stream.InputDiagram.{
  InObeys, in_handle-obeys, InReaches, in_handle-reaches,
}
use android_device_brcm_rpi.Stream.Transfer.{Bounded, Moves, read-Moves, write-Moves}
use android_device_brcm_rpi.Stream.Drains.{
  is_asynchronous, run-synchronous, drain_ends, drain_forgotten,
}

-- 16-bit stereo, a buffer of 256 frames.
abbrev speaker : Context
speaker = record {
  is_mmap = false;
  frame_size = 4;
  data_buffer_size = 1024;
  nominal_latency_ms = 20;
  has_callback = false;
  has_processor = false;
  force_synchronous_drain = false;
  force_transient_burst = false;
  transient_state_delay_ms = 0;
  is_offload = false;
  is_pcm = true;
  exit_cookie = 7;
  flush_position_bits = 24;
  accuracy_best_effort = 1;
  accuracy_exact = 2;
}

abbrev offload : Context
offload = record speaker { has_callback = true; is_offload = true }

-- A client that starts the stream and then sends bursts of 512 bytes.
abbrev sends : List Call → Command
sends [] = start
sends (_ ∷ _) = burst (pos 512)

-- Every call succeeds; transfers are whole, and the queues hold 512 bytes.
abbrev works : Host Call Answer
works w (driver_transfer n) = record {
  result = call_ok;
  count = n;
  value = 20;
  command = get_status;
}
works w c = record { result = call_ok; count = 512; value = 20; command = sends w }

works-Works : Works works
works-Works w (driver_transfer n) = refl
works-Works w c = ground arith

works-Bounded : Bounded works
works-Bounded w n = omega arith

abbrev playing : Logic
playing = record initial_logic { state = active; is_connected = true }

abbrev held : Logic
held = record initial_logic { state = transfer_paused; is_connected = true }

-- Two cycles of a synchronous stream: started, then ACTIVE with 128 frames played.
run_two : (run works speaker (replicate 2 cycles) playing []).0.frame_count ≡ 128
unfolding run step out_cycle write_burst write consume play used_bytes
run_two = refl

out_handle-follows_example :
    follows speaker pause playing.state
      (out_handle works speaker playing pause initial_reply []).0.state
    ≡ true
out_handle-follows_example = out_handle-follows works speaker playing pause initial_reply []

out_handle-obeys_example :
    (accepts speaker pause playing.state ≡ true
      → (arrow speaker pause playing.state
            (out_handle works speaker playing pause initial_reply []).0.state
          ≡ true)
        × ((out_handle works speaker playing pause initial_reply []).1.status ≡ status_ok))
    × (accepts speaker pause playing.state ≡ false
        → out_handle works speaker playing pause initial_reply []
          ≡ (playing, refuse initial_reply, []))
out_handle-obeys_example =
    out_handle-obeys works speaker playing pause initial_reply [] works-Works refl

in_handle-obeys_example :
    InObeys speaker start standby initial_logic initial_reply []
      (in_handle works speaker initial_logic start initial_reply [])
in_handle-obeys_example = in_handle-obeys works speaker initial_logic [] start

in_handle-reaches_example :
    InReaches speaker start standby (in_handle works speaker initial_logic start initial_reply [])
in_handle-reaches_example = in_handle-reaches works speaker initial_logic [] works-Works start

read-Moves_example :
    Moves speaker 256 playing initial_reply
      (read works speaker playing 256 initial_reply []).1
      (read works speaker playing 256 initial_reply []).2
read-Moves_example = read-Moves works speaker playing 256 initial_reply [] works-Bounded

write-Moves_example :
    Moves speaker 256 playing initial_reply
      (write works speaker playing 256 initial_reply []).1
      (write works speaker playing 256 initial_reply []).2
write-Moves_example = write-Moves works speaker playing 256 initial_reply [] works-Bounded

run-synchronous_example :
    is_asynchronous
      (run works speaker
        (cycles ∷ cycles ∷ clip_changes 0 false ∷ buffer_changes ∷ cycles ∷ [])
        initial_logic
        []).0.state
    ≡ false
run-synchronous_example =
    run-synchronous works speaker refl
      (cycles ∷ cycles ∷ clip_changes 0 false ∷ buffer_changes ∷ cycles ∷ []) initial_logic []
      (refl, (refl, (refl, (refl, (refl, tt))))) refl

drain_ends_example :
    let q = out_handle works offload playing (drain drain_all) initial_reply [] in
    let e = step works offload (clip_changes 0 false) q.0 q.2 in
    (q.0.state ≡ draining)
    × (e.0.state ≡ idle)
    × (e.0.drain_state ≡ none_draining)
    × (drain_all ≡ drain_all → get_elem? e.1 0 ≡ some on_drain_ready)
drain_ends_example =
    drain_ends works offload playing drain_all initial_reply [] works-Works refl refl (inl refl)
      (λ e. cc)

drain_forgotten_example :
    let q = out_handle works offload held (drain drain_all) initial_reply [] in
    let p = out_handle works offload q.0 start initial_reply q.2 in
    (p.0.state ≡ draining)
    × (run works offload (buffer_changes ∷ clip_changes 0 false ∷ []) p.0 p.2 ≡ (p.0, p.2))
drain_forgotten_example =
    drain_forgotten works offload held drain_all initial_reply initial_reply []
      (buffer_changes ∷ clip_changes 0 false ∷ []) works-Works refl refl (λ e. cc)
      (refl, (refl, tt))
