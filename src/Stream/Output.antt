-- ===== src/Stream/Output.antt =====
-- audio/Stream.cpp, StreamOutWorkerLogic: `cycle` with a function for each command, `write`,
-- `writeMmap`. Callbacks of the driver wait while a command is handled: see `Callbacks`.
use android_device_brcm_rpi.Common.{
  ℕ, ◌+◌, ◌-◌, ◌*◌, ◌/◌, ◌%◌, ◌^◌, min, Bool, true, false, not, ◌&&◌, ◌||◌, ◌==◌, ltb, leb, List,
  if◌then◌else◌, Host, call, ℤ, pos, negsuc,
}
use android_device_brcm_rpi.Stream.Types.{
  State, standby, idle, active, paused, draining, drain_paused, transferring, transfer_paused,
  error, DrainMode, drain_unspecified, drain_all, drain_early_notify, DrainState, none_draining,
  all_draining, en, en_sent, Command, hal_reserved_exit, get_status, start, burst, drain,
  standby_command, pause, flush, flush_from_frame, Reply, not_enough_data, bad_value,
  invalid_operation, ms, Context, Logic, Call, Answer, Status, continue, abort, exit, read_command,
  mq_available_to_read, mq_read, driver_start, driver_pause, driver_flush, driver_drain,
  driver_transfer, driver_flush_from_frame, usleep_3000, steady_now, process_data, CallStatus,
  call_ok, call_bad_value, call_failed,
}
use android_device_brcm_rpi.Stream.Worker.{
  is_ok, initial_reply, enter, populate_reply, refuse, reserved_exit, switch_to_transient_state,
}
use android_device_brcm_rpi.Stream.Input.{
  Moved, driver_command, standby_driver, send_reply, read_mmap,
}

abbrev pub is_draining : State → Bool
is_draining draining = true
is_draining _ = false

-- The first lines of `cycle`: without a callback a drain ends by its time.
unfoldable pub settle : Host Call Answer → Context → Logic → List Call → Logic × List Call
settle h x k w =
    if is_draining k.state && not x.has_callback
    then (let (a, w) = call h steady_now w in
        if leb x.transient_state_delay_ms (a.value - k.transient_state_start)
        then (enter k idle, w)
        else (k, w))
    else (k, w)

-- The frames of a `write`: to the driver and the data processor, or dropped when nothing is
-- connected, after a delay unless the stream is asynchronous.
unfoldable pub play : Host Call Answer → Context → Logic → ℕ → List Call → Moved × List Call
play h x k frames w =
    if k.is_connected
    then (let (a, w) = call h (driver_transfer frames) w in
        let (_, w') = call h (process_data (a.count * x.frame_size)) w in
        (
          record { fatal = not (is_ok a.result); frames = a.count; latency = a.value },
          if x.has_processor then w' else w,
        ))
    else (let (_, w') = call h usleep_3000 w in
        (
          record { fatal = false; frames = frames; latency = x.nominal_latency_ms },
          if x.has_callback then w else w',
        ))

-- The bytes that a `write` uses: one frame is left out where a partial transfer is to be simulated.
unfoldable pub used_bytes : Context → ℕ → ℕ → ℕ
used_bytes x client_size readable =
    let n = min client_size (min readable x.data_buffer_size) in
    if leb x.frame_size n && x.force_transient_burst then n - x.frame_size else n

-- The body of `write` once the data is off the queue.
unfoldable pub consume :
    Host Call Answer → Context → Logic → ℕ → Reply → List Call → Bool × Logic × Reply × List Call
consume h x k frames r w =
    let (m, w) = play h x k frames w in
    let k' = record k { frame_count = k.frame_count + m.frames } in
    let (r, w) =
      populate_reply h x k' k.is_connected
        (record r { fmq_byte_count = r.fmq_byte_count + m.frames * x.frame_size }) w in
    (not m.fatal, k', record r { latency_ms = ms m.latency }, w)

-- `write`; the first component is its result. Everything readable is taken off the queue.
unfoldable pub write :
    Host Call Answer → Context → Logic → ℕ → Reply → List Call → Bool × Logic × Reply × List Call
write h x k client_size r w =
    let (readable, w) = call h mq_available_to_read w in
    let (a, w') = call h (mq_read readable.count) w in
    let got = if ltb 0 readable.count then is_ok a.result else true in
    let w = if ltb 0 readable.count then w' else w in
    if got
    then consume h x k (used_bytes x client_size readable.count / x.frame_size) r w
    else (true, k, record r { status = not_enough_data; latency_ms = ms x.nominal_latency_ms }, w)

-- `writeMmap` has the text of `readMmap`.
abbrev pub write_mmap :
    Host Call Answer → Context → Logic → Reply → List Call → Bool × Logic × Reply × List Call
write_mmap = read_mmap

-- `start` into DRAINING or TRANSFERRING, whose time begins again.
unfoldable pub start_transient :
    Host Call Answer → Context → Logic → State → Reply → List Call → Logic × Reply × List Call
start_transient h x k next r w =
    let (a, w) = call h driver_start w in
    if is_ok a.result
    then (let (r, w) = populate_reply h x k k.is_connected r w in
        let (k, w) = switch_to_transient_state h k next w in (k, r, w))
    else (enter k error, r, w)

unfoldable pub out_start :
    Host Call Answer → Context → Logic → State → Reply → List Call → Logic × Reply × List Call
unfolding start_transient
out_start h x k standby r w = driver_command h x k driver_start idle r w
out_start h x k paused r w = driver_command h x k driver_start active r w
out_start h x k drain_paused r w = start_transient h x k draining r w
out_start h x k transfer_paused r w = start_transient h x k transferring r w
out_start h x k _ r w = (k, refuse r, w)

abbrev pub is_en_sent : DrainState → Bool
is_en_sent en_sent = true
is_en_sent none_draining = false
is_en_sent all_draining = false
is_en_sent en = false

-- ACTIVE after a whole transfer, or TRANSFERRING while the rest is on its way.
unfoldable pub continue_burst :
    Host Call Answer → Context → Logic → ℕ → Reply → List Call → Logic × List Call
continue_burst h x k bytes r w =
    if not x.has_callback || r.fmq_byte_count == bytes
    then (enter k active, w)
    else switch_to_transient_state h k transferring w

-- The state after the data of a burst was written, or not.
unfoldable pub after_write :
    Host Call Answer → Context → Logic → State → ℕ → Reply → List Call → Logic × List Call
unfolding continue_burst
after_write h x k standby bytes r w = (enter k paused, w)
after_write h x k paused bytes r w = (enter k paused, w)
after_write h x k drain_paused bytes r w =
    if not x.has_callback
    then (enter k paused, w)
    else if not (is_en_sent k.drain_state)
    then (enter k transfer_paused, w)
    else (k, w)
after_write h x k idle bytes r w = continue_burst h x k bytes r w
after_write h x k active bytes r w = continue_burst h x k bytes r w
after_write h x k draining bytes r w =
    if is_en_sent k.drain_state then (k, w) else continue_burst h x k bytes r w
after_write h x k _ bytes r w = (k, w)

unfoldable pub write_burst :
    Host Call Answer → Context → Logic → ℕ → Reply → List Call → Logic × Reply × List Call
unfolding after_write
write_burst h x k bytes r w =
    let (success, k, r, w) = if x.is_mmap then write_mmap h x k r w else write h x k bytes r w in
    let k = if success then k else enter k error in
    let (k, w) = after_write h x k k.state bytes r w in (k, r, w)

abbrev pub refuses_bursts : State → Bool
refuses_bursts error = true
refuses_bursts transferring = true
refuses_bursts transfer_paused = true
refuses_bursts _ = false

unfoldable pub out_burst :
    Host Call Answer → Context → Logic → ℤ → Reply → List Call → Logic × Reply × List Call
unfolding write_burst
out_burst h x k (pos bytes) r w =
    if refuses_bursts k.state then (k, refuse r, w) else write_burst h x k bytes r w
out_burst h x k (negsuc n) r w = (k, r, w)

abbrev pub drain_state_of : DrainMode → DrainState
drain_state_of drain_early_notify = en
drain_state_of drain_all = all_draining
drain_state_of drain_unspecified = all_draining

-- `drain` of an ACTIVE or TRANSFERRING stream; `at_once` where ACTIVE is drained synchronously.
unfoldable pub drain_driver :
    Host Call Answer
    → Context
    → Logic
    → Bool
    → DrainMode
    → Reply
    → List Call
    → Logic × Reply × List Call
drain_driver h x k at_once mode r w =
    let (a, w) = call h (driver_drain mode) w in
    if is_ok a.result
    then (let (r, w) = populate_reply h x k k.is_connected r w in
        if at_once
        then (enter k idle, r, w)
        else (let (k, w) = switch_to_transient_state h k draining w in
            (record k { drain_state = drain_state_of mode }, r, w)))
    else (enter k error, r, w)

unfoldable pub drain_in :
    Host Call Answer
    → Context
    → Logic
    → State
    → DrainMode
    → Reply
    → List Call
    → Logic × Reply × List Call
unfolding drain_driver
drain_in h x k active mode r w = drain_driver h x k x.force_synchronous_drain mode r w
drain_in h x k transferring mode r w = drain_driver h x k false mode r w
drain_in h x k transfer_paused mode r w =
    let k = enter k drain_paused in
    let (r, w) = populate_reply h x k k.is_connected r w in (k, r, w)
drain_in h x k _ mode r w = (k, refuse r, w)

unfoldable pub out_drain :
    Host Call Answer → Context → Logic → DrainMode → Reply → List Call → Logic × Reply × List Call
unfolding drain_in
out_drain h x k drain_unspecified r w = (k, r, w)
out_drain h x k drain_all r w = drain_in h x k k.state drain_all r w
out_drain h x k drain_early_notify r w = drain_in h x k k.state drain_early_notify r w

unfoldable pub out_standby :
    Host Call Answer → Context → Logic → State → Reply → List Call → Logic × Reply × List Call
out_standby h x k idle r w = standby_driver h x k r w
out_standby h x k _ r w = (k, refuse r, w)

unfoldable pub out_pause :
    Host Call Answer → Context → Logic → State → Reply → List Call → Logic × Reply × List Call
out_pause h x k active r w = driver_command h x k driver_pause paused r w
out_pause h x k draining r w = driver_command h x k driver_pause drain_paused r w
out_pause h x k transferring r w = driver_command h x k driver_pause transfer_paused r w
out_pause h x k _ r w = (k, refuse r, w)

unfoldable pub out_flush :
    Host Call Answer → Context → Logic → State → Reply → List Call → Logic × Reply × List Call
out_flush h x k paused r w = driver_command h x k driver_flush idle r w
out_flush h x k drain_paused r w = driver_command h x k driver_flush idle r w
out_flush h x k transfer_paused r w = driver_command h x k driver_flush idle r w
out_flush h x k _ r w = (k, refuse r, w)

abbrev pub flushable : State → Bool
flushable active = true
flushable transferring = true
flushable draining = true
flushable transfer_paused = true
flushable paused = true
flushable drain_paused = true
flushable _ = false

abbrev pub flush_reply : CallStatus → Reply → Reply
flush_reply call_ok r = r
flush_reply call_bad_value r = record r { status = bad_value }
flush_reply call_failed r = record r { status = invalid_operation }

-- The request holds the accuracy above the position. The state does not change.
unfoldable pub out_flush_from_frame :
    Host Call Answer → Context → Logic → ℕ → Reply → List Call → Logic × Reply × List Call
out_flush_from_frame h x k request r w =
    let accuracy = request / 2 ^ x.flush_position_bits % 2 ^ 4 in
    let position = request % 2 ^ x.flush_position_bits in
    if not (x.is_offload && x.is_pcm)
    then (k, refuse r, w)
    else if not (flushable k.state)
    then (k, refuse r, w)
    else if not (accuracy == x.accuracy_best_effort || accuracy == x.accuracy_exact)
    then (k, record r { status = bad_value }, w)
    else (let (a, w) = call h (driver_flush_from_frame accuracy position) w in
        let (r, w) =
          populate_reply h x k k.is_connected (record r { flush_from_position = a.value }) w in
        (k, flush_reply a.result r, w))

-- The `switch` of `cycle`. Of the exit it gives what the worker becomes; its status, and whether it
-- is answered, are taken from `reserved_exit` again by `out_dispatch`.
unfoldable pub out_handle :
    Host Call Answer → Context → Logic → Command → Reply → List Call → Logic × Reply × List Call
unfolding out_start out_burst out_drain out_standby out_pause out_flush out_flush_from_frame
    reserved_exit
out_handle h x k get_status r w = let (r, w) = populate_reply h x k k.is_connected r w in (k, r, w)
out_handle h x k start r w = out_start h x k k.state r w
out_handle h x k (burst n) r w = out_burst h x k n r w
out_handle h x k (drain mode) r w = out_drain h x k mode r w
out_handle h x k standby_command r w = out_standby h x k k.state r w
out_handle h x k pause r w = out_pause h x k k.state r w
out_handle h x k flush r w = out_flush h x k k.state r w
out_handle h x k (flush_from_frame n) r w = out_flush_from_frame h x k n r w
out_handle h x k (hal_reserved_exit n) r w =
    let (exits, replies, k, w) = reserved_exit h x k n w in (k, r, w)

unfoldable pub out_dispatch :
    Host Call Answer → Context → Logic → Command → List Call → Status × Logic × List Call
unfolding out_handle send_reply reserved_exit
out_dispatch h x k (hal_reserved_exit cookie) w =
    let (exits, replies, k, w) = reserved_exit h x k cookie w in
    if replies
    then send_reply h k continue initial_reply w
    else (if exits then exit else continue, k, w)
out_dispatch h x k c w =
    let (k, r, w) = out_handle h x k c initial_reply w in send_reply h k continue r w

unfoldable pub out_cycle :
    Host Call Answer → Context → Logic → List Call → Status × Logic × List Call
unfolding settle out_dispatch
out_cycle h x k w =
    let (k, w) = settle h x k w in
    let (a, w) = call h read_command w in
    if is_ok a.result then out_dispatch h x k a.command w else (abort, enter k error, w)
