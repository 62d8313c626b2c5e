-- ===== src/Stream/Input.antt =====
-- audio/Stream.cpp, StreamInWorkerLogic: `cycle` with a function for each command, `read`,
-- `readMmap`. A result is the worker's state, the reply and the calls made.
use android_device_brcm_rpi.Common.{
  ℕ, ◌+◌, ◌*◌, ◌/◌, min, Bool, true, false, not, ltb, List, if◌then◌else◌, Host, call, ℤ, pos,
  negsuc,
}
use android_device_brcm_rpi.Stream.Types.{
  State, standby, idle, active, paused, draining, error, DrainMode, drain_unspecified, drain_all,
  drain_early_notify, Command, hal_reserved_exit, get_status, start, burst, drain, standby_command,
  pause, flush, flush_from_frame, Reply, not_enough_data, ms, Context, Logic, Call, Answer, Status,
  continue, abort, exit, read_command, write_reply, mq_available_to_write, mq_write, driver_start,
  driver_standby, driver_pause, driver_flush, driver_drain, driver_transfer, driver_transfer_mmap,
  usleep_3000,
}
use android_device_brcm_rpi.Stream.Worker.{
  is_ok, initial_reply, enter, populate_reply, refuse, reserved_exit,
}

-- What a transfer leaves: whether the driver failed, the frames moved, the latency.
pub record Moved : Type 0 where
  pub fatal : Bool
  pub frames : ℕ
  pub latency : ℕ

-- The frames of a `read`: from the driver, or silence when nothing is connected.
unfoldable pub capture : Host Call Answer → Context → Logic → ℕ → List Call → Moved × List Call
capture h x k frames w =
    if k.is_connected
    then (let (a, w) = call h (driver_transfer frames) w in
        (record { fatal = not (is_ok a.result); frames = a.count; latency = a.value }, w))
    else (let (_, w) = call h usleep_3000 w in
        (record { fatal = false; frames = frames; latency = x.nominal_latency_ms }, w))

-- Passing the frames on to the client. No frames are not written to the queue.
unfoldable pub deliver :
    Host Call Answer → Context → Logic → Moved → Reply → List Call → Logic × Reply × List Call
deliver h x k m r w =
    let bytes = m.frames * x.frame_size in
    let (a, w') = call h (mq_write bytes) w in
    let written = if ltb 0 bytes then is_ok a.result else true in
    let w = if ltb 0 bytes then w' else w in
    if written
    then (let k' = record k { frame_count = k.frame_count + m.frames } in
        let (r, w) =
          populate_reply h x k' k.is_connected
            (record r { fmq_byte_count = r.fmq_byte_count + bytes }) w in
        (k', record r { latency_ms = ms m.latency }, w))
    else (k, record r { status = not_enough_data; latency_ms = ms m.latency }, w)

-- `read`; the first component is its result.
unfoldable pub read :
    Host Call Answer → Context → Logic → ℕ → Reply → List Call → Bool × Logic × Reply × List Call
read h x k client_size r w =
    let (room, w) = call h mq_available_to_write w in
    let byte_count = min client_size (min room.count x.data_buffer_size) in
    let (m, w) = capture h x k (byte_count / x.frame_size) w in
    let (k, r, w) = deliver h x k m r w in (not m.fatal, k, r, w)

unfoldable pub read_mmap :
    Host Call Answer → Context → Logic → Reply → List Call → Bool × Logic × Reply × List Call
read_mmap h x k r w =
    let (a, w) = call h driver_transfer_mmap w in
    if is_ok a.result
    then (let (r, w) = populate_reply h x k k.is_connected r w in
        (true, k, record r { latency_ms = ms a.value }, w))
    else (false, k, r, w)

-- A command that only asks the driver: on success the reply is filled and the state entered.
unfoldable pub driver_command :
    Host Call Answer
    → Context
    → Logic
    → Call
    → State
    → Reply
    → List Call
    → Logic × Reply × List Call
driver_command h x k c next r w =
    let (a, w) = call h c w in
    if is_ok a.result
    then (let (r, w) = populate_reply h x k k.is_connected r w in (enter k next, r, w))
    else (enter k error, r, w)

-- For `standby` the reply is filled before the driver is asked.
unfoldable pub standby_driver :
    Host Call Answer → Context → Logic → Reply → List Call → Logic × Reply × List Call
standby_driver h x k r w =
    let (r, w) = populate_reply h x k k.is_connected r w in
    let (a, w) = call h driver_standby w in
    if is_ok a.result then (enter k standby, r, w) else (enter k error, r, w)

unfoldable pub in_start :
    Host Call Answer → Context → Logic → State → Reply → List Call → Logic × Reply × List Call
in_start h x k standby r w = driver_command h x k driver_start idle r w
in_start h x k draining r w = driver_command h x k driver_start active r w
in_start h x k _ r w = (k, refuse r, w)

-- The state after a burst that found a stream ready for it.
unfoldable pub after_read : State → State
after_read idle = active
after_read paused = active
after_read draining = standby
after_read s = s

unfoldable pub read_burst :
    Host Call Answer → Context → Logic → ℕ → Reply → List Call → Logic × Reply × List Call
unfolding after_read
read_burst h x k bytes r w =
    let (success, k, r, w) = if x.is_mmap then read_mmap h x k r w else read h x k bytes r w in
    let k = if success then k else enter k error in (enter k (after_read k.state), r, w)

abbrev pub takes_bursts : State → Bool
takes_bursts idle = true
takes_bursts active = true
takes_bursts paused = true
takes_bursts draining = true
takes_bursts _ = false

-- A negative count leaves the reply's BAD_VALUE.
unfoldable pub in_burst :
    Host Call Answer → Context → Logic → ℤ → Reply → List Call → Logic × Reply × List Call
unfolding read_burst
in_burst h x k (pos bytes) r w =
    if takes_bursts k.state then read_burst h x k bytes r w else (k, refuse r, w)
in_burst h x k (negsuc n) r w = (k, r, w)

unfoldable pub in_drain :
    Host Call Answer
    → Context
    → Logic
    → State
    → DrainMode
    → Reply
    → List Call
    → Logic × Reply × List Call
in_drain h x k active drain_unspecified r w =
    driver_command h x k (driver_drain drain_unspecified) draining r w
in_drain h x k _ drain_unspecified r w = (k, refuse r, w)
in_drain h x k _ drain_all r w = (k, r, w)
in_drain h x k _ drain_early_notify r w = (k, r, w)

unfoldable pub in_standby :
    Host Call Answer → Context → Logic → State → Reply → List Call → Logic × Reply × List Call
in_standby h x k idle r w = standby_driver h x k r w
in_standby h x k _ r w = (k, refuse r, w)

unfoldable pub in_pause :
    Host Call Answer → Context → Logic → State → Reply → List Call → Logic × Reply × List Call
in_pause h x k active r w = driver_command h x k driver_pause paused r w
in_pause h x k _ r w = (k, refuse r, w)

unfoldable pub in_flush :
    Host Call Answer → Context → Logic → State → Reply → List Call → Logic × Reply × List Call
in_flush h x k paused r w = driver_command h x k driver_flush standby r w
in_flush h x k _ r w = (k, refuse r, w)

-- The end of `cycle`: the reply carries the state, and must reach the client.
unfoldable pub send_reply :
    Host Call Answer → Logic → Status → Reply → List Call → Status × Logic × List Call
send_reply h k status r w =
    let (a, w) = call h (write_reply (record r { state = k.state })) w in
    if is_ok a.result then (status, k, w) else (abort, enter k error, w)

-- The `switch` of `cycle`. Of the exit it gives what the worker becomes; its status, and whether it
-- is answered, are taken from `reserved_exit` again by `in_dispatch`.
unfoldable pub in_handle :
    Host Call Answer → Context → Logic → Command → Reply → List Call → Logic × Reply × List Call
unfolding in_start in_burst in_drain in_standby in_pause in_flush reserved_exit
in_handle h x k get_status r w = let (r, w) = populate_reply h x k k.is_connected r w in (k, r, w)
in_handle h x k start r w = in_start h x k k.state r w
in_handle h x k (burst n) r w = in_burst h x k n r w
in_handle h x k (drain mode) r w = in_drain h x k k.state mode r w
in_handle h x k standby_command r w = in_standby h x k k.state r w
in_handle h x k pause r w = in_pause h x k k.state r w
in_handle h x k flush r w = in_flush h x k k.state r w
in_handle h x k (flush_from_frame n) r w = (k, refuse r, w)
in_handle h x k (hal_reserved_exit n) r w =
    let (exits, replies, k, w) = reserved_exit h x k n w in (k, r, w)

-- The status that `cycle` returns is CONTINUE after any reply that was sent, also when the exit
-- command closed the stream.
unfoldable pub in_dispatch :
    Host Call Answer → Context → Logic → Command → List Call → Status × Logic × List Call
unfolding in_handle send_reply reserved_exit
in_dispatch h x k (hal_reserved_exit cookie) w =
    let (exits, replies, k, w) = reserved_exit h x k cookie w in
    if replies
    then send_reply h k continue initial_reply w
    else (if exits then exit else continue, k, w)
in_dispatch h x k c w =
    let (k, r, w) = in_handle h x k c initial_reply w in send_reply h k continue r w

unfoldable pub in_cycle :
    Host Call Answer → Context → Logic → List Call → Status × Logic × List Call
unfolding in_dispatch
in_cycle h x k w =
    let (a, w) = call h read_command w in
    if is_ok a.result then in_dispatch h x k a.command w else (abort, enter k error, w)
