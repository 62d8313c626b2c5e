-- ===== src/Stream/Worker.antt =====
-- audio/Stream.cpp, StreamWorkerCommonLogic: replies, transient states, closing.
use android_device_brcm_rpi.Common.{
  ℕ, ◌-◌, Bool, true, false, ◌==◌, ltb, List, if◌then◌else◌, Host, call,
}
use android_device_brcm_rpi.Stream.Types.{
  State, standby, idle, active, paused, draining, drain_paused, transferring, transfer_paused,
  error, closed, Reply, status_ok, bad_value, invalid_operation, unknown, at, latency_unknown, ms,
  Context, Logic, Call, Answer, call_ok, call_bad_value, call_failed, CallStatus, uptime_nanos,
  steady_now, sleep_ms, driver_refine_position, driver_mmap_position, driver_shutdown,
  none_draining,
}

abbrev pub is_ok : CallStatus → Bool
is_ok call_ok = true
is_ok call_bad_value = false
is_ok call_failed = false

-- `StreamDescriptor::Reply reply{}` with the status that `cycle` gives it.
abbrev pub initial_reply : Reply
initial_reply = record {
  status = bad_value;
  fmq_byte_count = 0;
  observable = at 0 0;
  hardware = at 0 0;
  latency_ms = ms 0;
  flush_from_position = 0;
  state = standby;
}

-- The state of a worker when its thread starts.
abbrev pub initial_logic : Logic
initial_logic = record {
  state = standby;
  state_prior_to_closing = standby;
  drain_state = none_draining;
  is_connected = false;
  transient_state_start = 0;
  frame_count = 0;
}

abbrev pub enter : Logic → State → Logic
enter k s = record k { state = s }

-- The first part of `populateReply`. Disconnected, both positions are unknown.
unfoldable pub populate_observable :
    Host Call Answer → Logic → Bool → Reply → List Call → Reply × List Call
populate_observable h k connected r w =
    if connected
    then (let (_, w) = call h uptime_nanos w in
        let (a, w) = call h driver_refine_position w in
        (
          record r {
            status = status_ok;
            observable = if is_ok a.result then at a.count a.value else unknown;
          },
          w,
        ))
    else (record r { status = status_ok; observable = unknown; hardware = unknown }, w)

unfoldable pub populate_reply :
    Host Call Answer → Context → Logic → Bool → Reply → List Call → Reply × List Call
unfolding populate_observable
populate_reply h x k connected r w =
    let (r, w) = populate_observable h k connected r w in
    if x.is_mmap
    then (let (a, w) = call h driver_mmap_position w in
        (
          record r {
            hardware = if is_ok a.result then at a.count a.value else unknown;
            latency_ms = if is_ok a.result then ms a.value else latency_unknown;
          },
          w,
        ))
    else (r, w)

-- `populateReplyWrongState` and `populateReplyUnsupportedCommand`
abbrev pub refuse : Reply → Reply
refuse r = record r { status = invalid_operation }

-- The time of the transient state's start is read from the clock.
unfoldable pub switch_to_transient_state :
    Host Call Answer → Logic → State → List Call → Logic × List Call
switch_to_transient_state h k s w =
    let (a, w) = call h steady_now w in (record k { state = s; transient_state_start = a.value }, w)

-- Sleeps for what is left of the delay.
unfoldable pub switch_from_transient_state :
    Host Call Answer → Context → Logic → State → List Call → Logic × List Call
switch_from_transient_state h x k s w =
    if x.transient_state_delay_ms == 0
    then (enter k s, w)
    else (let (a, w) = call h steady_now w in
        let lasted = a.value - k.transient_state_start in
        if ltb lasted x.transient_state_delay_ms
        then (let (_, w) = call h (sleep_ms (x.transient_state_delay_ms - lasted)) w in
            (enter k s, w))
        else (enter k s, w))

abbrev pub is_closed : State → Bool
is_closed closed = true
is_closed standby = false
is_closed idle = false
is_closed active = false
is_closed paused = false
is_closed draining = false
is_closed drain_paused = false
is_closed transferring = false
is_closed transfer_paused = false
is_closed error = false

-- `setClosed`: the state before the first closing is kept.
unfoldable pub set_closed : Logic → Logic
set_closed k =
    if is_closed k.state then k else record k { state = closed; state_prior_to_closing = k.state }

-- The command `halReservedExit`: whether the cycle ends with EXIT, and whether a reply is due.
unfoldable pub reserved_exit :
    Host Call Answer → Context → Logic → ℕ → List Call → Bool × Bool × Logic × List Call
unfolding set_closed
reserved_exit h x k cookie w =
    if cookie == x.exit_cookie
    then (let (_, w) = call h driver_shutdown w in (true, cookie == 0, set_closed k, w))
    else (false, cookie == 0, k, w)
