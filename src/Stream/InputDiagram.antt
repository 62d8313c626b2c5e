-- ===== src/Stream/InputDiagram.antt =====
-- The state diagram of an input stream, against which every branch of its cycle is checked.
use android_device_brcm_rpi.Common.{
  ℕ, ◌/◌, ◌≡◌, ◌⊎◌, inl, inr, refl, min, ◌==◌, Bool, true, false, List, Option, none, some, ap, ◌∷◌,
  if◌then◌else◌, Host, pos, negsuc, arith, Bool-cases,
}
use android_device_brcm_rpi.Stream.Types.{
  State, standby, idle, active, paused, draining, error, closed, drain_unspecified, drain_all,
  drain_early_notify, Command, hal_reserved_exit, get_status, start, burst, drain, standby_command,
  pause, flush, flush_from_frame, Reply, ReplyStatus, driver_pause, driver_flush,
  driver_transfer_mmap, mq_available_to_write, bad_value, invalid_operation, Context, Logic, Call,
  Answer, driver_start, driver_drain, driver_standby, driver_transfer,
}
use android_device_brcm_rpi.Stream.Worker.{populate_reply, set_closed, reserved_exit, initial_reply}
use android_device_brcm_rpi.Stream.Input.{
  deliver, read, read_mmap, after_read, read_burst, driver_command, standby_driver, in_start,
  in_drain, in_standby, in_pause, in_flush, in_handle, capture,
}
use android_device_brcm_rpi.Stream.OutputReplies.{Works}

-- The state that a command leads to when it is accepted and the driver does its part. An input is
-- drained by the client's reads: one read takes it from DRAINING to STANDBY. The exit command closes
-- the stream where it carries the worker's own cookie.
abbrev pub in_next : Context → Command → State → Option State
in_next x start standby = some idle
in_next x start draining = some active
in_next x (burst (pos n)) idle = some active
in_next x (burst (pos n)) active = some active
in_next x (burst (pos n)) paused = some active
in_next x (burst (pos n)) draining = some standby
in_next x (drain drain_unspecified) active = some draining
in_next x standby_command idle = some standby
in_next x pause active = some paused
in_next x flush paused = some standby
in_next x (hal_reserved_exit n) s = if n == x.exit_cookie then some closed else none
in_next x get_status s = some s
in_next x _ _ = none

-- The status of a reply to a command that is not accepted.
abbrev pub in_refusal : Command → ReplyStatus
in_refusal (burst (negsuc n)) = bad_value
in_refusal (drain drain_all) = bad_value
in_refusal (drain drain_early_notify) = bad_value
in_refusal (hal_reserved_exit n) = bad_value
in_refusal _ = invalid_operation

-- The outcome `q` of a command `c` at a state `s`. Where the diagram has a next state: that state, or
-- the error state; where it has none: nothing but the status of the reply changed, and no call made.
abbrev pub InObeys :
    Context → Command → State → Logic → Reply → List Call → Logic × Reply × List Call → Type 0
InObeys x c s k r w q =
    ((t : State) → in_next x c s ≡ some t → (q.0.state ≡ t) ⊎ (q.0.state ≡ error))
    × (in_next x c s ≡ none → q ≡ (k, record r { status = in_refusal c }, w))

-- The same outcome where every call succeeds: the next state is reached.
abbrev pub InReaches : Context → Command → State → Logic × Reply × List Call → Type 0
InReaches x c s q = (t : State) → in_next x c s ≡ some t → q.0.state ≡ t

module _ (h : Host Call Answer) (x : Context) (k : Logic) (w : List Call) where
  state-driver_command :
      (c : Call) (t : State) (r : Reply)
      → ((driver_command h x k c t r w).0.state ≡ t)
        ⊎ ((driver_command h x k c t r w).0.state ≡ error)
  unfolding driver_command
  state-driver_command c t r = ground arith

  state-standby_driver :
      (r : Reply)
      → ((standby_driver h x k r w).0.state ≡ standby)
        ⊎ ((standby_driver h x k r w).0.state ≡ error)
  unfolding standby_driver
  state-standby_driver r = ground arith

  state-read : (n : ℕ) (r : Reply) → (read h x k n r w).1.state ≡ k.state
  unfolding read deliver
  state-read n r = ground arith

  state-read_mmap : (r : Reply) → (read_mmap h x k r w).1.state ≡ k.state
  unfolding read_mmap
  state-read_mmap r = ground arith

  state-transfer :
      (mmap : Bool) (n : ℕ) (r : Reply)
      → (if mmap then read_mmap h x k r w else read h x k n r w).1.state ≡ k.state
  state-transfer true n r = state-read_mmap r
  state-transfer false n r = state-read n r

  state-read_burst :
      (n : ℕ) (r : Reply)
      → ((read_burst h x k n r w).0.state ≡ after_read k.state)
        ⊎ ((read_burst h x k n r w).0.state ≡ error)
  unfolding read_burst
  state-read_burst n r =
      let q = if x.is_mmap then read_mmap h x k r w else read h x k n r w in
      let e : q.1.state ≡ k.state = state-transfer x.is_mmap n r in
      elim (Bool-cases q.0) [
        | inl success ↦ inl (rw success (ap after_read e))
        | inr failure ↦ inr (rw failure refl)
      ]

  exit-Obeys :
      (n : ℕ)
      → let q = reserved_exit h x k n w in
        InObeys x (hal_reserved_exit n) k.state k initial_reply w (q.2, initial_reply, q.3)
  unfolding reserved_exit set_closed
  exit-Obeys n = ground arith

  reached-reserved_exit :
      (n : ℕ) (t : State)
      → in_next x (hal_reserved_exit n) k.state ≡ some t
      → (reserved_exit h x k n w).2.state ≡ t
  unfolding reserved_exit set_closed
  reached-reserved_exit n t = ground arith

  -- For every command, state and answer of the driver, an input stream obeys the diagram: an
  -- accepted command leads to the next state or to the error state; any other changes nothing but
  -- the status of the reply, and makes no call. The exit command is accepted with the worker's own
  -- cookie, and its next state is the closed one.
  pub in_handle-obeys :
      (c : Command) → InObeys x c k.state k initial_reply w (in_handle h x k c initial_reply w)
  unfolding in_handle in_start in_drain in_standby in_pause in_flush
  in_handle-obeys get_status = ground arith
  in_handle-obeys start = ground (
    arith,
    state-driver_command driver_start idle initial_reply,
    state-driver_command driver_start active initial_reply,
  )
  in_handle-obeys (burst (pos n)) = ground (arith, state-read_burst n initial_reply)
  in_handle-obeys (burst (negsuc n)) = ground arith
  in_handle-obeys (drain drain_unspecified) =
      ground (arith, state-driver_command (driver_drain drain_unspecified) draining initial_reply)
  in_handle-obeys (drain drain_all) = ground arith
  in_handle-obeys (drain drain_early_notify) = ground arith
  in_handle-obeys standby_command = ground (arith, state-standby_driver initial_reply)
  in_handle-obeys pause = ground (arith, state-driver_command driver_pause paused initial_reply)
  in_handle-obeys flush = ground (arith, state-driver_command driver_flush standby initial_reply)
  in_handle-obeys (flush_from_frame n) = ground arith
  in_handle-obeys (hal_reserved_exit n) = exit-Obeys n

  module _ (works : Works h) where
    reached-driver_command :
        (c : Call) (t : State) (r : Reply) → (driver_command h x k c t r w).0.state ≡ t
    unfolding driver_command
    reached-driver_command c t r = ground (arith, works w c)

    reached-standby_driver : (r : Reply) → (standby_driver h x k r w).0.state ≡ standby
    unfolding standby_driver
    reached-standby_driver r =
        ground (arith, works (populate_reply h x k k.is_connected r w).1 driver_standby)

    success-transfer :
        (mmap : Bool) (n : ℕ) (r : Reply)
        → (if mmap then read_mmap h x k r w else read h x k n r w).0 ≡ true
    unfolding read_mmap read capture
    success-transfer true n r = ground (arith, works w driver_transfer_mmap)
    success-transfer false n r =
        let room = (h w mq_available_to_write).count in
        ground (
          arith,
          works (mq_available_to_write ∷ w)
              (driver_transfer (min n (min room x.data_buffer_size) / x.frame_size)),
        )

    reached-read_burst : (n : ℕ) (r : Reply) → (read_burst h x k n r w).0.state ≡ after_read k.state
    unfolding read_burst
    reached-read_burst n r =
        rw (success-transfer x.is_mmap n r) (ap after_read (state-transfer x.is_mmap n r))

    -- Where every call succeeds, an accepted command of an input stream reaches its next state.
    pub in_handle-reaches :
        (c : Command) → InReaches x c k.state (in_handle h x k c initial_reply w)
    unfolding in_handle in_start in_drain in_standby in_pause in_flush
    in_handle-reaches get_status = ground arith
    in_handle-reaches start = ground (
      arith,
      reached-driver_command driver_start idle initial_reply,
      reached-driver_command driver_start active initial_reply,
    )
    in_handle-reaches (burst (pos n)) = ground (arith, reached-read_burst n initial_reply)
    in_handle-reaches (burst (negsuc n)) = ground arith
    in_handle-reaches (drain drain_unspecified) =
        ground
          (arith, reached-driver_command (driver_drain drain_unspecified) draining initial_reply)
    in_handle-reaches (drain drain_all) = ground arith
    in_handle-reaches (drain drain_early_notify) = ground arith
    in_handle-reaches standby_command = ground (arith, reached-standby_driver initial_reply)
    in_handle-reaches pause =
        ground (arith, reached-driver_command driver_pause paused initial_reply)
    in_handle-reaches flush =
        ground (arith, reached-driver_command driver_flush standby initial_reply)
    in_handle-reaches (flush_from_frame n) = ground arith
    in_handle-reaches (hal_reserved_exit n) = reached-reserved_exit n
