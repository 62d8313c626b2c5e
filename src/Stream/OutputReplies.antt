-- ===== src/Stream/OutputReplies.antt =====
-- Which commands an output stream accepts, by the diagram, and what it replies.
use android_device_brcm_rpi.Common.{
  ◌≡◌, refl, Bool, true, false, ◌||◌, List, ◌∷◌, if◌then◌else◌, Host, arith,
}
use android_device_brcm_rpi.Stream.Types.{
  State, standby, idle, active, paused, draining, drain_paused, transferring, transfer_paused,
  DrainMode, drain_unspecified, drain_all, drain_early_notify, Command, hal_reserved_exit,
  get_status, start, burst, drain, standby_command, pause, flush, flush_from_frame, Reply,
  status_ok, Context, Logic, Call, Answer, driver_start, driver_pause, driver_flush, driver_standby,
  driver_drain,
}
use android_device_brcm_rpi.Stream.Worker.{
  is_ok, enter, populate_reply, refuse, switch_to_transient_state,
}
use android_device_brcm_rpi.Stream.Input.{driver_command, standby_driver}
use android_device_brcm_rpi.Stream.Output.{
  start_transient, out_start, drain_driver, drain_in, out_drain, out_standby, out_pause, out_flush,
  out_handle,
}
use android_device_brcm_rpi.Stream.OutputDiagram.{arrow}

-- The commands that only move the state machine.
abbrev pub is_transition : Command → Bool
is_transition start = true
is_transition pause = true
is_transition flush = true
is_transition standby_command = true
is_transition (drain drain_all) = true
is_transition (drain drain_early_notify) = true
is_transition (drain drain_unspecified) = false
is_transition (burst n) = false
is_transition get_status = false
is_transition (flush_from_frame n) = false
is_transition (hal_reserved_exit n) = false

-- Whether the diagram has an arrow for the command out of a state.
abbrev pub accepts : Context → Command → State → Bool
accepts x c s =
    arrow x c s standby
    || (arrow x c s idle
        || (arrow x c s active
            || (arrow x c s paused
                || (arrow x c s draining
                    || (arrow x c s drain_paused
                        || (arrow x c s transferring || arrow x c s transfer_paused))))))

-- Every call succeeds.
abbrev pub Works : Host Call Answer → Type 0
Works h = (w : List Call) (c : Call) → is_ok (h w c).result ≡ true

module _ (h : Host Call Answer) (x : Context) where
  status-populate_reply :
      (k : Logic) (b : Bool) (r : Reply) (w : List Call)
      → (populate_reply h x k b r w).0.status ≡ status_ok
  unfolding populate_reply
  status-populate_reply k b r w = ground arith

  -- The state and the status of the reply after a command.
  abbrev Lands : Logic × Reply × List Call → State → Type 0
  Lands q t = (q.0.state ≡ t) × (q.1.status ≡ status_ok)

  driver_command-Lands :
      (k : Logic) (c : Call) (next : State) (r : Reply) (w : List Call)
      → is_ok (h w c).result ≡ true
      → Lands (driver_command h x k c next r w) next
  unfolding driver_command
  driver_command-Lands k c next r w e =
      ground (arith, status-populate_reply k k.is_connected r (c ∷ w))

  start_transient-Lands :
      (k : Logic) (next : State) (r : Reply) (w : List Call)
      → is_ok (h w driver_start).result ≡ true
      → Lands (start_transient h x k next r w) next
  unfolding start_transient switch_to_transient_state
  start_transient-Lands k next r w e =
      ground (arith, status-populate_reply k k.is_connected r (driver_start ∷ w))

  standby_driver-Lands :
      Works h → (k : Logic) (r : Reply) (w : List Call) → Lands (standby_driver h x k r w) standby
  unfolding standby_driver
  standby_driver-Lands works k r w = ground (
    arith,
    status-populate_reply k k.is_connected r w,
    works (populate_reply h x k k.is_connected r w).1 driver_standby,
  )

  drain_driver-Lands :
      (k : Logic) (b : Bool) (mode : DrainMode) (r : Reply) (w : List Call)
      → is_ok (h w (driver_drain mode)).result ≡ true
      → Lands (drain_driver h x k b mode r w) (if b then idle else draining)
  unfolding drain_driver switch_to_transient_state
  drain_driver-Lands k b mode r w e =
      ground (arith, status-populate_reply k k.is_connected r (driver_drain mode ∷ w))

  -- One statement for both outcomes, for each command at a state.
  abbrev Obeys : Command → State → Logic → Reply → List Call → Logic × Reply × List Call → Type 0
  Obeys c s k r w q =
      (accepts x c s ≡ true → (arrow x c s q.0.state ≡ true) × (q.1.status ≡ status_ok))
      × (accepts x c s ≡ false → q ≡ (k, refuse r, w))

  module _ (works : Works h) (k : Logic) (r : Reply) (w : List Call) where
    start-Obeys : (s : State) → Obeys start s k r w (out_start h x k s r w)
    unfolding out_start
    start-Obeys s = ground (
      arith,
      driver_command-Lands k driver_start idle r w (works w driver_start),
      driver_command-Lands k driver_start active r w (works w driver_start),
      start_transient-Lands k draining r w (works w driver_start),
      start_transient-Lands k transferring r w (works w driver_start),
    )

    pause-Obeys : (s : State) → Obeys pause s k r w (out_pause h x k s r w)
    unfolding out_pause
    pause-Obeys s = ground (
      arith,
      driver_command-Lands k driver_pause paused r w (works w driver_pause),
      driver_command-Lands k driver_pause drain_paused r w (works w driver_pause),
      driver_command-Lands k driver_pause transfer_paused r w (works w driver_pause),
    )

    flush-Obeys : (s : State) → Obeys flush s k r w (out_flush h x k s r w)
    unfolding out_flush
    flush-Obeys s =
        ground (arith, driver_command-Lands k driver_flush idle r w (works w driver_flush))

    standby-Obeys : (s : State) → Obeys standby_command s k r w (out_standby h x k s r w)
    unfolding out_standby
    standby-Obeys s = ground (arith, standby_driver-Lands works k r w)

    drain-Obeys :
        (s : State) (mode : DrainMode)
        → k.state ≡ s
        → Obeys (drain mode) s k r w (drain_in h x k s mode r w)
    unfolding drain_in
    drain-Obeys s mode e = ground (
      arith,
      drain_driver-Lands k x.force_synchronous_drain mode r w (works w (driver_drain mode)),
      drain_driver-Lands k false mode r w (works w (driver_drain mode)),
      status-populate_reply (enter k drain_paused) k.is_connected r w,
    )

-- With calls that succeed, a command that moves the state machine (start, pause, flush, standby, or
-- a drain with a proper mode) is obeyed exactly where the diagram has an arrow for it: the stream
-- then follows an arrow and replies OK; elsewhere it replies INVALID_OPERATION, stays as it was and
-- makes no call.
pub out_handle-obeys :
    (h : Host Call Answer) (x : Context) (k : Logic) (c : Command) (r : Reply) (w : List Call)
    → Works h
    → is_transition c ≡ true
    → (accepts x c k.state ≡ true
        → (arrow x c k.state (out_handle h x k c r w).0.state ≡ true)
          × ((out_handle h x k c r w).1.status ≡ status_ok))
      × (accepts x c k.state ≡ false → out_handle h x k c r w ≡ (k, refuse r, w))
unfolding out_handle out_drain
out_handle-obeys h x k start r w works e = start-Obeys h x works k r w k.state
out_handle-obeys h x k pause r w works e = pause-Obeys h x works k r w k.state
out_handle-obeys h x k flush r w works e = flush-Obeys h x works k r w k.state
out_handle-obeys h x k standby_command r w works e = standby-Obeys h x works k r w k.state
out_handle-obeys h x k (drain drain_all) r w works e =
    drain-Obeys h x works k r w k.state drain_all refl
out_handle-obeys h x k (drain drain_early_notify) r w works e =
    drain-Obeys h x works k r w k.state drain_early_notify refl
out_handle-obeys h x k (drain drain_unspecified) r w works e = absurd (ground arith)
out_handle-obeys h x k (burst n) r w works e = absurd (ground arith)
out_handle-obeys h x k get_status r w works e = absurd (ground arith)
out_handle-obeys h x k (flush_from_frame n) r w works e = absurd (ground arith)
out_handle-obeys h x k (hal_reserved_exit n) r w works e = absurd (ground arith)
