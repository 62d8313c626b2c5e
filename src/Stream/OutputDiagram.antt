-- ===== src/Stream/OutputDiagram.antt =====
-- The state diagram of an output stream, against which every branch of its cycle is checked.
use android_device_brcm_rpi.Common.{
  ℕ, ◌≡◌, ◌⊎◌, inl, inr, refl, sym, Bool, true, false, ◌&&◌, ◌||◌, ◌==◌, List, if◌then◌else◌, Host,
  ℤ, pos, negsuc, arith, Bool-cases,
}
use mathlib.Core.Path.{subst}
use android_device_brcm_rpi.Stream.Types.{
  State, standby, idle, active, paused, draining, drain_paused, transferring, transfer_paused,
  error, closed, DrainMode, drain_unspecified, drain_all, drain_early_notify, Command,
  hal_reserved_exit, get_status, start, burst, drain, standby_command, pause, flush,
  flush_from_frame, Reply, bad_value, invalid_operation, Context, Logic, Call, Answer,
}
use android_device_brcm_rpi.Stream.Worker.{
  is_ok, enter, set_closed, reserved_exit, switch_to_transient_state,
}
use android_device_brcm_rpi.Stream.Input.{driver_command, standby_driver, read_mmap}
use android_device_brcm_rpi.Stream.Output.{
  consume, write, out_start, after_write, out_burst, drain_in, out_drain, out_standby, out_pause,
  out_flush, out_flush_from_frame, out_handle, flushable, refuses_bursts,
}

abbrev pub eq_state : State → State → Bool
eq_state standby standby = true
eq_state idle idle = true
eq_state active active = true
eq_state paused paused = true
eq_state draining draining = true
eq_state drain_paused drain_paused = true
eq_state transferring transferring = true
eq_state transfer_paused transfer_paused = true
eq_state error error = true
eq_state closed closed = true
eq_state _ _ = false

-- The arrows of the diagram: the states that a command may lead to. `async` is whether there is a
-- callback, `forced` whether an ACTIVE stream is drained synchronously.
abbrev pub start_arrow : State → State → Bool
start_arrow standby idle = true
start_arrow paused active = true
start_arrow drain_paused draining = true
start_arrow transfer_paused transferring = true
start_arrow _ _ = false

abbrev pub burst_arrow : Bool → State → State → Bool
burst_arrow async standby paused = true
burst_arrow async paused paused = true
burst_arrow async idle active = true
burst_arrow async active active = true
burst_arrow async draining active = true
burst_arrow true idle transferring = true
burst_arrow true active transferring = true
burst_arrow true draining transferring = true
burst_arrow async draining draining = true
burst_arrow false drain_paused paused = true
burst_arrow true drain_paused transfer_paused = true
burst_arrow true drain_paused drain_paused = true
burst_arrow async closed closed = true
burst_arrow _ _ _ = false

abbrev pub drain_arrow : Bool → State → State → Bool
drain_arrow true active idle = true
drain_arrow false active draining = true
drain_arrow forced transferring draining = true
drain_arrow forced transfer_paused drain_paused = true
drain_arrow _ _ _ = false

abbrev pub pause_arrow : State → State → Bool
pause_arrow active paused = true
pause_arrow draining drain_paused = true
pause_arrow transferring transfer_paused = true
pause_arrow _ _ = false

abbrev pub flush_arrow : State → State → Bool
flush_arrow paused idle = true
flush_arrow drain_paused idle = true
flush_arrow transfer_paused idle = true
flush_arrow _ _ = false

abbrev pub standby_arrow : State → State → Bool
standby_arrow idle standby = true
standby_arrow _ _ = false

abbrev pub arrow : Context → Command → State → State → Bool
arrow x start s t = start_arrow s t
arrow x (burst n) s t = burst_arrow x.has_callback s t
arrow x (drain mode) s t = drain_arrow x.force_synchronous_drain s t
arrow x standby_command s t = standby_arrow s t
arrow x pause s t = pause_arrow s t
arrow x flush s t = flush_arrow s t
arrow x (flush_from_frame n) s t = flushable s && eq_state s t
arrow x get_status s t = eq_state s t
arrow x (hal_reserved_exit n) s t = (n == x.exit_cookie) && eq_state t closed

-- What one command does to a state `s`: an arrow of the diagram, or the error state after the driver
-- failed, or, where the reply is a refusal or a BAD_VALUE, nothing.
abbrev pub is_rejected : Reply → Bool
is_rejected r = elim r.status [ bad_value ↦ true | invalid_operation ↦ true | _ ↦ false ]

abbrev pub follows : Context → Command → State → State → Bool
follows x c s t = eq_state s t || (eq_state t error || arrow x c s t)

module _ (h : Host Call Answer) (x : Context) where
  driver_command-state :
      (k : Logic) (c : Call) (next : State) (r : Reply) (w : List Call)
      → (driver_command h x k c next r w).0.state ≡ (if is_ok (h w c).result then next else error)
  unfolding driver_command
  driver_command-state k c next r w = ground arith

  standby_driver-state :
      (k : Logic) (r : Reply) (w : List Call)
      → ((standby_driver h x k r w).0.state ≡ standby)
        ⊎ ((standby_driver h x k r w).0.state ≡ error)
  unfolding standby_driver
  standby_driver-state k r w = ground arith

  start-follows :
      (k : Logic) (s : State) (r : Reply) (w : List Call)
      → k.state ≡ s
      → follows x start s (out_start h x k s r w).0.state ≡ true
  unfolding out_start driver_command switch_to_transient_state
  start-follows k s r w e = ground arith

  pause-follows :
      (k : Logic) (s : State) (r : Reply) (w : List Call)
      → k.state ≡ s
      → follows x pause s (out_pause h x k s r w).0.state ≡ true
  unfolding out_pause driver_command
  pause-follows k s r w e = ground arith

  flush-follows :
      (k : Logic) (s : State) (r : Reply) (w : List Call)
      → k.state ≡ s
      → follows x flush s (out_flush h x k s r w).0.state ≡ true
  unfolding out_flush driver_command
  flush-follows k s r w e = ground arith

  standby-follows :
      (k : Logic) (s : State) (r : Reply) (w : List Call)
      → k.state ≡ s
      → follows x standby_command s (out_standby h x k s r w).0.state ≡ true
  unfolding out_standby standby_driver
  standby-follows k s r w e = ground arith

  drain-follows :
      (k : Logic) (s : State) (mode : DrainMode) (r : Reply) (w : List Call)
      → k.state ≡ s
      → follows x (drain mode) s (drain_in h x k s mode r w).0.state ≡ true
  unfolding drain_in switch_to_transient_state
  drain-follows k s mode r w e = ground arith

  out_drain-follows :
      (k : Logic) (mode : DrainMode) (r : Reply) (w : List Call)
      → follows x (drain mode) k.state (out_drain h x k mode r w).0.state ≡ true
  unfolding out_drain
  out_drain-follows k drain_unspecified r w = ground arith
  out_drain-follows k drain_all r w = drain-follows k k.state drain_all r w refl
  out_drain-follows k drain_early_notify r w = drain-follows k k.state drain_early_notify r w refl

  after_write-follows :
      (k : Logic) (s : State) (n : ℕ) (r : Reply) (w : List Call)
      → k.state ≡ s
      → follows x (burst (pos n)) s (after_write h x k s n r w).0.state ≡ true
  unfolding after_write switch_to_transient_state
  after_write-follows k s n r w e = ground arith

  state-write :
      (k : Logic) (n : ℕ) (r : Reply) (w : List Call) → (write h x k n r w).1.state ≡ k.state
  unfolding write consume
  state-write k n r w = ground arith

  state-read_mmap :
      (k : Logic) (r : Reply) (w : List Call) → (read_mmap h x k r w).1.state ≡ k.state
  unfolding read_mmap
  state-read_mmap k r w = ground arith

  state-transfer :
      (k : Logic) (mmap : Bool) (n : ℕ) (r : Reply) (w : List Call)
      → (if mmap then read_mmap h x k r w else write h x k n r w).1.state ≡ k.state
  state-transfer k true n r w = state-read_mmap k r w
  state-transfer k false n r w = state-write k n r w

  -- After a write that reported `b` and kept the state `s`.
  written-follows :
      (b : Bool) (k : Logic) (s : State) (n : ℕ) (r : Reply) (w : List Call)
      → k.state ≡ s
      → let k' = if b then k else enter k error in
        follows x (burst (pos n)) s (after_write h x k' k'.state n r w).0.state ≡ true
  unfolding after_write
  written-follows true k s n r w e =
      subst (λ (t : State). follows x (burst (pos n)) s (after_write h x k t n r w).0.state ≡ true)
        (sym e) (after_write-follows k s n r w e)
  written-follows false k s n r w e = ground arith

  burst-follows :
      (k : Logic) (n : ℤ) (r : Reply) (w : List Call)
      → follows x (burst n) k.state (out_burst h x k n r w).0.state ≡ true
  unfolding out_burst
  burst-follows k (negsuc n) r w = ground arith
  burst-follows k (pos n) r w = elim (Bool-cases (refuses_bursts k.state)) [
    | inl refused ↦ rw refused (ground arith)
    | inr taken ↦ rw taken (written-follows _ _ k.state n _ _ (state-transfer k x.is_mmap n r w))
  ]

  flush_from_frame-state :
      (k : Logic) (n : ℕ) (r : Reply) (w : List Call)
      → (out_flush_from_frame h x k n r w).0.state ≡ k.state
  unfolding out_flush_from_frame
  flush_from_frame-state k n r w = ground arith

reserved_exit-follows :
    (h : Host Call Answer) (x : Context) (k : Logic) (n : ℕ) (w : List Call)
    → follows x (hal_reserved_exit n) k.state (reserved_exit h x k n w).2.state ≡ true
unfolding reserved_exit set_closed
reserved_exit-follows h x k n w = ground arith

eq_state_refl : (s : State) → eq_state s s ≡ true
eq_state_refl s = ground arith

-- For every command, state and answer of the driver, the switch of an output stream's cycle either
-- leaves the state as it was, enters the error state, or follows an arrow of the diagram. From another
-- state the only arrow into the closed state is that of the exit command with the worker's own cookie.
pub out_handle-follows :
    (h : Host Call Answer) (x : Context) (k : Logic) (c : Command) (r : Reply) (w : List Call)
    → follows x c k.state (out_handle h x k c r w).0.state ≡ true
unfolding out_handle
out_handle-follows h x k (hal_reserved_exit n) r w = reserved_exit-follows h x k n w
out_handle-follows h x k get_status r w = rw eq_state_refl
out_handle-follows h x k start r w = start-follows h x k k.state r w refl
out_handle-follows h x k (burst n) r w = burst-follows h x k n r w
out_handle-follows h x k (drain mode) r w = out_drain-follows h x k mode r w
out_handle-follows h x k standby_command r w = standby-follows h x k k.state r w refl
out_handle-follows h x k pause r w = pause-follows h x k k.state r w refl
out_handle-follows h x k flush r w = flush-follows h x k k.state r w refl
out_handle-follows h x k (flush_from_frame n) r w =
    rw (flush_from_frame-state h x k n r w) (rw eq_state_refl)
