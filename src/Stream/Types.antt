-- ===== src/Stream/Types.antt =====
-- The data of audio/include/core-impl/Stream.h and of the interface it implements: states, commands
-- and replies of StreamDescriptor, the constants of StreamContext, the state of a worker.
use android_device_brcm_rpi.Common.{ℕ, Bool, ℤ}

-- `closed` is `STATE_CLOSED`.
pub data State : Type 0 where
  standby idle active paused draining drain_paused transferring transfer_paused error closed : State

pub data DrainMode : Type 0 where
  drain_unspecified drain_all drain_early_notify : DrainMode

-- `StreamOutWorkerLogic::DrainState`
pub data DrainState : Type 0 where
  none_draining all_draining en en_sent : DrainState

-- A cookie and a request to flush are `int32_t` by their 32 bits.
pub data Command : Type 0 where
  hal_reserved_exit : ℕ → Command
  get_status start : Command
  burst : ℤ → Command
  drain : DrainMode → Command
  standby_command pause flush : Command
  flush_from_frame : ℕ → Command

pub data ReplyStatus : Type 0 where
  status_ok bad_value invalid_operation not_enough_data : ReplyStatus

pub data Position : Type 0 where
  unknown : Position
  at : ℕ → ℕ → Position

-- `latency_unknown` is the interface's LATENCY_UNKNOWN.
pub data Latency : Type 0 where
  latency_unknown : Latency
  ms : ℕ → Latency

pub record Reply : Type 0 where
  pub status : ReplyStatus
  pub fmq_byte_count : ℕ
  pub observable : Position
  pub hardware : Position
  pub latency_ms : Latency
  pub flush_from_position : ℕ
  pub state : State

-- What does not change while the worker runs: the fields of StreamContext that it reads (the
-- asynchronous callback is there or not), `mDataBufferSize`, and numbers of the interface: the width
-- of the position in a request to flush, and the two accuracies that are accepted.
pub record Context : Type 0 where
  pub is_mmap : Bool
  pub frame_size : ℕ
  pub data_buffer_size : ℕ
  pub nominal_latency_ms : ℕ
  pub has_callback : Bool
  pub has_processor : Bool
  pub force_synchronous_drain : Bool
  pub force_transient_burst : Bool
  pub transient_state_delay_ms : ℕ
  pub is_offload : Bool
  pub is_pcm : Bool
  pub exit_cookie : ℕ
  pub flush_position_bits : ℕ
  pub accuracy_best_effort : ℕ
  pub accuracy_exact : ℕ

-- `exit_cookie` is the internal cookie combined with the thread's number.
pub record Logic : Type 0 where
  pub state : State
  pub state_prior_to_closing : State
  pub drain_state : DrainState
  pub is_connected : Bool
  pub transient_state_start : ℕ
  pub frame_count : ℕ

-- Calls of the queues, the driver, the clock, the client's callback and the data processor.
pub data Call : Type 0 where
  read_command : Call
  write_reply : Reply → Call
  mq_available_to_write mq_available_to_read : Call
  mq_write mq_read : ℕ → Call
  driver_start driver_standby driver_pause driver_flush driver_shutdown : Call
  driver_drain : DrainMode → Call
  driver_transfer : ℕ → Call
  driver_transfer_mmap : Call
  driver_flush_from_frame : ℕ → ℕ → Call
  driver_refine_position driver_mmap_position : Call
  uptime_nanos steady_now : Call
  sleep_ms : ℕ → Call
  usleep_3000 : Call
  on_transfer_ready on_drain_ready : Call
  process_data : ℕ → Call

pub data CallStatus : Type 0 where
  call_ok call_bad_value call_failed : CallStatus

-- What a call returns, and what it leaves in its output arguments: a number of bytes or frames, a
-- time or latency, the command read.
pub record Answer : Type 0 where
  pub result : CallStatus
  pub count : ℕ
  pub value : ℕ
  pub command : Command

-- The result of a cycle.
pub data Status : Type 0 where
  continue abort exit : Status
