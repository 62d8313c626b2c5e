-- ===== src/Cec/Service.antt =====
-- hdmi/cec/HdmiCec.cpp and HdmiCec.h: messages, their filters and logical addresses.
use android_device_brcm_rpi.Common.{
  ℕ, zero, suc, ◌+◌, ◌-◌, ◌*◌, ◌/◌, ◌%◌, ◌^◌, min, Bool, true, false, not, ◌&&◌, ◌||◌, ◌==◌, ltb,
  List, [], ◌∷◌, if◌then◌else◌, Host, call, length,
}

pub record Message : Type 0 where
  pub initiator : ℕ
  pub destination : ℕ
  pub body : List ℕ

-- `cec_msg`: the bytes that are set, the others are 0, and its length.
pub record Frame : Type 0 where
  pub bytes : List ℕ
  pub len : ℕ

-- The codes of the CEC headers: the opcodes of the view messages, of <User Control Pressed>, those of
-- the other messages that pass in standby, the user control codes for power, and
-- CEC_MESSAGE_BODY_MAX_LENGTH.
pub record Codes : Type 0 where
  pub text_view_on : ℕ
  pub image_view_on : ℕ
  pub user_control_pressed : ℕ
  pub transferable : List ℕ
  pub power_commands : List ℕ
  pub body_max_length : ℕ

-- `has_port` says that `init` succeeded.
pub record Service : Type 0 where
  pub is_cec_enabled : Bool
  pub is_wakeup_enabled : Bool
  pub is_cec_control_enabled : Bool
  pub has_callback : Bool
  pub has_port : Bool

-- The ioctls of the CEC device, and the callback.
pub data Call : Type 0 where
  transmit : Frame → Call
  receive dequeue_event : Call
  on_cec_message : Message → Call

-- `sent` has the status of a transmission, `received` a frame and whether its status is good.
pub data Answer : Type 0 where
  sent : ℕ → Answer
  received : Bool → Frame → Answer
  done : Answer
  failed : Answer

-- `undefined` is an access out of the bounds of a vector or an array.
pub data SendResult : Type 0 where
  success nack busy fail undefined : SendResult

abbrev pub new_service : Bool → Service
new_service initialized = record {
  is_cec_enabled = initialized;
  is_wakeup_enabled = initialized;
  is_cec_control_enabled = initialized;
  has_callback = false;
  has_port = initialized;
}

abbrev pub set_callback : Bool → Service → Service
set_callback given s = record s { has_callback = given }

abbrev pub enable_wakeup_by_otp : Bool → Service → Service
enable_wakeup_by_otp value s = record s { is_wakeup_enabled = value }

abbrev pub enable_cec : Bool → Service → Service
enable_cec value s = record s { is_cec_enabled = value }

abbrev pub enable_system_cec_control : Bool → Service → Service
enable_system_cec_control value s = record s { is_cec_control_enabled = value }

abbrev pub byte_at : ℕ → List ℕ → ℕ
byte_at i [] = 0
byte_at zero (b ∷ bs) = b
byte_at (suc i) (b ∷ bs) = byte_at i bs

-- The first bytes of a frame, with zeros behind those that are set.
unfoldable pub bytes_of : ℕ → List ℕ → List ℕ
bytes_of zero bs = []
bytes_of (suc n) [] = 0 ∷ bytes_of n []
bytes_of (suc n) (b ∷ bs) = b ∷ bytes_of n bs

abbrev pub rest : List ℕ → List ℕ
rest [] = []
rest (b ∷ bs) = bs

-- The frame of a message, whose addresses have four bits.
unfoldable pub encode : Message → Frame
encode m = record { bytes = (m.initiator * 16 + m.destination) ∷ m.body; len = length m.body + 1 }

-- The length of the body is that of the frame less one, as a `uint32_t`, and at most that of a body.
unfoldable pub decode : Codes → Frame → Message
unfolding bytes_of
decode c f =
    let n = min ((f.len + 2 ^ 32 - 1) % 2 ^ 32) (c.body_max_length - 1) in
    record {
      initiator = byte_at 0 f.bytes / 16;
      destination = byte_at 0 f.bytes % 16;
      body = bytes_of n (rest f.bytes);
    }

abbrev pub is_one_of : ℕ → List ℕ → Bool
is_one_of i [] = false
is_one_of i (j ∷ js) = i == j || is_one_of i js

unfoldable pub is_wakeup_message : Codes → Frame → Bool
is_wakeup_message c f = byte_at 1 f.bytes == c.text_view_on || byte_at 1 f.bytes == c.image_view_on

abbrev pub is_power_ui_command : Codes → Frame → Bool
is_power_ui_command c f = is_one_of (byte_at 2 f.bytes) c.power_commands

unfoldable pub is_transferable_in_sleep : Codes → Frame → Bool
is_transferable_in_sleep c f =
    let opcode = byte_at 1 f.bytes in
    is_one_of opcode c.transferable
    || opcode == c.image_view_on
    || opcode == c.text_view_on
    || (opcode == c.user_control_pressed && is_power_ui_command c f)

-- The bits of `tx_status`: CEC_TX_STATUS_OK is 1, ARB_LOST 2 and NACK 4.
abbrev pub send_message_result : ℕ → SendResult
send_message_result status =
    if status == 1
    then success
    else if status == 2
    then busy
    else if status == 4
    then nack
    else fail

abbrev pub result_of : Answer → SendResult
result_of (sent status) = send_message_result status
result_of (received fine f) = fail
result_of done = fail
result_of failed = fail

module _ (h : Host Call Answer) where
  -- A frame has 16 bytes.
  unfoldable pub send_message : Service → Message → List Call → SendResult × List Call
  unfolding encode
  send_message s m w =
      let (a, w1) = call h (transmit (encode m)) w in
      if not s.is_cec_enabled
      then (fail, w)
      else if ltb 15 (length m.body)
      then (undefined, w)
      else if not s.has_port
      then (undefined, w)
      else (result_of a, w1)

  -- What `event_thread` does with a message that it received.
  abbrev pub deliver : Codes → Service → Answer → List Call → List Call
  deliver c s (sent status) w = w
  deliver c s done w = w
  deliver c s failed w = w
  deliver c s (received fine f) w =
      if not fine
      then w
      else if not s.is_cec_enabled
      then w
      else if not s.is_wakeup_enabled && is_wakeup_message c f
      then w
      else if not s.is_cec_control_enabled && not (is_transferable_in_sleep c f)
      then w
      else if s.has_callback
      then on_cec_message (decode c f) ∷ w
      else w

  abbrev pub is_done : Answer → Bool
  is_done (sent status) = true
  is_done (received fine f) = true
  is_done done = true
  is_done failed = false

  abbrev pub handle_message : Codes → Service → Bool → List Call → List Call
  handle_message c s driver w =
      let (a, w1) = call h receive w in if driver then deliver c s a w1 else w

  -- A round of `event_thread`, by which of the polled events came: whether it goes on.
  unfoldable pub event_round : Codes → Service → Bool → Bool → Bool → List Call → Bool × List Call
  unfolding is_wakeup_message is_transferable_in_sleep decode
  event_round c s exits event driver w =
      let (a, w1) = call h dequeue_event w in
      if exits
      then (false, w)
      else if not event
      then (true, handle_message c s driver w)
      else if not (is_done a) || not s.is_cec_enabled
      then (true, w1)
      else (true, handle_message c s driver w1)
