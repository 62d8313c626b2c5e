-- ===== src/A2b/Profile.antt =====
-- audio/a2b/Profile.h: a profile as parseProfile accepts it, and the calls that leave the component.
-- A register operation is told by its kind; a target by what its name stands for.
use android_device_brcm_rpi.Common.{ℕ, Bool, true, false, List}

-- `main`, `node<i>`, or a peripheral with its node and address.
pub data Target : Type 0 where
  main : Target
  node : ℕ → Target
  peripheral : ℕ → ℕ → Target

-- The fields of a register operation, 0 where the profile has none: reg, value, mask, timeout_ms.
pub record Register : Type 0 where
  pub target : Target
  pub reg : ℕ
  pub value : ℕ
  pub mask : ℕ
  pub timeout_ms : ℕ

pub data Operation : Type 0 where
  delay_op : ℕ → Operation
  write_op update_op verify_op poll_op : Register → Operation

pub data Phase : Type 0 where
  init mute unmute shutdown health : Phase

pub record NodeIdentity : Type 0 where
  pub vendor : ℕ
  pub product : ℕ

pub record Profile : Type 0 where
  pub id : List ℕ
  pub i2c_bus : ℕ
  pub main_address : ℕ
  pub nodes : List NodeIdentity
  pub start_muted : Bool
  pub sequences : Phase → List Operation

-- The calls of `Transport`, and those of the controller: the properties of the system, and a
-- profile's file.
pub data Call : Type 0 where
  bus_write : ℕ → ℕ → ℕ → Call
  bus_read : ℕ → ℕ → Call
  bus_delay : ℕ → Call
  now_ms : Call
  open_bus : ℕ → Call
  get_profile_property : Call
  set_profile_property : List ℕ → Call
  lstat_override : List ℕ → Call
  open_profile : Bool → List ℕ → Call
  read_profile : Call

-- What `fstat` says of the file that was opened.
pub record FileStatus : Type 0 where
  pub is_regular : Bool
  pub uid : ℕ
  pub others_write : Bool
  pub size : ℕ

-- `absent` is the error ENOENT. `parsed` is what parseProfile makes of the text that was read.
pub data Answer : Type 0 where
  done : ℕ → Answer
  failed absent : Answer
  text : List ℕ → Answer
  opened : FileStatus → Answer
  parsed : Profile → Answer

abbrev pub succeeds : Answer → Bool
succeeds (done n) = true
succeeds failed = false
succeeds absent = false
succeeds (text t) = true
succeeds (opened s) = true
succeeds (parsed p) = true

-- The number that a read or the clock returns.
abbrev pub value_of : Answer → ℕ
value_of (done n) = n
value_of failed = 0
value_of absent = 0
value_of (text t) = 0
value_of (opened s) = 0
value_of (parsed p) = 0
