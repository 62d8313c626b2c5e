-- ===== src/A2b/Controller.antt =====
-- audio/a2b/A2bController.cpp and .h: the controller. The text of an error is told by its `Fault`;
-- each function is the body under the lock.
use android_device_brcm_rpi.Common.{ℕ, Bool, false, Option, none}
use android_device_brcm_rpi.A2b.Profile.{Phase, Profile}

pub data Fault : Type 0 where
  invalid_id cannot_inspect bad_file bad_text id_mismatch : Fault
  operation_failed : Phase → ℕ → Fault
  bad_node no_profile pcm_failure not_persisted : Fault
  needs_resume : Fault → Fault

-- The fields of A2bController. Without a transport `run` does nothing; `profile` is `none` for the
-- one that the constructor makes, whose id is empty; `error` is `none` for the empty text.
pub record State : Type 0 where
  pub has_transport : Bool
  pub profile : Option Profile
  pub error : Option Fault
  pub users : ℕ
  pub ready : Bool
  pub clock_started : Bool
  pub quiesced : Bool
  pub muted : Option Bool
  pub allow_audio : Bool
  pub clock_failed : Bool

abbrev pub new_state : State
new_state = record {
  has_transport = false;
  profile = none;
  error = none;
  users = 0;
  ready = false;
  clock_started = false;
  quiesced = false;
  muted = none;
  allow_audio = false;
  clock_failed = false;
}
