-- ===== src/Cec/Tests.antt =====
-- Two services at concrete inputs.
use android_device_brcm_rpi.Common.{◌≡◌, refl, true, false, [], ◌∷◌, Host, if◌then◌else◌, arith}
use android_device_brcm_rpi.Cec.Service.{
  Message, Codes, Service, Call, transmit, receive, dequeue_event, on_cec_message, Answer, sent,
  received, done, success, new_service, set_callback, enable_system_cec_control,
  enable_wakeup_by_otp, encode, send_message, event_round, is_wakeup_message,
  is_transferable_in_sleep, decode, bytes_of,
}
use android_device_brcm_rpi.Cec.Delivery.{passes, event_round-send_message}

abbrev codes : Codes
codes = record {
  text_view_on = 0x0d;
  image_view_on = 0x04;
  user_control_pressed = 0x44;
  transferable =
      0xff ∷ 0x87 ∷ 0x9f ∷ 0x91 ∷ 0x8f ∷ 0x8c ∷ 0x46 ∷ 0x83 ∷ 0x84 ∷ 0x90 ∷ 0x47 ∷ 0x42 ∷ 0x41
      ∷ 0x70 ∷ [];
  power_commands = 0x40 ∷ 0x09 ∷ 0x6d ∷ [];
  body_max_length = 16;
}

-- <User Control Pressed> [Power] from the television to a player.
abbrev power_pressed : Message
power_pressed = record { initiator = 0; destination = 4; body = 0x44 ∷ 0x40 ∷ [] }

abbrev image_view : Message
image_view = record { initiator = 4; destination = 0; body = 0x04 ∷ [] }

abbrev bus : Message → Host Call Answer
bus m w (transmit f) = sent 1
bus m w receive = received true (encode m)
bus m w dequeue_event = done
bus m w (on_cec_message n) = done

abbrev asleep : Service
asleep = enable_system_cec_control false (set_callback true (new_service true))

-- The power key passes in standby; <Image View On> does not, when waking up is off.
power_passes :
    (event_round (bus power_pressed) codes asleep false false true []).1
    ≡ on_cec_message power_pressed ∷ receive ∷ []
unfolding event_round decode bytes_of encode is_wakeup_message is_transferable_in_sleep
power_passes = refl

view_filtered :
    (event_round (bus image_view) codes (enable_wakeup_by_otp false asleep) false false true []).1
    ≡ receive ∷ []
unfolding event_round encode is_wakeup_message is_transferable_in_sleep
view_filtered = refl

event_round-send_message_example :
    (send_message (bus power_pressed) (new_service true) power_pressed []
      ≡ (success, transmit (encode power_pressed) ∷ []))
    × (event_round (bus power_pressed) codes asleep false false true [] ≡ (
      true,
      if passes codes asleep (encode power_pressed)
          then on_cec_message power_pressed ∷ receive ∷ []
          else receive ∷ [],
    ))
event_round-send_message_example =
    event_round-send_message (bus power_pressed) (bus power_pressed) codes (new_service true) asleep
      power_pressed [] [] (omega arith, omega arith, omega arith, omega arith) refl refl refl refl
