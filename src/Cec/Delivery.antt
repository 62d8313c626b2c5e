-- ===== src/Cec/Delivery.antt =====
-- hdmi/cec/HdmiCec.cpp: what is sent arrives, unless a filter holds it back.
use android_device_brcm_rpi.Common.{
  ℕ, ◌+◌, ◌-◌, ◌*◌, ◌/◌, ◌%◌, ◌^◌, ◌<◌, ◌≤◌, min, ◌≡◌, refl, ap, ◌∙◌, Bool, true, false, not, ◌&&◌,
  ◌||◌, ltb, List, [], ◌∷◌, if◌then◌else◌, Host, length, arith,
}
use android_device_brcm_rpi.Cec.Service.{
  Message, Frame, Codes, Service, Call, transmit, receive, on_cec_message, Answer, sent, received,
  success, bytes_of, encode, decode, is_wakeup_message, is_transferable_in_sleep, send_message,
  deliver, event_round,
}

bytes_of-length : (bs : List ℕ) → bytes_of (length bs) bs ≡ bs
unfolding bytes_of
bytes_of-length [] = refl
bytes_of-length (b ∷ bs) = ap (λ x. b ∷ x) (bytes_of-length bs)

-- Addresses of four bits, and a body that fits in a frame.
abbrev pub IsMessage : Codes → Message → Type 0
IsMessage c m =
    (m.initiator < 16)
    × (m.destination < 16)
    × (length m.body ≤ 15)
    × (length m.body < c.body_max_length)

pub decode-encode : (c : Codes) (m : Message) → IsMessage c m → decode c (encode m) ≡ m
unfolding decode encode
decode-encode c m (high, low, small, fits) =
    let from : (m.initiator * 16 + m.destination) / 16 ≡ m.initiator = omega arith in
    let to : (m.initiator * 16 + m.destination) % 16 ≡ m.destination = omega arith in
    let n : min ((length m.body + 1 + 2 ^ 32 - 1) % 2 ^ 32) (c.body_max_length - 1)
        ≡ length m.body =
      omega arith in
    let all = ap (λ k. bytes_of k m.body) n ∙ bytes_of-length m.body in
    λ i. record { initiator = from i; destination = to i; body = all i }

-- The filters of a message, as the interface describes them.
abbrev pub passes : Codes → Service → Frame → Bool
passes c s f =
    s.is_cec_enabled
    && s.has_callback
    && (s.is_wakeup_enabled || not (is_wakeup_message c f))
    && (s.is_cec_control_enabled || is_transferable_in_sleep c f)

deliver-received :
    (h : Host Call Answer) (c : Codes) (s : Service) (f : Frame) (w : List Call)
    → deliver h c s (received true f) w
      ≡ (if passes c s f then on_cec_message (decode c f) ∷ w else w)
deliver-received h c s f w = ground arith

-- A message that one service sends is the one that another receives: where the transmission succeeds
-- and the other device receives the frame, the sender, if it is enabled, reports success after this one
-- transmission, and the receiver's callback gets the same message, exactly when its filters let it
-- pass, and nothing otherwise.
pub event_round-send_message :
    (h k : Host Call Answer) (c : Codes) (sender receiver : Service) (m : Message) (w v : List Call)
    → IsMessage c m
    → sender.is_cec_enabled ≡ true
    → sender.has_port ≡ true
    → h w (transmit (encode m)) ≡ sent 1
    → k v receive ≡ received true (encode m)
    → (send_message h sender m w ≡ (success, transmit (encode m) ∷ w))
      × (event_round k c receiver false false true v ≡ (
        true,
        if passes c receiver (encode m) then on_cec_message m ∷ receive ∷ v else receive ∷ v,
      ))
unfolding send_message event_round
event_round-send_message h k c sender receiver m w v proper enabled port transmitted heard =
    let fits : ltb 15 (length m.body) ≡ false = ground (arith, proper) in
    (
      rw (enabled, fits, port, transmitted) refl,
      rw heard (
          ap (λ x. (true, x))
            (deliver-received k c receiver (encode m) (receive ∷ v)
              ∙ ap
                  (λ x.
                    if passes c receiver (encode m)
                    then on_cec_message x ∷ receive ∷ v
                    else receive ∷ v)
                  (decode-encode c m proper))),
    )
