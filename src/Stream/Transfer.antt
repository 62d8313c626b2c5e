-- ===== src/Stream/Transfer.antt =====
-- How many frames a burst moves and how they are counted, in both directions.
use android_device_brcm_rpi.Common.{
  ℕ, ◌+◌, ◌*◌, ◌/◌, ◌≤◌, ◌≡◌, refl, min, Bool, List, ◌∷◌, Host, arith,
}
use android_device_brcm_rpi.Stream.Types.{
  Reply, Context, Logic, Call, Answer, mq_available_to_write, mq_available_to_read, mq_write,
  mq_read, driver_transfer,
}
use native.Mathlib.Nat.{le_trans}
use android_device_brcm_rpi.Stream.Worker.{populate_reply}
use android_device_brcm_rpi.Stream.Input.{Moved, capture, deliver, read}
use android_device_brcm_rpi.Stream.Output.{play, used_bytes, consume, write}

-- The driver keeps to what it was asked: it moves no more frames than the buffer holds.
abbrev pub Bounded : Host Call Answer → Type 0
Bounded h = (w : List Call) (n : ℕ) → (h w (driver_transfer n)).count ≤ n

div-mul-le : (n d : ℕ) → n / d * d ≤ n
div-mul-le n d = grind arith

mul-le : (a b d : ℕ) → a ≤ b → a * d ≤ b * d
mul-le a b d h = grind arith

-- What a transfer of `client` bytes may change: the frames added to the counter are the bytes added
-- to the reply, and these are at most `client`.
pub record Moves (x : Context) (client : ℕ) (k : Logic) (r : Reply) (k' : Logic) (r' : Reply)
    : Type 0 where
  pub counted :
      r'.fmq_byte_count + k.frame_count * x.frame_size
      ≡ r.fmq_byte_count + k'.frame_count * x.frame_size
  pub bounded : r'.fmq_byte_count ≤ r.fmq_byte_count + client
  pub state_kept : k'.state ≡ k.state

module _ (h : Host Call Answer) (x : Context) where
  frames-play : (k : Logic) (n : ℕ) (w : List Call) → Bounded h → (play h x k n w).0.frames ≤ n
  unfolding play
  frames-play k n w b = ground (arith, b w n)

  frames-capture :
      (k : Logic) (n : ℕ) (w : List Call) → Bounded h → (capture h x k n w).0.frames ≤ n
  unfolding capture
  frames-capture k n w b = ground (arith, b w n)

  bytes-populate_reply :
      (k : Logic) (b : Bool) (r : Reply) (w : List Call)
      → (populate_reply h x k b r w).0.fmq_byte_count ≡ r.fmq_byte_count
  unfolding populate_reply
  bytes-populate_reply k b r w = ground arith

  -- Frames within a number of bytes.
  frames_fit : (m n client : ℕ) → m ≤ n / x.frame_size → n ≤ client → m * x.frame_size ≤ client
  frames_fit m n client a b =
      omega (arith, mul-le m (n / x.frame_size) x.frame_size a, div-mul-le n x.frame_size)

  used_bytes-le : (client readable : ℕ) → used_bytes x client readable ≤ client
  unfolding used_bytes
  used_bytes-le client readable = ground arith

  -- The counter and the reply after `m` frames.
  credited-Moves :
      (k : Logic) (n client : ℕ) (r : Reply) (w : List Call)
      → n * x.frame_size ≤ client
      → let k' = record k { frame_count = k.frame_count + n } in
        let r' = record r { fmq_byte_count = r.fmq_byte_count + n * x.frame_size } in
        Moves x client k r k' (populate_reply h x k' k.is_connected r' w).0
  credited-Moves k n client r w fit =
      let k' = record k { frame_count = k.frame_count + n } in
      let r' = record r { fmq_byte_count = r.fmq_byte_count + n * x.frame_size } in
      let e = bytes-populate_reply k' k.is_connected r' w in
      record { counted = omega (arith, e); bounded = omega (arith, e); state_kept = refl }

  unmoved :
      (k : Logic) (client : ℕ) (r r' : Reply)
      → r'.fmq_byte_count ≡ r.fmq_byte_count
      → Moves x client k r k r'
  unmoved k client r r' e = record {
    counted = omega arith;
    bounded = omega arith;
    state_kept = refl;
  }

  deliver-Moves :
      (k : Logic) (m : Moved) (client : ℕ) (r : Reply) (w : List Call)
      → m.frames * x.frame_size ≤ client
      → Moves x client k r (deliver h x k m r w).0 (deliver h x k m r w).1
  unfolding deliver
  deliver-Moves k m client r w fit =
      let bytes = m.frames * x.frame_size in
      ground (
        arith,
        credited-Moves k m.frames client r (mq_write bytes ∷ w) fit,
        credited-Moves k m.frames client r w fit,
      )

  -- A `read` for `client` bytes, from a driver that moves no more than it is asked: the frames added
  -- to the stream's counter are exactly the bytes added to the reply, never more than the client
  -- asked for; the state is left to the caller.
  pub read-Moves :
      (k : Logic) (client : ℕ) (r : Reply) (w : List Call)
      → Bounded h
      → Moves x client k r (read h x k client r w).1 (read h x k client r w).2
  unfolding read
  read-Moves k client r w b =
      let room = (h w mq_available_to_write).count in
      let n = min client (min room x.data_buffer_size) in
      deliver-Moves k (capture h x k (n / x.frame_size) (mq_available_to_write ∷ w)).0 client r _ (
        frames_fit _ n client (frames-capture k (n / x.frame_size) (mq_available_to_write ∷ w) b)
          (omega arith))

  consume-Moves :
      (k : Logic) (n client : ℕ) (r : Reply) (w : List Call)
      → Bounded h
      → n * x.frame_size ≤ client
      → Moves x client k r (consume h x k n r w).1 (consume h x k n r w).2
  unfolding consume
  consume-Moves k n client r w b fit = ground (
    arith,
    credited-Moves k (play h x k n w).0.frames client r (play h x k n w).1
        (le_trans (mul-le _ n x.frame_size (frames-play k n w b)) fit),
  )

  -- A `write` likewise: of the bytes that the client announced no more are counted than announced,
  -- and the counter moves by what is counted, also while nothing is connected.
  pub write-Moves :
      (k : Logic) (client : ℕ) (r : Reply) (w : List Call)
      → Bounded h
      → Moves x client k r (write h x k client r w).1 (write h x k client r w).2
  unfolding write
  write-Moves k client r w b =
      let readable = (h w mq_available_to_read).count in
      let n = used_bytes x client readable in
      let fit = le_trans (div-mul-le n x.frame_size) (used_bytes-le client readable) in
      let w' = mq_available_to_read ∷ w in
      ground (
        arith,
        consume-Moves k (n / x.frame_size) client r (mq_read readable ∷ w') b fit,
        consume-Moves k (n / x.frame_size) client r w' b fit,
      )
