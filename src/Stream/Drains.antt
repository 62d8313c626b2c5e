-- ===== src/Stream/Drains.antt =====
-- Streams without a callback, and drains whose end the driver reports.
use android_device_brcm_rpi.Common.{
  ℕ, ◌≡◌, ◌≢◌, ◌⊎◌, refl, Bool, true, false, List, [], get_elem?, some, ◌∷◌, Host, arith,
}
use android_device_brcm_rpi.Stream.Types.{
  State, idle, active, draining, drain_paused, transferring, transfer_paused, DrainMode,
  drain_unspecified, drain_all, none_draining, Command, hal_reserved_exit, get_status, start, burst,
  drain, standby_command, pause, flush, flush_from_frame, Reply, Context, Logic, Call, Answer,
  Status, continue, on_drain_ready, driver_start, driver_drain, read_command,
}
use android_device_brcm_rpi.Stream.Worker.{
  enter, populate_reply, reserved_exit, switch_to_transient_state, switch_from_transient_state,
  initial_reply,
}
use android_device_brcm_rpi.Stream.Input.{send_reply}
use android_device_brcm_rpi.Stream.Output.{
  settle, out_start, start_transient, drain_driver, drain_in, out_drain, out_handle, out_dispatch,
  out_cycle,
}
use android_device_brcm_rpi.Stream.Callbacks.{
  end_of_clip, on_buffer_state_change, on_clip_state_change, Event, cycles, buffer_changes,
  clip_changes, step, run,
}
use android_device_brcm_rpi.Stream.OutputReplies.{Works}
use android_device_brcm_rpi.Stream.OutputDiagram.{follows, out_handle-follows}

-- TRANSFERRING and TRANSFER_PAUSED are states of asynchronous streams.
abbrev pub is_asynchronous : State → Bool
is_asynchronous transferring = true
is_asynchronous transfer_paused = true
is_asynchronous _ = false

-- A clip change that reports a next clip.
abbrev pub next_clip : Event → Bool
next_clip cycles = false
next_clip buffer_changes = false
next_clip (clip_changes left has_next) = has_next

abbrev pub NoNextClips : List Event → Type 0
NoNextClips [] = Unit {0}
NoNextClips (e ∷ es) = (next_clip e ≡ false) × NoNextClips es

-- Without a callback no arrow leads into them.
follows-synchronous :
    (x : Context) (c : Command) (s t : State)
    → x.has_callback ≡ false
    → is_asynchronous s ≡ false
    → follows x c s t ≡ true
    → is_asynchronous t ≡ false
follows-synchronous x start s t = ground arith
follows-synchronous x (burst n) s t = ground arith
follows-synchronous x (drain mode) s t = ground arith
follows-synchronous x standby_command s t = ground arith
follows-synchronous x pause s t = ground arith
follows-synchronous x flush s t = ground arith
follows-synchronous x (flush_from_frame n) s t = ground arith
follows-synchronous x get_status s t = ground arith
follows-synchronous x (hal_reserved_exit n) s t = ground arith

module _ (h : Host Call Answer) (x : Context) where
  send_reply-synchronous :
      (k : Logic) (s : Status) (r : Reply) (w : List Call)
      → is_asynchronous k.state ≡ false
      → is_asynchronous (send_reply h k s r w).1.state ≡ false
  unfolding send_reply
  send_reply-synchronous k s r w e = ground arith

  exit-synchronous :
      (k : Logic) (n : ℕ) (w : List Call)
      → is_asynchronous k.state ≡ false
      → is_asynchronous (reserved_exit h x k n w).2.state ≡ false
  unfolding reserved_exit
  exit-synchronous k n w e = ground arith

  module _ (no_callback : x.has_callback ≡ false) where
    handled-synchronous :
        (k : Logic) (c : Command) (w : List Call)
        → is_asynchronous k.state ≡ false
        → let q = out_handle h x k c initial_reply w in
          is_asynchronous (send_reply h q.0 continue q.1 q.2).1.state ≡ false
    handled-synchronous k c w e =
        let q = out_handle h x k c initial_reply w in
        send_reply-synchronous q.0 continue q.1 q.2 (
          follows-synchronous x c k.state q.0.state no_callback e
            (out_handle-follows h x k c initial_reply w))

    dispatch-synchronous :
        (k : Logic) (c : Command) (w : List Call)
        → is_asynchronous k.state ≡ false
        → is_asynchronous (out_dispatch h x k c w).1.state ≡ false
    unfolding out_dispatch
    dispatch-synchronous k (hal_reserved_exit n) w e =
        let q = reserved_exit h x k n w in
        ground
          (arith, exit-synchronous k n w e, send_reply-synchronous q.2 continue initial_reply q.3)
    dispatch-synchronous k get_status w e = handled-synchronous k get_status w e
    dispatch-synchronous k start w e = handled-synchronous k start w e
    dispatch-synchronous k (burst n) w e = handled-synchronous k (burst n) w e
    dispatch-synchronous k (drain mode) w e = handled-synchronous k (drain mode) w e
    dispatch-synchronous k standby_command w e = handled-synchronous k standby_command w e
    dispatch-synchronous k pause w e = handled-synchronous k pause w e
    dispatch-synchronous k flush w e = handled-synchronous k flush w e
    dispatch-synchronous k (flush_from_frame n) w e = handled-synchronous k (flush_from_frame n) w e

    cycle-synchronous :
        (k : Logic) (w : List Call)
        → is_asynchronous k.state ≡ false
        → is_asynchronous (out_cycle h x k w).1.state ≡ false
    unfolding out_cycle settle
    cycle-synchronous k w e =
        let q = settle h x k w in
        ground (arith, dispatch-synchronous q.0 (h q.1 read_command).command (read_command ∷ q.1))

    step-synchronous :
        (e : Event) (k : Logic) (w : List Call)
        → next_clip e ≡ false
        → is_asynchronous k.state ≡ false
        → is_asynchronous (step h x e k w).0.state ≡ false
    unfolding step on_buffer_state_change on_clip_state_change end_of_clip
        switch_from_transient_state
    step-synchronous cycles k w n s = cycle-synchronous k w s
    step-synchronous buffer_changes k w n s = ground arith
    step-synchronous (clip_changes left true) k w n s = absurd cc
    step-synchronous (clip_changes left false) k w n s = ground arith

    -- An output stream without a callback that starts in another state than TRANSFERRING and
    -- TRANSFER_PAUSED is in neither after any sequence of cycles, buffer changes and clip changes,
    -- whatever the client sends and the driver answers, as long as no clip change of the driver
    -- reports a next clip.
    pub run-synchronous :
        (es : List Event) (k : Logic) (w : List Call)
        → NoNextClips es
        → is_asynchronous k.state ≡ false
        → is_asynchronous (run h x es k w).0.state ≡ false
    unfolding run
    run-synchronous [] k w n s = s
    run-synchronous (e ∷ es) k w n s =
        let q = step h x e k w in run-synchronous es q.0 q.1 n.1 (step-synchronous e k w n.0 s)

  -- Where every call succeeds and drains are not forced to be synchronous, a stream with a callback
  -- that is ACTIVE or TRANSFERRING is DRAINING after a drain command of a specified mode, and the
  -- end of the last clip then makes it IDLE, with nothing left to drain, and tells the client of a
  -- drain of all data.
  pub drain_ends :
      (k : Logic) (mode : DrainMode) (r : Reply) (w : List Call)
      → Works h
      → x.has_callback ≡ true
      → x.force_synchronous_drain ≡ false
      → (k.state ≡ active) ⊎ (k.state ≡ transferring)
      → mode ≢ drain_unspecified
      → let q = out_handle h x k (drain mode) r w in
        let e = step h x (clip_changes 0 false) q.0 q.2 in
        (q.0.state ≡ draining)
        × (e.0.state ≡ idle)
        × (e.0.drain_state ≡ none_draining)
        × (mode ≡ drain_all → get_elem? e.1 0 ≡ some on_drain_ready)
  unfolding out_handle out_drain drain_in drain_driver switch_to_transient_state step end_of_clip
      switch_from_transient_state
  drain_ends k mode r w works async unforced ready proper =
      ground (arith, works w (driver_drain mode))

  -- The callbacks of the driver.
  abbrev pub is_callback : Event → Bool
  is_callback cycles = false
  is_callback buffer_changes = true
  is_callback (clip_changes left has_next) = true

  abbrev pub AllCallbacks : List Event → Type 0
  AllCallbacks [] = Unit {0}
  AllCallbacks (e ∷ es) = (is_callback e ≡ true) × AllCallbacks es

  callback_ignored :
      (e : Event) (k : Logic) (w : List Call)
      → is_callback e ≡ true
      → k.state ≡ draining
      → k.drain_state ≡ none_draining
      → step h x e k w ≡ (k, w)
  unfolding step
  callback_ignored e k w c s d = ground arith

  callbacks_ignored :
      (es : List Event) (k : Logic) (w : List Call)
      → AllCallbacks es
      → k.state ≡ draining
      → k.drain_state ≡ none_draining
      → run h x es k w ≡ (k, w)
  unfolding run
  callbacks_ignored [] k w a s d = refl
  callbacks_ignored (e ∷ es) k w a s d =
      rw (callback_ignored e k w a.0 s d) (callbacks_ignored es k w a.1 s d)

  restarted :
      (k : Logic) (mode : DrainMode) (r s : Reply) (w : List Call)
      → Works h
      → k.state ≡ transfer_paused
      → k.drain_state ≡ none_draining
      → mode ≢ drain_unspecified
      → let q = out_handle h x k (drain mode) r w in
        let p = out_handle h x q.0 start s q.2 in
        (p.0.state ≡ draining) × (p.0.drain_state ≡ none_draining)
  unfolding out_handle out_drain drain_in out_start start_transient switch_to_transient_state
  restarted k mode r s w works held none proper =
      let k' = enter k drain_paused in
      ground (arith, works (populate_reply h x k' k.is_connected r w).1 driver_start)

  -- But a stream that was paused while TRANSFERRING, with no earlier drain recorded, forgets the
  -- drain: where every call succeeds, told to drain in a specified mode and then to start again it is
  -- DRAINING, and no sequence of callbacks of the driver, the end of the clip included, changes its
  -- state or is passed on to the client.
  pub drain_forgotten :
      (k : Logic) (mode : DrainMode) (r s : Reply) (w : List Call) (es : List Event)
      → Works h
      → k.state ≡ transfer_paused
      → k.drain_state ≡ none_draining
      → mode ≢ drain_unspecified
      → AllCallbacks es
      → let q = out_handle h x k (drain mode) r w in
        let p = out_handle h x q.0 start s q.2 in
        (p.0.state ≡ draining) × (run h x es p.0 p.2 ≡ (p.0, p.2))
  drain_forgotten k mode r s w es works held none proper callbacks =
      let q = out_handle h x k (drain mode) r w in
      let p = out_handle h x q.0 start s q.2 in
      let (state, drains) = restarted k mode r s w works held none proper in
      (state, callbacks_ignored es p.0 p.2 callbacks state drains)
