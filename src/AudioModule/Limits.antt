-- ===== src/AudioModule/Limits.antt =====
-- audio/Module.cpp: how many streams a port can have.
use android_device_brcm_rpi.Common.{
  ℕ, ◌+◌, ◌≡◌, ◌≢◌, ◌⊎◌, ◌≤◌, sym, ap, ◌∙◌, Bool, true, false, not, ◌==◌, Option, none, some, List,
  [], ◌∷◌, if◌then◌else◌, Host, call, arith, if-elim,
}
use mathlib.Core.Path.{subst}
use android_device_brcm_rpi.AudioModule.Types.{
  Mix, mix, Port, PortConfig, State, Status, ok, Call, create, stream, Answer,
}
use android_device_brcm_rpi.AudioModule.Lookup.{
  find_port, find_config, has_stream, stream_count, count, is_ok,
}
use android_device_brcm_rpi.AudioModule.Opening.{
  Utilities, Arguments, open_input_stream, open_output_stream, open_stream, opened_or, open_on,
  check_tracks, create_stream_context, find_port_id_for_new_stream, find_connected_port_config_ids,
  check_port, check_stream_count, mix_of, tell_ids, is_input, allows_output,
}

-- No stream was open on the config `i`, and the port `p` has at most its number of them.
abbrev pub IsLimited : State → ℕ → Port → Mix → Status × State × List Call → Type 0
IsLimited m i p x (st, after, w) =
    st ≡ ok
    → (stream_count i m.streams ≡ 0)
      × ((x.max_open_stream_count ≡ 0)
          ⊎ (stream_count p.id after.streams ≤ x.max_open_stream_count))

find_config-id :
    (i : ℕ) (cs : List PortConfig) (c : PortConfig) → find_config i cs ≡ some c → c.id ≡ i
find_config-id i [] c e = cc
find_config-id i (d ∷ cs) c e = ground (arith, e, find_config-id i cs c)

find_port-id : (i : ℕ) (ps : List Port) (p : Port) → find_port i ps ≡ some p → p.id ≡ i
find_port-id i [] p e = cc
find_port-id i (q ∷ ps) p e = ground (arith, e, find_port-id i ps p)

-- The checks let the port pass only when there is room for a stream on it.
abbrev HasRoom : State → ℕ → Port → Mix → Type 0
HasRoom m i p x =
    (stream_count i m.streams ≡ 0)
    × (i ≢ p.id)
    × ((x.max_open_stream_count ≡ 0) ⊎ (stream_count p.id m.streams + 1 ≤ x.max_open_stream_count))

count_room :
    (m : State) (p : Port) (x : Mix)
    → is_ok (check_stream_count m p (some x)) ≡ true
    → (x.max_open_stream_count ≡ 0) ⊎ (stream_count p.id m.streams + 1 ≤ x.max_open_stream_count)
count_room m p x fine = ground (arith, fine)

module _ (u : Utilities) (h : Host Call Answer) where
  opened_or-IsLimited :
      (m : State) (i : ℕ) (p : Port) (x : Mix) (made : Status × List Call)
      (created : Answer × List Call) (alone : Bool) (told : Status × List Call)
      → HasRoom m i p x
      → IsLimited m i p x (
          opened_or u h m
            (record m { streams = (i, false) ∷ (p.id, false) ∷ m.streams })
            made
            created
            alone
            told)
  opened_or-IsLimited m i p x (st1, w1) (a, w2) alone (st3, w3) (free, apart, room) = ground arith

  open_stream-IsLimited :
      (m : State) (i : ℕ) (p : Port) (x : Mix) (o : Option PortConfig) (frames : ℕ) (w : List Call)
      → HasRoom m i p x
      → IsLimited m i p x (open_stream u h m i p o frames w)
  unfolding open_stream
  open_stream-IsLimited m i p x none frames w room = λ e. cc
  open_stream-IsLimited m i p x (some c) frames w room =
      let made = create_stream_context u h c frames w in
      let created = call h (create stream i frames) made.1 in
      opened_or-IsLimited m i p x made created (count i m.registered == 0)
        (tell_ids u h m i (find_connected_port_config_ids m i m.registered) created.1) room

  open_on-IsLimited :
      (for_input : Bool) (m : State) (a : Arguments) (p : Port) (x : Mix) (st : Status)
      (w : List Call)
      → HasRoom m a.port_config_id p x
      → IsLimited m a.port_config_id p x (open_on u h for_input m a (st, some p) w)
  unfolding open_on
  open_on-IsLimited for_input m a p x st w room =
      if-elim (IsLimited m a.port_config_id p x)
        (if for_input then is_input u h p.flags else allows_output u h p.flags a)
        (λ e.
          open_stream-IsLimited m a.port_config_id p x (find_config a.port_config_id m.port_configs)
            a.buffer_size_frames w room)
        (λ e fine. cc)

  checked-IsLimited :
      (for_input : Bool) (m : State) (a : Arguments) (c : PortConfig) (p : Port) (x : Mix)
      (w : List Call)
      → c.id ≡ a.port_config_id
      → p.id ≡ c.port_id
      → (c.port_id == c.id) ≡ false
      → p.ext ≡ mix x
      → IsLimited m a.port_config_id p x (open_on u h for_input m a (check_port m c (some p)) w)
  unfolding open_on
  checked-IsLimited for_input m a c p x w named at apart kind =
      let P = λ (r : Status × Option Port).
        IsLimited m a.port_config_id p x (open_on u h for_input m a r w) in
      if-elim P (has_stream c.id m.streams) (λ e fine. cc)
        (λ free.
          if-elim P (is_ok (check_stream_count m p (mix_of p.ext)))
            (λ room. open_on-IsLimited for_input m a p x ok w (
              ground (arith, free, named),
              ground (arith, apart, named, at),
              count_room m p x
                  (subst (λ o. is_ok (check_stream_count m p o) ≡ true) (ap mix_of kind) room),
            ))
            (λ full fine. cc (sym full ∙ ap is_ok fine)))

  found-IsLimited :
      (for_input : Bool) (m : State) (a : Arguments) (c : PortConfig) (p : Port) (x : Mix)
      (w : List Call)
      → find_config a.port_config_id m.port_configs ≡ some c
      → find_port c.port_id m.ports ≡ some p
      → p.ext ≡ mix x
      → IsLimited m a.port_config_id p x
          (open_on u h for_input m a (find_port_id_for_new_stream m a.port_config_id) w)
  unfolding open_on find_port_id_for_new_stream
  found-IsLimited for_input m a c p x w config port kind =
      let P = λ (r : Status × Option Port).
        IsLimited m a.port_config_id p x (open_on u h for_input m a r w) in
      rw config (
        if-elim P (c.port_id == c.id) (λ e fine. cc)
          (λ apart. rw port (
            checked-IsLimited for_input m a c p x w
              (find_config-id a.port_config_id m.port_configs c config)
              (find_port-id c.port_id m.ports p port) apart kind)))

  -- A stream is opened only where there is room: when an input or an output stream was opened on a port
  -- config, no other stream was open on that config, and the mix port of the config, if it has a limit,
  -- has at most as many open streams as that with the new one.
  pub open_output_stream-IsLimited :
      (m : State) (a : Arguments) (c : PortConfig) (p : Port) (x : Mix) (w : List Call)
      → find_config a.port_config_id m.port_configs ≡ some c
      → find_port c.port_id m.ports ≡ some p
      → p.ext ≡ mix x
      → IsLimited m a.port_config_id p x (open_output_stream u h m a w)
        × IsLimited m a.port_config_id p x (open_input_stream u h m a w)
  unfolding open_output_stream open_input_stream
  open_output_stream-IsLimited m a c p x w config port kind = (
    if-elim (IsLimited m a.port_config_id p x) (not (check_tracks u h true a.tracks)) (λ e fine. cc)
        (λ e. found-IsLimited false m a c p x w config port kind),
    if-elim (IsLimited m a.port_config_id p x) (not (check_tracks u h false a.tracks))
        (λ e fine. cc) (λ e. found-IsLimited true m a c p x w config port kind),
  )
