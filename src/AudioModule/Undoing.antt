-- ===== src/AudioModule/Undoing.antt =====
-- audio/Module.cpp: what setAudioPatch and resetAudioPatch leave behind when they return an error.
use android_device_brcm_rpi.Common.{
  ℕ, ◌≡◌, ◌≢◌, ◌⊎◌, inl, inr, refl, sym, ap, ◌∙◌, not, Option, none, some, List, [], ◌∷◌, Host,
  call, arith, if-elim,
}
use mathlib.Core.Path.{subst}
use android_device_brcm_rpi.AudioModule.Validity.{with_buffers-id}
use android_device_brcm_rpi.AudioModule.Types.{
  Patch, State, Status, ok, illegal_argument, illegal_state, aborted, undefined, refused, Call,
  check_endpoints, Answer,
}
use android_device_brcm_rpi.AudioModule.Lookup.{find_patch, is_ok, select_configs, status_of}
use android_device_brcm_rpi.AudioModule.Connections.{update_streams_connected_state}
use android_device_brcm_rpi.AudioModule.Patches.{
  register_patch, clean_up_patch, apply_patch, place_patch, cleaned, existing_patch, undo_new,
  set_audio_patch, check_patch, with_buffers, is_exclusive_used, allowed_sink_ports, is_missing,
  highest, mix_port_configs,
}

-- The module after an error: as before, or without the entries of an existing patch.
abbrev pub IsUndone : State → ℕ → Status → State → Type 0
IsUndone m i ok after = Unit {0}
IsUndone m i aborted after = Unit {0}
IsUndone m i undefined after = Unit {0}
IsUndone m i illegal_argument after = (after ≡ m) ⊎ ((i ≢ 0) × (after ≡ clean_up_patch i m))
IsUndone m i illegal_state after = (after ≡ m) ⊎ ((i ≢ 0) × (after ≡ clean_up_patch i m))
IsUndone m i (refused n) after = (after ≡ m) ⊎ ((i ≢ 0) × (after ≡ clean_up_patch i m))

pub IsUndone-same : (m : State) (i : ℕ) (st : Status) → IsUndone m i st m
IsUndone-same m i ok = tt
IsUndone-same m i aborted = tt
IsUndone-same m i undefined = tt
IsUndone-same m i illegal_argument = inl refl
IsUndone-same m i illegal_state = inl refl
IsUndone-same m i (refused n) = inl refl

IsUndone-cleaned : (m : State) (i : ℕ) (st : Status) → i ≢ 0 → IsUndone m i st (clean_up_patch i m)
IsUndone-cleaned m i ok ne = tt
IsUndone-cleaned m i aborted ne = tt
IsUndone-cleaned m i undefined ne = tt
IsUndone-cleaned m i illegal_argument ne = inr (ne, refl)
IsUndone-cleaned m i illegal_state ne = inr (ne, refl)
IsUndone-cleaned m i (refused n) ne = inr (ne, refl)

IsUndone-undo_new : (m after : State) (i : ℕ) (st : Status) → IsUndone m i (undo_new st) after
IsUndone-undo_new m after i ok = tt
IsUndone-undo_new m after i aborted = tt
IsUndone-undo_new m after i undefined = tt
IsUndone-undo_new m after i illegal_argument = tt
IsUndone-undo_new m after i illegal_state = tt
IsUndone-undo_new m after i (refused n) = tt

pub find_patch-id : (i : ℕ) (ps : List Patch) (p : Patch) → find_patch i ps ≡ some p → p.id ≡ i
find_patch-id i [] p e = cc
find_patch-id i (q ∷ ps) p e = ground (arith, e, find_patch-id i ps p)

existing_patch-some :
    (m : State) (i : ℕ) (old : Patch) → existing_patch m i ≡ some old → (old.id ≡ i) × (i ≢ 0)
existing_patch-some m i old e =
    (find_patch-id i m.patches old (ground (arith, e)), ground (arith, e))

module _ (h : Host Call Answer) where
  apply_patch-existing :
      (m : State) (patches : List Patch) (i : ℕ) (old new : Patch) (w : List Call)
      → i ≢ 0
      → let r =
          apply_patch h
            (clean_up_patch i m)
            (record (clean_up_patch i m) { patches = patches })
            old
            new
            w in
        IsUndone m i r.0 r.1
  unfolding apply_patch clean_up_patch
  apply_patch-existing m patches i old new w ne =
      let P = λ (r : Status × State × List Call). IsUndone m i r.0 r.1 in
      let m' = record (clean_up_patch i m) { patches = patches } in
      let st = (update_streams_connected_state h (register_patch m' new) old new w).0 in
      if-elim P (is_ok st) (λ fine. tt) (λ bad. IsUndone-cleaned m i st ne)

  place_patch-IsUndone :
      (m : State) (p : Patch) (o : Option Patch) (w : List Call)
      → existing_patch m p.id ≡ o
      → let r = place_patch h (cleaned m o) p o w in IsUndone m p.id r.0 r.1
  place_patch-IsUndone m p none w e = IsUndone-undo_new m _ p.id _
  place_patch-IsUndone m p (some old) w e =
      let found = existing_patch-some m p.id old e in
      let r = place_patch h (clean_up_patch old.id m) p (some old) w in
      subst (λ i. IsUndone m i r.0 r.1) found.0
        (apply_patch-existing m _ old.id old p w (λ z. found.1 (sym found.0 ∙ z)))

  -- A patch that could not be set leaves the module as it was: when an error is returned, and neither
  -- LOG(FATAL) nor the comparison of an iterator that `push_back` invalidated was reached, nothing of
  -- the module has changed, or the request is an update, and nothing but the entries of that patch in
  -- the table of patches by port has changed, which are missing.
  pub set_audio_patch-IsUndone :
      (m : State) (p : Patch) (w : List Call)
      → let r = set_audio_patch h m p w in IsUndone m p.id r.0 r.1
  unfolding set_audio_patch
  set_audio_patch-IsUndone m p w =
      let sources = select_configs m.port_configs p.source_port_config_ids in
      let sinks = select_configs m.port_configs p.sink_port_config_ids in
      let (a, w1) = call h (check_endpoints p.source_port_config_ids p.sink_port_config_ids) w in
      let existing = existing_patch m p.id in
      let m1 = cleaned m existing in
      let mixes = highest (mix_port_configs sources sinks) in
      let (sized, p1, w2) = with_buffers h p mixes w1 in
      let same : p1.id ≡ p.id = with_buffers-id h p mixes w1 in
      let P = λ (r : Status × State × Patch × List Call). IsUndone m p.id r.0 r.1 in
      let placed = place_patch h m1 p1 existing w2 in
      if-elim P (not (is_ok (check_patch m p))) (λ e. IsUndone-same m p.id (check_patch m p))
        (λ e.
          if-elim P (not (is_ok (status_of a))) (λ e. IsUndone-same m p.id (status_of a))
            (λ e.
              if-elim P (is_missing p.id existing) (λ e. inl refl)
                (λ e.
                  if-elim P
                    (is_exclusive_used (allowed_sink_ports sources m.routes []) m1.registered)
                    (λ e. inl refl)
                    (λ e.
                      if-elim P (not (is_ok sized)) (λ e. IsUndone-same m p.id sized)
                        (λ e.
                          subst (λ i. IsUndone m i placed.0 placed.1) same
                            (place_patch-IsUndone m p1 existing w2
                              (ap (existing_patch m) same)))))))
