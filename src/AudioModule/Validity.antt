-- ===== src/AudioModule/Validity.antt =====
-- audio/Module.cpp: setting and resetting a patch keeps the table of patches consistent.
use android_device_brcm_rpi.Common.{
  ℕ, ◌+◌, ◌≡◌, refl, sym, ap, ◌∙◌, ◌<◌, true, not, Option, none, some, List, [], ◌∷◌, ◌++◌, Host,
  call, arith, if-elim,
}
use mathlib.Core.Path.{subst}
use android_device_brcm_rpi.AudioModule.Types.{
  PortConfig, Patch, empty_patch, State, Status, Call, check_endpoints, Answer,
}
use android_device_brcm_rpi.AudioModule.Lookup.{
  find_patch, replace_patch, is_ok, select_configs, status_of,
}
use android_device_brcm_rpi.AudioModule.Connections.{update_streams_connected_state}
use android_device_brcm_rpi.AudioModule.Patches.{
  register_patch, clean_up_patch, apply_patch, place_patch, cleaned, existing_patch,
  set_audio_patch, reset_found, reset_audio_patch, check_patch, with_buffers, is_exclusive_used,
  allowed_sink_ports, is_missing, highest, mix_port_configs,
}
use android_device_brcm_rpi.AudioModule.Links.{
  is_there, AllLinked, AllFresh, IsValid, AllLinked-weaken, AllLinked-erase_value, AllLinked-erased,
  AllLinked-register_patch, find_patch-append, is_there-replace_patch, AllFresh-append,
  AllFresh-replace_patch, AllFresh-erase_patch,
}

module _ (h : Host Call Answer) where
  -- What `apply_patch` does to a module `m` whose list has the patch.
  apply_patch-IsValid :
      (before m : State) (old new : Patch) (w : List Call)
      → m.registered ≡ before.registered
      → AllLinked before.patches before.registered
      → ((v : ℕ)
          → is_there (find_patch v before.patches) ≡ true
          → is_there (find_patch v m.patches) ≡ true)
      → is_there (find_patch new.id m.patches) ≡ true
      → AllFresh m.next_patch_id m.patches
      → AllFresh m.next_patch_id before.patches
      → 0 < m.next_patch_id
      → IsValid (apply_patch h before m old new w).1
  unfolding apply_patch register_patch
  apply_patch-IsValid before m old new w same linked more there fresh fresh_before positive =
      let P = λ (r : Status × State × List Call). IsValid r.1 in
      let here = subst (AllLinked before.patches) (sym same) linked in
      if-elim P (is_ok (update_streams_connected_state h (register_patch m new) old new w).0)
        (λ fine. (
          positive,
          fresh,
          AllLinked-register_patch m new there
              (AllLinked-weaken before.patches m.patches m.registered more here),
        ))
        (λ bad. (positive, fresh_before, here))

  place_patch-IsValid :
      (m : State) (p : Patch) (o : Option Patch) (w : List Call)
      → o ≡ existing_patch m p.id
      → IsValid m
      → IsValid (place_patch h m p o w).1
  place_patch-IsValid m p none w e (positive, fresh, linked) =
      let placed = record p { id = m.next_patch_id } in
      let m' = record m {
        next_patch_id = m.next_patch_id + 1;
        patches = m.patches ++ (placed ∷ []);
      } in
      let more : (v : ℕ)
          → is_there (find_patch v m.patches) ≡ true
          → is_there (find_patch v m'.patches) ≡ true =
        λ v t. ap is_there (find_patch-append v m.patches placed) ∙ ground (arith, t) in
      apply_patch-IsValid m' m' empty_patch placed w refl
        (AllLinked-weaken m.patches m'.patches m.registered more linked) (λ v t. t)
        (ap is_there (find_patch-append m.next_patch_id m.patches placed) ∙ ground arith)
        (AllFresh-append m.next_patch_id m.patches placed refl fresh)
        (AllFresh-append m.next_patch_id m.patches placed refl fresh) (omega arith)
  place_patch-IsValid m p (some old) w e (positive, fresh, linked) =
      let m' = record m { patches = replace_patch p.id p m.patches } in
      let there : is_there (find_patch p.id m.patches) ≡ true = ground (arith, e) in
      apply_patch-IsValid m m' old p w refl linked (λ v t. is_there-replace_patch v p m.patches ∙ t)
        (is_there-replace_patch p.id p m.patches ∙ there)
        (AllFresh-replace_patch m.next_patch_id p m.patches fresh) fresh positive

  cleaned-existing_patch :
      (m : State) (o : Option Patch) (i : ℕ) → existing_patch m i ≡ existing_patch (cleaned m o) i
  unfolding clean_up_patch
  cleaned-existing_patch m none i = refl
  cleaned-existing_patch m (some old) i = refl

  cleaned-IsValid : (m : State) (o : Option Patch) → IsValid m → IsValid (cleaned m o)
  unfolding clean_up_patch
  cleaned-IsValid m none valid = valid
  cleaned-IsValid m (some old) (positive, fresh, linked) =
      (positive, fresh, AllLinked-erase_value m.patches old.id m.registered linked)

  pub with_buffers-id :
      (p : Patch) (o : Option PortConfig) (w : List Call) → (with_buffers h p o w).1.id ≡ p.id
  with_buffers-id p none w = refl
  with_buffers-id p (some c) w = ground arith

  pub set_audio_patch-IsValid :
      (m : State) (p : Patch) (w : List Call) → IsValid m → IsValid (set_audio_patch h m p w).1
  unfolding set_audio_patch
  set_audio_patch-IsValid m p w valid =
      let sources = select_configs m.port_configs p.source_port_config_ids in
      let sinks = select_configs m.port_configs p.sink_port_config_ids in
      let (a, w1) = call h (check_endpoints p.source_port_config_ids p.sink_port_config_ids) w in
      let existing = existing_patch m p.id in
      let m1 = cleaned m existing in
      let (sized, p1, w2) = with_buffers h p (highest (mix_port_configs sources sinks)) w1 in
      let P = λ (r : Status × State × Patch × List Call). IsValid r.1 in
      if-elim P (not (is_ok (check_patch m p))) (λ e. valid)
        (λ e.
          if-elim P (not (is_ok (status_of a))) (λ e. valid)
            (λ e.
              if-elim P (is_missing p.id existing) (λ e. valid)
                (λ e.
                  if-elim P
                    (is_exclusive_used (allowed_sink_ports sources m.routes []) m1.registered)
                    (λ e. valid)
                    (λ e.
                      if-elim P (not (is_ok sized)) (λ e. valid)
                        (λ e.
                          place_patch-IsValid m1 p1 existing w2
                            (cleaned-existing_patch m existing p.id
                              ∙ ap (λ i. existing_patch m1 i)
                                  (sym (
                                    with_buffers-id p (highest (mix_port_configs sources sinks))
                                      w1)))
                            (cleaned-IsValid m existing valid))))))

  reset_found-IsValid :
      (m : State) (o : Option Patch) (w : List Call) → IsValid m → IsValid (reset_found h m o w).1
  unfolding clean_up_patch
  reset_found-IsValid m none w valid = valid
  reset_found-IsValid m (some p) w (positive, fresh, linked) =
      let P = λ (r : Status × State × List Call). IsValid r.1 in
      if-elim P (is_ok (update_streams_connected_state h (clean_up_patch p.id m) p empty_patch w).0)
        (λ fine. (
          positive,
          AllFresh-erase_patch m.next_patch_id p.id m.patches fresh,
          AllLinked-erased m.patches p.id m.registered linked,
        ))
        (λ bad. (positive, fresh, linked))

  pub reset_audio_patch-IsValid :
      (m : State) (i : ℕ) (w : List Call) → IsValid m → IsValid (reset_audio_patch h m i w).1
  unfolding reset_audio_patch
  reset_audio_patch-IsValid m i w valid = reset_found-IsValid m (find_patch i m.patches) w valid
