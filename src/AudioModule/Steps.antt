-- ===== src/AudioModule/Steps.antt =====
-- What the disconnection step and the connection step tell the streams.
use android_device_brcm_rpi.Common.{
  ℕ, ◌≡◌, ◌⊎◌, inl, inr, refl, sym, ap, ◌∙◌, Bool, true, false, ◌==◌, Option, none, some, List, [],
  ◌∷◌, Host, arith, Bool-cases, ==_iff, if-elim,
}
use mathlib.Core.Path.{subst}
use android_device_brcm_rpi.AudioModule.Types.{Device, PortConfig, Status, Call, Answer}
use android_device_brcm_rpi.AudioModule.Lookup.{elem, find_ids, has_stream, is_ok}
use android_device_brcm_rpi.AudioModule.Connections.{
  devices_of, is_found, is_same, set_connected, disconnect_gone, connect_one, connect_new,
}
use android_device_brcm_rpi.AudioModule.Restoring.{now, has_key, now-set_connected}

noted_head :
    (i j : ℕ) (ids : List ℕ) (olds new : List (ℕ × List ℕ))
    → (j == i) ≡ true
    → is_found (find_ids j new) ≡ false
    → (has_key i ((j, ids) ∷ olds) ≡ true) × (is_found (find_ids i new) ≡ false)
noted_head i j ids olds new same gone =
    (ground arith, subst (λ k. is_found (find_ids k new) ≡ false) ((==_iff j i).0 same) gone)

-- The keys of a map are different.
abbrev pub IsDistinct : List (ℕ × List ℕ) → Type 0
IsDistinct [] = Unit {0}
IsDistinct ((i, ids) ∷ m) = (has_key i m ≡ false) × IsDistinct m

abbrev ids_or : Option (List ℕ) → List ℕ
ids_or none = []
ids_or (some ids) = ids

module _ (h : Host Call Answer) (configs : List PortConfig) (streams : List (ℕ × Bool)) where
  -- The disconnection step tells no stream but those that it notes.
  pub disconnect_gone-kept :
      (i : ℕ) (olds new : List (ℕ × List ℕ)) (w : List Call)
      → has_stream i streams ≡ true
      → let (st, back, w') = disconnect_gone h configs streams olds new w in
        elem i back ≡ false → now h i w' ≡ now h i w
  unfolding disconnect_gone
  disconnect_gone-kept i [] new w there = λ e. refl
  disconnect_gone-kept i ((j, ids) ∷ olds) new w there =
      let (st, w1) = set_connected h configs streams j [] w in
      let P = λ (r : Status × List ℕ × List Call). elem i r.1 ≡ false → now h i r.2 ≡ now h i w in
      if-elim P (is_found (find_ids j new)) (λ kept. disconnect_gone-kept i olds new w there)
        (λ gone.
          if-elim P (is_ok st)
            (λ fine e.
              disconnect_gone-kept i olds new w1 there (ground arith)
              ∙ now-set_connected h configs streams i j [] w there
              ∙ ground arith)
            (λ bad e. now-set_connected h configs streams i j [] w there ∙ ground arith))

  pub disconnect_gone-noted :
      (i : ℕ) (olds new : List (ℕ × List ℕ)) (w : List Call)
      → let (st, back, w') = disconnect_gone h configs streams olds new w in
        elem i back ≡ true → (has_key i olds ≡ true) × (is_found (find_ids i new) ≡ false)
  unfolding disconnect_gone
  disconnect_gone-noted i [] new w = λ e. cc
  disconnect_gone-noted i ((j, ids) ∷ olds) new w =
      let (st, w1) = set_connected h configs streams j [] w in
      let P = λ (r : Status × List ℕ × List Call).
        elem i r.1 ≡ true
        → (has_key i ((j, ids) ∷ olds) ≡ true) × (is_found (find_ids i new) ≡ false) in
      if-elim P (is_found (find_ids j new))
        (λ kept e. let (key, gone) = disconnect_gone-noted i olds new w e in (ground arith, gone))
        (λ gone.
          if-elim P (is_ok st)
            (λ fine e. elim (Bool-cases (j == i)) [
              | inl same ↦ noted_head i j ids olds new same gone
              | inr other ↦
                  let (key, g) = disconnect_gone-noted i olds new w1 (rw other at e) in
                  (ground arith, g)
            ])
            (λ bad e. elim (Bool-cases (j == i)) [
              | inl same ↦ noted_head i j ids olds new same gone
              | inr other ↦ cc (rw other at e)
            ]))

  -- A step that succeeds has told every stream that is gone that it is not connected.
  pub disconnect_gone-gone :
      (i : ℕ) (olds new : List (ℕ × List ℕ)) (w : List Call)
      → has_stream i streams ≡ true
      → is_found (find_ids i new) ≡ false
      → let (st, back, w') = disconnect_gone h configs streams olds new w in
        is_ok st ≡ true → has_key i olds ≡ true → now h i w' ≡ []
  unfolding disconnect_gone
  disconnect_gone-gone i [] new w there gone = λ e key. cc
  disconnect_gone-gone i ((j, ids) ∷ olds) new w there gone =
      let (st, w1) = set_connected h configs streams j [] w in
      let (st', back, w') = disconnect_gone h configs streams olds new w1 in
      let P = λ (r : Status × List ℕ × List Call).
        is_ok r.0 ≡ true → has_key i ((j, ids) ∷ olds) ≡ true → now h i r.2 ≡ [] in
      if-elim P (is_found (find_ids j new))
        (λ kept e key. elim (Bool-cases (j == i)) [
          | inl same ↦
              cc (subst (λ k. is_found (find_ids k new) ≡ true) ((==_iff j i).0 same) kept, gone)
          | inr other ↦ disconnect_gone-gone i olds new w there gone e (rw other at key)
        ])
        (λ away.
          if-elim P (is_ok st)
            (λ fine e key. elim (Bool-cases (has_key i olds)) [
              | inl later ↦ disconnect_gone-gone i olds new w1 there gone e later
              | inr last ↦
                  let untold : elem i back ≡ false = elim (Bool-cases (elem i back)) [
                    | inl noted ↦ cc ((disconnect_gone-noted i olds new w1 noted).0, last)
                    | inr n ↦ n
                  ] in
                  disconnect_gone-kept i olds new w1 there untold
                  ∙ now-set_connected h configs streams i j [] w there
                  ∙ ground arith
            ])
            (λ bad e key. cc))

  -- The connection step, likewise.
  connect_one-now :
      (i j : ℕ) (o : Option (List Device)) (w : List Call)
      → has_stream i streams ≡ true
      → (j == i) ≡ false
      → now h i (connect_one h configs streams j o w).1 ≡ now h i w
  connect_one-now i j none w there other = refl
  connect_one-now i j (some []) w there other = refl
  connect_one-now i j (some (d ∷ ds)) w there other =
      now-set_connected h configs streams i j (d ∷ ds) w there ∙ rw other refl

  connect_one_self :
      (i : ℕ) (o : Option (List Device)) (w : List Call)
      → has_stream i streams ≡ true
      → is_ok (connect_one h configs streams i o w).0 ≡ true
      → o ≡ some (now h i (connect_one h configs streams i o w).1)
  connect_one_self i none w there e = cc
  connect_one_self i (some []) w there e = cc
  connect_one_self i (some (d ∷ ds)) w there e =
      ap (λ x. some x)
        (sym (now-set_connected h configs streams i i (d ∷ ds) w there ∙ ground arith))

  pub connect_new-kept :
      (i : ℕ) (old news : List (ℕ × List ℕ)) (w : List Call)
      → has_stream i streams ≡ true
      → let (st, tried, w') = connect_new h configs streams old news w in
        elem i tried ≡ false → now h i w' ≡ now h i w
  unfolding connect_new
  connect_new-kept i old [] w there = λ e. refl
  connect_new-kept i old ((j, ids) ∷ news) w there =
      let (st, w1) = connect_one h configs streams j (devices_of configs ids) w in
      let P = λ (r : Status × List ℕ × List Call). elem i r.1 ≡ false → now h i r.2 ≡ now h i w in
      if-elim P (is_same (find_ids j old) ids) (λ same. connect_new-kept i old news w there)
        (λ differs.
          if-elim P (is_ok st)
            (λ fine e.
              connect_new-kept i old news w1 there (ground arith)
              ∙ connect_one-now i j (devices_of configs ids) w there (ground arith))
            (λ bad e. connect_one-now i j (devices_of configs ids) w there (ground arith)))

  connect_new-noted :
      (i : ℕ) (old news : List (ℕ × List ℕ)) (w : List Call)
      → let (st, tried, w') = connect_new h configs streams old news w in
        elem i tried ≡ true → has_key i news ≡ true
  unfolding connect_new
  connect_new-noted i old [] w = λ e. cc
  connect_new-noted i old ((j, ids) ∷ news) w =
      let (st, w1) = connect_one h configs streams j (devices_of configs ids) w in
      let P = λ (r : Status × List ℕ × List Call).
        elem i r.1 ≡ true → has_key i ((j, ids) ∷ news) ≡ true in
      if-elim P (is_same (find_ids j old) ids)
        (λ same e. ground (arith, connect_new-noted i old news w e))
        (λ differs.
          if-elim P (is_ok st)
            (λ fine e. elim (Bool-cases (j == i)) [
              | inl same ↦ rw same refl
              | inr other ↦ rw other (connect_new-noted i old news w1 (rw other at e))
            ])
            (λ bad e. ground arith))

  pub connect_new-untouched :
      (i : ℕ) (old news : List (ℕ × List ℕ)) (w : List Call)
      → has_stream i streams ≡ true
      → has_key i news ≡ false
      → now h i (connect_new h configs streams old news w).2 ≡ now h i w
  connect_new-untouched i old news w there absent =
      connect_new-kept i old news w there
        (elim (Bool-cases (elem i (connect_new h configs streams old news w).1)) [
          | inl noted ↦ cc (connect_new-noted i old news w noted, absent)
          | inr n ↦ n
        ])

  -- The result of the connection step for a stream of the new map.
  abbrev pub Connected : ℕ → List (ℕ × List ℕ) → List ℕ → List Call → List Call → Type 0
  Connected i old ids w w' =
      ((is_same (find_ids i old) ids ≡ true) × (now h i w' ≡ now h i w))
      ⊎ (devices_of configs ids ≡ some (now h i w'))

  pub connect_new-Connected :
      (i : ℕ) (old news : List (ℕ × List ℕ)) (ids : List ℕ) (w : List Call)
      → has_stream i streams ≡ true
      → IsDistinct news
      → find_ids i news ≡ some ids
      → let (st, tried, w') = connect_new h configs streams old news w in
        is_ok st ≡ true → Connected i old ids w w'
  unfolding connect_new
  connect_new-Connected i old [] ids w there distinct found = λ e. cc
  connect_new-Connected i old ((j, js) ∷ news) ids w there (fresh, distinct) found =
      let (st, w1) = connect_one h configs streams j (devices_of configs js) w in
      let P = λ (r : Status × List ℕ × List Call). is_ok r.0 ≡ true → Connected i old ids w r.2 in
      elim (Bool-cases (j == i)) [
        | inl same ↦
            let e : j ≡ i = (==_iff j i).0 same in
            let here : js ≡ ids = ap (λ o. ids_or o) (rw same at found) in
            let absent : has_key i news ≡ false = subst (λ k. has_key k news ≡ false) e fresh in
            if-elim P (is_same (find_ids j old) js)
              (λ known good. inl (
                subst (λ k. is_same (find_ids k old) ids ≡ true) e
                    (subst (λ l. is_same (find_ids j old) l ≡ true) here known),
                connect_new-untouched i old news w there absent,
              ))
              (λ differs.
                if-elim P (is_ok st)
                  (λ fine good. inr (
                    ap (λ l. devices_of configs l) (sym here)
                    ∙ connect_one_self j (devices_of configs js) w
                        (subst (λ k. has_stream k streams ≡ true) (sym e) there) fine
                    ∙ ap (λ k. some (now h k w1)) e
                    ∙ ap (λ x. some x) (sym (connect_new-untouched i old news w1 there absent))))
                  (λ bad good. cc))
        | inr other ↦
            let later = rw other at found in
            if-elim P (is_same (find_ids j old) js)
              (λ known. connect_new-Connected i old news ids w there distinct later)
              (λ differs.
                if-elim P (is_ok st)
                  (λ fine good.
                    elim (connect_new-Connected i old news ids w1 there distinct later good) [
                      | inl (same, kept) ↦
                          inl
                            (same, kept ∙ connect_one-now i j (devices_of configs js) w there other)
                      | inr told_now ↦ inr told_now
                    ])
                  (λ bad good. cc))
      ]
