-- ===== src/AudioModule/Restoring.antt =====
-- What the streams are connected to, and the restoring of the old connections.
use android_device_brcm_rpi.Common.{
  ℕ, ◌≡◌, ◌≢◌, ◌⊎◌, inl, inr, refl, sym, ap, ◌∙◌, Bool, true, false, ◌&&◌, ◌||◌, ◌==◌, Option, none,
  some, List, [], ◌∷◌, if◌then◌else◌, Host, arith, Bool-cases, ==_iff,
}
use mathlib.Core.Path.{subst}
use android_device_brcm_rpi.AudioModule.Types.{
  Device, PortConfig, Call, done, populated, failed, connect_stream, check_endpoints,
  nominal_latency, create, buffer_size, populate_port, connection_changed, Answer,
}
use android_device_brcm_rpi.AudioModule.Lookup.{elem, find_ids, has_stream, is_ok, status_of}
use android_device_brcm_rpi.AudioModule.Connections.{
  devices_of, is_aborted, set_connected, restore, restore_devices, restore_one,
}

-- The devices that a stream was told and took, last: one that refuses a call keeps what it had.
abbrev pub told : Host Call Answer → ℕ → List Call → Option (List Device)
told h i [] = none
told h i (connect_stream j ds ∷ w) =
    if (j == i) && is_ok (status_of (h w (connect_stream j ds))) then some ds else told h i w
told h i (check_endpoints a b ∷ w) = told h i w
told h i (create c a b ∷ w) = told h i w
told h i (nominal_latency c ∷ w) = told h i w
told h i (buffer_size f c r ∷ w) = told h i w
told h i (populate_port p n ∷ w) = told h i w
told h i (connection_changed p b ∷ w) = told h i w

abbrev pub or_none : Option (List Device) → List Device
or_none none = []
or_none (some ds) = ds

-- The devices that a stream is connected to: none if it never took any.
abbrev pub now : Host Call Answer → ℕ → List Call → List Device
now h i w = or_none (told h i w)

-- The devices that a map of connections has for a stream, none where it has no entry.
abbrev pub expected : List PortConfig → Option (List ℕ) → Option (List Device)
expected configs none = some []
expected configs (some ids) = devices_of configs ids

abbrev pub has_key : ℕ → List (ℕ × List ℕ) → Bool
has_key i [] = false
has_key i ((j, ids) ∷ m) = j == i || has_key i m

-- Each stream of either map that is open is connected to the devices that `target` has for it.
abbrev pub Settled :
    Host Call Answer
    → List PortConfig
    → List (ℕ × Bool)
    → List (ℕ × List ℕ)
    → List (ℕ × List ℕ)
    → List (ℕ × List ℕ)
    → List Call
    → Type 0
Settled h configs streams old new target w =
    (i : ℕ)
    → has_stream i streams ≡ true
    → has_key i old || has_key i new ≡ true
    → expected configs (find_ids i target) ≡ some (now h i w)

status_of-going : (a : Answer) → is_aborted (status_of a) ≡ false
status_of-going (done n) = refl
status_of-going (populated ps) = refl
status_of-going (failed n) = refl

module _ (h : Host Call Answer) (configs : List PortConfig) (streams : List (ℕ × Bool)) where
  pub now-set_connected :
      (i j : ℕ) (ds : List Device) (w : List Call)
      → has_stream i streams ≡ true
      → now h i (set_connected h configs streams j ds w).1
        ≡ (if (j == i) && is_ok (set_connected h configs streams j ds w).0 then ds else now h i w)
  unfolding set_connected
  now-set_connected i j ds w there = ground arith

  set_connected-going :
      (i : ℕ) (ds : List Device) (w : List Call)
      → is_aborted (set_connected h configs streams i ds w).0 ≡ false
  unfolding set_connected
  set_connected-going i ds w = ground (arith, status_of-going (h w (connect_stream i ds)))

  module _ (old : List (ℕ × List ℕ)) where
    abbrev pub Good : ℕ → List Call → Type 0
    Good i w = expected configs (find_ids i old) ≡ some (now h i w)

  -- Every stream takes the devices that the old map has for it, whatever happened before.
  abbrev pub TakesBack : List (ℕ × List ℕ) → Type 0
  TakesBack old =
      (i : ℕ) (ds : List Device) (w : List Call)
      → expected configs (find_ids i old) ≡ some ds
      → is_ok (status_of (h w (connect_stream i ds))) ≡ true

  module _ (old : List (ℕ × List ℕ)) (takes : TakesBack old) where
    taken_back :
        (i j : ℕ) (ds : List Device) (w : List Call)
        → has_stream i streams ≡ true
        → (j == i) ≡ true
        → expected configs (find_ids i old) ≡ some ds
        → now h i (set_connected h configs streams j ds w).1 ≡ ds
    unfolding set_connected
    taken_back i j ds w there same right =
        let e : j ≡ i = (==_iff j i).0 same in ground (arith, takes i ds w right)

    set_connected-Good :
        (i j : ℕ) (ds : List Device) (w : List Call)
        → has_stream i streams ≡ true
        → (j ≡ i → expected configs (find_ids i old) ≡ some ds)
        → Good old i w ⊎ (j ≡ i)
        → Good old i (set_connected h configs streams j ds w).1
    set_connected-Good i j ds w there told_right good = elim (Bool-cases (j == i)) [
      | inl same ↦
          let right = told_right ((==_iff j i).0 same) in
          right ∙ ap (λ x. some x) (sym (taken_back i j ds w there same right))
      | inr other ↦ elim good [
        | inl g ↦ g ∙ ap (λ x. some x) (sym (now-set_connected i j ds w there ∙ rw other refl))
        | inr e ↦ absurd (ground arith)
      ]
    ]

    restore_devices-Good :
        (i j : ℕ) (o : Option (List Device)) (w : List Call)
        → has_stream i streams ≡ true
        → (j ≡ i → expected configs (find_ids i old) ≡ o)
        → is_aborted (restore_devices h configs streams j o w).0 ≡ false
        → Good old i w ⊎ (j ≡ i)
        → Good old i (restore_devices h configs streams j o w).1
    restore_devices-Good i j none w there told_right runs good = cc
    restore_devices-Good i j (some ds) w there told_right runs good =
        set_connected-Good i j ds w there told_right good

    -- What `restore` does for `j` is good for `i`.
    restore_one-Good :
        (always : Bool) (i j : ℕ) (o : Option (List ℕ)) (w : List Call)
        → has_stream i streams ≡ true
        → find_ids j old ≡ o
        → is_aborted (restore_one h configs streams always j o w).0 ≡ false
        → Good old i w ⊎ ((j ≡ i) × ((always ≡ true) ⊎ (o ≢ none)))
        → Good old i (restore_one h configs streams always j o w).1
    restore_one-Good true i j none w there e runs good =
        set_connected-Good i j [] w there
          (λ s.
            ap (λ k. expected configs (find_ids k old)) (sym s) ∙ ap (λ x. expected configs x) e)
          (elim good [ inl g ↦ inl g | inr x ↦ inr x.0 ])
    restore_one-Good false i j none w there e runs good = elim good [
      | inl g ↦ g
      | inr (s, c) ↦ elim c [ inl f ↦ cc | inr n ↦ absurd (n refl) ]
    ]
    restore_one-Good always i j (some ids) w there e runs good =
        restore_devices-Good i j (devices_of configs ids) w there
          (λ s.
            ap (λ k. expected configs (find_ids k old)) (sym s) ∙ ap (λ x. expected configs x) e)
          runs (elim good [ inl g ↦ inl g | inr x ↦ inr x.0 ])

    -- A restoring that is not aborted is good for every id that was good before, and for those that
    -- it restores.
    pub restore-Good :
        (always : Bool) (i : ℕ) (ids : List ℕ) (w : List Call)
        → has_stream i streams ≡ true
        → (restore h configs streams always old ids w).0 ≡ true
        → Good old i w ⊎ ((elem i ids ≡ true) × ((always ≡ true) ⊎ (find_ids i old ≢ none)))
        → Good old i (restore h configs streams always old ids w).1
    unfolding restore
    restore-Good always i [] w there runs good = elim good [ inl g ↦ g | inr x ↦ cc ]
    restore-Good always i (j ∷ js) w there runs good =
        let (st, w1) = restore_one h configs streams always j (find_ids j old) w in
        elim (Bool-cases (is_aborted st)) [
          | inl bad ↦ cc (rw bad at runs)
          | inr goes ↦ rw goes (
              restore-Good always i js w1 there (rw goes at runs) (elim good [
                | inl g ↦
                    inl (restore_one-Good always i j (find_ids j old) w there refl goes (inl g))
                | inr (at, known) ↦ elim (Bool-cases (j == i)) [
                  | inl same ↦
                      let e = (==_iff j i).0 same in
                      inl (
                        restore_one-Good always i j (find_ids j old) w there refl goes (
                          inr (
                            e,
                            subst (λ k. (always ≡ true) ⊎ (find_ids k old ≢ none)) (sym e) known,
                          )))
                  | inr other ↦ inr (rw other at at, known)
                ]
              ]))
        ]
