-- ===== src/AudioModule/Transaction.antt =====
-- The streams' devices change as a whole or not at all.
use android_device_brcm_rpi.Common.{
  ℕ, ◌≡◌, ◌≢◌, inl, inr, refl, sym, ap, ◌∙◌, Bool, true, false, not, Option, none, some, List, [],
  ◌∷◌, Host, arith, Bool-cases, Option-cases, eq_bytes→eq, if-elim,
}
use android_device_brcm_rpi.AudioModule.Types.{
  PortConfig, Status, ok, aborted, illegal_argument, illegal_state, undefined, refused, Call,
  Answer,
}
use android_device_brcm_rpi.AudioModule.Lookup.{elem, find_ids, has_stream, is_ok}
use android_device_brcm_rpi.AudioModule.Connections.{
  is_aborted, unless_aborted, is_found, is_same, restore, disconnect_gone, connect_new,
  update_connections,
}
use android_device_brcm_rpi.AudioModule.Restoring.{
  now, expected, has_key, Settled, Good, TakesBack, restore-Good,
}
use android_device_brcm_rpi.AudioModule.Steps.{
  IsDistinct, disconnect_gone-kept, disconnect_gone-noted, disconnect_gone-gone, connect_new-kept,
  connect_new-untouched, connect_new-Connected,
}

-- How an update ended: with success the streams are connected to the devices of the new map; with
-- an error, unless the process has ended, to those of the old one.
abbrev pub Outcome :
    Host Call Answer
    → List PortConfig
    → List (ℕ × Bool)
    → List (ℕ × List ℕ)
    → List (ℕ × List ℕ)
    → Status × List Call
    → Type 0
Outcome h configs streams old new (ok, w) = Settled h configs streams old new new w
Outcome h configs streams old new (aborted, w) = Unit
Outcome h configs streams old new (illegal_argument, w) = Settled h configs streams old new old w
Outcome h configs streams old new (illegal_state, w) = Settled h configs streams old new old w
Outcome h configs streams old new (undefined, w) = Settled h configs streams old new old w
Outcome h configs streams old new (refused n, w) = Settled h configs streams old new old w

has_key-find_ids : (i : ℕ) (m : List (ℕ × List ℕ)) → has_key i m ≡ is_found (find_ids i m)
has_key-find_ids i [] = refl
has_key-find_ids i ((j, ids) ∷ m) = ground (arith, has_key-find_ids i m)

is_same-eq : (o : Option (List ℕ)) (ids : List ℕ) → is_same o ids ≡ true → o ≡ some ids
is_same-eq none ids e = cc
is_same-eq (some js) ids e = ap (λ x. some x) (eq_bytes→eq js ids e)

is_found-some : (o : Option (List ℕ)) → is_found o ≡ true → o ≢ none
is_found-some none e n = cc
is_found-some (some ids) e n = cc

module _ (h : Host Call Answer) (configs : List PortConfig) (streams : List (ℕ × Bool))
    (old new : List (ℕ × List ℕ)) where
  Outcome-unless_aborted :
      (restored : Bool) (st : Status) (w : List Call)
      → is_ok st ≡ false
      → (restored ≡ true → Settled h configs streams old new old w)
      → Outcome h configs streams old new (unless_aborted restored st, w)
  Outcome-unless_aborted false st w bad settled = tt
  Outcome-unless_aborted true ok w bad settled = cc
  Outcome-unless_aborted true aborted w bad settled = tt
  Outcome-unless_aborted true illegal_argument w bad settled = settled refl
  Outcome-unless_aborted true illegal_state w bad settled = settled refl
  Outcome-unless_aborted true undefined w bad settled = settled refl
  Outcome-unless_aborted true (refused n) w bad settled = settled refl

  -- A stream that the disconnection step did not note is connected as before.
  Good-not_noted :
      (i : ℕ) (w : List Call)
      → has_stream i streams ≡ true
      → Good h configs streams old i w
      → elem i (disconnect_gone h configs streams old new w).1 ≡ false
      → Good h configs streams old i (disconnect_gone h configs streams old new w).2
  Good-not_noted i w there good e =
      good ∙ ap (λ x. some x) (sym (disconnect_gone-kept h configs streams i old new w there e))

  restored_back :
      TakesBack h configs streams old
      → (i : ℕ) (w w' : List Call) → has_stream i streams ≡ true
      → Good h configs streams old i w
      → let (st, back, w1) = disconnect_gone h configs streams old new w in
        now h i w' ≡ now h i w1
        → (restore h configs streams false old back w').0 ≡ true
        → Good h configs streams old i (restore h configs streams false old back w').1
  restored_back takes i w w' there good same done_all =
      let (st, back, w1) = disconnect_gone h configs streams old new w in
      restore-Good h configs streams old takes false i back w' there done_all
        (elim (Bool-cases (elem i back)) [
          | inl noted ↦ inr (
            noted,
            inr (
                is_found-some (find_ids i old) (
                  sym (has_key-find_ids i old)
                  ∙ (disconnect_gone-noted h configs streams i old new w noted).0)),
          )
          | inr untold ↦ inl (Good-not_noted i w there good untold ∙ ap (λ x. some x) (sym same))
        ])

  Settled-new :
      (w : List Call)
      → IsDistinct new
      → Settled h configs streams old new old w
      → let (st1, back, w1) = disconnect_gone h configs streams old new w in
        let (st2, tried, w3) = connect_new h configs streams old new w1 in
        is_ok st1 ≡ true → is_ok st2 ≡ true → Settled h configs streams old new new w3
  Settled-new w distinct settled fine1 fine2 i there scope =
      let (st1, back, w1) = disconnect_gone h configs streams old new w in
      elim (Option-cases (find_ids i new)) [
        | inl absent ↦
            let nowhere : is_found (find_ids i new) ≡ false = rw absent refl in
            let unkeyed : has_key i new ≡ false = has_key-find_ids i new ∙ nowhere in
            let empty : now h i w1 ≡ [] =
              disconnect_gone-gone h configs streams i old new w there nowhere fine1
                (ground arith) in
            rw absent (
              ap (λ x. some x)
                (sym (connect_new-untouched h configs streams i old new w1 there unkeyed ∙ empty)))
        | inr (ids, found) ↦
            elim (connect_new-Connected h configs streams i old new ids w1 there distinct found
              fine2) [
                | inr told_now ↦ rw found told_now
                | inl (same, kept) ↦
                    let untold : elem i back ≡ false = elim (Bool-cases (elem i back)) [
                      | inl noted ↦
                          cc ((disconnect_gone-noted h configs streams i old new w noted).1, found)
                      | inr n ↦ n
                    ] in
                    ap (λ o. expected configs o)
                      (found ∙ sym (is_same-eq (find_ids i old) ids same))
                    ∙ Good-not_noted i w there (settled i there scope) untold
                    ∙ ap (λ x. some x) (sym kept)
              ]
      ]

-- An update of the connections of the streams is a transaction, where a stream that refuses a call
-- keeps the devices it had, and every stream takes those of the old map when it is told them. When
-- each open stream of the old or the new map is connected to the devices that the old map has for
-- it, then after an update that reports success each of them is connected to those of the new map,
-- and after one that reports an error each is connected to those of the old map again, whatever the
-- streams answered to the rest. (The keys of the new map are different, and LOG(FATAL) is not
-- reached.)
pub update_connections-Outcome :
    (h : Host Call Answer) (configs : List PortConfig) (streams : List (ℕ × Bool))
    (old new : List (ℕ × List ℕ)) (w : List Call)
    → IsDistinct new
    → Settled h configs streams old new old w
    → TakesBack h configs streams old
    → Outcome h configs streams old new (update_connections h configs streams old new w)
unfolding update_connections
update_connections-Outcome h configs streams old new w distinct settled takes =
    let (st1, back, w1) = disconnect_gone h configs streams old new w in
    let (back1, w2) = restore h configs streams false old back w1 in
    let (st2, tried, w3) = connect_new h configs streams old new w1 in
    let (back2, w4) = restore h configs streams false old back w3 in
    let (back3, w5) = restore h configs streams true old tried w4 in
    let P = λ (r : Status × List Call). Outcome h configs streams old new r in
    if-elim P (not (is_ok st1))
      (λ bad.
        Outcome-unless_aborted h configs streams old new back1 st1 w2 (ground arith)
          (λ all i there scope.
            restored_back h configs streams old new takes i w w1 there (settled i there scope) refl
              all))
      (λ good.
        if-elim P (is_ok st2)
          (λ fine. Settled-new h configs streams old new w distinct settled (ground arith) fine)
          (λ bad.
            if-elim P (is_aborted st2) (λ ended. tt)
              (λ runs.
                if-elim P (not back2) (λ ended. tt)
                  (λ all2.
                    Outcome-unless_aborted h configs streams old new back3 st2 w5 bad
                      (λ all3 i there scope.
                        restore-Good h configs streams old takes true i tried w4 there all3
                          (elim (Bool-cases (elem i tried)) [
                            | inl noted ↦ inr (noted, inl refl)
                            | inr untold ↦ inl (
                                restored_back h configs streams old new takes i w w3 there
                                  (settled i there scope)
                                  (connect_new-kept h configs streams i old new w1 there untold)
                                  (ground arith))
                          ]))))))
