-- ===== src/AudioModule/Filling.antt =====
-- audio/Module.cpp: the profiles of the mix ports that a connected device port fills, and that its
-- disconnection clears.
use android_device_brcm_rpi.Common.{
  ℕ, ◌+◌, ◌≡◌, ◌≢◌, ◌⊎◌, inl, inr, refl, sym, ap, ◌∙◌, Bool, true, false, not, ◌&&◌, ◌||◌, ◌==◌,
  Option, none, some, List, [], ◌∷◌, ◌++◌, if◌then◌else◌, arith, Bool-cases, ==_iff, if-elim,
}
use mathlib.Core.Path.{subst}
use android_device_brcm_rpi.AudioModule.Types.{Profile, Port}
use android_device_brcm_rpi.AudioModule.Lookup.{elem, find_port, is_device}
use android_device_brcm_rpi.AudioModule.Connections.{insert_id}
use android_device_brcm_rpi.AudioModule.Profiles.{has_dynamic_profiles_only}
use android_device_brcm_rpi.AudioModule.Devices.{fill_port, fill_ports, filled_ids, is_populated}
use android_device_brcm_rpi.AudioModule.Disconnecting.{erase_port, clear_port, clear_ports}
use android_device_brcm_rpi.AudioModule.Numbering.{PortsBelow}

-- The ports that some connected port has populated do not have dynamic profiles only.
abbrev pub AllStatic : List (ℕ × List ℕ) → List Port → Type 0
AllStatic connected [] = Unit {0}
AllStatic connected (p ∷ ps) =
    ((is_populated p.id connected && has_dynamic_profiles_only p.profiles) ≡ false)
    × AllStatic connected ps

-- The same ports, but that dynamic profiles may have been cleared.
abbrev pub IsRestored : Port → Port → Type 0
IsRestored p q =
    (q ≡ p) ⊎ ((has_dynamic_profiles_only p.profiles ≡ true) × (q ≡ record p { profiles = [] }))

abbrev pub AllRestored : List Port → List Port → Type 0
AllRestored [] [] = Unit {0}
AllRestored [] (q ∷ qs) = ⊥
AllRestored (p ∷ ps) [] = ⊥
AllRestored (p ∷ ps) (q ∷ qs) = IsRestored p q × AllRestored ps qs

pub AllRestored-same : (ps : List Port) → AllRestored ps ps
AllRestored-same [] = tt
AllRestored-same (p ∷ ps) = (inl refl, AllRestored-same ps)

elem-insert_id : (k j : ℕ) (js : List ℕ) → elem k (insert_id j js) ≡ (j == k || elem k js)
elem-insert_id k j [] = refl
elem-insert_id k j (i ∷ is) = ground (arith, elem-insert_id k j is)

-- What decides whether an id is noted.
abbrev pub is_filled : List ℕ → List (ℕ × List ℕ) → Option Port → Bool
is_filled ids connected none = false
is_filled ids connected (some p) =
    elem p.id ids && (has_dynamic_profiles_only p.profiles || is_populated p.id connected)

elem-noted :
    (k j : ℕ) (c : Bool) (js : List ℕ)
    → elem k (if c then insert_id j js else js) ≡ ((c && j == k) || elem k js)
elem-noted k j true js = elem-insert_id k j js
elem-noted k j false js = refl

elem-filled_ids :
    (n k : ℕ) (ids : List ℕ) (connected : List (ℕ × List ℕ)) (ps : List Port)
    → PortsBelow n ps
    → elem k (filled_ids ids connected ps) ≡ is_filled ids connected (find_port k ps)
unfolding filled_ids
elem-filled_ids n k ids connected [] low = refl
elem-filled_ids n k ids connected (p ∷ ps) (low, alone, all) =
    let rest = filled_ids ids connected ps in
    let ih = elem-filled_ids n k ids connected ps all in
    elim (Bool-cases (p.id == k)) [
      | inl e ↦
          let same : p.id ≡ k = (==_iff p.id k).0 e in
          let gone : elem k rest ≡ false =
            ih ∙ ap (is_filled ids connected) (subst (λ j. find_port j ps ≡ none) same alone) in
          elem-noted k p.id (is_filled ids connected (some p)) rest ∙ ground (arith, gone)
      | inr e ↦ elem-noted k p.id (is_filled ids connected (some p)) rest ∙ ground (arith, ih, e)
    ]

find_port-append :
    (k : ℕ) (ps : List Port) (p : Port) → p.id ≢ k → find_port k (ps ++ (p ∷ [])) ≡ find_port k ps
find_port-append k [] p ne = ground arith
find_port-append k (q ∷ qs) p ne = ground (arith, find_port-append k qs p ne)

PortsBelow-append :
    (n : ℕ) (ps : List Port) (p : Port)
    → p.id ≡ n
    → PortsBelow n ps
    → PortsBelow (n + 1) (ps ++ (p ∷ []))
PortsBelow-append n [] p e low = (omega arith, refl, tt)
PortsBelow-append n (q ∷ qs) p e (low, alone, all) =
    (omega arith, find_port-append q.id qs p (omega arith) ∙ alone, PortsBelow-append n qs p e all)

erase_port-fill_ports :
    (n : ℕ) (ids : List ℕ) (profiles : List Profile) (ps : List Port) (p : Port)
    → p.id ≡ n
    → PortsBelow n ps
    → erase_port n (fill_ports ids profiles (ps ++ (p ∷ []))) ≡ fill_ports ids profiles ps
unfolding erase_port fill_ports fill_port
erase_port-fill_ports n ids profiles [] p e low = ground (arith, e)
erase_port-fill_ports n ids profiles (q ∷ qs) p e (low, alone, all) =
    ground (arith, erase_port-fill_ports n ids profiles qs p e all)

pub erase_port-append :
    (n : ℕ) (ps : List Port) (p : Port)
    → p.id ≡ n
    → PortsBelow n ps
    → erase_port n (ps ++ (p ∷ [])) ≡ ps
unfolding erase_port
erase_port-append n [] p e low = ground (arith, e)
erase_port-append n (q ∷ qs) p e (low, alone, all) = ground (arith, erase_port-append n qs p e all)

-- One port: `noted` are the ids that the connected port keeps.
IsRestored-clear_port :
    (ids noted : List ℕ) (connected : List (ℕ × List ℕ)) (profiles : List Profile) (p : Port)
    → elem p.id noted ≡ is_filled ids connected (some p)
    → (is_populated p.id connected && has_dynamic_profiles_only p.profiles) ≡ false
    → IsRestored p (clear_port noted connected (fill_port ids profiles p))
unfolding clear_port fill_port
IsRestored-clear_port ids noted connected profiles p e static =
    let P = λ (q : Port). IsRestored p (clear_port noted connected q) in
    if-elim P (elem p.id ids && has_dynamic_profiles_only p.profiles)
      (λ fills.
        if-elim (IsRestored p) (elem p.id noted && not (is_populated p.id connected))
          (λ c. inr (ground (arith, fills), refl)) (λ c. ground (arith, e, static, fills, c)))
      (λ keeps.
        if-elim (IsRestored p) (elem p.id noted && not (is_populated p.id connected))
          (λ c. ground (arith, e, keeps, c)) (λ c. inl refl))

-- Each port stands first in the list among those with its id.
abbrev AllAt : List Port → List Port → Type 0
AllAt full [] = Unit {0}
AllAt full (p ∷ ps) = (find_port p.id full ≡ some p) × AllAt full ps

find_port-below : (n : ℕ) (ps : List Port) → PortsBelow n ps → find_port n ps ≡ none
find_port-below n [] low = refl
find_port-below n (p ∷ ps) (low, alone, all) = ground (arith, find_port-below n ps all)

AllAt-cons :
    (q : Port) (full ps : List Port)
    → find_port q.id ps ≡ none
    → AllAt full ps
    → AllAt (q ∷ full) ps
AllAt-cons q full [] ne all = tt
AllAt-cons q full (p ∷ ps) ne (one, all) =
    (ground (arith, one, ne), AllAt-cons q full ps (ground (arith, ne)) all)

AllAt-self : (n : ℕ) (ps : List Port) → PortsBelow n ps → AllAt ps ps
AllAt-self n [] low = tt
AllAt-self n (p ∷ ps) (low, alone, all) =
    (ground arith, AllAt-cons p ps ps alone (AllAt-self n ps all))

AllRestored-clear_ports :
    (ids noted : List ℕ) (connected : List (ℕ × List ℕ)) (profiles : List Profile)
    (full ps : List Port)
    → ((k : ℕ) (p : Port)
        → find_port k full ≡ some p
        → elem k noted ≡ is_filled ids connected (some p))
    → AllAt full ps
    → AllStatic connected ps
    → AllRestored ps (clear_ports noted connected (fill_ports ids profiles ps))
unfolding clear_ports fill_ports
AllRestored-clear_ports ids noted connected profiles full [] notes here static = tt
AllRestored-clear_ports ids noted connected profiles full (p ∷ ps) notes (one, all)
      (fixed, static) =
    (
      IsRestored-clear_port ids noted connected profiles p (notes p.id p one) fixed,
      AllRestored-clear_ports ids noted connected profiles full ps notes all static,
    )

-- Clearing what was filled for a new port `p` restores the other ports.
pub AllRestored-filled :
    (n : ℕ) (ids : List ℕ) (connected : List (ℕ × List ℕ)) (profiles : List Profile)
    (ps : List Port) (p : Port)
    → p.id ≡ n
    → PortsBelow n ps
    → AllStatic connected ps
    → let ports = ps ++ (p ∷ []) in
      AllRestored ps (
        clear_ports
          (filled_ids ids connected ports)
          connected
          (erase_port n (fill_ports ids profiles ports)))
AllRestored-filled n ids connected profiles ps p e low static =
    let ports = ps ++ (p ∷ []) in
    let noted = filled_ids ids connected ports in
    subst (λ qs. AllRestored ps (clear_ports noted connected qs))
      (sym (erase_port-fill_ports n ids profiles ps p e low))
      (AllRestored-clear_ports ids noted connected profiles ps ps
        (λ k q found.
          elem-filled_ids (n + 1) k ids connected ports (PortsBelow-append n ps p e low)
          ∙ ap (is_filled ids connected) (
              find_port-append k ps p (λ same.
                cc (
                  sym (find_port-below n ps low) ∙ ap (λ j. find_port j ps) (sym e ∙ same) ∙ found))
              ∙ found))
        (AllAt-self n ps low) static)

clear_ports-none :
    (connected : List (ℕ × List ℕ)) (ps : List Port) → clear_ports [] connected ps ≡ ps
unfolding clear_ports clear_port
clear_ports-none connected [] = refl
clear_ports-none connected (p ∷ ps) = ap (λ x. p ∷ x) (clear_ports-none connected ps)

-- The same where nothing was filled.
pub AllRestored-unfilled :
    (n : ℕ) (connected : List (ℕ × List ℕ)) (ps : List Port) (p : Port)
    → p.id ≡ n
    → PortsBelow n ps
    → AllRestored ps (clear_ports [] connected (erase_port n (ps ++ (p ∷ []))))
AllRestored-unfilled n connected ps p e low =
    subst (AllRestored ps) (sym (clear_ports-none connected _ ∙ erase_port-append n ps p e low))
      (AllRestored-same ps)

pub find_port-added :
    (n : ℕ) (ps : List Port) (p : Port)
    → p.id ≡ n
    → PortsBelow n ps
    → find_port n (ps ++ (p ∷ [])) ≡ some p
find_port-added n [] p e low = ground (arith, e)
find_port-added n (q ∷ qs) p e (low, alone, all) = ground (arith, find_port-added n qs p e all)

pub find_port-filled :
    (n : ℕ) (ids : List ℕ) (profiles : List Profile) (ps : List Port) (p : Port)
    → p.id ≡ n
    → PortsBelow n ps
    → find_port n (fill_ports ids profiles (ps ++ (p ∷ []))) ≡ some (fill_port ids profiles p)
unfolding fill_ports fill_port
find_port-filled n ids profiles [] p e low = ground (arith, e)
find_port-filled n ids profiles (q ∷ qs) p e (low, alone, all) =
    ground (arith, find_port-filled n ids profiles qs p e all)

pub is_device-fill_port :
    (ids : List ℕ) (profiles : List Profile) (p : Port)
    → is_device (fill_port ids profiles p).ext ≡ is_device p.ext
unfolding fill_port
is_device-fill_port ids profiles p = ground arith
