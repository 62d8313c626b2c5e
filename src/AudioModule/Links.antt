-- ===== src/AudioModule/Links.antt =====
-- The table of patches by port and the list of patches stay consistent.
use android_device_brcm_rpi.Common.{
  ℕ, ◌+◌, ◌≡◌, ◌≢◌, refl, ap, ◌∙◌, ◌<◌, Bool, true, false, ◌==◌, Option, none, some, List, [], ◌∷◌,
  ◌++◌, if◌then◌else◌, arith, ==_iff, if-elim,
}
use mathlib.Core.Path.{subst}
use android_device_brcm_rpi.AudioModule.Types.{PortConfig, Patch, State}
use android_device_brcm_rpi.AudioModule.Lookup.{
  find_config, find_patch, replace_patch, erase_patch, erase_value,
}
use android_device_brcm_rpi.AudioModule.Patches.{register_id, register_ids, register_patch}

abbrev pub is_there : Option Patch → Bool
is_there none = false
is_there (some p) = true

-- Every entry of the table is of a patch of the list.
abbrev pub AllLinked : List Patch → List (ℕ × ℕ) → Type 0
AllLinked patches [] = Unit {0}
AllLinked patches ((k, v) ∷ m) = (is_there (find_patch v patches) ≡ true) × AllLinked patches m

-- The ids of the patches are different, and below the next one.
abbrev pub AllFresh : ℕ → List Patch → Type 0
AllFresh next [] = Unit {0}
AllFresh next (p ∷ ps) = (p.id < next) × (find_patch p.id ps ≡ none) × AllFresh next ps

abbrev pub IsValid : State → Type 0
IsValid m =
    (0 < m.next_patch_id) × AllFresh m.next_patch_id m.patches × AllLinked m.patches m.registered

pub AllLinked-weaken :
    (ps qs : List Patch) (m : List (ℕ × ℕ))
    → ((v : ℕ) → is_there (find_patch v ps) ≡ true → is_there (find_patch v qs) ≡ true)
    → AllLinked ps m
    → AllLinked qs m
AllLinked-weaken ps qs [] more all = tt
AllLinked-weaken ps qs ((k, v) ∷ m) more (one, all) =
    (more v one, AllLinked-weaken ps qs m more all)

pub AllLinked-erase_value :
    (ps : List Patch) (v : ℕ) (m : List (ℕ × ℕ)) → AllLinked ps m → AllLinked ps (erase_value v m)
AllLinked-erase_value ps v [] all = tt
AllLinked-erase_value ps v ((k, u) ∷ m) (one, all) =
    if-elim (AllLinked ps) (u == v) (λ e. AllLinked-erase_value ps v m all)
      (λ e. (one, AllLinked-erase_value ps v m all))

pub find_patch-erase_patch :
    (u v : ℕ) (ps : List Patch) → u ≢ v → find_patch u (erase_patch v ps) ≡ find_patch u ps
find_patch-erase_patch u v [] ne = refl
find_patch-erase_patch u v (p ∷ ps) ne = ground (arith, find_patch-erase_patch u v ps ne)

-- Without its entries a patch can go.
pub AllLinked-erased :
    (ps : List Patch) (v : ℕ) (m : List (ℕ × ℕ))
    → AllLinked ps m
    → AllLinked (erase_patch v ps) (erase_value v m)
AllLinked-erased ps v [] all = tt
AllLinked-erased ps v ((k, u) ∷ m) (one, all) =
    if-elim (AllLinked (erase_patch v ps)) (u == v) (λ e. AllLinked-erased ps v m all)
      (λ e. (
        ap is_there (find_patch-erase_patch u v ps (ground arith)) ∙ one,
        AllLinked-erased ps v m all,
      ))

pub AllLinked-register_id :
    (ps : List Patch) (v i : ℕ) (o : Option PortConfig) (m : List (ℕ × ℕ))
    → is_there (find_patch v ps) ≡ true
    → AllLinked ps m
    → AllLinked ps (register_id i v o m)
AllLinked-register_id ps v i none m there all = all
AllLinked-register_id ps v i (some c) m there all =
    if-elim (AllLinked ps) (c.port_id == i) (λ e. (there, all)) (λ e. (there, (there, all)))

pub AllLinked-register_ids :
    (ps : List Patch) (configs : List PortConfig) (v : ℕ) (is : List ℕ) (m : List (ℕ × ℕ))
    → is_there (find_patch v ps) ≡ true
    → AllLinked ps m
    → AllLinked ps (register_ids configs v is m)
unfolding register_ids
AllLinked-register_ids ps configs v [] m there all = all
AllLinked-register_ids ps configs v (i ∷ is) m there all =
    AllLinked-register_id ps v i (find_config i configs) (register_ids configs v is m) there
      (AllLinked-register_ids ps configs v is m there all)

pub AllLinked-register_patch :
    (m : State) (p : Patch)
    → is_there (find_patch p.id m.patches) ≡ true
    → AllLinked m.patches m.registered
    → AllLinked m.patches (register_patch m p).registered
unfolding register_patch
AllLinked-register_patch m p there all =
    AllLinked-register_ids m.patches m.port_configs p.id p.sink_port_config_ids _ there
      (AllLinked-register_ids m.patches m.port_configs p.id p.source_port_config_ids _ there all)

pub find_patch-append :
    (v : ℕ) (ps : List Patch) (p : Patch)
    → find_patch v (ps ++ (p ∷ []))
      ≡ (if is_there (find_patch v ps) then find_patch v ps else if p.id == v then some p else none)
find_patch-append v [] p = refl
find_patch-append v (q ∷ ps) p = ground (arith, find_patch-append v ps p)

pub is_there-replace_patch :
    (v : ℕ) (new : Patch) (ps : List Patch)
    → is_there (find_patch v (replace_patch new.id new ps)) ≡ is_there (find_patch v ps)
is_there-replace_patch v new [] = refl
is_there-replace_patch v new (q ∷ ps) = ground (arith, is_there-replace_patch v new ps)

pub AllFresh-append :
    (next : ℕ) (ps : List Patch) (p : Patch)
    → p.id ≡ next
    → AllFresh next ps
    → AllFresh (next + 1) (ps ++ (p ∷ []))
AllFresh-append next [] p e all = (omega arith, refl, tt)
AllFresh-append next (q ∷ ps) p e (low, alone, all) =
    (omega arith, find_patch-append q.id ps p ∙ ground arith, AllFresh-append next ps p e all)

pub find_patch-replace_patch :
    (u : ℕ) (new : Patch) (ps : List Patch)
    → u ≢ new.id
    → find_patch u (replace_patch new.id new ps) ≡ find_patch u ps
find_patch-replace_patch u new [] ne = refl
find_patch-replace_patch u new (q ∷ ps) ne = ground (arith, find_patch-replace_patch u new ps ne)

pub AllFresh-replace_patch :
    (next : ℕ) (new : Patch) (ps : List Patch)
    → AllFresh next ps
    → AllFresh next (replace_patch new.id new ps)
AllFresh-replace_patch next new [] all = tt
AllFresh-replace_patch next new (q ∷ ps) (low, alone, all) =
    if-elim (AllFresh next) (q.id == new.id)
      (λ e.
        let same : q.id ≡ new.id = (==_iff q.id new.id).0 e in
        (omega arith, subst (λ k. find_patch k ps ≡ none) same alone, all))
      (λ e. (
        low,
        find_patch-replace_patch q.id new ps (ground arith) ∙ alone,
        AllFresh-replace_patch next new ps all,
      ))

pub find_patch-erase_none :
    (u v : ℕ) (ps : List Patch) → find_patch u ps ≡ none → find_patch u (erase_patch v ps) ≡ none
find_patch-erase_none u v [] e = refl
find_patch-erase_none u v (p ∷ ps) e = ground (arith, find_patch-erase_none u v ps)

pub AllFresh-erase_patch :
    (next v : ℕ) (ps : List Patch) → AllFresh next ps → AllFresh next (erase_patch v ps)
AllFresh-erase_patch next v [] all = tt
AllFresh-erase_patch next v (q ∷ ps) (low, alone, all) =
    if-elim (AllFresh next) (q.id == v) (λ e. all)
      (λ e. (low, find_patch-erase_none q.id v ps alone, AllFresh-erase_patch next v ps all))

pub AllFresh-more : (next : ℕ) (ps : List Patch) → AllFresh next ps → AllFresh (next + 1) ps
AllFresh-more next [] all = tt
AllFresh-more next (q ∷ ps) (low, alone, all) = (omega arith, alone, AllFresh-more next ps all)
