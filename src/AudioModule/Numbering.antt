-- ===== src/AudioModule/Numbering.antt =====
-- audio/Module.cpp: ids that are not used yet, and what an external device adds to the routes and to
-- the connected ports.
use android_device_brcm_rpi.Common.{
  ℕ, ◌≡◌, refl, ap, ◌∙◌, ◌<◌, false, none, some, List, [], ◌∷◌, ◌++◌, arith,
}
use android_device_brcm_rpi.AudioModule.Types.{Port, PortConfig, Route, State}
use android_device_brcm_rpi.AudioModule.Lookup.{find_port, find_ids}
use android_device_brcm_rpi.AudioModule.Connections.{insert_key}
use android_device_brcm_rpi.AudioModule.Devices.{join_route, join_routes, copied_routes}
use android_device_brcm_rpi.AudioModule.Disconnecting.{
  has_client_config, erase_source, leave_routes, erase_key,
}

-- The ids of the ports are different.
abbrev pub PortsBelow : ℕ → List Port → Type 0
PortsBelow n [] = Unit {0}
PortsBelow n (p ∷ ps) = (p.id < n) × (find_port p.id ps ≡ none) × PortsBelow n ps

abbrev pub IdsBelow : ℕ → List ℕ → Type 0
IdsBelow n [] = Unit {0}
IdsBelow n (i ∷ is) = (i < n) × IdsBelow n is

abbrev pub RoutesBelow : ℕ → List Route → Type 0
RoutesBelow n [] = Unit {0}
RoutesBelow n (r ∷ rs) = (r.sink_port_id < n) × IdsBelow n r.source_port_ids × RoutesBelow n rs

abbrev pub ConfigsBelow : ℕ → List PortConfig → Type 0
ConfigsBelow n [] = Unit {0}
ConfigsBelow n (c ∷ cs) = (c.port_id < n) × ConfigsBelow n cs

abbrev pub KeysBelow : ℕ → List (ℕ × List ℕ) → Type 0
KeysBelow n [] = Unit {0}
KeysBelow n ((k, ids) ∷ m) = (k < n) × KeysBelow n m

-- Every id of a port that the module knows is below the next one.
abbrev pub IsNumbered : State → Type 0
IsNumbered m =
    PortsBelow m.next_port_id m.ports
    × RoutesBelow m.next_port_id m.routes
    × ConfigsBelow m.next_port_id m.port_configs
    × KeysBelow m.next_port_id m.connected_device_ports

erase_source-append : (i : ℕ) (is : List ℕ) → IdsBelow i is → erase_source i (is ++ (i ∷ [])) ≡ is
erase_source-append i [] low = ground arith
erase_source-append i (j ∷ js) (low, all) = ground (arith, erase_source-append i js all)

erase_source-below : (i : ℕ) (is : List ℕ) → IdsBelow i is → erase_source i is ≡ is
erase_source-below i [] low = refl
erase_source-below i (j ∷ js) (low, all) = ground (arith, erase_source-below i js all)

pub leave_routes-copied_routes :
    (t i : ℕ) (rs : List Route) → leave_routes i (copied_routes t i rs) ≡ []
unfolding leave_routes copied_routes
leave_routes-copied_routes t i [] = refl
leave_routes-copied_routes t i (r ∷ rs) = ground (arith, leave_routes-copied_routes t i rs)

leave_join :
    (t i : ℕ) (r : Route) (rs : List Route)
    → r.sink_port_id < i
    → IdsBelow i r.source_port_ids
    → leave_routes i (join_route t i r ∷ rs) ≡ r ∷ leave_routes i rs
unfolding leave_routes join_route
leave_join t i r rs low all =
    ground (
      arith,
      erase_source-append i r.source_port_ids all,
      erase_source-below i r.source_port_ids all,
    )

-- Leaving takes back what joining did.
pub leave_routes-join_routes :
    (t i : ℕ) (rs more : List Route)
    → RoutesBelow i rs
    → leave_routes i (join_routes t i rs ++ more) ≡ rs ++ leave_routes i more
unfolding join_routes
leave_routes-join_routes t i [] more low = refl
leave_routes-join_routes t i (r ∷ rs) more (low, sources, all) =
    leave_join t i r (join_routes t i rs ++ more) low sources
    ∙ ap (λ x. r ∷ x) (leave_routes-join_routes t i rs more all)

pub find_ids-insert_key :
    (i : ℕ) (v : List ℕ) (m : List (ℕ × List ℕ))
    → KeysBelow i m
    → find_ids i (insert_key i v m) ≡ some v
find_ids-insert_key i v [] low = ground arith
find_ids-insert_key i v ((k, ids) ∷ m) (low, all) = ground (arith, find_ids-insert_key i v m all)

pub erase_key-insert_key :
    (i : ℕ) (v : List ℕ) (m : List (ℕ × List ℕ))
    → KeysBelow i m
    → erase_key i (insert_key i v m) ≡ m
unfolding erase_key
erase_key-insert_key i v [] low = ground arith
erase_key-insert_key i v ((k, ids) ∷ m) (low, all) = ground (arith, erase_key-insert_key i v m all)

pub has_client_config-below :
    (i : ℕ) (initials configs : List PortConfig)
    → ConfigsBelow i configs
    → has_client_config i initials configs ≡ false
unfolding has_client_config
has_client_config-below i initials [] low = refl
has_client_config-below i initials (c ∷ cs) (low, all) =
    ground (arith, has_client_config-below i initials cs all)
