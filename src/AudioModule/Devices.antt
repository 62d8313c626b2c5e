-- ===== src/AudioModule/Devices.antt =====
-- audio/Module.cpp: connectExternalDevice and setModuleDebug. The ids of ports are different,
-- so that what is done at the port with an id is done at each.
use android_device_brcm_rpi.Common.{
  ℕ, ◌+◌, Bool, true, false, not, ◌&&◌, ◌||◌, ◌==◌, Option, none, some, List, [], ◌∷◌, ◌++◌,
  if◌then◌else◌, Host, call,
}
use android_device_brcm_rpi.AudioModule.Types.{
  Profile, Device, Ext, unspecified, session, device, mix, Port, Route, State, Status, ok,
  illegal_argument, illegal_state, aborted, Call, populate_port, connection_changed, Answer, done,
  populated, failed,
}
use android_device_brcm_rpi.AudioModule.Lookup.{
  elem, is_empty, find_port, find_ids, status_of, is_ok,
}
use android_device_brcm_rpi.AudioModule.Connections.{insert_id, insert_key, is_found}
use android_device_brcm_rpi.AudioModule.Profiles.{has_dynamic_profiles_only, is_same_device}

abbrev pub device_of : Ext → Option Device
device_of unspecified = none
device_of session = none
device_of (device d) = some d
device_of (mix x) = none

abbrev pub uses_port : ℕ → Route → Bool
uses_port i r = r.sink_port_id == i || elem i r.source_port_ids

-- `getRoutableAudioPortIds` over `getAudioRoutesForAudioPortImpl`.
unfoldable pub routable_port_ids : ℕ → List Route → List ℕ
routable_port_ids i [] = []
routable_port_ids i (r ∷ rs) =
    let rest = routable_port_ids i rs in
    if not (uses_port i r)
    then rest
    else if r.sink_port_id == i
    then r.source_port_ids ++ rest
    else r.sink_port_id ∷ rest

abbrev pub port_device : Option Port → Option Device
port_device none = none
port_device (some p) = device_of p.ext

abbrev pub is_at : Device → Option Device → Bool
is_at d none = false
is_at d (some e) = is_same_device e d

abbrev pub is_device_connected : Device → List Port → List (ℕ × List ℕ) → Bool
is_device_connected d ports [] = false
is_device_connected d ports ((i, ids) ∷ m) =
    is_at d (port_device (find_port i ports)) || is_device_connected d ports m

-- Whether a routable port has dynamic profiles only.
unfoldable pub has_dynamic_port : List ℕ → List Port → Bool
has_dynamic_port ids [] = false
has_dynamic_port ids (p ∷ ps) =
    (elem p.id ids && has_dynamic_profiles_only p.profiles) || has_dynamic_port ids ps

abbrev pub is_populated : ℕ → List (ℕ × List ℕ) → Bool
is_populated i [] = false
is_populated i ((k, ids) ∷ m) = elem i ids || is_populated i m

-- The profiles that the routable ports get, and the ids that the connected port keeps.
unfoldable pub fill_port : List ℕ → List Profile → Port → Port
fill_port ids profiles p =
    if elem p.id ids && has_dynamic_profiles_only p.profiles
    then record p { profiles = profiles }
    else p

unfoldable pub fill_ports : List ℕ → List Profile → List Port → List Port
unfolding fill_port
fill_ports ids profiles [] = []
fill_ports ids profiles (p ∷ ps) = fill_port ids profiles p ∷ fill_ports ids profiles ps

unfoldable pub filled_ids : List ℕ → List (ℕ × List ℕ) → List Port → List ℕ
filled_ids ids connected [] = []
filled_ids ids connected (p ∷ ps) =
    let rest = filled_ids ids connected ps in
    if elem p.id ids && (has_dynamic_profiles_only p.profiles || is_populated p.id connected)
    then insert_id p.id rest
    else rest

-- A route from the template is also one from the connected port, a route to it is copied.
unfoldable pub join_route : ℕ → ℕ → Route → Route
join_route template i r =
    if r.sink_port_id == template
    then r
    else if elem template r.source_port_ids
    then record r { source_port_ids = r.source_port_ids ++ (i ∷ []) }
    else r

unfoldable pub join_routes : ℕ → ℕ → List Route → List Route
unfolding join_route
join_routes template i [] = []
join_routes template i (r ∷ rs) = join_route template i r ∷ join_routes template i rs

unfoldable pub copied_routes : ℕ → ℕ → List Route → List Route
copied_routes template i [] = []
copied_routes template i (r ∷ rs) =
    let rest = copied_routes template i rs in
    if r.sink_port_id == template then record r { sink_port_id = i } ∷ rest else rest

-- The module with a connected port `p`, and its routable ports filled.
unfoldable pub add_connected : State → ℕ → Port → State
unfolding routable_port_ids fill_ports filled_ids join_routes copied_routes
add_connected m template p =
    let ids = routable_port_ids template m.routes in
    let fills = not (has_dynamic_profiles_only p.profiles) && not (is_empty ids) in
    let ports = m.ports ++ (p ∷ []) in
    record m {
      ports = if fills then fill_ports ids p.profiles ports else ports;
      connected_device_ports =
          insert_key p.id (if fills then filled_ids ids m.connected_device_ports ports else [])
            m.connected_device_ports;
      routes = join_routes template p.id m.routes ++ copied_routes template p.id m.routes;
    }

-- The profiles of a port that `populateConnectedDevicePort` was given.
abbrev pub populated_profiles : Answer → List Profile → List Profile
populated_profiles (done n) old = old
populated_profiles (populated ps) old = ps
populated_profiles (failed n) old = old

abbrev pub find_profiles : ℕ → List (ℕ × List Profile) → List Profile → List Profile
find_profiles i [] old = old
find_profiles i ((k, ps) ∷ m) old = if k == i then ps else find_profiles i m old

abbrev pub simulated_profiles : State → ℕ → List Profile → List Profile
simulated_profiles m template old =
    if has_dynamic_profiles_only old then find_profiles template m.connected_profiles old else old

abbrev pub populate :
    Host Call Answer → State → ℕ → Port → List Call → Status × List Profile × List Call
populate h m template p w =
    let (a, w1) = call h (populate_port p m.next_port_id) w in
    if m.simulate_device_connections
    then (ok, simulated_profiles m template p.profiles, w)
    else (status_of a, populated_profiles a p.profiles, w1)

-- The connection of the port `p`, which the client's checks let pass.
unfoldable pub connect_port :
    Host Call Answer → State → ℕ → Port → List Call → Status × State × Port × List Call
unfolding add_connected routable_port_ids has_dynamic_port
connect_port h m template p w =
    let i = m.next_port_id in
    let m1 = record m { next_port_id = i + 1 } in
    let (st, profiles, w2) = populate h m template p w in
    let placed = record p { id = i; profiles = profiles } in
    let (told, w3) = call h (connection_changed placed true) w2 in
    if not (is_ok st)
    then (st, m1, p, w2)
    else if has_dynamic_profiles_only profiles
        && has_dynamic_port (routable_port_ids template m.routes) m.ports
    then (illegal_state, m1, p, w2)
    else (ok, add_connected m1 template placed, placed, w3)

abbrev pub address_of : Option Device → ℕ
address_of none = 0
address_of (some d) = d.address

abbrev pub has_no_device : Option Device → Bool
has_no_device none = true
has_no_device (some d) = false

abbrev pub connect_device :
    Host Call Answer
    → State
    → Port
    → Option Device
    → Option Device
    → List Call
    → Status × State × Port × List Call
connect_device h m p given none w = (illegal_argument, m, p, w)
connect_device h m p given (some d) w =
    let there = record d { address = address_of given } in
    if d.connection == 0
    then (illegal_argument, m, p, w)
    else if is_found (find_ids p.id m.connected_device_ports)
    then (illegal_argument, m, p, w)
    else if has_no_device given
    then (aborted, m, p, w)
    else if is_device_connected there m.ports m.connected_device_ports
    then (illegal_state, m, p, w)
    else connect_port h m p.id (record p { ext = device there }) w

abbrev pub connect_template :
    Host Call Answer
    → State
    → Port
    → Option Port
    → Option Device
    → List Call
    → Status × State × Port × List Call
connect_template h m requested none given w = (illegal_argument, m, requested, w)
connect_template h m requested (some p) given w = connect_device h m p given (device_of p.ext) w

-- The request has the id of the template and, in its device, the address; asking an ext of another
-- kind for a device ends the process.
unfoldable pub connect_external_device :
    Host Call Answer → State → Port → List Call → Status × State × Port × List Call
unfolding connect_port
connect_external_device h m requested w =
    connect_template h m requested (find_port requested.id m.ports) (device_of requested.ext) w

abbrev pub has_connected : List (ℕ × List ℕ) → Bool
has_connected [] = false
has_connected (c ∷ cs) = true

abbrev pub is_same_bool : Bool → Bool → Bool
is_same_bool true b = b
is_same_bool false b = not b

-- `setModuleDebug`, of whose flags only the simulation of connections is read here; `negative` says that
-- the delay of the transient states is.
unfoldable pub set_module_debug : Bool → Bool → State → Status × State
set_module_debug simulate negative m =
    let changes = not (is_same_bool m.simulate_device_connections simulate) in
    if changes && has_connected m.connected_device_ports
    then (illegal_state, m)
    else if negative
    then (illegal_argument, m)
    else (ok, record m { simulate_device_connections = simulate })
