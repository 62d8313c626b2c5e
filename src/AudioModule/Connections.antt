-- ===== src/AudioModule/Connections.antt =====
-- audio/Module.cpp: updateStreamsConnectedState.
use android_device_brcm_rpi.Common.{
  ℕ, Bool, true, false, not, ◌||◌, ◌==◌, ltb, eq_bytes, Option, none, some, List, [], ◌∷◌,
  if◌then◌else◌, Host, call,
}
use android_device_brcm_rpi.AudioModule.Types.{
  Device, Ext, unspecified, session, device, mix, PortConfig, Patch, State, Status, ok,
  illegal_argument, illegal_state, aborted, undefined, refused, Call, connect_stream, Answer,
}
use android_device_brcm_rpi.AudioModule.Lookup.{
  find_config, find_ids, has_stream, status_of, is_ok, open_streams,
}

-- `std::set` and `std::map` in the order of their keys. All ids of a map come from one set of
-- devices, so that a key that is there already has the value that is inserted.
abbrev pub insert_id : ℕ → List ℕ → List ℕ
insert_id i [] = i ∷ []
insert_id i (j ∷ js) = if ltb i j then i ∷ j ∷ js else if i == j then j ∷ js else j ∷ insert_id i js

abbrev pub id_set : List ℕ → List ℕ
id_set [] = []
id_set (i ∷ is) = insert_id i (id_set is)

abbrev pub insert_key : ℕ → List ℕ → List (ℕ × List ℕ) → List (ℕ × List ℕ)
insert_key k v [] = (k, v) ∷ []
insert_key k v ((j, u) ∷ m) =
    if ltb k j
    then (k, v) ∷ (j, u) ∷ m
    else if k == j
    then (j, u) ∷ m
    else (j, u) ∷ insert_key k v m

-- `fillConnectionsHelper`.
abbrev pub fill : List ℕ → List ℕ → List (ℕ × List ℕ)
fill [] devices = []
fill (i ∷ is) devices = insert_key i devices (fill is devices)

abbrev pub any_stream : List ℕ → List (ℕ × Bool) → Bool
any_stream [] streams = false
any_stream (i ∷ is) streams = has_stream i streams || any_stream is streams

-- `fillConnections`: sources or sinks are mix ports, or there is no stream to notify.
unfoldable pub connections : List (ℕ × Bool) → Patch → List (ℕ × List ℕ)
connections streams p =
    if any_stream p.source_port_config_ids streams
    then fill p.source_port_config_ids (id_set p.sink_port_config_ids)
    else if any_stream p.sink_port_config_ids streams
    then fill p.sink_port_config_ids (id_set p.source_port_config_ids)
    else []

abbrev pub add_device : Ext → Option (List Device) → Option (List Device)
add_device (device d) (some ds) = some (d ∷ ds)
add_device (device d) none = none
add_device unspecified ds = none
add_device session ds = none
add_device (mix x) ds = none

abbrev pub add_config : Option PortConfig → Option (List Device) → Option (List Device)
add_config none ds = none
add_config (some c) ds = add_device c.ext ds

-- `getDevicesFromDevicePortConfigIds`: `none` is LOG(FATAL).
unfoldable pub devices_of : List PortConfig → List ℕ → Option (List Device)
devices_of configs [] = some []
devices_of configs (i ∷ is) = add_config (find_config i configs) (devices_of configs is)

abbrev pub is_aborted : Status → Bool
is_aborted ok = false
is_aborted illegal_argument = false
is_aborted illegal_state = false
is_aborted aborted = true
is_aborted undefined = false
is_aborted (refused n) = false

abbrev pub unless_aborted : Bool → Status → Status
unless_aborted restored st = if restored then st else aborted

abbrev pub is_found : Option (List ℕ) → Bool
is_found none = false
is_found (some ids) = true

abbrev pub is_same : Option (List ℕ) → List ℕ → Bool
is_same none ids = false
is_same (some old) ids = eq_bytes old ids

module _ (h : Host Call Answer) (configs : List PortConfig) (streams : List (ℕ × Bool)) where
  -- `Streams::setStreamConnectedDevices`.
  unfoldable pub set_connected : ℕ → List Device → List Call → Status × List Call
  set_connected i ds w =
      if not (has_stream i streams)
      then (ok, w)
      else (let (a, w) = call h (connect_stream i ds) w in (status_of a, w))

  abbrev pub restore_devices : ℕ → Option (List Device) → List Call → Status × List Call
  restore_devices i none w = (aborted, w)
  restore_devices i (some ds) w = set_connected i ds w

  abbrev pub restore_one : Bool → ℕ → Option (List ℕ) → List Call → Status × List Call
  restore_one always i none w = if always then set_connected i [] w else (ok, w)
  restore_one always i (some ids) w = restore_devices i (devices_of configs ids) w

  -- `restoreOldConnections`: what the calls return is ignored.
  unfoldable pub restore : Bool → List (ℕ × List ℕ) → List ℕ → List Call → Bool × List Call
  unfolding set_connected
  restore always old [] w = (true, w)
  restore always old (i ∷ is) w =
      let (st, w1) = restore_one always i (find_ids i old) w in
      let rest = restore always old is w1 in if is_aborted st then (false, w1) else rest

  -- The disconnection step, with `idsToConnectBackOnFailure`.
  unfoldable pub disconnect_gone :
      List (ℕ × List ℕ) → List (ℕ × List ℕ) → List Call → Status × List ℕ × List Call
  unfolding set_connected
  disconnect_gone [] new w = (ok, [], w)
  disconnect_gone ((i, ids) ∷ old) new w =
      let (st, w1) = set_connected i [] w in
      let (st', back, w') = disconnect_gone old new w1 in
      let skipped = disconnect_gone old new w in
      if is_found (find_ids i new)
      then skipped
      else if is_ok st
      then (st', i ∷ back, w')
      else (st, i ∷ [], w1)

  abbrev pub connect_one : ℕ → Option (List Device) → List Call → Status × List Call
  connect_one i none w = (aborted, w)
  connect_one i (some []) w = (aborted, w)
  connect_one i (some (d ∷ ds)) w = set_connected i (d ∷ ds) w

  -- The connection step, with `idsToRollbackOnFailure`.
  unfoldable pub connect_new :
      List (ℕ × List ℕ) → List (ℕ × List ℕ) → List Call → Status × List ℕ × List Call
  unfolding set_connected
  connect_new old [] w = (ok, [], w)
  connect_new old ((i, ids) ∷ new) w =
      let (st, w1) = connect_one i (devices_of configs ids) w in
      let (st', tried, w') = connect_new old new w1 in
      let skipped = connect_new old new w in
      if is_same (find_ids i old) ids
      then skipped
      else if is_ok st
      then (st', i ∷ tried, w')
      else (st, i ∷ [], w1)

  unfoldable pub update_connections :
      List (ℕ × List ℕ) → List (ℕ × List ℕ) → List Call → Status × List Call
  unfolding disconnect_gone connect_new restore
  update_connections old new w =
      let (st1, back, w1) = disconnect_gone old new w in
      let (back1, w2) = restore false old back w1 in
      let (st2, tried, w3) = connect_new old new w1 in
      let (back2, w4) = restore false old back w3 in
      let (back3, w5) = restore true old tried w4 in
      if not (is_ok st1)
      then (unless_aborted back1 st1, w2)
      else if is_ok st2
      then (ok, w3)
      else if is_aborted st2
      then (aborted, w3)
      else if not back2
      then (aborted, w4)
      else (unless_aborted back3 st2, w5)

-- `count` is called for a stream of either patch before any stream is told anything: the closed
-- streams have been forgotten.
unfoldable pub update_streams_connected_state :
    Host Call Answer → State → Patch → Patch → List Call → Status × List Call
unfolding connections update_connections
update_streams_connected_state h m old new w =
    let streams = open_streams m.streams in
    update_connections h m.port_configs streams (connections streams old) (connections streams new)
      w
