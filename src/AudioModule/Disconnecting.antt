-- ===== src/AudioModule/Disconnecting.antt =====
-- audio/Module.cpp: disconnectExternalDevice.
use android_device_brcm_rpi.Common.{
  ℕ, Bool, true, false, not, ◌&&◌, ◌||◌, ◌==◌, Option, none, some, List, [], ◌∷◌, if◌then◌else◌,
  Host, call,
}
use android_device_brcm_rpi.AudioModule.Types.{
  Ext, unspecified, session, device, mix, Flags, Port, PortConfig, Route, State, Status, ok,
  illegal_argument, illegal_state, Call, connection_changed, Answer,
}
use android_device_brcm_rpi.AudioModule.Lookup.{elem, find_port, find_config, find_ids, is_device}
use android_device_brcm_rpi.AudioModule.Profiles.{is_same_flags, is_same_device}
use android_device_brcm_rpi.AudioModule.Devices.{is_populated}

abbrev pub is_same_value : Option ℕ → Option ℕ → Bool
is_same_value none none = true
is_same_value none (some b) = false
is_same_value (some a) none = false
is_same_value (some a) (some b) = a == b

abbrev pub is_same_option : Option Flags → Option Flags → Bool
is_same_option none none = true
is_same_option none (some b) = false
is_same_option (some a) none = false
is_same_option (some a) (some b) = is_same_flags a b

abbrev pub is_same_ext : Ext → Ext → Bool
is_same_ext unspecified unspecified = true
is_same_ext unspecified session = false
is_same_ext unspecified (device e) = false
is_same_ext unspecified (mix y) = false
is_same_ext session unspecified = false
is_same_ext session session = true
is_same_ext session (device e) = false
is_same_ext session (mix y) = false
is_same_ext (device d) unspecified = false
is_same_ext (device d) session = false
is_same_ext (device d) (device e) = is_same_device d e
is_same_ext (device d) (mix y) = false
is_same_ext (mix x) unspecified = false
is_same_ext (mix x) session = false
is_same_ext (mix x) (device e) = false
is_same_ext (mix x) (mix y) =
    x.handle == y.handle
    && x.usecase == y.usecase
    && x.max_open_stream_count == y.max_open_stream_count

abbrev pub is_same_config : PortConfig → PortConfig → Bool
is_same_config c d =
    c.id == d.id
    && c.port_id == d.port_id
    && is_same_value c.sample_rate d.sample_rate
    && is_same_value c.channel_mask d.channel_mask
    && is_same_value c.format d.format
    && is_same_option c.flags d.flags
    && is_same_ext c.ext d.ext

abbrev pub is_initial : PortConfig → Option PortConfig → Bool
is_initial c none = false
is_initial c (some initial) = is_same_config c initial

-- Whether a config of the port was provided by the client.
unfoldable pub has_client_config : ℕ → List PortConfig → List PortConfig → Bool
has_client_config i initials [] = false
has_client_config i initials (c ∷ cs) =
    (c.port_id == i && not (is_initial c (find_config c.id initials)))
    || has_client_config i initials cs

unfoldable pub erase_port : ℕ → List Port → List Port
erase_port i [] = []
erase_port i (p ∷ ps) = if p.id == i then ps else p ∷ erase_port i ps

abbrev pub erase_source : ℕ → List ℕ → List ℕ
erase_source i [] = []
erase_source i (j ∷ js) = if j == i then erase_source i js else j ∷ erase_source i js

unfoldable pub leave_routes : ℕ → List Route → List Route
leave_routes i [] = []
leave_routes i (r ∷ rs) =
    let rest = leave_routes i rs in
    if r.sink_port_id == i
    then rest
    else record r { source_port_ids = erase_source i r.source_port_ids } ∷ rest

unfoldable pub erase_key : ℕ → List (ℕ × List ℕ) → List (ℕ × List ℕ)
erase_key i [] = []
erase_key i ((k, ids) ∷ m) = if k == i then m else (k, ids) ∷ erase_key i m

-- The profiles of the ports that no other connected port has populated.
unfoldable pub clear_port : List ℕ → List (ℕ × List ℕ) → Port → Port
clear_port ids connected p =
    if elem p.id ids && not (is_populated p.id connected) then record p { profiles = [] } else p

unfoldable pub clear_ports : List ℕ → List (ℕ × List ℕ) → List Port → List Port
unfolding clear_port
clear_ports ids connected [] = []
clear_ports ids connected (p ∷ ps) = clear_port ids connected p ∷ clear_ports ids connected ps

unfoldable pub remove_connected : State → ℕ → List ℕ → State
unfolding leave_routes erase_key clear_ports erase_port
remove_connected m i ids =
    let connected = erase_key i m.connected_device_ports in
    record m {
      ports = clear_ports ids connected (erase_port i m.ports);
      routes = leave_routes i m.routes;
      connected_device_ports = connected;
    }

unfoldable pub disconnect_port :
    Host Call Answer
    → State
    → ℕ
    → Option Port
    → Option (List ℕ)
    → List Call
    → Status × State × List Call
unfolding has_client_config remove_connected
disconnect_port h m i none ids w = (illegal_argument, m, w)
disconnect_port h m i (some p) none w = (illegal_argument, m, w)
disconnect_port h m i (some p) (some ids) w =
    let (told, w1) = call h (connection_changed p false) w in
    if not (is_device p.ext)
    then (illegal_argument, m, w)
    else if has_client_config i m.initial_configs m.port_configs
    then (illegal_state, m, w)
    else (ok, remove_connected m i ids, w1)

unfoldable pub disconnect_external_device :
    Host Call Answer → State → ℕ → List Call → Status × State × List Call
unfolding disconnect_port
disconnect_external_device h m i w =
    disconnect_port h m i (find_port i m.ports) (find_ids i m.connected_device_ports) w
