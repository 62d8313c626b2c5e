-- ===== src/AudioModule/Reconnection.antt =====
-- audio/Module.cpp: the connection of an external device and its disconnection.
use android_device_brcm_rpi.Common.{
  ℕ, ◌+◌, ◌≡◌, refl, sym, ap, ◌∙◌, true, false, not, ◌&&◌, ◌==◌, Option, none, some, List, [], ◌∷◌,
  ◌++◌, Host, call, arith, if-elim, Bool-cases, inl, inr,
}
use mathlib.Core.Path.{subst}
use mathlib.Core.List.{append-nil}
use android_device_brcm_rpi.AudioModule.Types.{
  Device, device, Port, State, Status, ok, Call, connection_changed, Answer,
}
use android_device_brcm_rpi.AudioModule.Lookup.{is_empty, find_port, find_ids, is_device, is_ok}
use android_device_brcm_rpi.AudioModule.Connections.{insert_key, is_found}
use android_device_brcm_rpi.AudioModule.Profiles.{has_dynamic_profiles_only}
use android_device_brcm_rpi.AudioModule.Devices.{
  routable_port_ids, has_dynamic_port, fill_port, fill_ports, filled_ids, add_connected,
  join_routes, copied_routes, populate, connect_port, connect_device, connect_template,
  connect_external_device, device_of, address_of, has_no_device, is_device_connected,
}
use android_device_brcm_rpi.AudioModule.Disconnecting.{
  has_client_config, erase_port, leave_routes, erase_key, clear_ports, remove_connected,
  disconnect_port, disconnect_external_device,
}
use android_device_brcm_rpi.AudioModule.Numbering.{
  PortsBelow, RoutesBelow, ConfigsBelow, KeysBelow, IsNumbered, leave_routes-join_routes,
  leave_routes-copied_routes, find_ids-insert_key, erase_key-insert_key, has_client_config-below,
}
use android_device_brcm_rpi.AudioModule.Filling.{
  AllStatic, AllRestored, AllRestored-filled, AllRestored-unfilled, find_port-added,
  find_port-filled, is_device-fill_port,
}

-- Nothing is left of a connected device.
abbrev pub IsLeft : State → Status × State × List Call → Type 0
IsLeft m (st, back, w) =
    (st ≡ ok)
    × (back.routes ≡ m.routes)
    × (back.connected_device_ports ≡ m.connected_device_ports)
    × (back.port_configs ≡ m.port_configs)
    × AllRestored m.ports back.ports

-- If a connection was successful, its disconnection is, and leaves nothing.
abbrev pub IsTakenBack : Host Call Answer → State → Status × State × Port × List Call → Type 0
IsTakenBack h m (st, after, p, w) = st ≡ ok → IsLeft m (disconnect_external_device h after p.id w)

module _ (h : Host Call Answer) where
  disconnect_port-IsLeft :
      (m after : State) (i : ℕ) (q : Port) (ids : List ℕ) (w : List Call)
      → is_device q.ext ≡ true
      → has_client_config i after.initial_configs after.port_configs ≡ false
      → IsLeft m (ok, remove_connected after i ids, (call h (connection_changed q false) w).1)
      → IsLeft m (disconnect_port h after i (some q) (some ids) w)
  unfolding disconnect_port
  disconnect_port-IsLeft m after i q ids w dev clean left =
      if-elim (IsLeft m) (not (is_device q.ext)) (λ e. ground (arith, e, dev))
        (λ e.
          if-elim (IsLeft m) (has_client_config i after.initial_configs after.port_configs)
            (λ c. ground (arith, c, clean)) (λ c. left))

  -- The module after the connection of a port with the id `i`.
  abbrev joined : State → ℕ → ℕ → ℕ → List Port → List ℕ → State
  joined m next template i ports noted = record m {
    next_port_id = next;
    ports = ports;
    connected_device_ports = insert_key i noted m.connected_device_ports;
    routes = join_routes template i m.routes ++ copied_routes template i m.routes;
  }

  joined-IsLeft :
      (m : State) (next template i : ℕ) (ports : List Port) (noted : List ℕ) (q : Port)
      (w : List Call)
      → i ≡ m.next_port_id
      → IsNumbered m
      → find_port i ports ≡ some q
      → is_device q.ext ≡ true
      → AllRestored m.ports (clear_ports noted m.connected_device_ports (erase_port i ports))
      → IsLeft m (disconnect_external_device h (joined m next template i ports noted) i w)
  unfolding disconnect_external_device remove_connected
  joined-IsLeft m next template i ports noted q w new (below, routes, configs, keys) found dev
        restored =
      let keys' = subst (λ n. KeysBelow n m.connected_device_ports) (sym new) keys in
      let same : erase_key i (insert_key i noted m.connected_device_ports)
          ≡ m.connected_device_ports =
        erase_key-insert_key i noted m.connected_device_ports keys' in
      let routes_left : leave_routes i
            (join_routes template i m.routes ++ copied_routes template i m.routes)
          ≡ m.routes =
        leave_routes-join_routes template i m.routes _
          (subst (λ n. RoutesBelow n m.routes) (sym new) routes)
        ∙ ap (λ rs. m.routes ++ rs) (leave_routes-copied_routes template i m.routes)
        ∙ append-nil m.routes in
      rw found (
        rw (find_ids-insert_key i noted m.connected_device_ports keys') (
          disconnect_port-IsLeft m (joined m next template i ports noted) i q noted w dev
            (has_client_config-below i m.initial_configs m.port_configs
              (subst (λ n. ConfigsBelow n m.port_configs) (sym new) configs))
            (
              refl,
              routes_left,
              same,
              refl,
              subst (λ c. AllRestored m.ports (clear_ports noted c (erase_port i ports))) (sym same)
                  restored,
            )))

  add_connected-IsLeft :
      (m : State) (next template : ℕ) (p : Port) (w : List Call)
      → p.id ≡ m.next_port_id
      → is_device p.ext ≡ true
      → IsNumbered m
      → AllStatic m.connected_device_ports m.ports
      → IsLeft m (
          disconnect_external_device h
            (add_connected (record m { next_port_id = next }) template p)
            p.id
            w)
  unfolding add_connected
  add_connected-IsLeft m next template p w new dev numbered static =
      let ids = routable_port_ids template m.routes in
      let all = m.ports ++ (p ∷ []) in
      let below = subst (λ n. PortsBelow n m.ports) (sym new) numbered.0 in
      elim (Bool-cases (not (has_dynamic_profiles_only p.profiles) && not (is_empty ids))) [
        | inl e ↦ rw e (
            joined-IsLeft m next template p.id (fill_ports ids p.profiles all)
              (filled_ids ids m.connected_device_ports all) (fill_port ids p.profiles p) w new
              numbered (find_port-filled p.id ids p.profiles m.ports p refl below)
              (is_device-fill_port ids p.profiles p ∙ dev)
              (AllRestored-filled p.id ids m.connected_device_ports p.profiles m.ports p refl below
                static))
        | inr e ↦ rw e (
            joined-IsLeft m next template p.id all [] p w new numbered
              (find_port-added p.id m.ports p refl below) dev
              (AllRestored-unfilled p.id m.connected_device_ports m.ports p refl below))
      ]

  connect_port-IsTakenBack :
      (m : State) (template : ℕ) (p : Port) (w : List Call)
      → is_device p.ext ≡ true
      → IsNumbered m
      → AllStatic m.connected_device_ports m.ports
      → IsTakenBack h m (connect_port h m template p w)
  unfolding connect_port
  connect_port-IsTakenBack m template p w dev numbered static =
      let (st, profiles, w2) = populate h m template p w in
      let placed = record p { id = m.next_port_id; profiles = profiles } in
      let (told, w3) = call h (connection_changed placed true) w2 in
      if-elim (IsTakenBack h m) (not (is_ok st))
        (λ e fine. cc (sym e ∙ ap (λ s. not (is_ok s)) fine))
        (λ e.
          if-elim (IsTakenBack h m)
            (has_dynamic_profiles_only profiles
              && has_dynamic_port (routable_port_ids template m.routes) m.ports)
            (λ e fine. cc)
            (λ e fine.
              add_connected-IsLeft m (m.next_port_id + 1) template placed w3 refl dev numbered
                static))

  connect_device-IsTakenBack :
      (m : State) (p : Port) (given : Option Device) (o : Option Device) (w : List Call)
      → IsNumbered m
      → AllStatic m.connected_device_ports m.ports
      → IsTakenBack h m (connect_device h m p given o w)
  connect_device-IsTakenBack m p given none w numbered static = λ fine. cc
  connect_device-IsTakenBack m p given (some d) w numbered static =
      let there = record d { address = address_of given } in
      if-elim (IsTakenBack h m) (d.connection == 0) (λ e fine. cc)
        (λ e.
          if-elim (IsTakenBack h m) (is_found (find_ids p.id m.connected_device_ports))
            (λ e fine. cc)
            (λ e.
              if-elim (IsTakenBack h m) (has_no_device given) (λ e fine. cc)
                (λ e.
                  if-elim (IsTakenBack h m)
                    (is_device_connected there m.ports m.connected_device_ports) (λ e fine. cc)
                    (λ e.
                      connect_port-IsTakenBack m p.id (record p { ext = device there }) w refl
                        numbered static))))

  connect_template-IsTakenBack :
      (m : State) (requested : Port) (o : Option Port) (given : Option Device) (w : List Call)
      → IsNumbered m
      → AllStatic m.connected_device_ports m.ports
      → IsTakenBack h m (connect_template h m requested o given w)
  connect_template-IsTakenBack m requested none given w numbered static = λ fine. cc
  connect_template-IsTakenBack m requested (some p) given w numbered static =
      connect_device-IsTakenBack m p given (device_of p.ext) w numbered static

  -- The disconnection of an external device takes its connection back: where the ids in use are below
  -- the next one, and no port that a connected one has populated has dynamic profiles only, a device
  -- that was connected can be disconnected at once, whatever the module answers about its profiles. The
  -- routes, the port configs and the connected ports are then the same as before, and so are the ports,
  -- but for dynamic profiles that are now an empty list.
  pub connect_external_device-IsTakenBack :
      (m : State) (requested : Port) (w : List Call)
      → IsNumbered m
      → AllStatic m.connected_device_ports m.ports
      → IsTakenBack h m (connect_external_device h m requested w)
  unfolding connect_external_device
  connect_external_device-IsTakenBack m requested w numbered static =
      connect_template-IsTakenBack m requested (find_port requested.id m.ports)
        (device_of requested.ext) w numbered static
