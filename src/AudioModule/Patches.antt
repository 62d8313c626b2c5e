-- ===== src/AudioModule/Patches.antt =====
-- audio/Module.cpp: registerPatch, cleanUpPatch, setAudioPatch, resetAudioPatch.
use android_device_brcm_rpi.Common.{
  ℕ, ◌+◌, Bool, true, false, not, ◌&&◌, ◌||◌, ◌==◌, ltb, Option, none, some, List, [], ◌∷◌, ◌++◌,
  if◌then◌else◌, Host, call, length, replicate,
}
use android_device_brcm_rpi.AudioModule.Types.{
  PortConfig, Route, Patch, empty_patch, State, Status, ok, illegal_argument, illegal_state,
  aborted, undefined, refused, Call, check_endpoints, nominal_latency, buffer_size, Answer,
}
use android_device_brcm_rpi.AudioModule.Lookup.{
  elem, all_unique, is_empty, find_config, find_patch, replace_patch, erase_patch, select_configs,
  all_found, count, erase_value, is_mix, status_of, value_of, is_ok,
}
use android_device_brcm_rpi.AudioModule.Connections.{update_streams_connected_state}

abbrev pub register_id : ℕ → ℕ → Option PortConfig → List (ℕ × ℕ) → List (ℕ × ℕ)
register_id i patch none m = m
register_id i patch (some c) m =
    if c.port_id == i then (i, patch) ∷ m else (i, patch) ∷ (c.port_id, patch) ∷ m

-- `do_insert`. The order of a multimap is left out: only its counts are read.
unfoldable pub register_ids : List PortConfig → ℕ → List ℕ → List (ℕ × ℕ) → List (ℕ × ℕ)
register_ids configs patch [] m = m
register_ids configs patch (i ∷ is) m =
    register_id i patch (find_config i configs) (register_ids configs patch is m)

unfoldable pub register_patch : State → Patch → State
unfolding register_ids
register_patch m p = record m {
  registered =
      register_ids m.port_configs p.id p.sink_port_config_ids
        (register_ids m.port_configs p.id p.source_port_config_ids m.registered);
}

unfoldable pub clean_up_patch : ℕ → State → State
clean_up_patch i m = record m { registered = erase_value i m.registered }

-- `allowedSinkPorts`: for each sink port whether a route to it that is not exclusive was seen.
abbrev pub allowed : ℕ → List (ℕ × Bool) → Option Bool
allowed i [] = none
allowed i ((j, shared) ∷ m) = if j == i then some shared else allowed i m

abbrev pub allow : ℕ → Bool → List (ℕ × Bool) → List (ℕ × Bool)
allow i shared [] = (i, shared) ∷ []
allow i shared ((j, old) ∷ m) =
    if j == i then (j, old || shared) ∷ m else (j, old) ∷ allow i shared m

abbrev pub allow_routes : ℕ → List Route → List (ℕ × Bool) → List (ℕ × Bool)
allow_routes source [] m = m
allow_routes source (r ∷ rs) m =
    if elem source r.source_port_ids
    then allow_routes source rs (allow r.sink_port_id (not r.is_exclusive) m)
    else allow_routes source rs m

unfoldable pub allowed_sink_ports : List PortConfig → List Route → List (ℕ × Bool) → List (ℕ × Bool)
allowed_sink_ports [] routes m = m
allowed_sink_ports (c ∷ cs) routes m =
    allowed_sink_ports cs routes (allow_routes c.port_id routes m)

abbrev pub is_allowed : Option Bool → Bool
is_allowed none = false
is_allowed (some shared) = true

unfoldable pub has_routes : List PortConfig → List (ℕ × Bool) → Bool
has_routes [] m = true
has_routes (c ∷ cs) m = is_allowed (allowed c.port_id m) && has_routes cs m

-- The loop over all of `allowedSinkPorts`.
unfoldable pub is_exclusive_used : List (ℕ × Bool) → List (ℕ × ℕ) → Bool
is_exclusive_used [] registered = false
is_exclusive_used ((i, shared) ∷ m) registered =
    (not shared && ltb 0 (count i registered)) || is_exclusive_used m registered

-- The rate of a config that has one: the source calls `value()`, which ends the process where a
-- member is missing, and the functions below test for that before they read.
abbrev pub rate_of : PortConfig → ℕ
rate_of c = elim c.sample_rate [ none ↦ 0 | some r ↦ r ]

-- The first of the configs with the highest rate.
unfoldable pub max_rate : PortConfig → List PortConfig → PortConfig
max_rate best [] = best
max_rate best (c ∷ cs) = if ltb (rate_of best) (rate_of c) then max_rate c cs else max_rate best cs

abbrev pub is_mix_list : List PortConfig → Bool
is_mix_list [] = false
is_mix_list (c ∷ cs) = is_mix c.ext

abbrev pub is_set : Option ℕ → Bool
is_set none = false
is_set (some n) = true

abbrev pub all_rated : List PortConfig → Bool
all_rated [] = true
all_rated (c ∷ cs) = is_set c.sample_rate && all_rated cs

-- `none` where there is no config, or one without a rate.
abbrev pub highest : List PortConfig → Option PortConfig
highest [] = none
highest (c ∷ cs) = if all_rated (c ∷ cs) then some (max_rate c cs) else none

-- The members of which `calculateBufferSizeFrames` is given the values.
abbrev pub is_sizable : PortConfig → Bool
is_sizable c =
    is_set c.format && (is_set c.sample_rate && elim c.flags [ none ↦ false | some f ↦ true ])

abbrev pub mix_port_configs : List PortConfig → List PortConfig → List PortConfig
mix_port_configs sources sinks = if is_mix_list sources then sources else sinks

-- The checks before anything is changed, as far as `checkAudioPatchEndpointsMatch`.
unfoldable pub check_patch : State → Patch → Status
unfolding allowed_sink_ports has_routes
check_patch m p =
    let sources = select_configs m.port_configs p.source_port_config_ids in
    let sinks = select_configs m.port_configs p.sink_port_config_ids in
    if is_empty p.source_port_config_ids
    then illegal_argument
    else if not (all_unique p.source_port_config_ids)
    then illegal_argument
    else if is_empty p.sink_port_config_ids
    then illegal_argument
    else if not (all_unique p.sink_port_config_ids)
    then illegal_argument
    else if not (all_found m.port_configs p.source_port_config_ids)
    then illegal_argument
    else if not (all_found m.port_configs p.sink_port_config_ids)
    then illegal_argument
    else if not (has_routes sinks (allowed_sink_ports sources m.routes []))
    then illegal_argument
    else ok

-- The patch with its latencies and its buffer size; `none` where there is no config to ask for. A
-- missing member ends the process.
abbrev pub with_buffers :
    Host Call Answer → Patch → Option PortConfig → List Call → Status × Patch × List Call
with_buffers h p none w = (aborted, p, w)
with_buffers h p (some c) w =
    let (latency, w1) = call h (nominal_latency c.id) w in
    let (size, w) = call h (buffer_size c.format (value_of latency) (rate_of c)) w1 in
    let done_patch = record p {
      minimum_stream_buffer_size_frames = value_of size;
      latencies_ms = replicate (length p.sink_port_config_ids) (value_of latency);
    } in
    if not (is_sizable c)
    then (aborted, p, w1)
    else (if is_ok (status_of size) then ok else illegal_state, done_patch, w)

-- After `push_back` the iterator `existing` is invalid: that it is compared with `end()` to undo a
-- failure is undefined. (Where the comparison fails an empty patch is written over the new one, or
-- over memory that is free.) So the state that goes with the status `undefined` has no meaning, and a
-- run of the module ends there.
abbrev pub undo_new : Status → Status
undo_new ok = ok
undo_new illegal_argument = undefined
undo_new illegal_state = undefined
undo_new aborted = aborted
undo_new undefined = undefined
undo_new (refused n) = undefined

-- The end of `setAudioPatch`: `m` is the module with the patch in its list, `before` the one whose list
-- a failure puts back, `old` the patch that it replaces.
unfoldable pub apply_patch :
    Host Call Answer → State → State → Patch → Patch → List Call → Status × State × List Call
unfolding register_patch
apply_patch h before m old new w =
    let registered = register_patch m new in
    let (st, w) = update_streams_connected_state h registered old new w in
    if is_ok st then (ok, registered, w) else (st, record m { patches = before.patches }, w)

-- A patch with id 0 is a new one. The `mPatches` that a failing update puts back is the one without
-- the old patch: `patchesBackup` is taken again after `cleanUpPatch`.
abbrev pub place_patch :
    Host Call Answer → State → Patch → Option Patch → List Call → Status × State × Patch × List Call
place_patch h m new none w =
    let placed = record new { id = m.next_patch_id } in
    let m' = record m {
      next_patch_id = m.next_patch_id + 1;
      patches = m.patches ++ (placed ∷ []);
    } in
    let (st, m'', w) = apply_patch h m' m' empty_patch placed w in (undo_new st, m'', placed, w)
place_patch h m new (some old) w =
    let m' = record m { patches = replace_patch new.id new m.patches } in
    let (st, m'', w) = apply_patch h m m' old new w in (st, m'', new, w)

abbrev pub cleaned : State → Option Patch → State
cleaned m none = m
cleaned m (some old) = clean_up_patch old.id m

abbrev pub is_missing : ℕ → Option Patch → Bool
is_missing i none = not (i == 0)
is_missing i (some old) = false

-- The patch that is updated: `in_requested.id` is 0 for a new one.
abbrev pub existing_patch : State → ℕ → Option Patch
existing_patch m i = if i == 0 then none else find_patch i m.patches

unfoldable pub set_audio_patch :
    Host Call Answer → State → Patch → List Call → Status × State × Patch × List Call
unfolding check_patch is_exclusive_used max_rate apply_patch clean_up_patch
set_audio_patch h m p w =
    let checked = check_patch m p in
    let sources = select_configs m.port_configs p.source_port_config_ids in
    let sinks = select_configs m.port_configs p.sink_port_config_ids in
    let (a, w1) = call h (check_endpoints p.source_port_config_ids p.sink_port_config_ids) w in
    let existing = existing_patch m p.id in
    let m1 = cleaned m existing in
    let (sized, p1, w2) = with_buffers h p (highest (mix_port_configs sources sinks)) w1 in
    let placed = place_patch h m1 p1 existing w2 in
    if not (is_ok checked)
    then (checked, m, p, w)
    else if not (is_ok (status_of a))
    then (status_of a, m, p, w1)
    else if is_missing p.id existing
    then (illegal_argument, m, p, w1)
    else if is_exclusive_used (allowed_sink_ports sources m.routes []) m1.registered
    then (illegal_state, m, p, w1)
    else if not (is_ok sized)
    then (sized, m, p1, w2)
    else placed

abbrev pub reset_found :
    Host Call Answer → State → Option Patch → List Call → Status × State × List Call
reset_found h m none w = (illegal_argument, m, w)
reset_found h m (some p) w =
    let m1 = clean_up_patch p.id m in
    let (st, w) = update_streams_connected_state h m1 p empty_patch w in
    if is_ok st then (ok, record m1 { patches = erase_patch p.id m1.patches }, w) else (st, m, w)

unfoldable pub reset_audio_patch :
    Host Call Answer → State → ℕ → List Call → Status × State × List Call
unfolding clean_up_patch
reset_audio_patch h m i w = reset_found h m (find_patch i m.patches) w
