-- ===== src/A2b/Lifecycle.antt =====
-- audio/a2b/A2bController.cpp: run, stop, initialize.
use android_device_brcm_rpi.Common.{
  ℕ, Bool, true, false, not, ◌&&◌, Option, none, some, List, if◌then◌else◌, Host, call,
}
use android_device_brcm_rpi.A2b.Profile.{
  Phase, init, mute, unmute, shutdown, health, Profile, Call, open_bus, Answer,
}
use android_device_brcm_rpi.A2b.Execute.{execute, verify_nodes}
use android_device_brcm_rpi.A2b.Controller.{
  Fault, operation_failed, bad_node, no_profile, pcm_failure, State,
}

-- `run` on the profile that is there.
abbrev pub with_error : Phase → State → Option ℕ × List Call → Bool × State × List Call
with_error phase s (none, w) = (true, s, w)
with_error phase s (some k, w) = (false, (record s { error = some (operation_failed phase k) }), w)

abbrev pub run_profile :
    Host Call Answer → Phase → State → Option Profile → List Call → Bool × State × List Call
run_profile h phase s none w = (true, s, w)
run_profile h phase s (some p) w = with_error phase s (execute h p phase w)

-- A transport is made only with a profile, and the profile of the constructor has no operations.
unfoldable pub run : Host Call Answer → Phase → State → List Call → Bool × State × List Call
run h phase s w = if not s.has_transport then (true, s, w) else run_profile h phase s s.profile w

unfoldable pub stop : Host Call Answer → State → List Call → Bool × State × List Call
stop h s w =
    let s = (record s { allow_audio = false; ready = false }) in
    let (is_muted, s, w) = run h mute s w in
    let (stopped, s, w) = run h shutdown s w in (is_muted && stopped, s, w)

-- `verifyNodes`, whose error is set when a node or the restoring fails.
unfoldable pub verify_profile :
    Host Call Answer → State → Profile → List Call → Bool × State × List Call
verify_profile h s p w =
    let (ok, w) = verify_nodes h p w in
    if ok then (true, s, w) else (false, (record s { error = some bad_node }), w)

-- The chain of the four steps of `initialize`, each after the success of the one before.
unfoldable pub bring_up : Host Call Answer → Profile → State → List Call → Bool × State × List Call
bring_up h p s w =
    let (ok1, s1, w1) = run h init s w in
    let (ok2, s2, w2) = verify_profile h s1 p w1 in
    let (ok3, s3, w3) = run h health s2 w2 in
    let (ok4, s4, w4) = run h mute s3 w3 in
    if not ok1
    then (false, s1, w1)
    else if not ok2
    then (false, s2, w2)
    else if not ok3
    then (false, s3, w3)
    else (ok4, s4, w4)

-- `stop` on the way out of a failure: the error is the one given.
unfoldable pub give_up :
    Host Call Answer → Option Fault → State → List Call → Bool × State × List Call
unfolding stop
give_up h error s w = let (ok, s, w) = stop h s w in (false, (record s { error = error }), w)

-- `mMuted.value_or(start_muted)`.
abbrev pub starts_muted : Option Bool → Profile → Bool
starts_muted none p = p.start_muted
starts_muted (some b) p = b

-- The end of `initialize`, once the profile is up.
unfoldable pub finish : Host Call Answer → Profile → State → List Call → Bool × State × List Call
unfolding stop give_up
finish h p s w =
    let s = (record s { ready = true }) in
    let (unmuted, s', w') = run h unmute s w in
    let (_, failed_state, failed_calls) = stop h s' w' in
    if s.clock_failed
    then give_up h (some pcm_failure) s w
    else if starts_muted s.muted p
    then (true, (record s { error = none }), w)
    else if unmuted
    then (true, (record s' { allow_audio = true; error = none }), w')
    else (false, failed_state, failed_calls)

abbrev pub initialize_profile :
    Host Call Answer → State → Option Profile → List Call → Bool × State × List Call
initialize_profile h s none w = (false, (record s { error = some no_profile }), w)
initialize_profile h s (some p) w =
    let (_, w) = call h (open_bus p.i2c_bus) w in
    let (up, s, w) = bring_up h p (record s { has_transport = true }) w in
    if up then finish h p s w else give_up h s.error s w

unfoldable pub initialize : Host Call Answer → State → List Call → Bool × State × List Call
unfolding bring_up finish give_up
initialize h s w =
    initialize_profile h (record s { allow_audio = false; ready = false }) s.profile w
