-- ===== src/A2b/Commands.antt =====
-- audio/a2b/A2bController.cpp and .h: acquire, release, command, checkHealth, clockFailed,
-- allowAudio.
use android_device_brcm_rpi.Common.{
  ℕ, ◌+◌, ◌-◌, Bool, true, false, not, ◌&&◌, ◌||◌, codes, Option, none, some, List, [], ◌∷◌,
  if◌then◌else◌, Host, call,
}
use android_device_brcm_rpi.A2b.Profile.{
  mute, unmute, health, Profile, Call, get_profile_property, set_profile_property, Answer, done,
  failed, absent, text, opened, parsed, succeeds,
}
use android_device_brcm_rpi.A2b.Controller.{Fault, pcm_failure, not_persisted, needs_resume, State}
use android_device_brcm_rpi.A2b.Loading.{Loaded, load}
use android_device_brcm_rpi.A2b.Lifecycle.{run, stop, initialize}

-- The default of the property is the profile "tas5720a_1node".
abbrev pub default_id : List ℕ
default_id = codes "tas5720a_1node"

abbrev pub property_or_default : Answer → List ℕ
property_or_default (text t) = t
property_or_default (done n) = default_id
property_or_default failed = default_id
property_or_default absent = default_id
property_or_default (opened s) = default_id
property_or_default (parsed p) = default_id

-- The error is left alone by a success.
abbrev pub keep_error : Option Fault → Option Fault → Option Fault
keep_error old none = old
keep_error old (some f) = some f

abbrev pub failed_to : Option Fault → Bool
failed_to none = false
failed_to (some f) = true

-- `load(id, &mProfile)`.
abbrev pub loaded_into : State → Loaded → State
loaded_into s (none, error) = (record s { error = keep_error s.error error })
loaded_into s (some p, error) = (record s { profile = some p; error = keep_error s.error error })

unfoldable pub acquire : Host Call Answer → State → List Call → State × List Call
unfolding load initialize
acquire h s w =
    let s = (record s { users = s.users + 1 }) in
    if s.clock_started
    then (s, w)
    else (let (a, w) = call h get_profile_property w in
        let (loaded, w) = load h (property_or_default a) w in
        let s = loaded_into (record s { clock_started = true }) loaded in
        let (_, s', w') = initialize h s w in
        if failed_to loaded.1 then (s, w) else if s.quiesced then (s, w) else (s', w'))

unfoldable pub release : State → State
release s = (record s { users = s.users - 1 })

pub data Request : Type 0 where
  status_request : Request
  reload_request : List ℕ → Request
  mute_request unmute_request quiesce_request resume_request unknown_request : Request

-- "status" shows the profile, the users, ready, audible, quiesced and the error; the PCM's part of
-- the text is left out. `rolled_back` is the reply of a reload that went back.
pub data Reply : Type 0 where
  status_reply : Option Profile → ℕ → Bool → Bool → Bool → Option Fault → Reply
  ok_reply needs_resume_reply unknown_reply : Reply
  error_reply : Option Fault → Reply
  rolled_back : Option Fault → Bool → Reply

abbrev pub reply_of : Bool → State → Reply
reply_of true s = ok_reply
reply_of false s = error_reply s.error

-- The part of "reload" with a candidate that was loaded.
unfoldable pub switch_profile :
    Host Call Answer → Profile → State → List Call → Reply × State × List Call
unfolding stop initialize
switch_profile h candidate s w =
    let (stopped, s1, w1) = stop h s w in
    let (s2, w2) : State × List Call = if s.clock_started then (s1, w1) else (s, w) in
    let s3 = (record s2 { has_transport = false; profile = some candidate; muted = some true }) in
    let (up, s4, w4) = initialize h s3 w2 in
    let (_, s5, w5) = initialize h (record s4 { profile = s2.profile }) w4 in
    let tried = s.clock_started && not s.quiesced in
    let (s6, w6) : State × List Call = if tried then (s4, w4) else (s3, w2) in
    let (a, w7) = call h (set_profile_property candidate.id) w6 in
    if s.clock_started && not stopped
    then (error_reply s1.error, s1, w1)
    else if tried && not up
    then (rolled_back s4.error s5.ready, s5, w5)
    else if succeeds a
    then (ok_reply, s6, w7)
    else (error_reply (some not_persisted), (record s6 { error = some not_persisted }), w7)

abbrev pub reload_loaded : Host Call Answer → State → Loaded → List Call → Reply × State × List Call
reload_loaded h s (none, error) w =
    (error_reply error, (record s { error = keep_error s.error error }), w)
reload_loaded h s (some p, some error) w =
    (error_reply (some error), (record s { error = some error }), w)
reload_loaded h s (some p, none) w = switch_profile h p s w

unfoldable pub reload : Host Call Answer → List ℕ → State → List Call → Reply × State × List Call
unfolding load switch_profile
reload h id s w = let (loaded, w) = load h id w in reload_loaded h s loaded w

unfoldable pub do_mute : Host Call Answer → State → List Call → Reply × State × List Call
do_mute h s w =
    let s = (record s { allow_audio = false; muted = some true }) in
    let (ok, s', w') = run h mute s w in
    if s.clock_started then (reply_of ok s', s', w') else (ok_reply, s, w)

-- `!mClockFailed && run("health") && run("unmute")`.
unfoldable pub try_unmute : Host Call Answer → State → List Call → Bool × State × List Call
try_unmute h s w =
    let (healthy, s1, w1) = run h health s w in
    let (unmuted, s2, w2) = run h unmute s1 w1 in
    if s.clock_failed
    then (false, s, w)
    else if not healthy
    then (false, s1, w1)
    else (unmuted, s2, w2)

unfoldable pub do_unmute : Host Call Answer → State → List Call → Reply × State × List Call
unfolding try_unmute stop
do_unmute h s w =
    let (ok, s1, w1) = try_unmute h (record s { muted = some false }) w in
    let (_, s2, w2) = stop h s1 w1 in
    if s.quiesced || (s.clock_started && not s.ready)
    then (needs_resume_reply, s, w)
    else if not s.clock_started
    then (ok_reply, (record s { muted = some false }), w)
    else if ok
    then (ok_reply, (record s1 { allow_audio = true }), w1)
    else (error_reply s2.error, (record s2 { muted = some true; allow_audio = false }), w2)

unfoldable pub do_quiesce : Host Call Answer → State → List Call → Reply × State × List Call
unfolding stop
do_quiesce h s w =
    let s = (record s { muted = some true; quiesced = true }) in
    let (ok, s', w') = stop h s w in
    if s.clock_started then (reply_of ok s', s', w') else (ok_reply, s, w)

unfoldable pub do_resume : Host Call Answer → State → List Call → Reply × State × List Call
unfolding stop initialize
do_resume h s w =
    let s = (record s { quiesced = false; muted = some true; clock_failed = false }) in
    let (_, s1, w1) = stop h s w in
    let (ok, s2, w2) = initialize h s1 w1 in
    if s.clock_started then (reply_of ok s2, s2, w2) else (ok_reply, s, w)

-- `allowAudio`.
abbrev pub audible : State → Bool
audible s = s.allow_audio && not s.clock_failed

unfoldable pub command : Host Call Answer → Request → State → List Call → Reply × State × List Call
unfolding reload do_mute do_unmute do_quiesce do_resume
command h status_request s w =
    (status_reply s.profile s.users s.ready s.allow_audio s.quiesced s.error, s, w)
command h (reload_request id) s w = reload h id s w
command h mute_request s w = do_mute h s w
command h unmute_request s w = do_unmute h s w
command h quiesce_request s w = do_quiesce h s w
command h resume_request s w = do_resume h s w
command h unknown_request s w = (unknown_reply, s, w)

abbrev pub wrapped : Option Fault → Option Fault
wrapped none = none
wrapped (some f) = some (needs_resume f)

unfoldable pub check_health : Host Call Answer → State → List Call → State × List Call
unfolding stop
check_health h s w =
    let (healthy, s1, w1) = run h health s w in
    let (s2, w2) : State × List Call = if s.clock_failed then (s, w) else (s1, w1) in
    let error = if s.clock_failed then some pcm_failure else s1.error in
    let (_, s3, w3) = stop h (record s2 { muted = some true }) w2 in
    if not s.clock_started || (not s.ready || s.quiesced)
    then (s, w)
    else if s.clock_failed || not healthy
    then (record s3 { error = wrapped error }, w3)
    else (s1, w1)

-- `clockFailed`, from the thread of the PCM: it takes no lock, so that it may also run within another
-- function of the controller. Here it is an event between two of them. Whenever it runs, `allowAudio`
-- (`audible`) is false from then on until a resume clears `clock_failed`.
unfoldable pub fail_clock : State → State
fail_clock s = (record s { clock_failed = true; allow_audio = false })

-- The calls that the other threads make of the controller.
pub data Event : Type 0 where
  acquired released : Event
  requested : Request → Event
  health_checked clock_lost : Event

unfoldable pub step : Host Call Answer → Event → State → List Call → State × List Call
unfolding acquire release command check_health fail_clock
step h acquired s w = acquire h s w
step h released s w = (release s, w)
step h (requested r) s w = let (_, s, w) = command h r s w in (s, w)
step h health_checked s w = check_health h s w
step h clock_lost s w = (fail_clock s, w)

unfoldable pub run_events : Host Call Answer → List Event → State → List Call → State × List Call
unfolding step
run_events h [] s w = (s, w)
run_events h (e ∷ es) s w = let (s, w) = step h e s w in run_events h es s w
