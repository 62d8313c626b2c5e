-- ===== src/A2b/Tests.antt =====
-- Runs of audio/a2b and the theorems at concrete inputs.
use android_device_brcm_rpi.Common.{
  ℕ, ◌+◌, ◌≡◌, refl, Bool, true, false, some, List, [], ◌∷◌, Host, arith, codes, eq_bytes, ℤ, pos,
  negsuc, drop, min, ◌++◌, if◌then◌else◌, replicate,
}
use android_device_brcm_rpi.A2b.Profile.{
  main, peripheral, Register, Operation, delay_op, write_op, verify_op, poll_op, Phase, init, mute,
  unmute, shutdown, health, Profile, Call, bus_write, bus_read, bus_delay, now_ms, open_bus,
  get_profile_property, set_profile_property, lstat_override, open_profile, read_profile, Answer,
  done, absent, text, opened, parsed,
}
use android_device_brcm_rpi.A2b.Execute.{poll, poll_loop, execute, run_operation, verify_nodes}
use android_device_brcm_rpi.A2b.Lifecycle.{run, verify_profile}
use android_device_brcm_rpi.A2b.Polling.{Clock, poll-total, Ended, poll-Ended}
use android_device_brcm_rpi.A2b.Routing.{cleared, execute-cleared}
use android_device_brcm_rpi.A2b.Phases.{Ran, execute-Ran}
use android_device_brcm_rpi.A2b.Controller.{new_state}
use android_device_brcm_rpi.A2b.Commands.{
  resume_request, unmute_request, Event, acquired, requested, health_checked, clock_lost,
  run_events,
}
use android_device_brcm_rpi.A2b.Audible.{run_events-is_sound}
use android_device_brcm_rpi.A2b.Kept.{is_sound}
use android_device_brcm_rpi.A2b.Output.{Queue, new_queue, Mixer, push, period_samples}
use android_device_brcm_rpi.A2b.Rounds.{take_period, round}
use android_device_brcm_rpi.A2b.Queueing.{content, scale_all, push-content, take_period-content}
use android_device_brcm_rpi.A2b.Mixing.{clamp_all, mixture, round-mixture}
use android_device_brcm_rpi.A2b.Unmuting.{Unmuted, do_unmute_lem}
use android_device_brcm_rpi.A2b.Commands.{do_unmute}
use android_device_brcm_rpi.A2b.Controller.{State}
use android_device_brcm_rpi.A2b.Capacity.{
  AllFit, enqueued, played, cleared_queue, run_all, run_all-AllFit,
}

abbrev elapsed : List Call → ℕ
elapsed [] = 0
elapsed (bus_delay s ∷ w) = elapsed w + s
elapsed (bus_write a r v ∷ w) = elapsed w
elapsed (bus_read a r ∷ w) = elapsed w
elapsed (now_ms ∷ w) = elapsed w
elapsed (open_bus b ∷ w) = elapsed w
elapsed (get_profile_property ∷ w) = elapsed w
elapsed (set_profile_property p ∷ w) = elapsed w
elapsed (lstat_override p ∷ w) = elapsed w
elapsed (open_profile b p ∷ w) = elapsed w
elapsed (read_profile ∷ w) = elapsed w

abbrev amplifier : Register
amplifier = record { target = peripheral 0 27; reg = 3; value = 1; mask = 1; timeout_ms = 20 }

abbrev reset : Register
reset = record { target = main; reg = 18; value = 4; mask = 4; timeout_ms = 0 }

abbrev operations : Phase → List Operation
operations init = write_op reset ∷ delay_op 5 ∷ []
operations mute = write_op amplifier ∷ verify_op amplifier ∷ write_op reset ∷ []
operations unmute = poll_op amplifier ∷ []
operations shutdown = write_op amplifier ∷ []
operations health = verify_op amplifier ∷ []

abbrev board : Profile
board = record {
  id = codes "board";
  i2c_bus = 1;
  main_address = 104;
  nodes = record { vendor = 41; product = 41 } ∷ [];
  start_muted = false;
  sequences = operations;
}

-- A board that answers, with a clock that its delays move.
abbrev answers : Host Call Answer
answers w (bus_write a r v) = done 0
answers w (bus_read a r) = done 41
answers w (bus_delay s) = done 0
answers w now_ms = done (elapsed w)
answers w (open_bus b) = done 0
answers w get_profile_property = text (codes "board")
answers w (set_profile_property p) = done 0
answers w (lstat_override p) = absent
answers w (open_profile b p) =
    opened (record { is_regular = true; uid = 0; others_write = false; size = 900 })
answers w read_profile = parsed board

answers-Clock : Clock answers
answers-Clock = record { steady = λ w a r. omega arith; delayed = λ w a r s. omega arith }

first_read : poll answers 105 amplifier [] ≡ some (true, bus_read 105 3 ∷ now_ms ∷ [])
unfolding poll poll_loop
first_read = refl

poll-total_example : (q : Bool × List Call) × (poll answers 105 amplifier [] ≡ some q)
poll-total_example = poll-total answers 105 amplifier [] answers-Clock

poll-Ended_example : Ended answers 105 amplifier 20 (true, bus_read 105 3 ∷ now_ms ∷ [])
poll-Ended_example =
    poll-Ended answers 105 amplifier [] (true, bus_read 105 3 ∷ now_ms ∷ []) first_read

execute-cleared_example : cleared 104 (execute answers board mute []).1 ≡ true
execute-cleared_example = execute-cleared answers board mute [] (refl, (refl, (refl, tt))) refl

execute-Ran_example : Ran answers 104 true (operations mute) [] (execute answers board mute [])
execute-Ran_example = execute-Ran answers board mute []

abbrev events : List Event
events =
    acquired
    ∷ requested resume_request
    ∷ requested unmute_request
    ∷ clock_lost
    ∷ health_checked
    ∷ []

run_events-is_sound_example : is_sound (run_events answers events new_state []).0 ≡ true
run_events-is_sound_example = run_events-is_sound answers events []

-- The audio of a board that starts unmuted.
acquired_audible : (run_events answers (acquired ∷ []) new_state []).0.allow_audio ≡ true
unfolding run_events eq_bytes run execute run_operation verify_profile verify_nodes poll_loop
acquired_audible = refl

-- A queue at the end of its ring with two samples in it.
abbrev wrapping : Queue
wrapping = record new_queue { read = 8191; count = 2; started = true }

abbrev two_samples : List ℤ
two_samples = pos 7 ∷ negsuc 2 ∷ []

push-content_example :
    content (push wrapping two_samples) ≡ content wrapping ++ scale_all two_samples
push-content_example = push-content wrapping two_samples (omega arith)

take_period-content_example :
    content (take_period true wrapping) ≡ drop (min 2 period_samples) (content wrapping)
take_period-content_example = take_period-content true wrapping

abbrev one_client : Mixer
one_client = record {
  statistics = record {
    producer_waits = 0;
    underruns = 0;
    starved_frames = 0;
    canceled_frames = 0;
  };
  clients = (1, wrapping) ∷ [];
  next_client = 2;
  running = true;
  healthy = true;
  frames_written = 0;
  write_errors = 0;
}

round-mixture_example : (round false true one_client).0 ≡ (
    if false
    then clamp_all (mixture one_client.clients (replicate period_samples (pos 0)))
    else replicate period_samples (pos 0))
round-mixture_example = round-mixture false true one_client

abbrev ready_state : State
ready_state = record new_state {
  has_transport = true;
  profile = some board;
  clock_started = true;
  ready = true;
  muted = some true;
}

do_unmute_example : Unmuted answers board ready_state [] (do_unmute answers ready_state [])
do_unmute_example = do_unmute_lem answers board ready_state [] refl refl refl refl refl

run_all-AllFit_example :
    AllFit
      (run_all
        (enqueued 1 0 two_samples ∷ played true true ∷ cleared_queue 1 ∷ [])
        one_client).clients
run_all-AllFit_example =
    run_all-AllFit (enqueued 1 0 two_samples ∷ played true true ∷ cleared_queue 1 ∷ []) one_client
      (omega arith, tt)
