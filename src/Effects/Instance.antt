-- ===== src/Effects/Instance.antt =====
-- audio/EffectImpl.cpp, audio/EffectThread.cpp and their headers in audio/include/effect-impl.
use android_device_brcm_rpi.Common.{
  ℕ, Bool, true, false, not, ◌&&◌, ◌||◌, ◌==◌, List, ◌∷◌, if◌then◌else◌, Host, call, min,
}

-- The states of an effect in its AIDL interface, and the commands of a client.
pub data EffectState : Type 0 where
  init idle processing draining : EffectState

pub data Command : Type 0 where
  start stop reset unknown_command : Command

-- The exceptions that are returned; `other` is one that a method of an effect returns.
pub data Outcome : Type 0 where
  ok illegal_argument illegal_state null_pointer unsupported : Outcome
  other : ℕ → Outcome

-- `mThread.joinable()`, `mStop`, `mExit` and `mDraining`.
pub record Thread : Type 0 where
  pub is_joinable : Bool
  pub is_stopped : Bool
  pub is_exiting : Bool
  pub is_draining : Bool

-- `mState`, whether there is an `mImplContext` and an `mEventFlag`, and the thread.
pub record Effect : Type 0 where
  pub state : EffectState
  pub has_context : Bool
  pub has_flag : Bool
  pub thread : Thread

-- The methods that an effect overrides, the event flag and the message queues.
pub data Call : Type 0 where
  create_context get_version set_specific enable disable reset_context reset_buffer : Call
  wake wait_flag duplicate input_available output_available : Call
  read_samples process_samples write_samples write_status : ℕ → Call

pub data Answer : Type 0 where
  done : ℕ → Answer
  failed : ℕ → Answer

abbrev pub new_effect : Effect
new_effect = record {
  state = init;
  has_context = false;
  has_flag = false;
  thread = record {
    is_joinable = false;
    is_stopped = true;
    is_exiting = false;
    is_draining = false;
  };
}

abbrev pub succeeded : Answer → Bool
succeeded (done n) = true
succeeded (failed n) = false

abbrev pub outcome_of : Answer → Outcome
outcome_of (done n) = ok
outcome_of (failed n) = other n

abbrev pub number_of : Answer → ℕ
number_of (done n) = n
number_of (failed n) = 0

abbrev pub is_ok : Outcome → Bool
is_ok ok = true
is_ok illegal_argument = false
is_ok illegal_state = false
is_ok null_pointer = false
is_ok unsupported = false
is_ok (other n) = false

abbrev pub is_init : EffectState → Bool
is_init init = true
is_init idle = false
is_init processing = false
is_init draining = false

abbrev pub is_idle : EffectState → Bool
is_idle init = false
is_idle idle = true
is_idle processing = false
is_idle draining = false

abbrev pub is_processing : EffectState → Bool
is_processing init = false
is_processing idle = false
is_processing processing = true
is_processing draining = false

abbrev pub is_draining_state : EffectState → Bool
is_draining_state init = false
is_draining_state idle = false
is_draining_state processing = false
is_draining_state draining = true

-- `EffectThread`.
unfoldable pub create_thread : Thread → Thread
create_thread t =
    if t.is_joinable
    then t
    else record t { is_joinable = true; is_stopped = true; is_exiting = false }

-- `join` waits for the loop, which ends at `mExit`.
unfoldable pub destroy_thread : Thread → Thread
destroy_thread t = record t { is_joinable = false; is_stopped = true; is_exiting = true }

unfoldable pub start_thread : Thread → Thread
start_thread t =
    if t.is_draining then record t { is_draining = false } else record t { is_stopped = false }

unfoldable pub stop_thread : Thread → Thread
stop_thread t = record t { is_stopped = true }

unfoldable pub finish_draining : Thread → Thread
finish_draining t = record t { is_draining = false; is_stopped = true }

module _ (h : Host Call Answer) where
  abbrev pub notify_event_flag : Effect → List Call → Bool × List Call
  notify_event_flag e w =
      let (a, w1) = call h wake w in if e.has_flag then (succeeded a, w1) else (false, w)

  -- `floats` says that the formats of both sides are 32 bit floats, `specific` that there are specific
  -- parameters.
  unfoldable pub open_effect : Effect → Bool → Bool → List Call → Outcome × Effect × List Call
  unfolding create_thread
  open_effect e floats specific w =
      let (made, w1) = call h create_context w in
      let (version, w2) = call h get_version w1 in
      let (set, w3) = call h set_specific w2 in
      let with_context = record e { has_context = true } in
      let e2 = record with_context { has_flag = true } in
      let e3 = record e2 { state = idle; thread = create_thread e.thread } in
      if not floats
      then (illegal_argument, e, w)
      else if not (is_init e.state)
      then (ok, e, w)
      else if not (succeeded made)
      then (null_pointer, record e { has_context = false }, w1)
      else if not (succeeded version)
      then (unsupported, with_context, w2)
      else if not specific
      then (ok, e3, duplicate ∷ w2)
      else if succeeded set
      then (ok, e3, duplicate ∷ w3)
      else (outcome_of set, e2, w3)

  unfoldable pub reopen : Effect → List Call → Outcome × Effect × List Call
  reopen e w =
      if is_init e.state
      then (illegal_state, e, w)
      else if not e.has_context
      then (null_pointer, e, w)
      else (ok, e, duplicate ∷ w)

  unfoldable pub close : Effect → List Call → Outcome × Effect × List Call
  unfolding destroy_thread
  close e w =
      let e1 = record e { state = init } in
      let (woken, w1) = notify_event_flag e w in
      if is_init e.state
      then (ok, e, w)
      else if is_processing e.state
      then (illegal_state, e, w)
      else if not woken
      then (illegal_state, e1, w1)
      else (ok, record e1 { thread = destroy_thread e.thread; has_context = false }, w1)

  -- `commandImpl` of `EffectImpl`; what the context returns is ignored.
  unfoldable pub command_impl : Effect → Command → List Call → Outcome × List Call
  command_impl e start w = if e.has_context then (ok, enable ∷ w) else (null_pointer, w)
  command_impl e stop w = if e.has_context then (ok, disable ∷ w) else (null_pointer, w)
  command_impl e reset w =
      if e.has_context then (ok, reset_buffer ∷ reset_context ∷ disable ∷ w) else (null_pointer, w)
  command_impl e unknown_command w =
      if e.has_context then (illegal_argument, w) else (null_pointer, w)

  unfoldable pub command_start : Effect → List Call → Outcome × Effect × List Call
  unfolding command_impl start_thread
  command_start e w =
      let (st, w1) = command_impl e start w in
      let e1 = record e { state = processing } in
      let (woken, w2) = notify_event_flag e w1 in
      if is_processing e.state
      then (ok, e, w)
      else if not (is_ok st)
      then (st, e, w1)
      else if not woken
      then (illegal_state, e1, w2)
      else (ok, record e1 { thread = start_thread e.thread }, w2)

  -- What STOP and RESET do in the other states.
  unfoldable pub halt : Effect → Command → List Call → Outcome × Effect × List Call
  unfolding command_impl stop_thread
  halt e c w =
      let e1 = record e { state = idle } in
      let (woken, w1) = notify_event_flag e w in
      let (st, w2) = command_impl e c w1 in
      if not woken
      then (illegal_state, e1, w1)
      else (st, record e1 { thread = stop_thread e.thread }, w2)

  abbrev pub dispatch : Effect → Command → List Call → Outcome × Effect × List Call
  dispatch e start w = command_start e w
  dispatch e stop w = if is_idle e.state then (ok, e, w) else halt e stop w
  dispatch e reset w = halt e reset w
  dispatch e unknown_command w = (illegal_argument, e, w)

  unfoldable pub command : Effect → Command → List Call → Outcome × Effect × List Call
  unfolding command_start halt
  command e c w = if is_init e.state then (illegal_state, e, w) else dispatch e c w

  unfoldable pub draining_complete : Effect → Effect
  unfolding finish_draining
  draining_complete e =
      if is_draining_state e.state
      then record e { state = idle; thread = finish_draining e.thread }
      else e

  -- One call of `process`; a queue that is missing has no number of samples.
  unfoldable pub process : Effect → List Call → Effect × List Call
  unfolding draining_complete
  process e w =
      let (flag, w1) = call h wait_flag w in
      let (a, w2) = call h input_available w1 in
      let (b, w3) = call h output_available w2 in
      let n = min (number_of a) (number_of b) in
      let (made, w4) = call h (process_samples n) (read_samples n ∷ w3) in
      if not e.has_flag
      then (e, w)
      else if not (succeeded flag)
      then (e, w1)
      else if not (is_processing e.state) && not (is_draining_state e.state)
      then (e, w1)
      else if not e.has_context
      then (e, w1)
      else if not (succeeded a && succeeded b)
      then (e, w3)
      else if n == 0
      then (draining_complete e, w3)
      else (e, write_status (number_of made) ∷ write_samples (number_of made) ∷ w4)

  -- A round of `threadLoop`: the thread waits while it is stopped, and is gone when it is exiting.
  unfoldable pub thread_round : Effect → List Call → Effect × List Call
  unfolding process
  thread_round e w =
      if not e.thread.is_joinable || e.thread.is_exiting || e.thread.is_stopped
      then (e, w)
      else process e w

  -- `destroyEffect` of an effect of an interface that can be destroyed in any state.
  unfoldable pub destroy_effect : Effect → List Call → Effect × List Call
  unfolding command close
  destroy_effect e w =
      let (st1, e1, w1) = command e reset w in let (st2, e2, w2) = close e1 w1 in (e2, w2)
