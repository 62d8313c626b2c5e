-- ===== src/Lib.antt =====
-- A verification library of the Raspberry Pi 5 device tree for Android.
--
-- The program is a set of services that do not share state: the boot control service, the audio
-- HAL with its stream workers and drivers, the A2B amplifier bus with its PCM output, and others
-- that are not modelled. Each modelled part has a folder:
--
-- - Common: what the parts share: tests on numbers, lists, bytes, and `Host`. A call that leaves
--   the program (a system call, a driver, the clock) is a constructor of the part's `Call`; a
--   `Host` answers it from all calls made before, newest first, so that a theorem for every host
--   holds for every behaviour of what is outside. A function takes the calls so far and returns
--   them with its own in front.
-- - Boot: boot_control/BootControl.cpp and .h. Flags has a slot's byte, Image the packed record and
--   its CRC, Device load, save and the autoboot files, Service the constructor and the calls. The
--   proofs: Storage (the record stays well-formed), Reload (save, then load), Autoboot (what
--   a success says of the two files), Slots (what the calls do to the slots).
-- - Stream: audio/Stream.cpp and audio/include/core-impl/Stream.h. Worker has what both workers
--   share, Input and Output their cycles with one function for each command, Callbacks the calls
--   of the driver. The proofs: OutputDiagram and InputDiagram (the state machine), OutputReplies
--   (which commands are obeyed), Transfer (bytes and frames), Drains.
-- - Mpeg: audio/stub/MpegAudioHeader.cpp and .h. Tables, Header and Scan are the code, Frames and
--   Consumed the proofs.
-- - A2b: audio/a2b. Execute is the executor of Profile.cpp with the types of Profile; Controller,
--   Loading, Lifecycle and Commands are A2bController.cpp; Output and Rounds are
--   ContinuousOutput.cpp. The controller runs phases of a profile with the executor. The proofs:
--   Polling, Routing and Phases (the executor), Kept, Audible and Unmuting (the controller),
--   Queueing, Capacity and Mixing (the output).
-- - Submix: audio/r_submix/SubmixRoute.cpp and .h. Route is the code, Blocking the proofs.
--
-- - AudioModule: audio/Module.cpp with audio/include/core-impl/Module.h and utils.h. Types is the
--   state of a module, Lookup the searches in it; Connections is updateStreamsConnectedState, Patches
--   setAudioPatch and resetAudioPatch, Profiles and Configs the port configs, Opening the opening of
--   streams, Devices and Disconnecting external devices, Requests any sequence of these, which ends
--   at a call that ends the process or whose behaviour is undefined. A stream of
--   Stream is here what it answers when it is told its devices. The proofs: Restoring, Steps and
--   Transaction (what the streams are left with), Links, Validity, Keeping and Run (the table of
--   patches by port), Undoing (errors of a patch), Supported (new port configs), Sizes (buffers),
--   Limits (open streams), Numbering, Filling and Reconnection (a
--   device that is connected and disconnected).
-- - Effects: audio/EffectImpl.cpp and audio/EffectThread.cpp. Instance is the code; Lifecycle has any
--   sequence of the calls and of rounds of the worker, with the proofs of it and of Running.
-- - Cec: hdmi/cec/HdmiCec.cpp. Service is the code, Delivery the proofs.
--
-- Numbers are natural numbers; a byte or a word keeps its size where the code depends on it (the
-- CRC, the packed record, the flags), and a signed sample or slot number is an integer. The products
-- of frames and frame sizes are taken not to overflow a size_t, nor the sums of a mix an int64.
--
-- Fuel: the search for a buffer size has 31 steps, the powers of two of an int32; Sizes shows that it
-- ends within them. The polling loop of the A2B executor has one round for each millisecond of the
-- timeout and one more; Polling shows that this is enough for a clock that does not go back and
-- that a delay moves on. The other loops follow a list or a counter.
--
-- Concurrency: the driver's callbacks are taken between two cycles of an output stream, which is
-- what the stream's queue of postponed calls provides; the controller's functions run under its
-- lock, but for clockFailed and allowAudio, which take none and are taken between two of the others;
-- the passages of enqueue and the rounds of the PCM thread run each under the output's lock. A call of
-- an effect and a round of its worker are taken one after the other, as its lock makes them, but for
-- the gap in close between its two critical sections.
--
-- Not modelled: log and error texts, the parsing and validation of A2B profiles (JsonCpp is a
-- library; what it gives is an answer of the host), sockets and threads, the interfaces around
-- the stream workers, the map of the submix routes, the addresses of HDMI-CEC and its threads,
-- the contexts and parameters of effects and their libraries, the gains, most debug flags,
-- vendor parameters and device effects of the audio module and the tables that it starts with,
-- Bluetooth, USB and the ALSA utilities.
pub mod Common
pub mod Boot
pub mod Stream
pub mod Mpeg
pub mod A2b
pub mod Submix
pub mod AudioModule
pub mod Effects
pub mod Cec
