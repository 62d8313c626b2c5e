-- ===== src/A2b.antt =====
-- audio/a2b: the A2B bus of the amplifier and the continuous PCM output. `Profile` has the bus
-- program of a product and `Execute` its executor (Profile.cpp), on which `Polling`, `Routing` and
-- `Phases` build; `Controller`, `Loading`, `Lifecycle` and `Commands` are A2bController.cpp, with
-- `Kept`, `Audible` and `Unmuting`; `Output` and `Rounds` are ContinuousOutput.cpp, with `Queueing`,
-- `Capacity` and `Mixing`.
pub mod Profile
pub mod Execute
pub mod Polling
pub mod Routing
pub mod Phases
pub mod Controller
pub mod Loading
pub mod Lifecycle
pub mod Commands
pub mod Kept
pub mod Audible
pub mod Unmuting
pub mod Output
pub mod Rounds
pub mod Queueing
pub mod Capacity
pub mod Mixing
mod Tests
