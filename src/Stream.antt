-- ===== src/Stream.antt =====
-- audio/Stream.cpp and audio/include/core-impl/Stream.h: the worker threads of input and output
-- streams. `Types` has the data of the command queue and the worker's state, `Worker` the logic that
-- both directions share, `Input` and `Output` a cycle of each, `Callbacks` the driver's callbacks.
pub mod Types
pub mod Worker
pub mod Input
pub mod Output
pub mod Callbacks
pub mod OutputDiagram
pub mod OutputReplies
pub mod InputDiagram
pub mod Transfer
pub mod Drains
mod Tests
