-- ===== src/AudioModule.antt =====
-- audio/Module.cpp and audio/include/core-impl/Module.h: the ports, port configs, routes, patches
-- and streams of an audio module. `Types` has the state, `Lookup` the searches, `Connections` what
-- the streams are told about a patch, `Patches` the patches, `Profiles` and `Configs` the port
-- configs, `Opening` the opening of streams, `Devices` and `Disconnecting` external devices, and
-- `Requests` sequences of all of these. The other modules have the proofs.
pub mod Types
pub mod Lookup
pub mod Connections
pub mod Patches
pub mod Restoring
pub mod Steps
pub mod Transaction
pub mod Links
pub mod Validity
pub mod Undoing
pub mod Profiles
pub mod Configs
pub mod Supported
pub mod Opening
pub mod Sizes
pub mod Limits
pub mod Devices
pub mod Disconnecting
pub mod Numbering
pub mod Filling
pub mod Reconnection
pub mod Requests
pub mod Keeping
pub mod Run
mod Tests
