-- ===== src/Submix.antt =====
-- audio/r_submix/SubmixRoute.cpp and .h: the pipe between a remote submix output and its input.
-- `Route` has the state and the operations, `Blocking` what holds of them.
pub mod Route
pub mod Blocking
mod Tests
