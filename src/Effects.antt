-- ===== src/Effects.antt =====
-- audio/EffectImpl.cpp and audio/EffectThread.cpp: an instance of an audio effect and its worker.
-- `Instance` is the code, `Lifecycle` and `Running` have the proofs.
pub mod Instance
pub mod Lifecycle
pub mod Running
mod Tests
