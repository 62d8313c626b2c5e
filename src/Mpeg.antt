-- ===== src/Mpeg.antt =====
-- audio/stub/MpegAudioHeader.cpp: finding ID3 tags and MPEG audio frames in a buffer. A buffer is the
-- list of the bytes from `*currBuff` to `endBuff`; what a function leaves of it is the new
-- `*currBuff`.
pub mod Tables
pub mod Header
pub mod Scan
pub mod Frames
pub mod Consumed
mod Tests
