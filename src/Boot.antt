-- ===== src/Boot.antt =====
-- boot_control/BootControl.cpp and BootControl.h: the A/B boot slots in the misc partition.
-- `Flags` is the byte of a slot, `Image` the 32 bytes of the control record with their CRC,
-- `Device` the record's storage and the autoboot files, `Service` the calls of IBootControl.
pub mod Flags
pub mod Image
pub mod Device
pub mod Service
pub mod Storage
pub mod Reload
pub mod Autoboot
pub mod Slots
mod Tests
