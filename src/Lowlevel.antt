-- ===== src/Lowlevel.antt =====
-- mosquitto-rs/src/lowlevel.rs: the safe layer over the C library.
pub mod Status
pub mod Strings
pub mod Io
pub mod Mosq
pub mod Network
pub mod Options
pub mod Callbacks
pub mod Calls
pub mod Init
pub mod Registration
pub mod Version
pub mod Guarded
pub mod Arguments
pub mod Agreement
pub mod Bounds
