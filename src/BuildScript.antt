-- ===== src/BuildScript.antt =====
-- libmosquitto-sys/build.rs: how the C library is built or found.
pub mod Cargo
pub mod Vendored
pub mod System
pub mod Texts
pub mod Linking
pub mod Installed
