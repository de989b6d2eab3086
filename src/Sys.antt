-- ===== src/Sys.antt =====
-- libmosquitto-sys/src/lib.rs: the codes that the bindings share with the C library, and the C
-- library itself, which is a parameter of all that calls it.
mod Codes
pub mod Library
unfoldable pub use Codes.*
