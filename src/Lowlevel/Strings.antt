-- ===== src/Lowlevel/Strings.antt =====
-- mosquitto-rs/src/lowlevel.rs: Rust texts and paths handed to C, and durations.
use mosquitto_rs.Base.{
  ℕ, ◌+◌, ◌*◌, ◌/◌, ◌==◌, Option, none, some, [], ◌∷◌, Str, Bytes, Result, ok, err, map_err,
  if◌then◌else◌,
}
use mosquitto_rs.Base.Utf8.{as_bytes}
use mosquitto_rs.Error.{Error, NulError, c_string}
use mosquitto_rs.Sys.Library.{CString}

-- The position of the first NUL.
unfoldable pub nul_position : ℕ → Bytes → Option ℕ
nul_position i [] = none
nul_position i (b ∷ bs) = if b == 0 then some i else nul_position (i + 1) bs

-- `CString::new`.
unfoldable pub c_string_new : Bytes → Result CString NulError
unfolding nul_position
c_string_new bs = elim (nul_position 0 bs) [
  | none ↦ ok (record { bytes = bs })
  | some i ↦ err (record { position = i; bytes = bs })
]

unfoldable pub cstr : Str → Result CString Error
unfolding c_string_new
cstr s = map_err c_string (c_string_new (as_bytes s))

-- The `match` that makes a pointer, null for `None`, of an optional text.
unfoldable pub opt_cstr : Option Str → Result (Option CString) Error
unfolding cstr
opt_cstr none = ok none
opt_cstr (some s) = elim (cstr s) [ ok c ↦ ok (some c) | err e ↦ err e ]

-- A path is its bytes, as on Unix.
unfoldable pub path_to_cstring : Option Bytes → Result (Option CString) Error
unfolding c_string_new
path_to_cstring none = ok none
path_to_cstring (some p) = elim (map_err c_string (c_string_new p)) [
  | ok c ↦ ok (some c)
  | err e ↦ err e
]

-- `std::time::Duration`.
pub record Duration : Type 0 where
  pub secs : ℕ
  pub nanos : ℕ

unfoldable pub as_millis : Duration → ℕ
as_millis d = d.secs * 1000 + d.nanos / 1000000
