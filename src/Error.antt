-- ===== src/Error.antt =====
-- mosquitto-rs/src/error.rs: the client's errors, and the C library's result codes as errors.
pub mod Codes
pub mod Text
pub mod Told
use mosquitto_rs.Base.{
  ℕ, Option, none, some, List, [], ◌∷◌, Str, Bytes, Result, ok, err, if◌then◌else◌,
}
use mosquitto_rs.Base.Int.{ℤ, pos, ◌==ℤ◌}
use mosquitto_rs.Base.Utf8.{to_string_lossy}
use mosquitto_rs.Lowlevel.Status.{ConnectionStatus}
use mosquitto_rs.Sys.{MosqErr, err_code}
use mosquitto_rs.Sys.Library.{Library, IoError}

-- `std::ffi::NulError`: where the first NUL stands, and the bytes.
pub record NulError : Type 0 where
  pub position : ℕ
  pub bytes : Bytes

pub data Error : Type 0 where
  create : IoError → Error
  c_string : NulError → Error
  io : IoError → Error
  mosq : MosqErr → Error
  unknown_mosq : ℤ → Error
  resolution : Str → Error
  rejected_connection : ConnectionStatus → Error

-- `HashMap<c_int, mosq_err_t>`: a later entry for a key hides an earlier one.
abbrev pub ErrMap : Type 0
ErrMap = List (ℤ × MosqErr)

insert : ℤ → MosqErr → ErrMap → ErrMap
insert k e m = (k, e) ∷ m

get : ℤ → ErrMap → Option MosqErr
get c [] = none
get c ((k, e) ∷ m) = if k ==ℤ c then some e else get c m

-- The list that `build_map` hands to its macro.
abbrev mapped : List MosqErr
mapped =
    MosqErr.auth_continue ∷ MosqErr.no_subscribers ∷ MosqErr.sub_exists ∷ MosqErr.conn_pending
    ∷ MosqErr.success ∷ MosqErr.nomem ∷ MosqErr.protocol ∷ MosqErr.inval ∷ MosqErr.no_conn
    ∷ MosqErr.conn_refused ∷ MosqErr.not_found ∷ MosqErr.conn_lost ∷ MosqErr.tls
    ∷ MosqErr.payload_size ∷ MosqErr.not_supported ∷ MosqErr.auth ∷ MosqErr.acl_denied
    ∷ MosqErr.unknown ∷ MosqErr.errno ∷ MosqErr.eai ∷ MosqErr.proxy ∷ MosqErr.plugin_defer
    ∷ MosqErr.malformed_utf8 ∷ MosqErr.keepalive ∷ MosqErr.lookup ∷ MosqErr.malformed_packet
    ∷ MosqErr.duplicate_property ∷ MosqErr.tls_handshake ∷ MosqErr.qos_not_supported
    ∷ MosqErr.oversize_packet ∷ MosqErr.ocsp ∷ []

insert_all : List MosqErr → ErrMap → ErrMap
unfolding insert
insert_all [] m = m
insert_all (e ∷ es) m = insert_all es (insert (err_code e) e m)

unfoldable pub build_map : ErrMap
unfolding insert_all err_code
build_map = insert_all mapped []

module _ {Obj : Type 0} (lib : Library Obj) where
  -- On Unix; the code of an OS error that holds none counts as 0.
  unfoldable pub gai_error : IoError → Str
  gai_error e = elim e.raw_os_error [
    | none ↦ to_string_lossy (lib.gai_strerror (pos 0))
    | some code ↦ to_string_lossy (lib.gai_strerror code)
  ]

  unfoldable pub from_err : ℤ → lib.World → Error
  unfolding gai_error get
  from_err c w =
      if c ==ℤ err_code MosqErr.errno
      then io (lib.last_os_error w)
      else if c ==ℤ err_code MosqErr.eai
      then resolution (gai_error (lib.last_os_error w))
      else elim (get c build_map) [ some e ↦ mosq e | none ↦ unknown_mosq c ]

  -- `Error::result`.
  unfoldable pub result {ℓ} : {T : Type ℓ} → ℤ → T → lib.World → Result T Error
  result c res w = if c ==ℤ err_code MosqErr.success then ok res else err (from_err c w)
