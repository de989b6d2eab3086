-- ===== src/Sys/Codes.antt =====
-- The enumerations of libmosquitto-sys/src/lib.rs that the client reads.
use mosquitto_rs.Base.{ℕ}
use mosquitto_rs.Base.Int.{ℤ, pos, negsuc}

-- `mosq_err_t`.
pub data MosqErr : Type 0 where
  auth_continue : MosqErr
  no_subscribers : MosqErr
  sub_exists : MosqErr
  conn_pending : MosqErr
  success : MosqErr
  nomem : MosqErr
  protocol : MosqErr
  inval : MosqErr
  no_conn : MosqErr
  conn_refused : MosqErr
  not_found : MosqErr
  conn_lost : MosqErr
  tls : MosqErr
  payload_size : MosqErr
  not_supported : MosqErr
  auth : MosqErr
  acl_denied : MosqErr
  unknown : MosqErr
  errno : MosqErr
  eai : MosqErr
  proxy : MosqErr
  plugin_defer : MosqErr
  malformed_utf8 : MosqErr
  keepalive : MosqErr
  lookup : MosqErr
  malformed_packet : MosqErr
  duplicate_property : MosqErr
  tls_handshake : MosqErr
  qos_not_supported : MosqErr
  oversize_packet : MosqErr
  ocsp : MosqErr
  timeout : MosqErr
  retain_not_supported : MosqErr
  topic_alias_invalid : MosqErr
  administrative_action : MosqErr
  already_exists : MosqErr

-- The discriminant, which `as` reads.
unfoldable pub err_code : MosqErr → ℤ
err_code auth_continue = negsuc 3
err_code no_subscribers = negsuc 2
err_code sub_exists = negsuc 1
err_code conn_pending = negsuc 0
err_code success = pos 0
err_code nomem = pos 1
err_code protocol = pos 2
err_code inval = pos 3
err_code no_conn = pos 4
err_code conn_refused = pos 5
err_code not_found = pos 6
err_code conn_lost = pos 7
err_code tls = pos 8
err_code payload_size = pos 9
err_code not_supported = pos 10
err_code auth = pos 11
err_code acl_denied = pos 12
err_code unknown = pos 13
err_code errno = pos 14
err_code eai = pos 15
err_code proxy = pos 16
err_code plugin_defer = pos 17
err_code malformed_utf8 = pos 18
err_code keepalive = pos 19
err_code lookup = pos 20
err_code malformed_packet = pos 21
err_code duplicate_property = pos 22
err_code tls_handshake = pos 23
err_code qos_not_supported = pos 24
err_code oversize_packet = pos 25
err_code ocsp = pos 26
err_code timeout = pos 27
err_code retain_not_supported = pos 28
err_code topic_alias_invalid = pos 29
err_code administrative_action = pos 30
err_code already_exists = pos 31

-- `mosq_opt_t`.
pub data MosqOpt : Type 0 where
  protocol_version : MosqOpt
  ssl_ctx : MosqOpt
  ssl_ctx_with_defaults : MosqOpt
  receive_maximum : MosqOpt
  send_maximum : MosqOpt
  tls_keyform : MosqOpt
  tls_engine : MosqOpt
  tls_engine_kpass_sha1 : MosqOpt
  tls_ocsp_required : MosqOpt
  tls_alpn : MosqOpt
  tcp_nodelay : MosqOpt
  bind_address : MosqOpt
  tls_use_os_certs : MosqOpt

-- The discriminant, which `as` reads.
unfoldable pub opt_code : MosqOpt → ℕ
opt_code protocol_version = 1
opt_code ssl_ctx = 2
opt_code ssl_ctx_with_defaults = 3
opt_code receive_maximum = 4
opt_code send_maximum = 5
opt_code tls_keyform = 6
opt_code tls_engine = 7
opt_code tls_engine_kpass_sha1 = 8
opt_code tls_ocsp_required = 9
opt_code tls_alpn = 10
opt_code tcp_nodelay = 11
opt_code bind_address = 12
opt_code tls_use_os_certs = 13

-- `mqtt311_connack_codes::CONNACK_ACCEPTED`.
abbrev pub connack_accepted : ℤ
connack_accepted = pos 0

abbrev pub mosq_log_notice : ℕ
mosq_log_notice = 2

abbrev pub mosq_log_info : ℕ
mosq_log_info = 1

abbrev pub mosq_log_warning : ℕ
mosq_log_warning = 4

abbrev pub mosq_log_err : ℕ
mosq_log_err = 8

abbrev pub mosq_log_debug : ℕ
mosq_log_debug = 16
