-- ===== src/Error/Text.antt =====
-- mosquitto-rs/src/error.rs: the texts of errors, which `thiserror` makes of their attributes.
use mosquitto_rs.Base.{◌++◌, Str, str}
use mosquitto_rs.Base.Int.{show_int}
use mosquitto_rs.Error.{
  Error, create, c_string, io, mosq, unknown_mosq, resolution, rejected_connection,
}
use mosquitto_rs.Sys.{MosqErr}
use mosquitto_rs.Sys.Library.{IoError}

-- The derived `Debug` instance of `mosq_err_t`.
unfoldable pub mosq_debug : MosqErr → Str
mosq_debug MosqErr.auth_continue = str "MOSQ_ERR_AUTH_CONTINUE"
mosq_debug MosqErr.no_subscribers = str "MOSQ_ERR_NO_SUBSCRIBERS"
mosq_debug MosqErr.sub_exists = str "MOSQ_ERR_SUB_EXISTS"
mosq_debug MosqErr.conn_pending = str "MOSQ_ERR_CONN_PENDING"
mosq_debug MosqErr.success = str "MOSQ_ERR_SUCCESS"
mosq_debug MosqErr.nomem = str "MOSQ_ERR_NOMEM"
mosq_debug MosqErr.protocol = str "MOSQ_ERR_PROTOCOL"
mosq_debug MosqErr.inval = str "MOSQ_ERR_INVAL"
mosq_debug MosqErr.no_conn = str "MOSQ_ERR_NO_CONN"
mosq_debug MosqErr.conn_refused = str "MOSQ_ERR_CONN_REFUSED"
mosq_debug MosqErr.not_found = str "MOSQ_ERR_NOT_FOUND"
mosq_debug MosqErr.conn_lost = str "MOSQ_ERR_CONN_LOST"
mosq_debug MosqErr.tls = str "MOSQ_ERR_TLS"
mosq_debug MosqErr.payload_size = str "MOSQ_ERR_PAYLOAD_SIZE"
mosq_debug MosqErr.not_supported = str "MOSQ_ERR_NOT_SUPPORTED"
mosq_debug MosqErr.auth = str "MOSQ_ERR_AUTH"
mosq_debug MosqErr.acl_denied = str "MOSQ_ERR_ACL_DENIED"
mosq_debug MosqErr.unknown = str "MOSQ_ERR_UNKNOWN"
mosq_debug MosqErr.errno = str "MOSQ_ERR_ERRNO"
mosq_debug MosqErr.eai = str "MOSQ_ERR_EAI"
mosq_debug MosqErr.proxy = str "MOSQ_ERR_PROXY"
mosq_debug MosqErr.plugin_defer = str "MOSQ_ERR_PLUGIN_DEFER"
mosq_debug MosqErr.malformed_utf8 = str "MOSQ_ERR_MALFORMED_UTF8"
mosq_debug MosqErr.keepalive = str "MOSQ_ERR_KEEPALIVE"
mosq_debug MosqErr.lookup = str "MOSQ_ERR_LOOKUP"
mosq_debug MosqErr.malformed_packet = str "MOSQ_ERR_MALFORMED_PACKET"
mosq_debug MosqErr.duplicate_property = str "MOSQ_ERR_DUPLICATE_PROPERTY"
mosq_debug MosqErr.tls_handshake = str "MOSQ_ERR_TLS_HANDSHAKE"
mosq_debug MosqErr.qos_not_supported = str "MOSQ_ERR_QOS_NOT_SUPPORTED"
mosq_debug MosqErr.oversize_packet = str "MOSQ_ERR_OVERSIZE_PACKET"
mosq_debug MosqErr.ocsp = str "MOSQ_ERR_OCSP"
mosq_debug MosqErr.timeout = str "MOSQ_ERR_TIMEOUT"
mosq_debug MosqErr.retain_not_supported = str "MOSQ_ERR_RETAIN_NOT_SUPPORTED"
mosq_debug MosqErr.topic_alias_invalid = str "MOSQ_ERR_TOPIC_ALIAS_INVALID"
mosq_debug MosqErr.administrative_action = str "MOSQ_ERR_ADMINISTRATIVE_ACTION"
mosq_debug MosqErr.already_exists = str "MOSQ_ERR_ALREADY_EXISTS"

-- The `Display` instance, given that of `std::io::Error`.
unfoldable pub error_display : (IoError → Str) → Error → Str
unfolding mosq_debug
error_display io_display (create e) = str "creation error: " ++ io_display e
error_display io_display (c_string e) = str "c-string mapping error"
error_display io_display (io e) = str "IO error: " ++ io_display e
error_display io_display (mosq e) = str "mosq error: " ++ mosq_debug e
error_display io_display (unknown_mosq c) = str "mosq error code " ++ show_int c
error_display io_display (resolution reason) = str "hostname resolution error: " ++ reason
error_display io_display (rejected_connection status) = str "broker rejected connection"
