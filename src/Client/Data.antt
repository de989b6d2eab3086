-- ===== src/Client/Data.antt =====
-- mosquitto-rs/src/client.rs: messages, events and options.
use mosquitto_rs.Base.{ℕ, Bool, Str, Bytes}
use mosquitto_rs.Base.Int.{ℤ, pos}
use mosquitto_rs.Lowlevel.Status.{MessageId, QoS, ConnectionStatus, ReasonCode}

pub record Message : Type 0 where
  pub topic : Str
  pub payload : Bytes
  pub qos : QoS
  pub retain : Bool
  pub mid : MessageId

pub data Event : Type 0 where
  message : Message → Event
  connected : ConnectionStatus → Event
  disconnected : ReasonCode → Event

pub data ProtocolVersion : Type 0 where
  v31 v311 v5 : ProtocolVersion

-- `v as c_int`.
unfoldable pub version_code : ProtocolVersion → ℤ
version_code v31 = pos 3
version_code v311 = pos 4
version_code v5 = pos 5

unfoldable pub version_default : ProtocolVersion
version_default = v31

-- The two maxima are `u16` values.
pub data ClientOption : Type 0 where
  protocol_version : ProtocolVersion → ClientOption
  receive_maximum send_maximum : ℕ → ClientOption
  ocsp_required : Bool → ClientOption
  tls_engine tls_key_form tls_k_pass_sha1 tls_alpn : Str → ClientOption
