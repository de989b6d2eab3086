-- ===== src/Lowlevel/Status.antt =====
-- mosquitto-rs/src/lowlevel.rs: message ids, the two status codes and the quality of service.
use Prim.Native.String.{String}
use mosquitto_rs.Base.{zero, suc, Bool, not, Option, none, some, Str, str, ◌++◌, Bytes}
use mosquitto_rs.Base.Int.{ℤ, pos, ◌==ℤ◌, show_int}
use mosquitto_rs.Base.Utf8.{to_string_lossy}
use mosquitto_rs.Sys.{connack_accepted}
use mosquitto_rs.Sys.Library.{Library}

-- `c_int`.
abbrev pub MessageId : Type 0
MessageId = ℤ

pub record ReasonCode : Type 0 where
  pub code : ℤ

unfoldable pub is_unexpected_disconnect : ReasonCode → Bool
is_unexpected_disconnect r = not (r.code ==ℤ pos 0)

pub record ConnectionStatus : Type 0 where
  pub code : ℤ

unfoldable pub is_successful : ConnectionStatus → Bool
is_successful s = s.code ==ℤ connack_accepted

-- The text that both `Display` instances write.
display_code : String → ℤ → Option Bytes → Str
display_code kind code none = str kind ++ str " code " ++ show_int code
display_code kind code (some desc) =
    str kind ++ str " code " ++ show_int code ++ str ": " ++ to_string_lossy desc

module _ {Obj : Type 0} (lib : Library Obj) where
  unfoldable pub reason_display : ReasonCode → Str
  unfolding display_code
  reason_display r = display_code "REASON" r.code (lib.mosquitto_reason_string r.code)

  unfoldable pub status_display : ConnectionStatus → Str
  unfolding display_code
  status_display s = display_code "CONNACK" s.code (lib.mosquitto_connack_string s.code)

pub data QoS : Type 0 where
  at_most_once at_least_once exactly_once : QoS

unfoldable pub qos_default : QoS
qos_default = at_most_once

-- `qos as c_int`.
unfoldable pub qos_code : QoS → ℤ
qos_code at_most_once = pos 0
qos_code at_least_once = pos 1
qos_code exactly_once = pos 2

-- `QoS::from_int`: codes that MQTT does not define count as the highest level.
unfoldable pub qos_from_int : ℤ → QoS
qos_from_int (pos zero) = at_most_once
qos_from_int (pos (suc zero)) = at_least_once
qos_from_int (pos (suc (suc zero))) = exactly_once
qos_from_int _ = exactly_once
