-- ===== src/Client/Debug.antt =====
-- mosquitto-rs/src/client.rs: the debug text of a message, as `{:?}` formats it.
use mosquitto_rs.Base.{
  ℕ, ◌+◌, ◌/◌, ◌%◌, ltb, Bool, true, false, none, some, [], ◌∷◌, ◌++◌, Str, Bytes, str,
  if◌then◌else◌,
}
use mosquitto_rs.Base.Int.{show_int}
use mosquitto_rs.Base.Utf8.{from_utf8}
use mosquitto_rs.Client.Data.{Message}
use mosquitto_rs.Lowlevel.Status.{QoS, at_most_once, at_least_once, exactly_once}

-- Two digits, as `{:02X}` writes a byte.
unfoldable pub hex_digit : ℕ → ℕ
hex_digit d = if ltb d 10 then 48 + d else 55 + d

unfoldable pub hex_byte : ℕ → Str
unfolding hex_digit
hex_byte b = hex_digit (b / 16) ∷ hex_digit (b % 16) ∷ []

-- The items of a list after the first, and the end.
unfoldable pub hex_rest : Bytes → Str
unfolding hex_byte
hex_rest [] = str "]"
hex_rest (b ∷ bs) = str ", " ++ hex_byte b ++ hex_rest bs

-- `{:02X?}` of a slice of bytes.
unfoldable pub hex_list : Bytes → Str
unfolding hex_rest
hex_list [] = str "[]"
hex_list (b ∷ bs) = str "[" ++ hex_byte b ++ hex_rest bs

-- The derived instance.
unfoldable pub qos_debug : QoS → Str
qos_debug at_most_once = str "AtMostOnce"
qos_debug at_least_once = str "AtLeastOnce"
qos_debug exactly_once = str "ExactlyOnce"

unfoldable pub bool_debug : Bool → Str
bool_debug true = str "true"
bool_debug false = str "false"

-- `debug_str` is the `Debug` instance of `str`.
module _ (debug_str : Str → Str) where
  -- `PayloadPrinter`.
  unfoldable pub payload_debug : Bytes → Str
  unfolding hex_list
  payload_debug payload = elim (from_utf8 payload) [
    | some text ↦ debug_str text
    | none ↦ hex_list payload
  ]

  unfoldable pub message_debug : Message → Str
  unfolding payload_debug qos_debug bool_debug
  message_debug msg =
      str "Message { topic: "
      ++ (debug_str msg.topic
          ++ (str ", payload: "
              ++ (payload_debug msg.payload
                  ++ (str ", qos: "
                      ++ (qos_debug msg.qos
                          ++ (str ", retain: "
                              ++ (bool_debug msg.retain
                                  ++ (str ", mid: " ++ (show_int msg.mid ++ str " }")))))))))
