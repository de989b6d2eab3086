-- ===== src/Lowlevel/Network.antt =====
-- mosquitto-rs/src/lowlevel.rs: the methods of `Mosq` that talk to the broker or run the loop.
use mosquitto_rs.Base.{Bool, Option, Str, Bytes, length}
use mosquitto_rs.Base.Int.{ℤ, pos, to_c_int}
use mosquitto_rs.Lowlevel.Io.{Process, Io, ◌>>=◌, lift, or_mosq, check, check_mid}
use mosquitto_rs.Lowlevel.Mosq.{Mosq}
use mosquitto_rs.Lowlevel.Status.{MessageId, QoS, qos_code}
use mosquitto_rs.Lowlevel.Strings.{cstr, opt_cstr, Duration, as_millis}
use mosquitto_rs.Sys.{MosqErr}
use mosquitto_rs.Sys.Library.{Library}

module _ {CB : Type 0} (lib : Library CB) (self : Mosq lib) where
  unfoldable pub connect : Str → ℤ → Duration → Option Str → Io (Process lib.World) (Unit {0})
  connect host port keep_alive_interval bind_address = do
    host ← lift (cstr host)
    bind_address ← lift (opt_cstr bind_address)
    keep_alive ← or_mosq MosqErr.inval (to_c_int keep_alive_interval.secs)
    check lib (lib.mosquitto_connect_bind self.m host port keep_alive bind_address)

  unfoldable pub connect_non_blocking :
      Str → ℤ → Duration → Option Str → Io (Process lib.World) (Unit {0})
  connect_non_blocking host port keep_alive_interval bind_address = do
    host ← lift (cstr host)
    bind_address ← lift (opt_cstr bind_address)
    keep_alive ← or_mosq MosqErr.inval (to_c_int keep_alive_interval.secs)
    check lib (lib.mosquitto_connect_bind_async self.m host port keep_alive bind_address)

  unfoldable pub reconnect : Io (Process lib.World) (Unit {0})
  reconnect = check lib (lib.mosquitto_reconnect self.m)

  unfoldable pub disconnect : Io (Process lib.World) (Unit {0})
  disconnect = check lib (lib.mosquitto_disconnect self.m)

  unfoldable pub publish : Str → Bytes → QoS → Bool → Io (Process lib.World) MessageId
  publish topic payload qos retain = do
    topic ← lift (cstr topic)
    payloadlen ← or_mosq MosqErr.payload_size (to_c_int (length payload))
    check_mid lib
        (lib.mosquitto_publish self.m (pos 0) topic payloadlen payload (qos_code qos) retain)

  unfoldable pub subscribe : Str → QoS → Io (Process lib.World) MessageId
  subscribe pattern_ qos = do
    sub ← lift (cstr pattern_)
    check_mid lib (lib.mosquitto_subscribe self.m (pos 0) sub (qos_code qos))

  unfoldable pub unsubscribe : Str → Io (Process lib.World) MessageId
  unsubscribe pattern_ = do
    sub ← lift (cstr pattern_)
    check_mid lib (lib.mosquitto_unsubscribe self.m (pos 0) sub)

  -- One packet is handled in each round of the C loop.
  unfoldable pub loop_until_explicitly_disconnected : Duration → Io (Process lib.World) (Unit {0})
  loop_until_explicitly_disconnected timeout = do
    millis ← or_mosq MosqErr.inval (to_c_int (as_millis timeout))
    check lib (lib.mosquitto_loop_forever self.m millis (pos 1))

  unfoldable pub start_loop_thread : Io (Process lib.World) (Unit {0})
  start_loop_thread = check lib (lib.mosquitto_loop_start self.m)

  unfoldable pub stop_loop_thread : Bool → Io (Process lib.World) (Unit {0})
  stop_loop_thread force_cancel = check lib (lib.mosquitto_loop_stop self.m force_cancel)
