-- ===== src/Lowlevel/Options.antt =====
-- mosquitto-rs/src/lowlevel.rs: the methods of `Mosq` that configure it.
use mosquitto_rs.Base.{Bool, Option, Str, Bytes, length}
use mosquitto_rs.Base.Int.{ℤ, to_c_int, to_c_uint}
use mosquitto_rs.Lowlevel.Io.{Process, Io, ◌>>=◌, lift, or_mosq, check}
use mosquitto_rs.Lowlevel.Mosq.{Mosq}
use mosquitto_rs.Lowlevel.Status.{QoS, qos_code}
use mosquitto_rs.Lowlevel.Strings.{cstr, opt_cstr, path_to_cstring, Duration}
use mosquitto_rs.Sys.{MosqErr, MosqOpt}
use mosquitto_rs.Sys.Library.{Library}

module _ {CB : Type 0} (lib : Library CB) (self : Mosq lib) where
  unfoldable pub set_username_and_password :
      Option Str → Option Str → Io (Process lib.World) (Unit {0})
  set_username_and_password username password = do
    username ← lift (opt_cstr username)
    password ← lift (opt_cstr password)
    check lib (lib.mosquitto_username_pw_set self.m username password)

  unfoldable pub set_last_will : Str → Bytes → QoS → Bool → Io (Process lib.World) (Unit {0})
  set_last_will topic payload qos retain = do
    topic ← lift (cstr topic)
    payloadlen ← or_mosq MosqErr.payload_size (to_c_int (length payload))
    check lib (lib.mosquitto_will_set self.m topic payloadlen payload (qos_code qos) retain)

  unfoldable pub clear_last_will : Io (Process lib.World) (Unit {0})
  clear_last_will = check lib (lib.mosquitto_will_clear self.m)

  unfoldable pub set_string_option : MosqOpt → Str → Io (Process lib.World) (Unit {0})
  set_string_option option value = do
    value ← lift (cstr value)
    check lib (lib.mosquitto_string_option self.m option value)

  unfoldable pub set_int_option : MosqOpt → ℤ → Io (Process lib.World) (Unit {0})
  set_int_option option value = check lib (lib.mosquitto_opts_set self.m option value)

  unfoldable pub set_ptr_option : MosqOpt → lib.Pointer → Io (Process lib.World) (Unit {0})
  set_ptr_option option value = check lib (lib.mosquitto_void_option self.m option value)

  unfoldable pub configure_tls :
      Option Bytes
      → Option Bytes
      → Option Bytes
      → Option Bytes
      → Option lib.Pointer
      → Io (Process lib.World) (Unit {0})
  configure_tls ca_file ca_path cert_file key_file pw_callback = do
    ca_file ← lift (path_to_cstring ca_file)
    ca_path ← lift (path_to_cstring ca_path)
    cert_file ← lift (path_to_cstring cert_file)
    key_file ← lift (path_to_cstring key_file)
    check lib (lib.mosquitto_tls_set self.m ca_file ca_path cert_file key_file pw_callback)

  unfoldable pub set_reconnect_delay :
      Duration → Duration → Bool → Io (Process lib.World) (Unit {0})
  set_reconnect_delay reconnect_delay max_reconnect_delay use_exponential_backoff = do
    delay ← or_mosq MosqErr.inval (to_c_uint reconnect_delay.secs)
    max_delay ← or_mosq MosqErr.inval (to_c_uint max_reconnect_delay.secs)
    check lib (lib.mosquitto_reconnect_delay_set self.m delay max_delay use_exponential_backoff)
