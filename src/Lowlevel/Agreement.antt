-- ===== src/Lowlevel/Agreement.antt =====
-- The methods of mosquitto-rs/src/lowlevel.rs that hand on texts, lengths or numbers, run with and
-- without guards on those arguments.
use mosquitto_rs.Base.{◌≡◌, refl, Bool, true, false, Option, Str, Bytes, Result, ok, err}
use mosquitto_rs.Base.Int.{ℤ}
use mosquitto_rs.Error.{Error, result, from_err, gai_error}
use mosquitto_rs.Lowlevel.Guarded.{guarded, guard, trapped, trapped_mid}
use mosquitto_rs.Lowlevel.Io.{Process, check, check_mid}
use mosquitto_rs.Lowlevel.Mosq.{Mosq}
use mosquitto_rs.Lowlevel.Mosq as mosq
use mosquitto_rs.Lowlevel.Network as network
use mosquitto_rs.Lowlevel.Options as options
use mosquitto_rs.Lowlevel.Status.{QoS}
use mosquitto_rs.Lowlevel.Strings.{Duration}
use mosquitto_rs.Sys.{MosqOpt}
use mosquitto_rs.Sys.Library.{Library}

module _ {CB : Type 0} (lib : Library CB) where
  -- A call of a method that hands on texts, lengths or numbers.
  pub data Method : Type 0 where
    with_id : CB → Str → Bool → Method
    connect connect_non_blocking : Str → ℤ → Duration → Option Str → Method
    publish set_last_will : Str → Bytes → QoS → Bool → Method
    subscribe : Str → QoS → Method
    unsubscribe : Str → Method
    loop_until_explicitly_disconnected : Duration → Method
    set_username_and_password : Option Str → Option Str → Method
    set_string_option : MosqOpt → Str → Method
    configure_tls :
        Option Bytes → Option Bytes → Option Bytes → Option Bytes → Option lib.Pointer → Method
    set_reconnect_delay : Duration → Duration → Bool → Method

module _ {CB : Type 0} (lib : Library CB) (trap : lib.World → lib.World) where
  pub check-trapped :
      (good : Bool)
      → good ≡ true
      → (call : lib.World → ℤ × lib.World) (s : Process lib.World)
      → check (guarded lib trap) (λ w. trapped lib trap good (call w) w) s ≡ check lib call s
  unfolding result from_err gai_error
  check-trapped true h call s = refl
  check-trapped false h call s = cc

  pub check_mid-trapped :
      (good : Bool)
      → good ≡ true
      → (call : lib.World → ℤ × ℤ × lib.World) (s : Process lib.World)
      → check_mid (guarded lib trap) (λ w. trapped_mid lib trap good (call w) w) s
        ≡ check_mid lib call s
  unfolding result from_err gai_error
  check_mid-trapped true h call s = refl
  check_mid-trapped false h call s = cc

  abbrev pub guard_made :
      Result (Mosq lib) Error × Process lib.World
      → Result (Mosq (guarded lib trap)) Error × Process lib.World
  guard_made (ok self, s) = (ok (guard lib trap self), s)
  guard_made (err e, s) = (err e, s)

module _ {CB : Type 0} (lib : Library CB) (trap : lib.World → lib.World) (self : Mosq lib)
    (s : Process lib.World) where
  -- With the guards a method does the same.
  abbrev pub Agrees : Method lib → Type 0
  Agrees (with_id cb id clean_session) =
      mosq.with_id (guarded lib trap) cb id clean_session s
      ≡ guard_made lib trap (mosq.with_id lib cb id clean_session s)
  Agrees (connect host port keep_alive bind) =
      network.connect (guarded lib trap) (guard lib trap self) host port keep_alive bind s
      ≡ network.connect lib self host port keep_alive bind s
  Agrees (connect_non_blocking host port keep_alive bind) =
      network.connect_non_blocking (guarded lib trap) (guard lib trap self) host port keep_alive
        bind s
      ≡ network.connect_non_blocking lib self host port keep_alive bind s
  Agrees (publish topic payload qos retain) =
      network.publish (guarded lib trap) (guard lib trap self) topic payload qos retain s
      ≡ network.publish lib self topic payload qos retain s
  Agrees (set_last_will topic payload qos retain) =
      options.set_last_will (guarded lib trap) (guard lib trap self) topic payload qos retain s
      ≡ options.set_last_will lib self topic payload qos retain s
  Agrees (subscribe pattern_ qos) =
      network.subscribe (guarded lib trap) (guard lib trap self) pattern_ qos s
      ≡ network.subscribe lib self pattern_ qos s
  Agrees (unsubscribe pattern_) =
      network.unsubscribe (guarded lib trap) (guard lib trap self) pattern_ s
      ≡ network.unsubscribe lib self pattern_ s
  Agrees (loop_until_explicitly_disconnected timeout) =
      network.loop_until_explicitly_disconnected (guarded lib trap) (guard lib trap self) timeout s
      ≡ network.loop_until_explicitly_disconnected lib self timeout s
  Agrees (set_username_and_password username password) =
      options.set_username_and_password (guarded lib trap) (guard lib trap self) username password s
      ≡ options.set_username_and_password lib self username password s
  Agrees (set_string_option option value) =
      options.set_string_option (guarded lib trap) (guard lib trap self) option value s
      ≡ options.set_string_option lib self option value s
  Agrees (configure_tls ca_file ca_path cert_file key_file pw) =
      options.configure_tls (guarded lib trap) (guard lib trap self) ca_file ca_path cert_file
        key_file pw s
      ≡ options.configure_tls lib self ca_file ca_path cert_file key_file pw s
  Agrees (set_reconnect_delay delay max backoff) =
      options.set_reconnect_delay (guarded lib trap) (guard lib trap self) delay max backoff s
      ≡ options.set_reconnect_delay lib self delay max backoff s
