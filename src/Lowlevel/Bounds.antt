-- ===== src/Lowlevel/Bounds.antt =====
-- No method of `Mosq` in mosquitto-rs/src/lowlevel.rs hands the C library an argument that it may not
-- have.
use mosquitto_rs.Base.{◌≡◌, refl, inl, inr, Bool, Option, none, some, Str, Bytes, length}
use mosquitto_rs.Base.Int.{ℤ, pos, ==ℤ_refl}
use mosquitto_rs.Lowlevel.Guarded.{guarded}
use mosquitto_rs.Lowlevel.Io.{Process}
use mosquitto_rs.Lowlevel.Mosq.{Mosq}
use mosquitto_rs.Lowlevel.Mosq as mosq
use mosquitto_rs.Lowlevel.Network as network
use mosquitto_rs.Lowlevel.Options as options
use mosquitto_rs.Lowlevel.Status.{QoS, qos_code}
use mosquitto_rs.Lowlevel.Strings.{Duration, as_millis}
use mosquitto_rs.Sys.{MosqOpt}
use mosquitto_rs.Sys.Library.{Library}
use mosquitto_rs.Lowlevel.Arguments.{
  cstr-Good, opt_cstr-Good, path_to_cstring-Good, to_c_int-Good, to_c_uint-Good, qos_code-is_qos,
  both,
}
use mosquitto_rs.Lowlevel.Agreement.{
  Method, with_id, connect, connect_non_blocking, publish, set_last_will, subscribe, unsubscribe,
  loop_until_explicitly_disconnected, set_username_and_password, set_string_option, configure_tls,
  set_reconnect_delay, Agrees, guard_made, check-trapped, check_mid-trapped,
}

module _ {CB : Type 0} (lib : Library CB) (trap : lib.World → lib.World) (self : Mosq lib)
    (s : Process lib.World) where
  connect-Agrees :
      (host : Str) (port : ℤ) (keep_alive : Duration) (bind : Option Str)
      → Agrees lib trap self s (connect host port keep_alive bind)
  unfolding network.connect
  connect-Agrees host port keep_alive bind = elim (cstr-Good host) [
    | inr (x, e) ↦ rw (e, network.connect) refl
    | inl (c, e, good) ↦ elim (opt_cstr-Good bind) [
      | inr (x, f) ↦ rw (e, f, network.connect) refl
      | inl (b, f, fine) ↦ elim (to_c_int-Good keep_alive.secs) [
        | inr h ↦ rw (e, f, h, network.connect) refl
        | inl (h, fits) ↦
            rw (e, f, h, network.connect)
              (check-trapped lib trap _ (both (both good fits) fine)
                (lib.mosquitto_connect_bind self.m c port (pos keep_alive.secs) b) s)
      ]
    ]
  ]

  connect_non_blocking-Agrees :
      (host : Str) (port : ℤ) (keep_alive : Duration) (bind : Option Str)
      → Agrees lib trap self s (connect_non_blocking host port keep_alive bind)
  unfolding network.connect_non_blocking
  connect_non_blocking-Agrees host port keep_alive bind = elim (cstr-Good host) [
    | inr (x, e) ↦ rw (e, network.connect_non_blocking) refl
    | inl (c, e, good) ↦ elim (opt_cstr-Good bind) [
      | inr (x, f) ↦ rw (e, f, network.connect_non_blocking) refl
      | inl (b, f, fine) ↦ elim (to_c_int-Good keep_alive.secs) [
        | inr h ↦ rw (e, f, h, network.connect_non_blocking) refl
        | inl (h, fits) ↦
            rw (e, f, h, network.connect_non_blocking)
              (check-trapped lib trap _ (both (both good fits) fine)
                (lib.mosquitto_connect_bind_async self.m c port (pos keep_alive.secs) b) s)
      ]
    ]
  ]

  publish-Agrees :
      (topic : Str) (payload : Bytes) (qos : QoS) (retain : Bool)
      → Agrees lib trap self s (publish topic payload qos retain)
  unfolding network.publish
  publish-Agrees topic payload qos retain = elim (cstr-Good topic) [
    | inr (x, e) ↦ rw (e, network.publish) refl
    | inl (c, e, good) ↦ elim (to_c_int-Good (length payload)) [
      | inr h ↦ rw (e, h, network.publish) refl
      | inl (h, fits) ↦
          rw (e, h, network.publish)
            (check_mid-trapped lib trap _
              (both (both good (both fits (==ℤ_refl (pos (length payload))))) (qos_code-is_qos qos))
              (lib.mosquitto_publish self.m (pos 0) c (pos (length payload)) payload (qos_code qos)
                retain)
              s)
    ]
  ]

  set_last_will-Agrees :
      (topic : Str) (payload : Bytes) (qos : QoS) (retain : Bool)
      → Agrees lib trap self s (set_last_will topic payload qos retain)
  unfolding options.set_last_will
  set_last_will-Agrees topic payload qos retain = elim (cstr-Good topic) [
    | inr (x, e) ↦ rw (e, options.set_last_will) refl
    | inl (c, e, good) ↦ elim (to_c_int-Good (length payload)) [
      | inr h ↦ rw (e, h, options.set_last_will) refl
      | inl (h, fits) ↦
          rw (e, h, options.set_last_will)
            (check-trapped lib trap _
              (both (both good (both fits (==ℤ_refl (pos (length payload))))) (qos_code-is_qos qos))
              (lib.mosquitto_will_set self.m c (pos (length payload)) payload (qos_code qos) retain)
              s)
    ]
  ]

  subscribe-Agrees : (pattern_ : Str) (qos : QoS) → Agrees lib trap self s (subscribe pattern_ qos)
  unfolding network.subscribe
  subscribe-Agrees pattern_ qos = elim (cstr-Good pattern_) [
    | inr (x, e) ↦ rw (e, network.subscribe) refl
    | inl (c, e, good) ↦
        rw (e, network.subscribe)
          (check_mid-trapped lib trap _ (both good (qos_code-is_qos qos))
            (lib.mosquitto_subscribe self.m (pos 0) c (qos_code qos)) s)
  ]

  unsubscribe-Agrees : (pattern_ : Str) → Agrees lib trap self s (unsubscribe pattern_)
  unfolding network.unsubscribe
  unsubscribe-Agrees pattern_ = elim (cstr-Good pattern_) [
    | inr (x, e) ↦ rw (e, network.unsubscribe) refl
    | inl (c, e, good) ↦
        rw (e, network.unsubscribe)
          (check_mid-trapped lib trap _ good (lib.mosquitto_unsubscribe self.m (pos 0) c) s)
  ]

  loop-Agrees :
      (timeout : Duration) → Agrees lib trap self s (loop_until_explicitly_disconnected timeout)
  unfolding network.loop_until_explicitly_disconnected
  loop-Agrees timeout = elim (to_c_int-Good (as_millis timeout)) [
    | inr h ↦ rw (h, network.loop_until_explicitly_disconnected) refl
    | inl (h, fits) ↦
        rw (h, network.loop_until_explicitly_disconnected)
          (check-trapped lib trap _ (both fits refl)
            (lib.mosquitto_loop_forever self.m (pos (as_millis timeout)) (pos 1)) s)
  ]

  set_username_and_password-Agrees :
      (username password : Option Str)
      → Agrees lib trap self s (set_username_and_password username password)
  unfolding options.set_username_and_password
  set_username_and_password-Agrees username password = elim (opt_cstr-Good username) [
    | inr (x, e) ↦ rw (e, options.set_username_and_password) refl
    | inl (u, e, good) ↦ elim (opt_cstr-Good password) [
      | inr (x, f) ↦ rw (e, f, options.set_username_and_password) refl
      | inl (p, f, fine) ↦
          rw (e, f, options.set_username_and_password)
            (check-trapped lib trap _ (both good fine) (lib.mosquitto_username_pw_set self.m u p) s)
    ]
  ]

  set_string_option-Agrees :
      (option : MosqOpt) (value : Str) → Agrees lib trap self s (set_string_option option value)
  unfolding options.set_string_option
  set_string_option-Agrees option value = elim (cstr-Good value) [
    | inr (x, e) ↦ rw (e, options.set_string_option) refl
    | inl (c, e, good) ↦
        rw (e, options.set_string_option)
          (check-trapped lib trap _ good (lib.mosquitto_string_option self.m option c) s)
  ]

  configure_tls-Agrees :
      (ca_file ca_path cert_file key_file : Option Bytes) (pw : Option lib.Pointer)
      → Agrees lib trap self s (configure_tls ca_file ca_path cert_file key_file pw)
  unfolding options.configure_tls
  configure_tls-Agrees ca_file ca_path cert_file key_file pw = elim (path_to_cstring-Good ca_file) [
    | inr (x, e) ↦ rw (e, options.configure_tls) refl
    | inl (c1, e, g1) ↦ elim (path_to_cstring-Good ca_path) [
      | inr (x, f) ↦ rw (e, f, options.configure_tls) refl
      | inl (c2, f, g2) ↦ elim (path_to_cstring-Good cert_file) [
        | inr (x, g) ↦ rw (e, f, g, options.configure_tls) refl
        | inl (c3, g, g3) ↦ elim (path_to_cstring-Good key_file) [
          | inr (x, h) ↦ rw (e, f, g, h, options.configure_tls) refl
          | inl (c4, h, g4) ↦
              rw (e, f, g, h, options.configure_tls)
                (check-trapped lib trap _ (both (both (both g1 g2) g3) g4)
                  (lib.mosquitto_tls_set self.m c1 c2 c3 c4 pw) s)
        ]
      ]
    ]
  ]

  set_reconnect_delay-Agrees :
      (delay max : Duration) (backoff : Bool)
      → Agrees lib trap self s (set_reconnect_delay delay max backoff)
  unfolding options.set_reconnect_delay
  set_reconnect_delay-Agrees delay max backoff = elim (to_c_uint-Good delay.secs) [
    | inr e ↦ rw (e, options.set_reconnect_delay) refl
    | inl (e, fits) ↦ elim (to_c_uint-Good max.secs) [
      | inr f ↦ rw (e, f, options.set_reconnect_delay) refl
      | inl (f, fine) ↦
          rw (e, f, options.set_reconnect_delay)
            (check-trapped lib trap _ (both fits fine)
              (lib.mosquitto_reconnect_delay_set self.m delay.secs max.secs backoff) s)
    ]
  ]

  from_new-guarded :
      (cb : CB) (r : Option lib.Handle × lib.World) (t : Process lib.World)
      → mosq.from_new (guarded lib trap) cb r t ≡ guard_made lib trap (mosq.from_new lib cb r t)
  unfolding mosq.from_new mosq.set_callbacks
  from_new-guarded cb (none, w) t = refl
  from_new-guarded cb (some m, w) t = refl

  with_id-Agrees :
      (cb : CB) (id : Str) (clean : Bool) → Agrees lib trap self s (with_id cb id clean)
  unfolding mosq.with_id
  with_id-Agrees cb id clean = elim (cstr-Good id) [
    | inr (x, e) ↦ rw (e, mosq.with_id) refl
    | inl (c, e, good) ↦ rw (e, mosq.with_id, good) (from_new-guarded cb _ _)
  ]

-- A method that hands texts, lengths or numbers to C does the same when each of those C functions
-- is replaced by one that does `trap`, whatever that is, if a text holds a NUL, a length is not the
-- payload's, a number does not fit the C type, or a quality of service is not 0, 1 or 2.
pub guarded-Agrees :
    {CB : Type 0} (lib : Library CB) (trap : lib.World → lib.World) (self : Mosq lib)
    (s : Process lib.World) (c : Method lib)
    → Agrees lib trap self s c
guarded-Agrees lib trap self s (with_id cb id clean) = with_id-Agrees lib trap self s cb id clean
guarded-Agrees lib trap self s (connect host port keep bind) =
    connect-Agrees lib trap self s host port keep bind
guarded-Agrees lib trap self s (connect_non_blocking host port keep bind) =
    connect_non_blocking-Agrees lib trap self s host port keep bind
guarded-Agrees lib trap self s (publish topic payload qos retain) =
    publish-Agrees lib trap self s topic payload qos retain
guarded-Agrees lib trap self s (set_last_will topic payload qos retain) =
    set_last_will-Agrees lib trap self s topic payload qos retain
guarded-Agrees lib trap self s (subscribe p qos) = subscribe-Agrees lib trap self s p qos
guarded-Agrees lib trap self s (unsubscribe p) = unsubscribe-Agrees lib trap self s p
guarded-Agrees lib trap self s (loop_until_explicitly_disconnected timeout) =
    loop-Agrees lib trap self s timeout
guarded-Agrees lib trap self s (set_username_and_password u p) =
    set_username_and_password-Agrees lib trap self s u p
guarded-Agrees lib trap self s (set_string_option o v) =
    set_string_option-Agrees lib trap self s o v
guarded-Agrees lib trap self s (configure_tls a b c k pw) =
    configure_tls-Agrees lib trap self s a b c k pw
guarded-Agrees lib trap self s (set_reconnect_delay d m b) =
    set_reconnect_delay-Agrees lib trap self s d m b
