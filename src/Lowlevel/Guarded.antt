-- ===== src/Lowlevel/Guarded.antt =====
-- What libmosquitto may rely on when mosquitto-rs/src/lowlevel.rs calls it: texts that end at their
-- NUL, lengths that are the lengths, and numbers that fit the C types.
use mosquitto_rs.Base.{
  ℕ, ltb, ◌==◌, Bool, true, false, not, ◌&&◌, Option, none, some, [], ◌∷◌, Bytes, length,
}
use mosquitto_rs.Base.Int.{ℤ, pos, negsuc, ◌==ℤ◌}
use mosquitto_rs.Lowlevel.Mosq.{Mosq}
use mosquitto_rs.Sys.Library.{Library, CString}

unfoldable pub no_nul : Bytes → Bool
no_nul [] = true
no_nul (b ∷ bs) = not (b == 0) && no_nul bs

abbrev pub is_text : CString → Bool
is_text c = no_nul c.bytes

abbrev pub is_text_or_null : Option CString → Bool
is_text_or_null none = true
is_text_or_null (some c) = is_text c

abbrev pub fits_c_int : ℤ → Bool
fits_c_int (pos n) = ltb n 2147483648
fits_c_int (negsuc n) = ltb n 2147483648

abbrev pub fits_c_uint : ℕ → Bool
fits_c_uint n = ltb n 4294967296

abbrev pub is_qos : ℤ → Bool
is_qos (pos n) = ltb n 3
is_qos (negsuc n) = false

abbrev pub is_length : ℤ → Bytes → Bool
is_length len payload = fits_c_int len && len ==ℤ pos (length payload)

module _ {CB : Type 0} (lib : Library CB) (trap : lib.World → lib.World) where
  abbrev pub trapped : Bool → ℤ × lib.World → lib.World → ℤ × lib.World
  trapped true r w = r
  trapped false r w = (pos 0, trap w)

  abbrev pub trapped_mid : Bool → ℤ × ℤ × lib.World → lib.World → ℤ × ℤ × lib.World
  trapped_mid true r w = r
  trapped_mid false r w = (pos 0, pos 0, trap w)

  abbrev pub trapped_new :
      Bool → Option lib.Handle × lib.World → lib.World → Option lib.Handle × lib.World
  trapped_new true r w = r
  trapped_new false r w = (none, trap w)

  -- The library, but that a call with an argument of the wrong kind does `trap`.
  abbrev pub guarded : Library CB
  guarded = record lib {
    mosquitto_new =
        λ id clean obj w. trapped_new (is_text_or_null id) (lib.mosquitto_new id clean obj w) w;
    mosquitto_username_pw_set = λ m user pass w.
        trapped (is_text_or_null user && is_text_or_null pass)
          (lib.mosquitto_username_pw_set m user pass w) w;
    mosquitto_connect_bind = λ m host port keep bind w.
        trapped (is_text host && fits_c_int keep && is_text_or_null bind)
          (lib.mosquitto_connect_bind m host port keep bind w) w;
    mosquitto_connect_bind_async = λ m host port keep bind w.
        trapped (is_text host && fits_c_int keep && is_text_or_null bind)
          (lib.mosquitto_connect_bind_async m host port keep bind w) w;
    mosquitto_publish = λ m mid topic len payload qos retain w.
        trapped_mid (is_text topic && is_length len payload && is_qos qos)
          (lib.mosquitto_publish m mid topic len payload qos retain w) w;
    mosquitto_subscribe = λ m mid sub qos w.
        trapped_mid (is_text sub && is_qos qos) (lib.mosquitto_subscribe m mid sub qos w) w;
    mosquitto_unsubscribe =
        λ m mid sub w. trapped_mid (is_text sub) (lib.mosquitto_unsubscribe m mid sub w) w;
    mosquitto_will_set = λ m topic len payload qos retain w.
        trapped (is_text topic && is_length len payload && is_qos qos)
          (lib.mosquitto_will_set m topic len payload qos retain w) w;
    mosquitto_loop_forever = λ m timeout n w.
        trapped (fits_c_int timeout && fits_c_int n) (lib.mosquitto_loop_forever m timeout n w) w;
    mosquitto_string_option =
        λ m o v w. trapped (is_text v) (lib.mosquitto_string_option m o v w) w;
    mosquitto_tls_set = λ m a b c e f w.
        trapped (is_text_or_null a && is_text_or_null b && is_text_or_null c && is_text_or_null e)
          (lib.mosquitto_tls_set m a b c e f w) w;
    mosquitto_reconnect_delay_set = λ m delay max backoff w.
        trapped (fits_c_uint delay && fits_c_uint max)
          (lib.mosquitto_reconnect_delay_set m delay max backoff w) w;
  }

  -- The same handle, for the library with its guards.
  abbrev pub guard : Mosq lib → Mosq guarded
  guard self = record { m = self.m; cb = self.cb }
