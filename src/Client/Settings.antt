-- ===== src/Client/Settings.antt =====
-- `Client::set_option` of mosquitto-rs/src/client.rs: what each option becomes in the C library.
use mosquitto_rs.Base.{
  ℕ, ◌==◌, ◌≡◌, refl, ◌⊎◌, inl, inr, false, true, Option, none, some, Str, err, if◌then◌else◌,
}
use mosquitto_rs.Base.Int.{ℤ, pos, negsuc}
use mosquitto_rs.Base.Utf8.{as_bytes}
use mosquitto_rs.Client.Data.{
  ClientOption, protocol_version, receive_maximum, send_maximum, ocsp_required, tls_engine,
  tls_key_form, tls_k_pass_sha1, tls_alpn, v31, v311, v5, version_code,
}
use mosquitto_rs.Client.Setup.{set_option}
use mosquitto_rs.Client.State.{Platform, State, on_process}
use mosquitto_rs.Error.{c_string}
use mosquitto_rs.Lowlevel.Calls.{HasNoNul, FirstNul, cstr_cases}
use mosquitto_rs.Lowlevel.Io.{check}
use mosquitto_rs.Lowlevel.Mosq.{Mosq}
use mosquitto_rs.Lowlevel.Options as options
use mosquitto_rs.Sys.{MosqOpt, opt_code}

abbrev read_version : ℤ → Option ClientOption
read_version (pos n) =
    if n == 3
    then some (protocol_version v31)
    else if n == 4
    then some (protocol_version v311)
    else if n == 5
    then some (protocol_version v5)
    else none
read_version (negsuc n) = none

abbrev read_flag : ℤ → Option ClientOption
read_flag (pos n) =
    if n == 0
    then some (ocsp_required false)
    else if n == 1
    then some (ocsp_required true)
    else none
read_flag (negsuc n) = none

abbrev read_count : (ℕ → ClientOption) → ℤ → Option ClientOption
read_count make (pos n) = some (make n)
read_count make (negsuc n) = none

-- What a number means to the C library, by the number of its option in mosquitto.h.
abbrev pub read_int : ℕ → ℤ → Option ClientOption
read_int o v =
    if o == 1
    then read_version v
    else if o == 4
    then read_count receive_maximum v
    else if o == 5
    then read_count send_maximum v
    else if o == 9
    then read_flag v
    else none

-- What a text means to it.
abbrev pub read_text : ℕ → Str → Option ClientOption
read_text o s =
    if o == 6
    then some (tls_key_form s)
    else if o == 7
    then some (tls_engine s)
    else if o == 8
    then some (tls_k_pass_sha1 s)
    else if o == 10
    then some (tls_alpn s)
    else none

-- The text of an option that has one.
abbrev pub text_of : ClientOption → Option Str
text_of (protocol_version v) = none
text_of (receive_maximum n) = none
text_of (send_maximum n) = none
text_of (ocsp_required b) = none
text_of (tls_engine s) = some s
text_of (tls_key_form s) = some s
text_of (tls_k_pass_sha1 s) = some s
text_of (tls_alpn s) = some s

module _ (p : Platform) (self : Mosq p.lib) (option : ClientOption) (st : State p) where
  -- One call with a number, from which the option can be read.
  abbrev pub SetsInt : Type 0
  SetsInt =
      (o : MosqOpt) × (v : ℤ) × (read_int (opt_code o) v ≡ some option)
      × (set_option p self option st
          ≡ on_process p (check p.lib (p.lib.mosquitto_opts_set self.m o v)) st)

  -- One call with a text that has no NUL in it, from which the option can be read.
  abbrev pub SetsText : Type 0
  SetsText =
      (o : MosqOpt) × (s : Str) × (text_of option ≡ some s)
      × HasNoNul (as_bytes s)
      × (read_text (opt_code o) s ≡ some option)
      × (set_option p self option st
          ≡ on_process p
              (check p.lib (p.lib.mosquitto_string_option self.m o (record { bytes = as_bytes s })))
              st)

  -- No call, since the text has a NUL.
  abbrev pub Refuses : Type 0
  Refuses =
      (s : Str) × (text_of option ≡ some s)
      × (i : ℕ) × FirstNul (as_bytes s) i
      × (set_option p self option st
          ≡ (err (c_string (record { position = i; bytes = as_bytes s })), st))

module _ (p : Platform) (self : Mosq p.lib) (st : State p) where
  string_option_cases :
      (o : MosqOpt) (s : Str)
      → (HasNoNul (as_bytes s)
          × (on_process p (options.set_string_option p.lib self o s) st
              ≡ on_process p
                  (check p.lib
                    (p.lib.mosquitto_string_option self.m o (record { bytes = as_bytes s })))
                  st))
        ⊎ ((i : ℕ) × FirstNul (as_bytes s) i
            × (on_process p (options.set_string_option p.lib self o s) st
                ≡ (err (c_string (record { position = i; bytes = as_bytes s })), st)))
  unfolding options.set_string_option on_process
  string_option_cases o s = elim (cstr_cases s) [
    | inl (h, e) ↦ inl (h, rw (e, options.set_string_option) refl)
    | inr (i, first, e) ↦ inr (i, first, rw (e, options.set_string_option) refl)
  ]

  -- Setting an option makes one call of the C library, with the number of the option and a number
  -- or a text from which the option can be read back, and gives what the call gives; but a text with
  -- a NUL is refused with the place of the first one, and nothing has changed.
  pub set_option_cases :
      (option : ClientOption)
      → SetsInt p self option st ⊎ SetsText p self option st ⊎ Refuses p self option st
  unfolding set_option options.set_int_option version_code opt_code
  set_option_cases (protocol_version v31) = inl (MosqOpt.protocol_version, pos 3, refl, refl)
  set_option_cases (protocol_version v311) = inl (MosqOpt.protocol_version, pos 4, refl, refl)
  set_option_cases (protocol_version v5) = inl (MosqOpt.protocol_version, pos 5, refl, refl)
  set_option_cases (receive_maximum n) = inl (MosqOpt.receive_maximum, pos n, refl, refl)
  set_option_cases (send_maximum n) = inl (MosqOpt.send_maximum, pos n, refl, refl)
  set_option_cases (ocsp_required true) = inl (MosqOpt.tls_ocsp_required, pos 1, refl, refl)
  set_option_cases (ocsp_required false) = inl (MosqOpt.tls_ocsp_required, pos 0, refl, refl)
  set_option_cases (tls_engine s) = elim (string_option_cases MosqOpt.tls_engine s) [
    | inl (h, e) ↦ inr (inl (MosqOpt.tls_engine, s, refl, h, refl, e))
    | inr (i, first, e) ↦ inr (inr (s, refl, i, first, e))
  ]
  set_option_cases (tls_key_form s) = elim (string_option_cases MosqOpt.tls_keyform s) [
    | inl (h, e) ↦ inr (inl (MosqOpt.tls_keyform, s, refl, h, refl, e))
    | inr (i, first, e) ↦ inr (inr (s, refl, i, first, e))
  ]
  set_option_cases (tls_k_pass_sha1 s) =
      elim (string_option_cases MosqOpt.tls_engine_kpass_sha1 s) [
        | inl (h, e) ↦ inr (inl (MosqOpt.tls_engine_kpass_sha1, s, refl, h, refl, e))
        | inr (i, first, e) ↦ inr (inr (s, refl, i, first, e))
      ]
  set_option_cases (tls_alpn s) = elim (string_option_cases MosqOpt.tls_alpn s) [
    | inl (h, e) ↦ inr (inl (MosqOpt.tls_alpn, s, refl, h, refl, e))
    | inr (i, first, e) ↦ inr (inr (s, refl, i, first, e))
  ]
