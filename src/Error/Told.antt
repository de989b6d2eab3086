-- ===== src/Error/Told.antt =====
-- The text of an error of mosquitto-rs/src/error.rs tells the result code of libmosquitto.
use mathlib.Core.List.{append_cancel_left}
use mosquitto_rs.Base.{
  differ, ◌==◌, ◌≡◌, refl, sym, ap, ◌∙◌, Bool, true, false, ◌&&◌, List, [], ◌∷◌, Str, str, arith,
  if◌then◌else◌,
}
use mosquitto_rs.Base.Int.{ℤ, pos, show_int}
use mosquitto_rs.Base.Int.Reading.{show_int-inj}
use mosquitto_rs.Error.{Error, io, mosq, unknown_mosq, resolution, from_err}
use mosquitto_rs.Error.Codes.{Reports, from_err-Reports}
use mosquitto_rs.Error.Text.{mosq_debug, error_display}
use mosquitto_rs.Sys.{MosqErr, err_code}
use mosquitto_rs.Sys.Library.{Library, IoError}

same_text : Str → Str → Bool
same_text [] [] = true
same_text [] (c ∷ t) = false
same_text (c ∷ s) [] = false
same_text (c ∷ s) (d ∷ t) = c == d && same_text s t

-- The code of the enumerator with the name.
named : Str → List MosqErr → ℤ
unfolding same_text
named s [] = pos 0
named s (e ∷ es) = let rest = named s es in if same_text s (mosq_debug e) then err_code e else rest

abbrev enumerators : List MosqErr
enumerators =
    MosqErr.auth_continue ∷ MosqErr.no_subscribers ∷ MosqErr.sub_exists ∷ MosqErr.conn_pending
    ∷ MosqErr.success ∷ MosqErr.nomem ∷ MosqErr.protocol ∷ MosqErr.inval ∷ MosqErr.no_conn
    ∷ MosqErr.conn_refused ∷ MosqErr.not_found ∷ MosqErr.conn_lost ∷ MosqErr.tls
    ∷ MosqErr.payload_size ∷ MosqErr.not_supported ∷ MosqErr.auth ∷ MosqErr.acl_denied
    ∷ MosqErr.unknown ∷ MosqErr.errno ∷ MosqErr.eai ∷ MosqErr.proxy ∷ MosqErr.plugin_defer
    ∷ MosqErr.malformed_utf8 ∷ MosqErr.keepalive ∷ MosqErr.lookup ∷ MosqErr.malformed_packet
    ∷ MosqErr.duplicate_property ∷ MosqErr.tls_handshake ∷ MosqErr.qos_not_supported
    ∷ MosqErr.oversize_packet ∷ MosqErr.ocsp ∷ MosqErr.timeout ∷ MosqErr.retain_not_supported
    ∷ MosqErr.topic_alias_invalid ∷ MosqErr.administrative_action ∷ MosqErr.already_exists ∷ []

named-mosq_debug : (e : MosqErr) → named (mosq_debug e) enumerators ≡ err_code e
unfolding named mosq_debug err_code
named-mosq_debug MosqErr.auth_continue = refl
named-mosq_debug MosqErr.no_subscribers = refl
named-mosq_debug MosqErr.sub_exists = refl
named-mosq_debug MosqErr.conn_pending = refl
named-mosq_debug MosqErr.success = refl
named-mosq_debug MosqErr.nomem = refl
named-mosq_debug MosqErr.protocol = refl
named-mosq_debug MosqErr.inval = refl
named-mosq_debug MosqErr.no_conn = refl
named-mosq_debug MosqErr.conn_refused = refl
named-mosq_debug MosqErr.not_found = refl
named-mosq_debug MosqErr.conn_lost = refl
named-mosq_debug MosqErr.tls = refl
named-mosq_debug MosqErr.payload_size = refl
named-mosq_debug MosqErr.not_supported = refl
named-mosq_debug MosqErr.auth = refl
named-mosq_debug MosqErr.acl_denied = refl
named-mosq_debug MosqErr.unknown = refl
named-mosq_debug MosqErr.errno = refl
named-mosq_debug MosqErr.eai = refl
named-mosq_debug MosqErr.proxy = refl
named-mosq_debug MosqErr.plugin_defer = refl
named-mosq_debug MosqErr.malformed_utf8 = refl
named-mosq_debug MosqErr.keepalive = refl
named-mosq_debug MosqErr.lookup = refl
named-mosq_debug MosqErr.malformed_packet = refl
named-mosq_debug MosqErr.duplicate_property = refl
named-mosq_debug MosqErr.tls_handshake = refl
named-mosq_debug MosqErr.qos_not_supported = refl
named-mosq_debug MosqErr.oversize_packet = refl
named-mosq_debug MosqErr.ocsp = refl
named-mosq_debug MosqErr.timeout = refl
named-mosq_debug MosqErr.retain_not_supported = refl
named-mosq_debug MosqErr.topic_alias_invalid = refl
named-mosq_debug MosqErr.administrative_action = refl
named-mosq_debug MosqErr.already_exists = refl

mosq_debug-inj : (d e : MosqErr) → mosq_debug d ≡ mosq_debug e → err_code d ≡ err_code e
mosq_debug-inj d e h =
    sym (named-mosq_debug d) ∙ ap (λ s. named s enumerators) h ∙ named-mosq_debug e

module _ {Obj : Type 0} (lib : Library Obj) (io_display : IoError → Str) where
  -- Texts that begin differently belong to different kinds of errors.
  Reports-error_display :
      (w w' : lib.World) (c c' : ℤ) (e e' : Error)
      → Reports lib w c e
      → Reports lib w' c' e'
      → error_display io_display e ≡ error_display io_display e'
      → c ≡ c'
  unfolding error_display
  Reports-error_display w w' c c' (io _) (io _) (p, _) (q, _) t = p ∙ sym q
  Reports-error_display w w' c c' (io _) (resolution _) r r' t = differ 0 (ground arith) t
  Reports-error_display w w' c c' (io _) (mosq _) r r' t = differ 0 (ground arith) t
  Reports-error_display w w' c c' (io _) (unknown_mosq _) r r' t = differ 0 (ground arith) t
  Reports-error_display w w' c c' (resolution _) (io _) r r' t = differ 0 (ground arith) t
  Reports-error_display w w' c c' (resolution _) (resolution _) (p, _) (q, _) t = p ∙ sym q
  Reports-error_display w w' c c' (resolution _) (mosq _) r r' t = differ 0 (ground arith) t
  Reports-error_display w w' c c' (resolution _) (unknown_mosq _) r r' t = differ 0 (ground arith) t
  Reports-error_display w w' c c' (mosq _) (io _) r r' t = differ 0 (ground arith) t
  Reports-error_display w w' c c' (mosq _) (resolution _) r r' t = differ 0 (ground arith) t
  Reports-error_display w w' c c' (mosq d) (mosq e) (p, _, _, _) (q, _, _, _) t =
      sym p
      ∙ mosq_debug-inj d e (append_cancel_left (str "mosq error: ") (mosq_debug d) (mosq_debug e) t)
      ∙ q
  Reports-error_display w w' c c' (mosq d) (unknown_mosq _) r r' t = differ 10 (ground arith) t
  Reports-error_display w w' c c' (unknown_mosq _) (io _) r r' t = differ 0 (ground arith) t
  Reports-error_display w w' c c' (unknown_mosq _) (resolution _) r r' t = differ 0 (ground arith) t
  Reports-error_display w w' c c' (unknown_mosq _) (mosq e) r r' t = differ 10 (ground arith) t
  Reports-error_display w w' c c' (unknown_mosq m) (unknown_mosq n) (p, _) (q, _) t =
      sym p
      ∙ show_int-inj m n (append_cancel_left (str "mosq error code ") (show_int m) (show_int n) t)
      ∙ q
  Reports-error_display w w' c c' (Error.create _) e' r r' t = absurd r
  Reports-error_display w w' c c' (Error.c_string _) e' r r' t = absurd r
  Reports-error_display w w' c c' (Error.rejected_connection _) e' r r' t = absurd r
  Reports-error_display w w' c c' (io _) (Error.create _) r r' t = absurd r'
  Reports-error_display w w' c c' (io _) (Error.c_string _) r r' t = absurd r'
  Reports-error_display w w' c c' (io _) (Error.rejected_connection _) r r' t = absurd r'
  Reports-error_display w w' c c' (resolution _) (Error.create _) r r' t = absurd r'
  Reports-error_display w w' c c' (resolution _) (Error.c_string _) r r' t = absurd r'
  Reports-error_display w w' c c' (resolution _) (Error.rejected_connection _) r r' t = absurd r'
  Reports-error_display w w' c c' (mosq _) (Error.create _) r r' t = absurd r'
  Reports-error_display w w' c c' (mosq _) (Error.c_string _) r r' t = absurd r'
  Reports-error_display w w' c c' (mosq _) (Error.rejected_connection _) r r' t = absurd r'
  Reports-error_display w w' c c' (unknown_mosq _) (Error.create _) r r' t = absurd r'
  Reports-error_display w w' c c' (unknown_mosq _) (Error.c_string _) r r' t = absurd r'
  Reports-error_display w w' c c' (unknown_mosq _) (Error.rejected_connection _) r r' t = absurd r'

  -- Two result codes of libmosquitto whose errors have the same text are the same code, in whatever
  -- states of the C library the errors were made.
  pub from_err-error_display :
      (w w' : lib.World) (c c' : ℤ)
      → error_display io_display (from_err lib c w) ≡ error_display io_display (from_err lib c' w')
      → c ≡ c'
  from_err-error_display w w' c c' t =
      Reports-error_display w w' c c' (from_err lib c w) (from_err lib c' w')
        (from_err-Reports lib w c) (from_err-Reports lib w' c') t
