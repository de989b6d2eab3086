-- ===== src/Lowlevel/Arguments.antt =====
-- The arguments that the methods of mosquitto-rs/src/lowlevel.rs make for C are of the kind that C
-- may be given.
use mosquitto_rs.Base.{
  ℕ, ◌+◌, ◌≡◌, refl, ◌⊎◌, inl, inr, Bool, true, ◌&&◌, Option, none, some, [], ◌∷◌, Str, Bytes,
  Result, ok, err, map_err, arith,
}
use mosquitto_rs.Base.Int.{pos, to_c_int, to_c_uint}
use mosquitto_rs.Base.Utf8.{as_bytes}
use mosquitto_rs.Error.{Error, c_string}
use mosquitto_rs.Lowlevel.Calls.{HasNoNul, nul_position_cases}
use mosquitto_rs.Lowlevel.Guarded.{
  no_nul, is_text, is_text_or_null, fits_c_int, fits_c_uint, is_qos,
}
use mosquitto_rs.Lowlevel.Status.{QoS, at_most_once, at_least_once, exactly_once, qos_code}
use mosquitto_rs.Lowlevel.Strings.{c_string_new, cstr, opt_cstr, path_to_cstring}

pub HasNoNul-no_nul : (bs : Bytes) → HasNoNul bs → no_nul bs ≡ true
unfolding no_nul
HasNoNul-no_nul [] h = refl
HasNoNul-no_nul (b ∷ bs) (n, h) = ground (arith, HasNoNul-no_nul bs h)

-- The argument that is handed on is good, or the method stops at an error.
abbrev pub Good : {A : Type 0} → (A → Bool) → Result A Error → Type 0
Good {A} good r = ((a : A) × (r ≡ ok a) × (good a ≡ true)) ⊎ ((e : Error) × (r ≡ err e))

pub c_string_new-Good : (bs : Bytes) → Good is_text (map_err c_string (c_string_new bs))
unfolding c_string_new
c_string_new-Good bs = elim (nul_position_cases 0 bs) [
  | inl (h, e) ↦ inl (record { bytes = bs }, rw (e, c_string_new) refl, HasNoNul-no_nul bs h)
  | inr (i, first, e) ↦
      inr (c_string (record { position = 0 + i; bytes = bs }), rw (e, c_string_new) refl)
]

pub cstr-Good : (s : Str) → Good is_text (cstr s)
unfolding cstr
cstr-Good s = c_string_new-Good (as_bytes s)

pub opt_cstr-Good : (o : Option Str) → Good is_text_or_null (opt_cstr o)
unfolding opt_cstr
opt_cstr-Good none = inl (none, refl, refl)
opt_cstr-Good (some s) = elim (cstr-Good s) [
  | inl (c, e, good) ↦ inl (some c, rw (e, opt_cstr) refl, good)
  | inr (x, e) ↦ inr (x, rw (e, opt_cstr) refl)
]

pub path_to_cstring-Good : (o : Option Bytes) → Good is_text_or_null (path_to_cstring o)
unfolding path_to_cstring
path_to_cstring-Good none = inl (none, refl, refl)
path_to_cstring-Good (some p) = elim (c_string_new-Good p) [
  | inl (c, e, good) ↦ inl (some c, rw (e, path_to_cstring) refl, good)
  | inr (x, e) ↦ inr (x, rw (e, path_to_cstring) refl)
]

pub to_c_int-Good :
    (n : ℕ) → ((to_c_int n ≡ some (pos n)) × (fits_c_int (pos n) ≡ true)) ⊎ (to_c_int n ≡ none)
unfolding to_c_int
to_c_int-Good n = ground arith

pub to_c_uint-Good :
    (n : ℕ) → ((to_c_uint n ≡ some n) × (fits_c_uint n ≡ true)) ⊎ (to_c_uint n ≡ none)
unfolding to_c_uint
to_c_uint-Good n = ground arith

pub qos_code-is_qos : (q : QoS) → is_qos (qos_code q) ≡ true
unfolding qos_code
qos_code-is_qos at_most_once = refl
qos_code-is_qos at_least_once = refl
qos_code-is_qos exactly_once = refl

pub both : {p q : Bool} → p ≡ true → q ≡ true → (p && q) ≡ true
both e f = rw (e, f) refl
