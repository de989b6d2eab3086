-- ===== src/Base/Utf8.antt =====
-- UTF-8 as Rust's `str` uses it: `as_bytes`, `std::str::from_utf8` and `to_string_lossy`.
pub mod Decoding
use Prim.Native.Nat.{ℕ, zero, suc, ◌+◌, ◌-◌, ◌*◌, ◌/◌, ◌%◌, ◌≤◌, ◌<◌}
use mathlib.Core.Bool.{Bool, ◌&&◌}
use mathlib.Core.List.{List, [], ◌∷◌, ◌++◌, map}
use mathlib.Core.Logic.{◌⊎◌}
use mathlib.Core.Option
use mathlib.Core.Option.{Option, none, some}
use mathlib.Core.Path.{◌≡◌, refl, ap, ◌∙◌}
use native.Mathlib.Omega.{arith}
use mosquitto_rs.Base.Tests.{leb, ltb, ◌==◌, if◌then◌else◌}
use native.Mathlib.Decide.{dec_lt}
use mosquitto_rs.Base.Lists.{Str, Bytes, length, length-append, All}

-- A Unicode scalar value, which is what a Rust `char` holds.
abbrev pub IsChar : ℕ → Type 0
IsChar c = (c < 0xD800) ⊎ ((0xE000 ≤ c) × (c < 0x110000))

pub encode_char : ℕ → Bytes
encode_char c =
    if ltb c 0x80
    then c ∷ []
    else if ltb c 0x800
    then (0xC0 + c / 64) ∷ (0x80 + c % 64) ∷ []
    else if ltb c 0x10000
    then (0xE0 + c / 4096) ∷ (0x80 + c / 64 % 64) ∷ (0x80 + c % 64) ∷ []
    else (0xF0 + c / 262144) ∷ (0x80 + c / 4096 % 64) ∷ (0x80 + c / 64 % 64) ∷ (0x80 + c % 64) ∷ []

-- `str::as_bytes`.
unfoldable pub as_bytes : Str → Bytes
unfolding encode_char
as_bytes [] = []
as_bytes (c ∷ s) = encode_char c ++ as_bytes s

-- One step of decoding: a character, or a maximal ill-formed prefix that is skipped.
pub data Chunk : Type 0 where
  char : ℕ → Bytes → Chunk
  invalid : Bytes → Chunk

within : ℕ → ℕ → ℕ → Bool
within lo hi b = leb lo b && leb b hi

-- Reads one byte in a range into the low six bits, and goes on.
next_of : ℕ → ℕ → (ℕ → Bytes → Chunk) → ℕ → Bytes → Chunk
unfolding within
next_of lo hi more high [] = invalid []
next_of lo hi more high (b ∷ r) =
    if within lo hi b then more (high * 64 + (b - 0x80)) r else invalid (b ∷ r)

last_of : ℕ → Bytes → Chunk
unfolding next_of
last_of = next_of 0x80 0xBF char

third_of : ℕ → Bytes → Chunk
unfolding next_of last_of
third_of = next_of 0x80 0xBF last_of

-- The second byte lies in a range that shuts out overlong forms, surrogates and large values.
lowest : ℕ → ℕ
lowest b = if b == 0xE0 then 0xA0 else if b == 0xF0 then 0x90 else 0x80

highest : ℕ → ℕ
highest b = if b == 0xED then 0x9F else if b == 0xF4 then 0x8F else 0xBF

decode_char : ℕ → Bytes → Chunk
unfolding within last_of third_of lowest highest
decode_char b r =
    if ltb b 0x80
    then char b r
    else if within 0xC2 0xDF b
    then last_of (b - 0xC0) r
    else if within 0xE0 0xEF b
    then next_of (lowest b) (highest b) last_of (b - 0xE0) r
    else if within 0xF0 0xF4 b
    then next_of (lowest b) (highest b) third_of (b - 0xF0) r
    else invalid r

-- Every chunk takes a byte, so the number of bytes is fuel enough.
chunks : ℕ → Bytes → List (Option ℕ)
unfolding decode_char
chunks zero bs = []
chunks (suc n) [] = []
chunks (suc n) (b ∷ r) = elim (decode_char b r) [
  | char c rest ↦ some c ∷ chunks n rest
  | invalid rest ↦ none ∷ chunks n rest
]

all_some : List (Option ℕ) → Option Str
all_some [] = some []
all_some (none ∷ os) = none
all_some (some c ∷ os) = Option.map (◌∷◌ c) (all_some os)

-- `std::str::from_utf8`.
unfoldable pub from_utf8 : Bytes → Option Str
unfolding chunks all_some
from_utf8 bs = all_some (chunks (length bs) bs)

replace : List (Option ℕ) → Str
replace [] = []
replace (none ∷ os) = 0xFFFD ∷ replace os
replace (some c ∷ os) = c ∷ replace os

-- `CStr::to_string_lossy`.
unfoldable pub to_string_lossy : Bytes → Str
unfolding chunks replace
to_string_lossy bs = replace (chunks (length bs) bs)

next_of_lem :
    (lo hi : ℕ) (more : ℕ → Bytes → Chunk) (high b : ℕ) (r : Bytes)
    → lo ≤ b
    → b ≤ hi
    → next_of lo hi more high (b ∷ r) ≡ more (high * 64 + (b - 0x80)) r
unfolding next_of
next_of_lem lo hi more high b r p q = ground arith

-- What is encoded is decoded, whatever follows.
module _ (r : Bytes) where
  decode_one : (x : ℕ) → x < 128 → decode_char x r ≡ char x r
  unfolding decode_char
  decode_one x p = ground arith

  decode_two :
      (x y : ℕ)
      → 2 ≤ x
      → x < 32
      → y < 64
      → decode_char (0xC0 + x) ((0x80 + y) ∷ r) ≡ char (x * 64 + y) r
  unfolding decode_char
  decode_two x y p q h = ground arith

  decode_three :
      (x y z : ℕ)
      → x < 16
      → y < 64
      → z < 64
      → IsChar (x * 4096 + y * 64 + z)
      → 0x800 ≤ x * 4096 + y * 64 + z
      → decode_char (0xE0 + x) ((0x80 + y) ∷ (0x80 + z) ∷ r) ≡ char (x * 4096 + y * 64 + z) r
  unfolding decode_char
  decode_three x y z p q h v w = ground arith

  decode_four :
      (x y z t : ℕ)
      → x < 5
      → y < 64
      → z < 64
      → t < 64
      → x * 262144 + y * 4096 + z * 64 + t < 0x110000
      → 0x10000 ≤ x * 262144 + y * 4096 + z * 64 + t
      → decode_char (0xF0 + x) ((0x80 + y) ∷ (0x80 + z) ∷ (0x80 + t) ∷ r)
        ≡ char (x * 262144 + y * 4096 + z * 64 + t) r
  unfolding decode_char
  decode_four x y z t p q h k v w = ground arith

  -- Facts about the digits of a character in base 64.
  digits_two : (c : ℕ) → c / 64 * 64 + c % 64 ≡ c
  digits_two c = omega arith

  digits_three : (c : ℕ) → c / 4096 * 4096 + c / 64 % 64 * 64 + c % 64 ≡ c
  digits_three c = omega arith

  digits_four : (c : ℕ) → c / 262144 * 262144 + c / 4096 % 64 * 4096 + c / 64 % 64 * 64 + c % 64 ≡ c
  digits_four c = omega arith

  chunks_of :
      (n b c : ℕ) (bs : Bytes)
      → decode_char b (bs ++ r) ≡ char c r
      → chunks (suc n) ((b ∷ bs) ++ r) ≡ some c ∷ chunks n r
  unfolding chunks
  chunks_of n b c bs e = rw (e, chunks) refl

  chunks-encode_char :
      (n c : ℕ) → IsChar c → chunks (suc n) (encode_char c ++ r) ≡ some c ∷ chunks n r
  unfolding encode_char
  chunks-encode_char n c v = elim (dec_lt c 0x80) [
    | yes a ↦ via c [] (ground arith) (decode_one c a)
    | no a ↦ elim (dec_lt c 0x800) [
      | yes b ↦ via (0xC0 + c / 64) ((0x80 + c % 64) ∷ []) (ground arith) (
          decode_two (c / 64) (c % 64) (omega arith) (omega arith) (omega arith)
          ∙ ap (λ k. char k r) (digits_two c))
      | no b ↦ elim (dec_lt c 0x10000) [
        | yes d ↦
            via (0xE0 + c / 4096) ((0x80 + c / 64 % 64) ∷ (0x80 + c % 64) ∷ []) (ground arith) (
              decode_three (c / 4096) (c / 64 % 64) (c % 64) (omega arith) (omega arith)
                (omega arith) (rw (digits_three c) v) (omega arith)
              ∙ ap (λ k. char k r) (digits_three c))
        | no d ↦
            via (0xF0 + c / 262144)
              ((0x80 + c / 4096 % 64) ∷ (0x80 + c / 64 % 64) ∷ (0x80 + c % 64) ∷ []) (ground arith)
              (decode_four (c / 262144) (c / 4096 % 64) (c / 64 % 64) (c % 64) (omega arith)
                  (omega arith) (omega arith) (omega arith) (omega arith) (omega arith)
                ∙ ap (λ k. char k r) (digits_four c))
      ]
    ]
  ]
    where
      via :
          (b : ℕ) (bs : Bytes)
          → encode_char c ≡ b ∷ bs
          → decode_char b (bs ++ r) ≡ char c r
          → chunks (suc n) (encode_char c ++ r) ≡ some c ∷ chunks n r
      via b bs e d = rw e (chunks_of n b c bs d)

pub length-encode_char : (c : ℕ) → 0 < length (encode_char c)
unfolding encode_char
length-encode_char c = ground arith

chunks-as_bytes :
    (n : ℕ) (s : Str) → All IsChar s → length (as_bytes s) ≤ n → chunks n (as_bytes s) ≡ map some s
unfolding as_bytes chunks
chunks-as_bytes zero [] v h = refl
chunks-as_bytes (suc n) [] v h = refl
chunks-as_bytes zero (c ∷ s) (p, v) h =
    absurd (omega (arith, length-append (encode_char c) (as_bytes s), length-encode_char c))
chunks-as_bytes (suc n) (c ∷ s) (p, v) h = rw (chunks-encode_char (as_bytes s) n c p) (
    ap (◌∷◌ (some c)) (
      chunks-as_bytes n s v
        (omega (arith, length-append (encode_char c) (as_bytes s), length-encode_char c))))

all_some-map : (s : Str) → all_some (map some s) ≡ some s
unfolding all_some
all_some-map [] = refl
all_some-map (c ∷ s) = rw (all_some-map s)

replace-map : (s : Str) → replace (map some s) ≡ s
unfolding replace
replace-map [] = refl
replace-map (c ∷ s) = rw (replace-map s)

-- A text survives its bytes, strictly and leniently decoded.
pub from_utf8-as_bytes : (s : Str) → All IsChar s → from_utf8 (as_bytes s) ≡ some s
unfolding from_utf8
from_utf8-as_bytes s v =
    rw (chunks-as_bytes (length (as_bytes s)) s v (omega arith)) (all_some-map s)

pub to_string_lossy-as_bytes : (s : Str) → All IsChar s → to_string_lossy (as_bytes s) ≡ s
unfolding to_string_lossy
to_string_lossy-as_bytes s v =
    rw (chunks-as_bytes (length (as_bytes s)) s v (omega arith)) (replace-map s)

lossy_test :
    to_string_lossy (0x61 ∷ 0xE2 ∷ 0x82 ∷ 0x62 ∷ 0xFF ∷ 0xC3 ∷ 0xA9 ∷ [])
    ≡ 0x61 ∷ 0xFFFD ∷ 0x62 ∷ 0xFFFD ∷ 0xE9 ∷ []
unfolding to_string_lossy
lossy_test = refl
