-- ===== src/Base/Utf8/Decoding.antt =====
-- Bytes that `std::str::from_utf8` accepts are those of the text that it gives.
use Prim.Native.Nat.{ℕ, zero, suc, ◌+◌, ◌-◌, ◌*◌, ◌≤◌, ◌<◌}
use mathlib.Core.List.{[], ◌∷◌, ◌++◌}
use mathlib.Core.Logic.{◌⊎◌, inl, inr}
use mathlib.Core.Option.{none, some}
use mathlib.Core.Path.{◌≡◌, refl, ap, ◌∙◌}
use native.Mathlib.Omega.{arith}
use mosquitto_rs.Base.Tests.{ltb, Bool-cases, Option-cases}
use mosquitto_rs.Base.Lists.{Str, Bytes, length, length-append, All}
use mosquitto_rs.Base.Utf8.{
  IsChar, encode_char, length-encode_char, as_bytes, Chunk, char, invalid, within, next_of, last_of,
  third_of, lowest, highest, decode_char, chunks, all_some, from_utf8,
}

-- A byte in the range was read.
next_of-char :
    (lo hi : ℕ) (more : ℕ → Bytes → Chunk) (high c : ℕ) (r rest : Bytes)
    → next_of lo hi more high r ≡ char c rest
    → (x : ℕ) × (r' : Bytes) × (r ≡ x ∷ r')
      × (lo ≤ x)
      × (x ≤ hi)
      × (more (high * 64 + (x - 0x80)) r' ≡ char c rest)
unfolding next_of within
next_of-char lo hi more high c [] rest e = cc e
next_of-char lo hi more high c (x ∷ r) rest e = elim (Bool-cases (within lo hi x)) [
  | inl h ↦ (x, r, refl, ground (arith, h), ground (arith, h), (rw h at e))
  | inr h ↦ let no : invalid (x ∷ r) ≡ char c rest = rw h at e in cc no
]

last_of-char :
    (high c : ℕ) (r rest : Bytes)
    → last_of high r ≡ char c rest
    → (x : ℕ) × (r ≡ x ∷ rest) × (0x80 ≤ x) × (x ≤ 0xBF) × (c ≡ high * 64 + (x - 0x80))
unfolding last_of
last_of-char high c r rest e =
    let (x, r', split, lo, hi, f) = next_of-char 0x80 0xBF char high c r rest e in
    (x, cc (split, f), lo, hi, cc f)

third_of-char :
    (high c : ℕ) (r rest : Bytes)
    → third_of high r ≡ char c rest
    → (x : ℕ) × (y : ℕ) × (r ≡ x ∷ y ∷ rest)
      × (0x80 ≤ x)
      × (x ≤ 0xBF)
      × (0x80 ≤ y)
      × (y ≤ 0xBF)
      × (c ≡ (high * 64 + (x - 0x80)) * 64 + (y - 0x80))
unfolding third_of
third_of-char high c r rest e =
    let (x, r', split, lo, hi, f) = next_of-char 0x80 0xBF last_of high c r rest e in
    let (y, split', lo', hi', g) = last_of-char (high * 64 + (x - 0x80)) c r' rest f in
    (x, y, cc (split, split'), lo, hi, lo', hi', g)

encode_one : (c : ℕ) → c < 0x80 → encode_char c ≡ c ∷ []
unfolding encode_char
encode_one c small = ground arith

encode_two :
    (b x : ℕ)
    → 0xC2 ≤ b
    → b ≤ 0xDF
    → 0x80 ≤ x
    → x ≤ 0xBF
    → (encode_char ((b - 0xC0) * 64 + (x - 0x80)) ≡ b ∷ x ∷ [])
      × IsChar ((b - 0xC0) * 64 + (x - 0x80))
unfolding encode_char
encode_two b x p q h k = (ground arith, ground arith)

encode_three :
    (b x y : ℕ)
    → 0xE0 ≤ b
    → b ≤ 0xEF
    → lowest b ≤ x
    → x ≤ highest b
    → 0x80 ≤ y
    → y ≤ 0xBF
    → (encode_char (((b - 0xE0) * 64 + (x - 0x80)) * 64 + (y - 0x80)) ≡ b ∷ x ∷ y ∷ [])
      × IsChar (((b - 0xE0) * 64 + (x - 0x80)) * 64 + (y - 0x80))
unfolding encode_char lowest highest
encode_three b x y p q h k v w = (ground arith, ground arith)

encode_four :
    (b x y z : ℕ)
    → 0xF0 ≤ b
    → b ≤ 0xF4
    → lowest b ≤ x
    → x ≤ highest b
    → 0x80 ≤ y
    → y ≤ 0xBF
    → 0x80 ≤ z
    → z ≤ 0xBF
    → (encode_char ((((b - 0xF0) * 64 + (x - 0x80)) * 64 + (y - 0x80)) * 64 + (z - 0x80))
        ≡ b ∷ x ∷ y ∷ z ∷ [])
      × IsChar ((((b - 0xF0) * 64 + (x - 0x80)) * 64 + (y - 0x80)) * 64 + (z - 0x80))
unfolding encode_char lowest highest
encode_four b x y z p q h k v w s t = (ground arith, ground arith)

encoded :
    (c k : ℕ) (bytes whole rest : Bytes)
    → c ≡ k
    → (encode_char k ≡ bytes) × IsChar k
    → whole ≡ bytes ++ rest
    → (whole ≡ encode_char c ++ rest) × IsChar c
encoded c k bytes whole rest is (code, scalar) split = (rw (is, code) split, rw is scalar)

-- A character that was decoded is encoded as the bytes that were read.
decode_char-encode_char :
    (b c : ℕ) (r rest : Bytes)
    → decode_char b r ≡ char c rest
    → (b ∷ r ≡ encode_char c ++ rest) × IsChar c
unfolding decode_char within
decode_char-encode_char b c r rest e = elim (Bool-cases (ltb b 0x80)) [
  | inl h ↦
      let read : char b r ≡ char c rest = rw h at e in
      let same : b ≡ c = cc read in
      let left : r ≡ rest = cc read in
      let small : c < 0x80 = ground (arith, h, same) in
      (rw (encode_one c small) (cc (same, left)), inl (ground (arith, small)))
  | inr h ↦ elim (Bool-cases (within 0xC2 0xDF b)) [
    | inl k ↦
        let (x, split, lo, hi, is) = last_of-char (b - 0xC0) c r rest (rw (h, k) at e) in
        encoded c _ (b ∷ x ∷ []) (b ∷ r) rest is
          (encode_two b x (ground (arith, k)) (ground (arith, k)) lo hi) (ap (◌∷◌ b) split)
    | inr k ↦ elim (Bool-cases (within 0xE0 0xEF b)) [
      | inl l ↦
          let (x, r', split, lo, hi, f) =
            next_of-char (lowest b) (highest b) last_of (b - 0xE0) c r rest (rw (h, k, l) at e) in
          let (y, split', lo', hi', is) = last_of-char ((b - 0xE0) * 64 + (x - 0x80)) c r' rest f in
          encoded c _ (b ∷ x ∷ y ∷ []) (b ∷ r) rest is
            (encode_three b x y (ground (arith, l)) (ground (arith, l)) lo hi lo' hi')
            (ap (◌∷◌ b) (split ∙ ap (◌∷◌ x) split'))
      | inr l ↦ elim (Bool-cases (within 0xF0 0xF4 b)) [
        | inl m ↦
            let (x, r', split, lo, hi, f) =
              next_of-char (lowest b) (highest b) third_of (b - 0xF0) c r rest
                (rw (h, k, l, m) at e) in
            let (y, z, split', lo', hi', lo'', hi'', is) =
              third_of-char ((b - 0xF0) * 64 + (x - 0x80)) c r' rest f in
            encoded c _ (b ∷ x ∷ y ∷ z ∷ []) (b ∷ r) rest is
              (encode_four b x y z (ground (arith, m)) (ground (arith, m)) lo hi lo' hi' lo'' hi'')
              (ap (◌∷◌ b) (split ∙ ap (◌∷◌ x) split'))
        | inr m ↦ let no : invalid r ≡ char c rest = rw (h, k, l, m) at e in cc no
      ]
    ]
  ]
]

Chunk-cases :
    (k : Chunk)
    → ((c : ℕ) × (rest : Bytes) × (k ≡ char c rest)) ⊎ ((rest : Bytes) × (k ≡ invalid rest))
Chunk-cases (char c rest) = inl (c, rest, refl)
Chunk-cases (invalid rest) = inr (rest, refl)

chunks-all_some :
    (n : ℕ) (bs : Bytes) (s : Str)
    → length bs ≤ n
    → all_some (chunks n bs) ≡ some s
    → (bs ≡ as_bytes s) × All IsChar s
unfolding chunks all_some as_bytes
chunks-all_some zero [] s fuel e = let empty : [] ≡ s = cc e in (rw⁻¹ empty refl, rw⁻¹ empty tt)
chunks-all_some (suc n) [] s fuel e = let empty : [] ≡ s = cc e in (rw⁻¹ empty refl, rw⁻¹ empty tt)
chunks-all_some zero (b ∷ bs) s fuel e = absurd (omega (arith, fuel))
chunks-all_some (suc n) (b ∷ bs) s fuel e = elim (Chunk-cases (decode_char b bs)) [
  | inl (c, rest, f) ↦ elim (Option-cases (all_some (chunks n rest))) [
    | inl g ↦ let no : none ≡ some s = rw (chunks, all_some, f, g) at e in cc no
    | inr (t, g) ↦
        let same : some (c ∷ t) ≡ some s = rw (chunks, all_some, f, g) at e in
        let whole : c ∷ t ≡ s = cc same in
        let (split, scalar) = decode_char-encode_char b c bs rest f in
        let (tail, scalars) =
          chunks-all_some n rest t
            (omega (
              arith,
              fuel,
              length-append (encode_char c) rest,
              length-encode_char c,
              ap length split,
            ))
            g in
        rw⁻¹ whole (split ∙ ap (λ r. encode_char c ++ r) tail, (scalar, scalars))
  ]
  | inr (rest, f) ↦ let no : none ≡ some s = rw (chunks, all_some, f) at e in cc no
]

-- `from_utf8` accepts just the bytes of texts, and gives the text.
pub from_utf8-some :
    (bs : Bytes) (s : Str) → from_utf8 bs ≡ some s → (bs ≡ as_bytes s) × All IsChar s
unfolding from_utf8
from_utf8-some bs s e = chunks-all_some (length bs) bs s (omega arith) e
