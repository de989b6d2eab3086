-- ===== src/Tests/Printing.antt =====
-- The debug text of concrete messages.
use mathlib.Core.List.{append_cancel_left}
use mosquitto_rs.Base.{
  ℕ, ◌==◌, ◌≡◌, ◌≢◌, refl, sym, ap, Bool, false, ◌||◌, [], ◌∷◌, ◌++◌, Str, str, arith,
  if◌then◌else◌, Bool-cases, inl, inr,
}
use mosquitto_rs.Base.Int.{pos, show_int}
use mosquitto_rs.Base.Utf8.{from_utf8}
use mosquitto_rs.Client.Data.{Message}
use mosquitto_rs.Client.Debug.{message_debug}
use mosquitto_rs.Client.Printed.{Quoting, IsDelimited, message_debug-inj}
use mosquitto_rs.Lowlevel.Status.{QoS}

-- A text between quotation marks, with those and backslashes in it escaped.
special : ℕ → Bool
special c = c == b'"' || c == b'\\'

escape : Str → Str
unfolding special
escape [] = b'"' ∷ []
escape (c ∷ s) = if special c then b'\\' ∷ c ∷ escape s else c ∷ escape s

unfoldable quote : Str → Str
unfolding escape
quote s = b'"' ∷ escape s

abbrev first : Str → ℕ
first [] = 0
first (c ∷ s) = c

abbrev rest_of : Str → Str
rest_of [] = []
rest_of (c ∷ s) = s

special_quote : (c : ℕ) → special c ≡ false → (c ≢ b'"') × (c ≢ b'\\')
unfolding special
special_quote c h = (ground (arith, h), ground (arith, h))

escape-IsDelimited : IsDelimited escape
unfolding escape
escape-IsDelimited [] [] x y e = (refl, append_cancel_left (b'"' ∷ []) x y e)
escape-IsDelimited [] (d ∷ t) x y e = elim (Bool-cases (special d)) [
  | inl h ↦
      let clash : b'"' ≡ b'\\' = ap first (rw (escape, h) at e) in absurd (omega (arith, clash))
  | inr h ↦
      let clash : b'"' ≡ d = ap first (rw (escape, h) at e) in
      absurd ((special_quote d h).0 (sym clash))
]
escape-IsDelimited (c ∷ s) [] x y e = elim (Bool-cases (special c)) [
  | inl h ↦
      let clash : b'\\' ≡ b'"' = ap first (rw (escape, h) at e) in absurd (omega (arith, clash))
  | inr h ↦
      let clash : c ≡ b'"' = ap first (rw (escape, h) at e) in absurd ((special_quote c h).0 clash)
]
escape-IsDelimited (c ∷ s) (d ∷ t) x y e = elim (Bool-cases (special c)) [
  | inl h ↦ elim (Bool-cases (special d)) [
    | inl k ↦
        let e' : b'\\' ∷ c ∷ (escape s ++ x) ≡ b'\\' ∷ d ∷ (escape t ++ y) =
          rw (escape, h, k) at e in
        let same : c ≡ d = ap (λ z. first (rest_of z)) e' in
        let (sames, left) = escape-IsDelimited s t x y (ap (λ z. rest_of (rest_of z)) e') in
        (cc (same, sames), left)
    | inr k ↦
        let clash : b'\\' ≡ d = ap first (rw (escape, h, k) at e) in
        absurd ((special_quote d k).1 (sym clash))
  ]
  | inr h ↦ elim (Bool-cases (special d)) [
    | inl k ↦
        let clash : c ≡ b'\\' = ap first (rw (escape, h, k) at e) in
        absurd ((special_quote c h).1 clash)
    | inr k ↦
        let e' : c ∷ (escape s ++ x) ≡ d ∷ (escape t ++ y) = rw (escape, h, k) at e in
        let same : c ≡ d = ap first e' in
        let (sames, left) = escape-IsDelimited s t x y (ap rest_of e') in (cc (same, sames), left)
  ]
]

quoting : Quoting quote
unfolding quote
quoting = record {
  opened = λ s. (escape s, refl);
  delimited = λ s t x y e.
      escape-IsDelimited s t x y (append_cancel_left (b'"' ∷ []) (escape s ++ x) (escape t ++ y) e);
}

abbrev text_message : Message
text_message = record {
  topic = str "topic";
  payload = str "hello";
  qos = QoS.at_most_once;
  retain = false;
  mid = pos 1;
}

abbrev binary_message : Message
binary_message = record text_message { payload = 0x01 ∷ 0xa0 ∷ 0xc0 ∷ [] }

-- The cases of the repository's unit test.
message_debug_tests :
    (message_debug quote text_message
      ≡ str
          "Message { topic: \"topic\", payload: \"hello\", qos: AtMostOnce, retain: false, mid: 1 }")
    × (message_debug quote binary_message
        ≡ str
            "Message { topic: \"topic\", payload: [01, A0, C0], qos: AtMostOnce, retain: false, mid: 1 }")
unfolding message_debug quote from_utf8 show_int
message_debug_tests = (refl, refl)

message_debug-inj_example : binary_message ≡ binary_message
message_debug-inj_example =
    message_debug-inj quote quoting binary_message binary_message
      (ground arith, (ground arith, (ground arith, tt)))
      (ground arith, (ground arith, (ground arith, tt))) refl
