-- ===== src/Client/Printed.antt =====
-- The debug text of a message of mosquitto-rs/src/client.rs identifies the message.
use mathlib.Core.List.{append_assoc, append_cancel_left, append_cancel_right}
use mosquitto_rs.Base.{
  nth, differ, ℕ, zero, suc, ◌/◌, ◌%◌, ◌<◌, ◌≡◌, refl, sym, ap, ◌∙◌, true, false, [], ◌∷◌, ◌++◌,
  All, Str, Bytes, str, arith, Option-cases, inl, inr,
}
use mosquitto_rs.Base.Int.{show_int}
use mosquitto_rs.Base.Int.Reading.{show_int-inj}
use mosquitto_rs.Base.Utf8.{from_utf8, as_bytes}
use mosquitto_rs.Base.Utf8.Decoding.{from_utf8-some}
use mosquitto_rs.Client.Data.{Message}
use mosquitto_rs.Client.Debug.{
  hex_digit, hex_byte, hex_rest, hex_list, qos_debug, bool_debug, payload_debug, message_debug,
}
use mosquitto_rs.Lowlevel.Status.{at_most_once, at_least_once, exactly_once}

-- What is printed can be told from what follows it.
abbrev pub IsDelimited {ℓ} : {A : Type ℓ} → (A → Str) → Type ℓ
IsDelimited {A} f = (a b : A) (x y : Str) → f a ++ x ≡ f b ++ y → (a ≡ b) × (x ≡ y)

abbrev behind : ℕ → Str → Str
behind zero s = s
behind (suc n) [] = []
behind (suc n) (c ∷ s) = behind n s

-- Both digits of a byte are found again.
hex_byte-inj :
    (a b : ℕ) (x y : Str)
    → a < 256
    → b < 256
    → hex_byte a ++ x ≡ hex_byte b ++ y
    → (a ≡ b) × (x ≡ y)
unfolding hex_byte hex_digit
hex_byte-inj a b x y p q e =
    let high : hex_digit (a / 16) ≡ hex_digit (b / 16) = ap (nth 0) e in
    let low : hex_digit (a % 16) ≡ hex_digit (b % 16) = ap (nth 1) e in
    (ground (arith, high, low, p, q), ap (behind 2) e)

hex_rest-inj :
    (cs bs : Bytes) (x y : Str)
    → All (λ b. b < 256) cs
    → All (λ b. b < 256) bs
    → hex_rest cs ++ x ≡ hex_rest bs ++ y
    → (cs ≡ bs) × (x ≡ y)
unfolding hex_rest hex_byte
hex_rest-inj [] [] x y h k e = (refl, append_cancel_left (str "]") x y e)
hex_rest-inj [] (b ∷ bs) x y h k e = differ 0 (ground arith) e
hex_rest-inj (a ∷ cs) [] x y h k e = differ 0 (ground arith) e
hex_rest-inj (a ∷ cs) (b ∷ bs) x y (p, h) (q, k) e =
    let e' : hex_byte a ++ (hex_rest cs ++ x) ≡ hex_byte b ++ (hex_rest bs ++ y) =
      sym (append_assoc (hex_byte a) (hex_rest cs) x)
      ∙ append_cancel_left (str ", ") _ _ e
      ∙ append_assoc (hex_byte b) (hex_rest bs) y in
    let (same, rest) = hex_byte-inj a b (hex_rest cs ++ x) (hex_rest bs ++ y) p q e' in
    let (sames, left) = hex_rest-inj cs bs x y h k rest in (cc (same, sames), left)

hex_list-inj :
    (cs bs : Bytes) (x y : Str)
    → All (λ b. b < 256) cs
    → All (λ b. b < 256) bs
    → hex_list cs ++ x ≡ hex_list bs ++ y
    → (cs ≡ bs) × (x ≡ y)
unfolding hex_list hex_byte hex_digit hex_rest
hex_list-inj [] [] x y h k e = (refl, append_cancel_left (str "[]") x y e)
hex_list-inj [] (b ∷ bs) x y h (q, k) e = differ 1 (ground arith) e
hex_list-inj (a ∷ cs) [] x y (p, h) k e = differ 1 (ground arith) e
hex_list-inj (a ∷ cs) (b ∷ bs) x y (p, h) (q, k) e =
    let e' : hex_byte a ++ (hex_rest cs ++ x) ≡ hex_byte b ++ (hex_rest bs ++ y) =
      sym (append_assoc (hex_byte a) (hex_rest cs) x)
      ∙ append_cancel_left (str "[") _ _ e
      ∙ append_assoc (hex_byte b) (hex_rest bs) y in
    let (same, rest) = hex_byte-inj a b (hex_rest cs ++ x) (hex_rest bs ++ y) p q e' in
    let (sames, left) = hex_rest-inj cs bs x y h k rest in (cc (same, sames), left)

qos_debug-IsDelimited : IsDelimited qos_debug
unfolding qos_debug
qos_debug-IsDelimited at_most_once at_most_once x y e =
    (refl, append_cancel_left (str "AtMostOnce") x y e)
qos_debug-IsDelimited at_least_once at_least_once x y e =
    (refl, append_cancel_left (str "AtLeastOnce") x y e)
qos_debug-IsDelimited exactly_once exactly_once x y e =
    (refl, append_cancel_left (str "ExactlyOnce") x y e)
qos_debug-IsDelimited at_most_once at_least_once x y e = differ 2 (ground arith) e
qos_debug-IsDelimited at_most_once exactly_once x y e = differ 0 (ground arith) e
qos_debug-IsDelimited at_least_once at_most_once x y e = differ 2 (ground arith) e
qos_debug-IsDelimited at_least_once exactly_once x y e = differ 0 (ground arith) e
qos_debug-IsDelimited exactly_once at_most_once x y e = differ 0 (ground arith) e
qos_debug-IsDelimited exactly_once at_least_once x y e = differ 0 (ground arith) e

bool_debug-IsDelimited : IsDelimited bool_debug
unfolding bool_debug
bool_debug-IsDelimited true true x y e = (refl, append_cancel_left (str "true") x y e)
bool_debug-IsDelimited false false x y e = (refl, append_cancel_left (str "false") x y e)
bool_debug-IsDelimited true false x y e = differ 0 (ground arith) e
bool_debug-IsDelimited false true x y e = differ 0 (ground arith) e

-- What the documentation of Rust says of the `Debug` instance of `str`: the text stands between
-- quotation marks, and those in it are escaped, so it can be told from what follows.
pub record Quoting (debug_str : Str → Str) : Type 0 where
  pub opened : (s : Str) → (t : Str) × (debug_str s ≡ b'"' ∷ t)
  pub delimited : IsDelimited debug_str

abbrev pub IsBytes : Bytes → Type 0
IsBytes bs = All (λ b. b < 256) bs

module _ (debug_str : Str → Str) (quoting : Quoting debug_str) where
  hex_list_opened : (bs : Bytes) → (t : Str) × (hex_list bs ≡ b'[' ∷ t)
  unfolding hex_list
  hex_list_opened [] = (str "]", refl)
  hex_list_opened (b ∷ bs) = (hex_byte b ++ hex_rest bs, refl)

  text_or_hex : (s : Str) (bs : Bytes) (x y : Str) → debug_str s ++ x ≡ hex_list bs ++ y → ⊥
  text_or_hex s bs x y e =
      let (t, quote) = quoting.opened s in
      let (u, bracket) = hex_list_opened bs in
      let clash : b'"' ∷ (t ++ x) ≡ b'[' ∷ (u ++ y) = rw (quote, bracket) at e in
      differ 0 (ground arith) clash

  payload_debug-inj :
      (cs bs : Bytes) (x y : Str)
      → IsBytes cs
      → IsBytes bs
      → payload_debug debug_str cs ++ x ≡ payload_debug debug_str bs ++ y
      → (cs ≡ bs) × (x ≡ y)
  unfolding payload_debug
  payload_debug-inj cs bs x y h k e = elim (Option-cases (from_utf8 cs)) [
    | inl f ↦ elim (Option-cases (from_utf8 bs)) [
      | inl g ↦ hex_list-inj cs bs x y h k (rw (payload_debug, f, g) at e)
      | inr (t, g) ↦ absurd (text_or_hex t cs y x (sym (rw (payload_debug, f, g) at e)))
    ]
    | inr (s, f) ↦ elim (Option-cases (from_utf8 bs)) [
      | inl g ↦ absurd (text_or_hex s bs x y (rw (payload_debug, f, g) at e))
      | inr (t, g) ↦
          let (same, rest) = quoting.delimited s t x y (rw (payload_debug, f, g) at e) in
          let (of_s, _) = from_utf8-some cs s f in
          let (of_t, _) = from_utf8-some bs t g in (of_s ∙ ap as_bytes same ∙ sym of_t, rest)
    ]
  ]

  -- The text from a field on.
  abbrev from_mid : Message → Str
  from_mid m = show_int m.mid ++ str " }"

  abbrev from_retain : Message → Str
  from_retain m = bool_debug m.retain ++ (str ", mid: " ++ from_mid m)

  abbrev from_qos : Message → Str
  from_qos m = qos_debug m.qos ++ (str ", retain: " ++ from_retain m)

  abbrev from_payload : Message → Str
  from_payload m = payload_debug debug_str m.payload ++ (str ", qos: " ++ from_qos m)

  -- Two messages with the same debug text are the same message, whether their payloads are texts or
  -- not, if a payload is a list of bytes.
  pub message_debug-inj :
      (m n : Message)
      → IsBytes m.payload
      → IsBytes n.payload
      → message_debug debug_str m ≡ message_debug debug_str n
      → m ≡ n
  unfolding message_debug
  message_debug-inj m n h k e =
      let (topic, e1) =
        quoting.delimited m.topic n.topic (str ", payload: " ++ from_payload m)
          (str ", payload: " ++ from_payload n)
          (append_cancel_left (str "Message { topic: ") _ _ e) in
      let (payload, e2) =
        payload_debug-inj m.payload n.payload (str ", qos: " ++ from_qos m)
          (str ", qos: " ++ from_qos n) h k
          (append_cancel_left (str ", payload: ") (from_payload m) (from_payload n) e1) in
      let (qos, e3) =
        qos_debug-IsDelimited m.qos n.qos (str ", retain: " ++ from_retain m)
          (str ", retain: " ++ from_retain n)
          (append_cancel_left (str ", qos: ") (from_qos m) (from_qos n) e2) in
      let (retain, e4) =
        bool_debug-IsDelimited m.retain n.retain (str ", mid: " ++ from_mid m)
          (str ", mid: " ++ from_mid n)
          (append_cancel_left (str ", retain: ") (from_retain m) (from_retain n) e3) in
      let mid = show_int-inj m.mid n.mid (
        append_cancel_right (show_int m.mid) (show_int n.mid) (str " }")
          (append_cancel_left (str ", mid: ") (from_mid m) (from_mid n) e4)) in
      cc (topic, payload, qos, retain, mid)
