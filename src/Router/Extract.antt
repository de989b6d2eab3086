-- ===== src/Router/Extract.antt =====
-- The handlers of mosquitto-rs/src/router.rs against what their extractors give.
use mosquitto_rs.Base.{
  ◌≡◌, refl, ◌∙◌, ◌⊎◌, inl, inr, List, [], ◌∷◌, Str, All, Result, ok, err, map_err, some,
  Option-cases, Result-cases, ap,
}
use mosquitto_rs.Base.Utf8.Decoding.{from_utf8-some}
use mosquitto_rs.Base.Utf8.{IsChar, as_bytes, from_utf8, from_utf8-as_bytes}
use mosquitto_rs.Router.Request.{
  Crates, RouterError, payload_parse_failed, payload_is_not_utf8, Request, FromRequest,
  payload_from_request, Fn, make_dispatcher,
}

module _ {S : Type 0} (c : Crates) (request : Request c S) where
  -- The arguments that a list of extractors gives.
  abbrev pub Args : List (FromRequest c S) → Type 0
  Args [] = Unit
  Args (x ∷ xs) = x.Target × Args xs

  abbrev pub Extracts : (xs : List (FromRequest c S)) → Args xs → Type 0
  Extracts [] args = Unit
  Extracts (x ∷ xs) (a, args) = (x.from_request request ≡ ok a) × Extracts xs args

  abbrev pub apply :
      (W : Type 0) (xs : List (FromRequest c S))
      → Fn c xs W
      → Args xs
      → W
      → Result (Unit {0}) c.AnyError × W
  apply W [] func args = func
  apply W (x ∷ xs) func (a, args) = apply W xs (func a) args

  -- The first extractor that fails, after others that do not, fails with `e`.
  abbrev pub FailsFirst : List (FromRequest c S) → RouterError c → Type 0
  FailsFirst [] e = ⊥
  FailsFirst (x ∷ xs) e =
      (x.from_request request ≡ err e)
      ⊎ (((a : x.Target) × (x.from_request request ≡ ok a)) × FailsFirst xs e)

module _ {S : Type 0} (W : Type 0) (c : Crates) (from : RouterError c → c.AnyError)
    (request : Request c S) where
  -- A handler either runs once, on what all its extractors give, or does not run at all: then the
  -- result is the error of the first extractor that fails, and nothing has been done.
  pub make_dispatcher_cases :
      (xs : List (FromRequest c S)) (func : Fn c xs W) (w : W)
      → ((args : Args c request xs) × Extracts c request xs args
          × (make_dispatcher c W from xs func request w ≡ apply c request W xs func args w))
        ⊎ ((e : RouterError c) × FailsFirst c request xs e
            × (make_dispatcher c W from xs func request w ≡ (err (from e), w)))
  unfolding make_dispatcher
  make_dispatcher_cases [] func w = inl (tt, tt, refl)
  make_dispatcher_cases (x ∷ xs) func w = elim (Result-cases (x.from_request request)) [
    | inl (a, e) ↦ elim (make_dispatcher_cases xs (func a) w) [
      | inl (args, given, same) ↦ inl ((a, args), (e, given), rw (e, make_dispatcher) same)
      | inr (e', failed, same) ↦ inr (e', inr ((a, e), failed), rw (e, make_dispatcher) same)
    ]
    | inr (e, h) ↦ inr (e, inl h, rw (h, make_dispatcher) refl)
  ]

-- If the payload of a message is the bytes of a text, `Payload` gives what `parse` gives for that very
-- text, or `PayloadParseFailed` with the text and what the parser said. If it is not the bytes of any
-- text, `Payload` gives `PayloadIsNotUtf8`, whatever the parser does.
pub payload_from_request_cases :
    {S T E : Type 0} (c : Crates) (parse : Str → Result T E) (debug : E → Str)
    (request : Request c S)
    → ((s : Str) × All IsChar s
        × (request.message.payload ≡ as_bytes s)
        × (payload_from_request c parse debug request
            ≡ map_err (λ e. payload_parse_failed s (debug e)) (parse s)))
      ⊎ (((s : Str) → All IsChar s → request.message.payload ≡ as_bytes s → ⊥)
          × (payload_from_request c parse debug request ≡ err payload_is_not_utf8))
unfolding payload_from_request
payload_from_request_cases c parse debug request =
    elim (Option-cases (from_utf8 request.message.payload)) [
      | inl e ↦ inr (
        λ s chars sent.
            let whole : from_utf8 request.message.payload ≡ some s =
              ap from_utf8 sent ∙ from_utf8-as_bytes s chars in
            cc (e, whole),
        rw (e, payload_from_request) refl,
      )
      | inr (s, e) ↦
          let (sent, chars) = from_utf8-some request.message.payload s e in
          inl (s, chars, sent, rw (e, payload_from_request) refl)
    ]
