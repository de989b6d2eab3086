-- ===== src/Router/Request.antt =====
-- mosquitto-rs/src/router.rs: requests, the extractors, and handlers of any number of arguments.
use mosquitto_rs.Base.{none, some, List, [], ◌∷◌, Str, Result, ok, err, map_err, Bool}
use mosquitto_rs.Base.Utf8.{from_utf8}
use mosquitto_rs.Client.Data.{Message}
use mosquitto_rs.Error.{Error}

-- The errors and values of the crates that the router stands on: `matchit`, `serde_json` and
-- `anyhow`. `from_value` of serde_json is an argument of the extractor that uses it.
pub record Crates : Type 1 where
  pub InsertError : Type 0
  pub MatchError : Type 0
  pub JsonError : Type 0
  pub AnyError : Type 0
  pub JsonValue : Type 0
  pub JsonMap : Type 0
  pub null : JsonValue
  pub empty : JsonMap
  -- An entry under a key, with a text for its value.
  pub insert : Str → Str → JsonMap → JsonMap
  pub is_empty : JsonMap → Bool
  pub object : JsonMap → JsonValue

module _ (c : Crates) where
  pub data RouterError : Type 0 where
    payload_is_not_utf8 : RouterError
    payload_parse_failed : Str → Str → RouterError
    mqtt_error : Error → RouterError
    insert_error : c.InsertError → RouterError
    match_error : c.MatchError → RouterError
    json_error : c.JsonError → RouterError
    any : c.AnyError → RouterError

  pub record Request (S : Type 0) : Type 0 where
    pub params : c.JsonValue
    pub message : Message
    pub state : S

  -- A type with its implementation of the trait.
  pub record FromRequest (S : Type 0) : Type 1 where
    pub Target : Type 0
    pub from_request : Request S → Result Target RouterError

  module _ {S : Type 0} where
    unfoldable pub topic_from_request : Request S → Result Str RouterError
    topic_from_request request = ok request.message.topic

    -- `parse` is the type's `FromStr`, and `debug` what `{err:#?}` prints.
    unfoldable pub payload_from_request :
        {T E : Type 0} → (Str → Result T E) → (E → Str) → Request S → Result T RouterError
    payload_from_request parse debug request = elim (from_utf8 request.message.payload) [
      | none ↦ err payload_is_not_utf8
      | some s ↦ map_err (λ e. payload_parse_failed s (debug e)) (parse s)
    ]

    unfoldable pub params_from_request :
        {T : Type 0} → (c.JsonValue → Result T c.JsonError) → Request S → Result T RouterError
    params_from_request from_value request = map_err json_error (from_value request.params)

    unfoldable pub state_from_request : Request S → Result S RouterError
    state_from_request request = ok request.state

  -- What a handler returns runs on the world `W` of the program.
  abbrev pub Fut : Type 0 → Type 0
  Fut W = W → Result (Unit {0}) c.AnyError × W

  -- A function that takes what a list of extractors gives.
  abbrev pub Fn : {S : Type 0} → List (FromRequest S) → Type 0 → Type 0
  Fn [] W = Fut W
  Fn (x ∷ xs) W = x.Target → Fn xs W

  abbrev pub Dispatcher : Type 0 → Type 0 → Type 0
  Dispatcher S W = Request S → Fut W

  -- The extractors run in order; `?` turns the first error into an `anyhow::Error`.
  unfoldable pub make_dispatcher :
      {S : Type 0} (W : Type 0)
      → (RouterError → c.AnyError)
      → (xs : List (FromRequest S)) → Fn xs W
      → Dispatcher S W
  make_dispatcher W from [] func request w = func w
  make_dispatcher W from (x ∷ xs) func request w = elim (x.from_request request) [
    | err e ↦ (err (from e), w)
    | ok a ↦ make_dispatcher W from xs (func a) request w
  ]
