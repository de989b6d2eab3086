-- ===== src/Router/Deserialize.antt =====
-- mosquitto-rs/src/router.rs: `parse_deser`, a field that is read from its text.
use mosquitto_rs.Base.{◌++◌, Str, str, Result, ok, err, map_err}

-- `E` is the error of the deserializer, and `custom` makes one of a text; `parse` is `FromStr` of `T`,
-- with `display` for its errors.
module _ {T E P : Type 0} (custom : Str → E) (parse : Str → Result T P) (display : P → Str) where
  -- Given what `String::deserialize` returns.
  unfoldable pub parse_deser : Result Str E → Result T E
  parse_deser (err e) = err e
  parse_deser (ok s) =
      map_err (λ e. custom (str "parsing " ++ s ++ str ": " ++ display e)) (parse s)
