-- ===== src/Router/Handling.antt =====
-- mosquitto-rs/src/router.rs: what becomes of a message that a router dispatches.
use mosquitto_rs.Base.{◌≡◌, refl, ◌⊎◌, inl, inr, List, Str, ok, err, map_err}
use mosquitto_rs.Client.Data.{Message}
use mosquitto_rs.Client.State.{Platform}
use mosquitto_rs.Router.Request.{
  Crates, RouterError, any, Request, FromRequest, Fn, Dispatcher, make_dispatcher,
}
use mosquitto_rs.Router.Extract.{Args, Extracts, apply, FailsFirst, make_dispatcher_cases}
use mosquitto_rs.Router.Dispatch.{Matchit, params_value, call, MqttRouter, dispatch}

-- The request that a handler gets.
abbrev pub requested : (c : Crates) {S : Type 0} → List (Str × Str) → Message → S → Request c S
requested c params message state = record {
  params = params_value c params;
  message = message;
  state = state;
}

module _ {S : Type 0} (W : Type 0) (c : Crates) (p : Platform)
    (matchit : Matchit c (Dispatcher c S W)) (from : RouterError c → c.AnyError) where
  -- A message whose topic matches the route of a handler is either handled, by one run of the
  -- handler on what its extractors give for the message, its parameters and the state; or not
  -- handled, nothing is done, and the result holds the error of the first extractor that fails.
  pub dispatch-make_dispatcher :
      (self : MqttRouter c p matchit) (message : Message) (state : S) (w : W)
      (params : List (Str × Str)) (xs : List (FromRequest c S)) (func : Fn c xs W)
      → matchit.at self.router message.topic ≡ ok (params, make_dispatcher c W from xs func)
      → ((args : Args c (requested c params message state) xs) × Extracts c
            (requested c params message state)
            xs
            args
          × (dispatch c p matchit self message state w ≡ (
              let (r, w') = apply c (requested c params message state) W xs func args w in
              (map_err any r, w'))))
        ⊎ ((e : RouterError c) × FailsFirst c (requested c params message state) xs e
            × (dispatch c p matchit self message state w ≡ (err (any (from e)), w)))
  unfolding dispatch
  dispatch-make_dispatcher self message state w params xs func found =
      let request = requested c params message state in
      elim (make_dispatcher_cases W c from request xs func w) [
        | inl (args, given, same) ↦
            inl (args, given, rw (found, dispatch) rw (same, dispatch, call) refl)
        | inr (e, failed, same) ↦
            inr (e, failed, rw (found, dispatch) rw (same, dispatch, call) refl)
      ]
