-- ===== src/Router/Dispatch.antt =====
-- mosquitto-rs/src/router.rs: `MqttRouter`.
use mosquitto_rs.Base.{
  Option, none, some, List, [], ◌∷◌, Str, Result, ok, err, map_err, if◌then◌else◌,
}
use mosquitto_rs.Client.Data.{Message}
use mosquitto_rs.Client.Requests as client_of
use mosquitto_rs.Client.State.{Platform, State}
use mosquitto_rs.Error.{Error}
use mosquitto_rs.Lowlevel.Mosq.{Mosq}
use mosquitto_rs.Lowlevel.Status.{MessageId, QoS}
use mosquitto_rs.Router.Request.{
  Crates, RouterError, mqtt_error, insert_error, match_error, any, Dispatcher,
}
use mosquitto_rs.Router.Topic.{route_to_topic}

-- `matchit::Router<V>`.
pub record Matchit (c : Crates) (V : Type 0) : Type 1 where
  pub Router : Type 0
  pub new : Router
  pub insert : Str → V → Router → Result (Unit {0}) c.InsertError × Router
  -- The parameters of the route that matches, and its value.
  pub at : Router → Str → Result (List (Str × Str) × V) c.MatchError

module _ (c : Crates) where
  -- The loop over the parameters that were matched.
  unfoldable pub value_map : c.JsonMap → List (Str × Str) → c.JsonMap
  value_map m [] = m
  value_map m ((k, v) ∷ params) = value_map (c.insert k v m) params

  unfoldable pub params_value : List (Str × Str) → c.JsonValue
  unfolding value_map
  params_value params =
      let m = value_map c.empty params in if c.is_empty m then c.null else c.object m

  -- `Dispatcher::call`.
  unfoldable pub call :
      {S W : Type 0}
      → Dispatcher c S W
      → c.JsonValue
      → Message
      → S
      → W
      → Result (Unit {0}) c.AnyError × W
  call func params message state =
      func (record { params = params; message = message; state = state })

module _ (c : Crates) (p : Platform) {S W : Type 0} (matchit : Matchit c (Dispatcher c S W)) where
  pub record MqttRouter : Type 0 where
    pub router : matchit.Router
    pub client : Mosq p.lib

  unfoldable pub new : Mosq p.lib → MqttRouter
  new client = record { router = matchit.new; client = client }

  -- `route` up to its `await`; its error is what `?` makes of the client's.
  unfoldable pub route :
      MqttRouter → Str → State p → Result (MessageId × p.acks.Receiver) (RouterError c) × State p
  unfolding route_to_topic
  route self path st =
      let (r, st') = client_of.subscribe p self.client (route_to_topic path) QoS.at_most_once st in
      (map_err mqtt_error r, st')

  -- What `route` does when its subscription is over: `dispatcher` is what `make_dispatcher` gives.
  unfoldable pub registered :
      Str
      → Dispatcher c S W
      → Result (Unit {0}) Error
      → MqttRouter
      → Result (Unit {0}) (RouterError c) × MqttRouter
  registered path dispatcher (err e) self = (err (mqtt_error e), self)
  registered path dispatcher (ok _) self =
      let (r, router) = matchit.insert path dispatcher self.router in
      (map_err insert_error r, record self { router = router })

  -- `route` when it is polled after its `await`.
  unfoldable pub route_poll :
      Str
      → Dispatcher c S W
      → p.acks.Receiver
      → MqttRouter
      → State p
      → Option (Result (Unit {0}) (RouterError c)) × MqttRouter × State p
  unfolding registered
  route_poll path dispatcher rx self st =
      let (polled, st') = client_of.subscribe_poll p self.client rx st in
      elim polled [
        | none ↦ (none, self, st')
        | some r ↦ let (out, self') = registered path dispatcher r self in (some out, self', st')
      ]

  -- The handler runs on the world `W`.
  unfoldable pub dispatch : MqttRouter → Message → S → W → Result (Unit {0}) (RouterError c) × W
  unfolding params_value call
  dispatch self message state w = elim (matchit.at self.router message.topic) [
    | err e ↦ (err (match_error e), w)
    | ok (params, value) ↦
        let (r, w') = call c value (params_value c params) message state w in (map_err any r, w')
  ]

  unfoldable pub client : MqttRouter → Mosq p.lib
  client self = self.client
