-- ===== src/Router/Routing.antt =====
-- mosquitto-rs/src/router.rs: `MqttRouter::route` while other things happen to its client.
use mosquitto_rs.Base.{◌≡◌, refl, Option, none, some, List, Str, Result, ok, err, map_err}
use mosquitto_rs.Channel.{Documented}
use mosquitto_rs.Client.Futures.{
  Phase, waiting, answered, lost, Label, phase_after, outcome, IsValid,
}
use mosquitto_rs.Client.Progress.{request-Run-outcome}
use mosquitto_rs.Client.Requests.{subscribe, subscribe_poll, ack_poll}
use mosquitto_rs.Client.Runs.{Run, NotOf}
use mosquitto_rs.Client.State.{Platform, State}
use mosquitto_rs.Error.{Error, mosq}
use mosquitto_rs.Lowlevel.Network as network
use mosquitto_rs.Lowlevel.Status.{MessageId, QoS}
use mosquitto_rs.Router.Dispatch.{Matchit, MqttRouter, route, route_poll, registered}
use mosquitto_rs.Router.Request.{Crates, RouterError, mqtt_error, insert_error, Dispatcher}
use mosquitto_rs.Router.Topic.{route_to_topic}
use mosquitto_rs.Sys.{MosqErr}

module _ {S W : Type 0} (c : Crates) (p : Platform) (matchit : Matchit c (Dispatcher c S W))
    (self : MqttRouter c p matchit) (path : Str) (dispatcher : Dispatcher c S W) where
  abbrev pub Routed : Type 0
  Routed = Option (Result (Unit {0}) (RouterError c)) × MqttRouter c p matchit

  -- What `route` returns and does to the router in each phase of its subscription: when that is
  -- answered, `matchit` is given the route once, and what it returns decides.
  abbrev pub routed : Phase → Routed
  routed waiting = (none, self)
  routed answered = (
    some (map_err insert_error (matchit.insert path dispatcher self.router).0),
    record self { router = (matchit.insert path dispatcher self.router).1 },
  )
  routed lost = (some (err (mqtt_error (mosq MosqErr.inval))), self)

  map_err_ok :
      {A : Type 0} (r : Result A Error) (a : A)
      → map_err {F = RouterError c} mqtt_error r ≡ ok a
      → r ≡ ok a
  map_err_ok (ok b) a e = cc e
  map_err_ok (err x) a e = cc e

  polled_routed :
      (mid : MessageId) (rx : p.acks.Receiver) (st : State p) (ph : Phase)
      → (ack_poll p rx st).0 ≡ outcome mid ph
      → ◌≡◌ {A = Routed}
          (
            (route_poll c p matchit path dispatcher rx self st).0,
            (route_poll c p matchit path dispatcher rx self st).1,
          )
          (routed ph)
  unfolding outcome route_poll subscribe_poll registered
  polled_routed mid rx st waiting e = rw (e, subscribe_poll, route_poll) refl
  polled_routed mid rx st answered e = rw (e, subscribe_poll, route_poll) refl
  polled_routed mid rx st lost e = rw (e, subscribe_poll, route_poll) refl

  -- A `route` whose subscription was given an id, from a state of the client whose entries are well
  -- formed: after any run of steps that does not poll it, it goes on waiting, and the router is as it
  -- was, while the run has neither acknowledged the id nor assigned it again. If the run acknowledged
  -- the id first, `matchit` is given the route, the router is what `matchit` makes of it, and `route`
  -- returns `Ok`, or `InsertError` with the error, as `matchit` does. If the run assigned the id to a
  -- later request first, it returns `MqttError` with `MOSQ_ERR_INVAL`, and the router is as it was.
  pub route-Run-outcome :
      (d : Documented p.acks) (st : State p) (mid : MessageId) (rx : p.acks.Receiver)
      (ls : List Label) (st' : State p)
      → IsValid p d st.mids st.ack_store
      → (route c p matchit self path st).0 ≡ ok (mid, rx)
      → Run p (NotOf p d rx) (route c p matchit self path st).1 ls st'
      → ◌≡◌ {A = Routed}
          (
            (route_poll c p matchit path dispatcher rx self st').0,
            (route_poll c p matchit path dispatcher rx self st').1,
          )
          (routed (phase_after mid ls waiting))
  unfolding route subscribe
  route-Run-outcome d st mid rx ls st' v asked run =
      polled_routed mid rx st' (phase_after mid ls waiting) (
        request-Run-outcome p d
          (network.subscribe p.lib self.client (route_to_topic path) QoS.at_most_once) st mid rx ls
          st' v (map_err_ok _ (mid, rx) asked) run)
