-- ===== src/Router/Subscribing.antt =====
-- mosquitto-rs/src/router.rs: what `MqttRouter::route` asks of the broker, and what it inserts.
use mosquitto_rs.Base.{
  ◌≡◌, refl, sym, ap, inl, inr, Option, some, List, [], ◌∷◌, ◌++◌, Str, Bytes, Bool, true, false,
  Result, ok, err, map_err, All, arith, if◌then◌else◌, ◌==◌, Result-cases, Option-cases, if_either,
  All-append,
}
use mosquitto_rs.Base.Int.{ℤ, pos}
use mosquitto_rs.Base.Utf8.{IsChar, as_bytes}
use mosquitto_rs.Client.Requests as client_of
use mosquitto_rs.Client.State.{Platform, State}
use mosquitto_rs.Error.{result}
use mosquitto_rs.Error.Codes.{result-Reports}
use mosquitto_rs.Lowlevel.Calls.{cstr_cases}
use mosquitto_rs.Lowlevel.Io.{Io, Process}
use mosquitto_rs.Lowlevel.Mosq.{Mosq}
use mosquitto_rs.Lowlevel.Network as network
use mosquitto_rs.Lowlevel.Status.{MessageId, QoS, qos_code}
use mosquitto_rs.Router.Dispatch.{Matchit, MqttRouter, route, route_poll, registered}
use mosquitto_rs.Router.Request.{Crates, RouterError, insert_error, Dispatcher}
use mosquitto_rs.Router.Topic.{convert, route_to_topic}
use mosquitto_rs.Sys.Library.{Library, CString}

-- What the C library keeps of the subscriptions that it was asked for with a handle: a call of
-- `mosquitto_subscribe` that returns 0 adds its pattern.
pub record Subscriptions {Obj : Type 0} (lib : Library Obj) : Type 0 where
  pub patterns : lib.Handle → lib.World → List Bytes
  pub subscribed :
      (m : lib.Handle) (mid : ℤ) (sub : CString) (qos : ℤ) (w : lib.World)
      → (lib.mosquitto_subscribe m mid sub qos w).0 ≡ pos 0
      → patterns m (lib.mosquitto_subscribe m mid sub qos w).2 ≡ sub.bytes ∷ patterns m w

module _ (p : Platform) (s : Subscriptions p.lib) where
  subscribe-patterns :
      (client : Mosq p.lib) (pattern_ : Str) (process : Process p.lib.World) (mid : MessageId)
      → (network.subscribe p.lib client pattern_ QoS.at_most_once process).0 ≡ ok mid
      → s.patterns client.m
          (network.subscribe p.lib client pattern_ QoS.at_most_once process).1.world
        ≡ as_bytes pattern_ ∷ s.patterns client.m process.world
  unfolding network.subscribe
  subscribe-patterns client pattern_ process mid asked = elim (cstr_cases pattern_) [
    | inr (i, first, e) ↦ cc (rw (e, network.subscribe) at asked)
    | inl (h, e) ↦
        let sub : CString = record { bytes = as_bytes pattern_ } in
        let made =
          p.lib.mosquitto_subscribe client.m (pos 0) sub (qos_code QoS.at_most_once)
            process.world in
        elim (result-Reports p.lib made.2 made.0 made.1) [
          | inl (code, _) ↦
              rw (e, network.subscribe)
                (s.subscribed client.m (pos 0) sub (qos_code QoS.at_most_once) process.world code)
          | inr (code, (x, f, _)) ↦
              let given : result p.lib made.0 made.1 made.2 ≡ ok mid =
                rw (e, network.subscribe) at asked in
              cc (given, f)
        ]
  ]

  request-process :
      (call : Io (Process p.lib.World) MessageId) (st : State p)
      → (client_of.request p call st).1.process ≡ (call st.process).1
  unfolding client_of.request
  request-process call st = elim (Result-cases (call st.process).0) [
    | inl (k, e) ↦ rw (e, client_of.request) refl
    | inr (x, e) ↦ rw (e, client_of.request) refl
  ]

module _ {S W : Type 0} (c : Crates) (p : Platform) (matchit : Matchit c (Dispatcher c S W)) where
  -- `route` has the pattern that `route_to_topic` makes added to the subscriptions.
  pub route-patterns :
      (s : Subscriptions p.lib) (self : MqttRouter c p matchit) (path : Str) (st : State p)
      (asked : MessageId × p.acks.Receiver)
      → (route c p matchit self path st).0 ≡ ok asked
      → s.patterns self.client.m (route c p matchit self path st).1.process.world
        ≡ as_bytes (route_to_topic path) ∷ s.patterns self.client.m st.process.world
  unfolding route client_of.subscribe client_of.request
  route-patterns s self path st asked given =
      let call = network.subscribe p.lib self.client (route_to_topic path) QoS.at_most_once in
      elim (Result-cases (call st.process).0) [
        | inl (k, e) ↦
            rw (request-process p s call st)
              (subscribe-patterns p s self.client (route_to_topic path) st.process k e)
        | inr (x, e) ↦ cc (rw (e, client_of.request) at given)
      ]

  -- A poll of `route` that returns `Ok` has inserted the route, and the client is the same.
  pub route_poll-inserted :
      (path : Str) (value : Dispatcher c S W) (rx : p.acks.Receiver) (st : State p)
      (self next : MqttRouter c p matchit)
      → (route_poll c p matchit path value rx self st).0 ≡ some (ok tt)
      → (route_poll c p matchit path value rx self st).1 ≡ next
      → (matchit.insert path value self.router ≡ (ok tt, next.router)) × (next.client ≡ self.client)
  unfolding route_poll registered
  route_poll-inserted path value rx st self next done same =
      elim (Option-cases (client_of.subscribe_poll p self.client rx st).0) [
        | inl e ↦ cc (rw (e, route_poll) at done)
        | inr (err x, e) ↦ cc (rw (e, route_poll) at done)
        | inr (ok _, e) ↦
            let done' : ◌≡◌ {A = Option (Result (Unit {0}) (RouterError c))}
                (some (map_err insert_error (matchit.insert path value self.router).0))
                (some (ok tt)) =
              rw (e, route_poll) at done in
            let same' : record self { router = (matchit.insert path value self.router).1 } ≡ next =
              rw (e, route_poll) at same in
            (
              inserted (matchit.insert path value self.router) done' same',
              ap (λ r. r.client) (sym same'),
            )
      ]
    where
      inserted :
          (r : Result (Unit {0}) c.InsertError × matchit.Router)
          → ◌≡◌ {A = Option (Result (Unit {0}) (RouterError c))}
              (some (map_err insert_error r.0))
              (some (ok tt))
          → record self { router = r.1 } ≡ next
          → r ≡ (ok tt, next.router)
      inserted (ok u, router) d e = ap (λ x. (ok tt, x.router)) e
      inserted (err x, router) d e = cc d

convert-IsChar :
    (result_ : Str) (b : Bool) (s : Str)
    → All IsChar result_
    → All IsChar s
    → All IsChar (convert result_ b s)
unfolding convert
convert-IsChar result_ b [] h k = h
convert-IsChar result_ b (x ∷ s) h (k, ks) =
    let in_param = if x == b'/' then false else b in
    if_either (All IsChar) (x == b':')
      (convert-IsChar (result_ ++ b'+' ∷ []) true s
        (All-append IsChar result_ (b'+' ∷ []) h (ground arith, tt)) ks)
      (if_either (All IsChar) in_param (convert-IsChar result_ in_param s h ks) (
        convert-IsChar (result_ ++ x ∷ []) in_param s (All-append IsChar result_ (x ∷ []) h (k, tt))
          ks))

pub route_to_topic-IsChar : (path : Str) → All IsChar path → All IsChar (route_to_topic path)
unfolding route_to_topic
route_to_topic-IsChar path h = convert-IsChar [] false path tt h
