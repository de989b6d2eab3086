-- ===== src/Tests/ManyRoutes.antt =====
-- A router of any number of routes, tried from the last that was inserted, and messages on it.
use mathlib.Core.List.Memᴰ
use mathlib.Core.List.{Memᴰ}
use mosquitto_rs.Base.{
  ◌≡◌, refl, sym, ap, ◌≢◌, ◌⊎◌, inl, inr, Bool, true, false, Option, none, some, List, [], ◌∷◌, All,
  Str, str, Result, ok, err, ℕ, ◌+◌, arith,
}
use mosquitto_rs.Base.Int.{pos}
use mosquitto_rs.Client.Data.{Message}
use mosquitto_rs.Lowlevel.Status.{QoS}
use mosquitto_rs.Router.Dispatch.{Matchit, MqttRouter, new, route, route_poll, dispatch}
use mosquitto_rs.Router.Levels.{split}
use mosquitto_rs.Router.Matching.{IsRoute, param, literal, RouteMatches}
use mosquitto_rs.Router.Request.{Dispatcher, RouterError}
use mosquitto_rs.Router.Table.{Tabled, Registers, Asked, Handled, Unhandled, Registers-dispatch}
use mosquitto_rs.Tests.OneRoute.{crates, same, take_level, take_all, take_all_cases}
use mosquitto_rs.Tests.World.{platform, library, runtime, mosq as client}
use mosquitto_rs.Base.Utf8.{as_bytes}
use mosquitto_rs.Client.State as handler
use mosquitto_rs.Client.State.{State}
use mosquitto_rs.Tests.Channels.{open_new, look, update}
use mosquitto_rs.Client.Requests as requests
use mosquitto_rs.Base.Utf8.{IsChar}
use mosquitto_rs.Client.Callbacks.{acknowledge}
use mosquitto_rs.Error.{result}
use mosquitto_rs.Lowlevel.Network.{subscribe}
use mosquitto_rs.Lowlevel.Strings.{cstr}
use mosquitto_rs.Router.Subscribing.{Subscriptions}
use mosquitto_rs.Sys.{err_code}

abbrev Found : Type 0 → Type 0
Found V = Result (List (Str × Str) × V) (Unit {0})

module _ {V : Type 0} where
  abbrev value_of : V → Found V → V
  value_of v (ok (ps, x)) = x
  value_of v (err e) = v

  abbrev or_else : V → Option (List (Str × Str)) → Found V → Found V
  or_else v none rest = rest
  or_else v (some ps) rest = ok (ps, v)

  unfoldable find : List (Str × V) → Str → Found V
  find [] topic = err tt
  find ((path, v) ∷ r) topic = or_else v (take_all (split path) (split topic)) (find r topic)

  abbrev many_routes : Matchit crates V
  many_routes = record {
    Router = List (Str × V);
    new = [];
    insert = λ path v r. (ok tt, (path, v) ∷ r);
    at = find;
  }

  find_found :
      (topic : Str) (r : List (Str × V)) (params : List (Str × Str)) (v : V)
      → find r topic ≡ ok (params, v)
      → (path : Str) × Memᴰ (path, v) r × RouteMatches path topic
  unfolding find
  find_found topic [] params v e = cc e
  find_found topic ((path, x) ∷ r) params v e = elim (take_all_cases (split path) (split topic)) [
    | inl (m, ps, f) ↦
        let this : ◌≡◌ {A = Found V} (ok (ps, x)) (ok (params, v)) = rw f at e in
        let same_value : v ≡ x = ap (value_of x) (sym this) in
        (path, Memᴰ.head (ap (λ y. (path, y)) same_value), m)
    | inr (n, f) ↦
        let rest : find r topic ≡ ok (params, v) = rw f at e in
        let (found, there, m) = find_found topic r params v rest in (found, Memᴰ.tail there, m)
  ]

  find_not_found :
      (topic : Str) (r : List (Str × V)) (x : Unit {0}) (path : Str) (v : V)
      → find r topic ≡ err x
      → Memᴰ (path, v) r
      → RouteMatches path topic
      → ⊥
  unfolding find
  find_not_found topic [] x path v e there m = Memᴰ.not-nil there
  find_not_found topic ((first, y) ∷ r) x path v e there m =
      elim (take_all_cases (split first) (split topic)) [
        | inl (_, ps, f) ↦ let this : ◌≡◌ {A = Found V} (ok (ps, y)) (err x) = rw f at e in cc this
        | inr (n, f) ↦
            let rest : find r topic ≡ err x = rw f at e in
            elim (Memᴰ.cases_cons there) [
              | inl same_route ↦
                  let same_path : path ≡ first = ap (λ z. z.0) same_route in n (rw same_path at m)
              | inr k ↦ find_not_found topic r x path v rest k m
            ]
      ]

  tabled : Tabled crates V many_routes
  tabled = record {
    entries = λ r. r;
    new_entries = refl;
    inserted = λ path v r r' e. ap (λ x. x.1) (sym e);
    found = λ topic r params v each full e. find_found topic r params v e;
    not_found = λ topic r x path v each full e there m. find_not_found topic r x path v e there m;
  }

-- Handlers that count in different steps, on routes that share a first level.
abbrev ones : Dispatcher crates Bool ℕ
ones request w = (ok tt, w + 1)

abbrev tens : Dispatcher crates Bool ℕ
tens request w = (ok tt, w + 10)

abbrev routes : List (Str × Dispatcher crates Bool ℕ)
routes = (str "a/:b", ones) ∷ (str "a/x/:c", tens) ∷ []

abbrev start : MqttRouter crates platform {S = Bool} {W = ℕ} many_routes
start = new crates platform many_routes client

-- A client without subscriptions registers the two routes, each of which the broker confirms.
abbrev subscriptions : Subscriptions library
subscriptions = record { patterns = λ m w. w.patterns; subscribed = λ m mid sub qos w code. refl }

abbrev fresh : State platform
fresh = handler.new platform (runtime (pos 0))

abbrev confirmed : State platform
confirmed =
    acknowledge platform client (pos 1)
      (route crates platform many_routes start (str "a/:b") fresh).1

abbrev first :
    Option (Result (Unit {0}) (RouterError crates))
    × MqttRouter crates platform {S = Bool} {W = ℕ} many_routes
    × State platform
first = route_poll crates platform many_routes (str "a/:b") ones 0 start confirmed

abbrev confirmed_again : State platform
confirmed_again =
    acknowledge platform client (pos 2)
      (route crates platform many_routes first.1 (str "a/x/:c") first.2).1

abbrev second :
    Option (Result (Unit {0}) (RouterError crates))
    × MqttRouter crates platform {S = Bool} {W = ℕ} many_routes
    × State platform
second = route_poll crates platform many_routes (str "a/x/:c") tens 1 first.1 confirmed_again

abbrev finish : MqttRouter crates platform {S = Bool} {W = ℕ} many_routes
finish = second.1

routes_registered :
    Registers crates platform many_routes subscriptions routes start fresh finish second.2
unfolding new route handler.new open_new requests.subscribe subscribe cstr as_bytes result err_code
    route_poll requests.subscribe_poll look acknowledge update
routes_registered = (
  pos 1,
  0,
  confirmed,
  first.1,
  first.2,
  refl,
  refl,
  refl,
  refl,
  (pos 2, 1, confirmed_again, finish, second.2, refl, refl, refl, refl, (refl, refl)),
)

routes-text : All (λ x. All IsChar x.0) routes
routes-text = (
  (ground arith, (ground arith, (ground arith, (ground arith, tt)))),
  (
    (
      ground arith,
      (ground arith, (ground arith, (ground arith, (ground arith, (ground arith, tt))))),
    ),
    tt,
  ),
)

routes-IsRoute : All (λ x. IsRoute x.0) routes
unfolding split
routes-IsRoute = (
  (literal (str "a") (ground arith, tt), (param (str "b") (ground arith, tt), tt)),
  (
    (
      literal (str "a") (ground arith, tt),
      (literal (str "x") (ground arith, tt), (param (str "c") (ground arith, tt), tt)),
    ),
    tt,
  ),
)

abbrev hello : Message
hello = record {
  topic = str "a/x/y";
  payload = [];
  qos = QoS.at_most_once;
  retain = false;
  mid = pos 0;
}

hello_levels : All (λ t. t ≢ []) (split hello.topic)
unfolding split
hello_levels = (ground arith, (ground arith, (ground arith, tt)))

Registers-dispatch_example :
    (Asked platform subscriptions client second.2 hello.topic
      × Handled crates platform many_routes tabled subscriptions routes finish hello true 5)
    ⊎ ((Asked platform subscriptions client second.2 hello.topic → ⊥)
        × Unhandled crates platform many_routes tabled subscriptions finish hello true 5)
unfolding new handler.new
Registers-dispatch_example =
    Registers-dispatch crates platform many_routes tabled subscriptions routes start finish fresh
      second.2 hello true 5 refl refl routes_registered routes-IsRoute routes-text hello_levels
      (λ r. ground arith)

-- The second handler runs.
hello_test : (dispatch crates platform many_routes finish hello true 5).1 ≡ 15
unfolding dispatch find split take_all take_level same new route_poll requests.subscribe_poll look
    acknowledge route requests.subscribe subscribe cstr as_bytes result err_code handler.new
    open_new update
hello_test = refl
