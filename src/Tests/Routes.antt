-- ===== src/Tests/Routes.antt =====
-- Routes of the small world, with a router of one route at most.
use mosquitto_rs.Base.{
  ◌≡◌, ◌≢◌, ◌⊎◌, refl, false, true, some, List, [], ◌∷◌, All, Str, str, Result, Bool, ℕ, ◌+◌,
  length, if◌then◌else◌, arith, ok, err, inl, inr, map_err,
}
use mosquitto_rs.Base.Int.{pos}
use mosquitto_rs.Base.Utf8.{IsChar, as_bytes}
use mosquitto_rs.Client.Data.{Message}
use mosquitto_rs.Lowlevel.Status.{QoS}
use mosquitto_rs.Router.Levels.{split, level, pluses, split-route_to_topic}
use mosquitto_rs.Router.Matching.{
  IsRoute, param, literal, RouteMatches, FilterMatches, RouteMatches-FilterMatches,
  FilterMatches-RouteMatches,
}
use mosquitto_rs.Router.Request.{
  RouterError, any, payload_is_not_utf8, payload_parse_failed, Request, FromRequest, Fn, Dispatcher,
  payload_from_request, topic_from_request, make_dispatcher,
}
use mosquitto_rs.Router.Topic.{route_to_topic}
use mosquitto_rs.Router.Dispatch.{MqttRouter, dispatch}
use mosquitto_rs.Router.Handling.{requested, dispatch-make_dispatcher}
use mosquitto_rs.Tests.OneRoute.{crates, same, take_level, take_all, one_route}
use mosquitto_rs.Tests.World.{platform, mosq as client}
use mosquitto_rs.Router.Extract.{Args, Extracts, apply, FailsFirst, payload_from_request_cases}

abbrev route : Str
route = str "a/:b"

abbrev topic : Str
topic = str "a/x"

split-route_to_topic_example : split (route_to_topic route) ≡ str "a" ∷ str "+" ∷ []
unfolding split level pluses
split-route_to_topic_example = split-route_to_topic route

route-IsRoute : IsRoute route
unfolding split
route-IsRoute = (literal (str "a") (ground arith, tt), (param (str "b") (ground arith, tt), tt))

RouteMatches-FilterMatches_example : FilterMatches (route_to_topic route) topic
unfolding split
RouteMatches-FilterMatches_example =
    RouteMatches-FilterMatches route topic route-IsRoute (λ r. ground arith)
      (refl, (ground arith, tt))

topic-levels : All (λ t. t ≢ []) (split topic)
unfolding split
topic-levels = (ground arith, (ground arith, tt))

FilterMatches-RouteMatches_example : RouteMatches route topic
unfolding split route_to_topic
FilterMatches-RouteMatches_example =
    FilterMatches-RouteMatches route topic route-IsRoute topic-levels
      ((λ w r. ground arith), (inr refl, (inl refl, tt)))

abbrev hello : Message
hello = record {
  topic = topic;
  payload = str "42";
  qos = QoS.at_most_once;
  retain = false;
  mid = pos 0;
}

-- `Topic` and a `Payload` whose type takes no text but "42".
abbrev parse_42 : Str → Result (Unit {0}) (Unit {0})
parse_42 s = if same s (str "42") then ok tt else err tt

abbrev extractors : List (FromRequest crates Bool)
extractors =
    record { Target = Str; from_request = topic_from_request crates }
    ∷ record { Target = Unit; from_request = payload_from_request crates parse_42 (λ e. str "no") }
    ∷ []

-- A handler that adds the length of its topic to a counter.
abbrev counting : Fn crates extractors ℕ
counting topic_ value w = (ok tt, w + length topic_)

abbrev as_any : RouterError crates → Unit {0}
as_any e = tt

abbrev handler : Dispatcher crates Bool ℕ
handler = make_dispatcher crates ℕ as_any extractors counting

abbrev routing : MqttRouter crates platform {S = Bool} {W = ℕ} one_route
routing = record { router = some (route, handler); client = client }

payload_from_request_cases_example :
    ((s : Str) × All IsChar s
      × (hello.payload ≡ as_bytes s)
      × (payload_from_request crates parse_42 (λ e. str "no") (requested crates [] hello true)
          ≡ map_err (λ e. payload_parse_failed s (str "no")) (parse_42 s)))
    ⊎ (((s : Str) → All IsChar s → hello.payload ≡ as_bytes s → ⊥)
        × (payload_from_request crates parse_42 (λ e. str "no") (requested crates [] hello true)
            ≡ err payload_is_not_utf8))
payload_from_request_cases_example =
    payload_from_request_cases crates parse_42 (λ e. str "no") (requested crates [] hello true)

-- The request of `hello` on the route.
abbrev requesting : Request crates Bool
requesting = requested crates ((str "b", str "x") ∷ []) hello true

dispatch-make_dispatcher_example :
    ((args : Args crates requesting extractors) × Extracts crates requesting extractors args
      × (dispatch crates platform one_route routing hello true 5 ≡ (
          let (r, w') = apply crates requesting ℕ extractors counting args 5 in
          (map_err any r, w'))))
    ⊎ ((e : RouterError crates) × FailsFirst crates requesting extractors e
        × (dispatch crates platform one_route routing hello true 5 ≡ (err (any (as_any e)), 5)))
unfolding take_all split take_level same
dispatch-make_dispatcher_example =
    dispatch-make_dispatcher ℕ crates platform one_route as_any routing hello true 5
      ((str "b", str "x") ∷ []) extractors counting refl

-- The cases of the repository's unit test.
route_to_topic_tests :
    (route_to_topic (str "hello/:there") ≡ str "hello/+")
    × (route_to_topic (str "a/:b/foo") ≡ str "a/+/foo")
    × (route_to_topic (str "hello") ≡ str "hello")
    × (route_to_topic (str "who:") ≡ str "who+")
unfolding route_to_topic
route_to_topic_tests = (refl, refl, refl, refl)
