-- ===== src/Tests/Routing.antt =====
-- A route that is registered in the small world.
use mosquitto_rs.Base.{ℕ, ◌+◌, ◌≡◌, refl, Bool, some, [], ◌∷◌, Str, str, ok}
use mosquitto_rs.Base.Int.{pos}
use mosquitto_rs.Base.Utf8.{as_bytes}
use mosquitto_rs.Client.Callbacks.{acknowledge}
use mosquitto_rs.Client.Futures.{acked, phase_after, next_phase}
use mosquitto_rs.Client.Invariant.{Run-IsValid}
use mosquitto_rs.Client.Requests.{subscribe}
use mosquitto_rs.Client.Runs.{acknowledges}
use mosquitto_rs.Client.State.{State, new}
use mosquitto_rs.Error.{result}
use mosquitto_rs.Lowlevel.Network as network
use mosquitto_rs.Lowlevel.Strings.{cstr}
use mosquitto_rs.Router.Dispatch as router
use mosquitto_rs.Router.Dispatch.{MqttRouter, route, route_poll, registered}
use mosquitto_rs.Router.Request.{Dispatcher}
use mosquitto_rs.Router.Routing.{Routed, route-Run-outcome}
use mosquitto_rs.Sys.{err_code}
use mosquitto_rs.Tests.Channels.{documented, open_new}
use mosquitto_rs.Tests.OneRoute.{crates, one_route}
use mosquitto_rs.Tests.World.{platform, runtime, mosq as client}

abbrev path : Str
path = str "a/:b"

-- A handler that counts its calls.
abbrev counting : Dispatcher crates Bool ℕ
counting request_ w = (ok tt, w + 1)

abbrev empty_router : MqttRouter crates platform {S = Bool} {W = ℕ} one_route
empty_router = router.new crates platform one_route client

abbrev start : State platform
start = new platform (runtime (pos 0))

abbrev routing : State platform
routing = (route crates platform one_route empty_router path start).1

abbrev confirmed : State platform
confirmed = acknowledge platform client (pos 1) routing

route-Run-outcome_example :
    ◌≡◌ {A = Routed crates platform one_route empty_router path counting}
      (
        (route_poll crates platform one_route path counting 0 empty_router confirmed).0,
        (route_poll crates platform one_route path counting 0 empty_router confirmed).1,
      )
      (some (ok tt), record { router = some (path, counting); client = client })
unfolding new route subscribe network.subscribe cstr as_bytes result err_code open_new phase_after
    next_phase registered router.new
route-Run-outcome_example =
    route-Run-outcome crates platform one_route empty_router path counting documented start (pos 1)
      0 (acked (pos 1) ∷ []) confirmed
      (Run-IsValid platform documented (runtime (pos 0)) [] start refl).1 refl
      (confirmed, acknowledges client (pos 1) refl refl, refl)
