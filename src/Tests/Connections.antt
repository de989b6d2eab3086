-- ===== src/Tests/Connections.antt =====
-- Two calls of `connect` on a client of the small world.
use mosquitto_rs.Base.{◌≡◌, refl, none, some, [], ◌∷◌, str, err}
use mosquitto_rs.Base.Int.{pos, to_c_int}
use mosquitto_rs.Base.Utf8.{as_bytes}
use mosquitto_rs.Client.Callbacks.{on_connect}
use mosquitto_rs.Client.Connecting.{
  progress, progress_after, connected_outcome, signal, signals, Spares, SparesAll,
}
use mosquitto_rs.Client.Futures.{quiet}
use mosquitto_rs.Client.Outcome.{connect-Run-outcome}
use mosquitto_rs.Client.Requests.{connect, connect_poll}
use mosquitto_rs.Client.Runs.{Run, calls_connect, connects}
use mosquitto_rs.Client.State.{State, new}
use mosquitto_rs.Error.{mosq, result}
use mosquitto_rs.Lowlevel.Network as network
use mosquitto_rs.Lowlevel.Status.{ConnectionStatus}
use mosquitto_rs.Lowlevel.Strings.{Duration, cstr, opt_cstr}
use mosquitto_rs.Sys.{MosqErr, err_code}
use mosquitto_rs.Tests.Channels.{documented, open_new}
use mosquitto_rs.Tests.World.{platform, runtime, mosq as client}

abbrev keep_alive : Duration
keep_alive = record { secs = 5; nanos = 0 }

abbrev accepted : ConnectionStatus
accepted = record { code = pos 0 }

abbrev start : State platform
start = new platform (runtime (pos 0))

abbrev first : State platform
first = (connect platform client (str "localhost") (pos 1883) keep_alive none start).1

abbrev second : State platform
second = (connect platform client (str "localhost") (pos 1883) keep_alive none first).1

abbrev finished : State platform
finished = on_connect platform client accepted second

abbrev later : Run platform (λ rx. ⊥) first (quiet ∷ quiet ∷ []) finished
later = (
  second,
  calls_connect client (str "localhost") (pos 1883) keep_alive none refl refl,
  (finished, connects client accepted refl refl, refl),
)

-- The first call is given up.
connect-Run-outcome_example : (connect_poll platform 0 finished).0 ≡ some (err (mosq MosqErr.inval))
unfolding new connect network.connect cstr as_bytes opt_cstr to_c_int result err_code open_new
    progress progress_after connected_outcome signal signals Spares SparesAll
connect-Run-outcome_example =
    connect-Run-outcome platform documented client (str "localhost") (pos 1883) keep_alive none
      start 0 (λ rx. ⊥) (quiet ∷ quiet ∷ []) finished later (λ tx held. cc held) refl (tt, (tt, tt))
