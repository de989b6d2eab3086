-- ===== src/Tests/Futures.antt =====
-- Requests and connections of the small world.
use mosquitto_rs.Base.{false, ◌≡◌, refl, false, none, some, [], ◌∷◌, str, ok}
use mosquitto_rs.Base.Int.{pos, to_c_int}
use mosquitto_rs.Base.Utf8.{as_bytes}
use mosquitto_rs.Client.Callbacks.{acknowledge, on_connect}
use mosquitto_rs.Client.Connect.{connect_err-on_connect}
use mosquitto_rs.Client.Futures.{acked, assigned, phase_after, next_phase, outcome, IsValid}
use mosquitto_rs.Client.Invariant.{is_held, waits_after, Run-IsValid}
use mosquitto_rs.Client.Progress.{request-Run-outcome}
use mosquitto_rs.Client.Requests.{request, ack_poll, connect}
use mosquitto_rs.Client.Runs.{acknowledges, requests}
use mosquitto_rs.Client.State.{State, new}
use mosquitto_rs.Error.{mosq, result, from_err, build_map}
use mosquitto_rs.Lowlevel.Io.{Io, Process}
use mosquitto_rs.Lowlevel.Network as network
use mosquitto_rs.Lowlevel.Status.{MessageId, QoS, ConnectionStatus}
use mosquitto_rs.Lowlevel.Strings.{Duration, cstr, opt_cstr}
use mosquitto_rs.Sys.{MosqErr, err_code}
use mosquitto_rs.Tests.Channels.{documented, look, open_new}
use mosquitto_rs.Tests.World.{Broker, library, platform, runtime, mosq as client}

abbrev start : State platform
start = new platform (runtime (pos 0))

abbrev publishing : Io (Process Broker) MessageId
publishing = network.publish library client (str "a") (b'x' ∷ []) QoS.at_least_once false

start-IsValid : IsValid platform documented start.mids start.ack_store
start-IsValid = (Run-IsValid platform documented (runtime (pos 0)) [] start refl).1

abbrev published : State platform
published = (request platform publishing start).1

-- A second request gets the id 2, and then the first is acknowledged.
abbrev again : State platform
again = (request platform publishing published).1

abbrev finished : State platform
finished = acknowledge platform client (pos 1) again

request-Run-outcome_example : (ack_poll platform 0 finished).0 ≡ some (ok (pos 1))
unfolding new request network.publish cstr as_bytes to_c_int result err_code open_new outcome
    phase_after next_phase
request-Run-outcome_example =
    request-Run-outcome platform documented publishing start (pos 1) 0
      (assigned (pos 2) ∷ acked (pos 1) ∷ []) finished start-IsValid refl
      (
        again,
        requests publishing (pos 2) refl refl refl,
        (finished, acknowledges client (pos 1) refl refl, refl),
      )

Run-IsValid_example :
    ((mid : MessageId)
      → is_held (published.mids mid) ≡ waits_after mid (assigned (pos 1) ∷ []) false)
    × IsValid platform documented published.mids published.ack_store
unfolding new request network.publish cstr as_bytes to_c_int result err_code open_new
Run-IsValid_example =
    Run-IsValid platform documented (runtime (pos 0)) (assigned (pos 1) ∷ []) published
      (published, requests publishing (pos 1) refl refl refl, refl)

abbrev keep_alive : Duration
keep_alive = record { secs = 5; nanos = 0 }

abbrev refused_status : ConnectionStatus
refused_status = record { code = pos 5 }

abbrev connecting : State platform
connecting = (connect platform client (str "localhost") (pos 1883) keep_alive none start).1

-- The library answers that there is no connection.
abbrev unreachable : State platform
unreachable = new platform (runtime (pos 4))

abbrev failed : State platform
failed = (connect platform client (str "localhost") (pos 1883) keep_alive none unreachable).1

abbrev accepted_status : ConnectionStatus
accepted_status = record { code = pos 0 }

connect_err-on_connect_example :
    (on_connect platform client accepted_status failed).process
    ≡ (network.disconnect library client failed.process).1
unfolding new connect network.connect cstr as_bytes opt_cstr to_c_int result err_code open_new look
    from_err build_map
connect_err-on_connect_example =
    connect_err-on_connect platform client documented documented 0 [] (str "localhost") (pos 1883)
      keep_alive none unreachable (mosq MosqErr.no_conn) accepted_status ((0, refl, refl), refl)
      refl
