-- ===== src/Tests/Events.antt =====
-- The stream of events of a client of the small world.
use mosquitto_rs.Base.{ok, ◌≡◌, refl, none, arith, false, true, some, List, [], ◌∷◌, str}
use mosquitto_rs.Base.Int.{pos, to_c_int}
use mosquitto_rs.Client.Data.{Event, Message}
use mosquitto_rs.Client.Requests.{subscriber, connect, connect_poll}
use mosquitto_rs.Client.State.{State, new, drop_event_tx}
use mosquitto_rs.Client.Callbacks.{on_connect, callbacks, on_disconnect}
use mosquitto_rs.Client.Ended.{message-Holds}
use mosquitto_rs.Client.Runs.{Step}
use mosquitto_rs.Client.Futures.{quiet}
use mosquitto_rs.Error.{result}
use mosquitto_rs.Sys.{err_code}
use mosquitto_rs.Client.Reconnect.{connect-ended}
use mosquitto_rs.Lowlevel.Strings.{Duration, cstr, opt_cstr}
use mosquitto_rs.Lowlevel.Mosq.{Mosq}
use mosquitto_rs.Lowlevel.Callbacks.{MosquittoMessage}
use mosquitto_rs.Lowlevel.Callbacks as trampoline
use mosquitto_rs.Lowlevel.Network as network
use mosquitto_rs.Base.Utf8.{as_bytes}
use mosquitto_rs.Client.Incoming.{
  Incoming, connects, disconnects, receives, acknowledges, call_back_all, stream, ended, events_of,
  ends,
}
use mosquitto_rs.Client.Stream.{channel, Holds, call_back_all-stream}
use mosquitto_rs.Lowlevel.Status.{
  QoS, ConnectionStatus, ReasonCode, qos_from_int, is_unexpected_disconnect,
}
use mosquitto_rs.Tests.Channels.{documented, open_new, look, update}
use mosquitto_rs.Tests.World.{library, platform, runtime, mosq as client}

abbrev note : Message
note = record {
  topic = str "a";
  payload = b'x' ∷ [];
  qos = QoS.at_most_once;
  retain = false;
  mid = pos 0;
}

-- A connection is lost and made again; the second one is ended by the client, and a late message
-- comes after that.
abbrev calls : List Incoming
calls =
    connects (record { code = pos 0 })
    ∷ disconnects (record { code = pos 7 })
    ∷ connects (record { code = pos 0 })
    ∷ receives note
    ∷ acknowledges (pos 3)
    ∷ disconnects (record { code = pos 0 })
    ∷ receives note
    ∷ []

abbrev received : List Event
received =
    Event.connected (record { code = pos 0 })
    ∷ Event.disconnected (record { code = pos 7 })
    ∷ Event.connected (record { code = pos 0 })
    ∷ Event.message note
    ∷ Event.disconnected (record { code = pos 0 })
    ∷ []

call_back_all-stream_example :
    documented.at
      (call_back_all platform client calls (new platform (runtime (pos 0)))).event_store
      0
    ≡ some (channel platform client documented 0 received false)
unfolding stream subscriber new open_new events_of ended ends is_unexpected_disconnect
call_back_all-stream_example =
    call_back_all-stream platform client documented (runtime (pos 0)) 0 calls refl

abbrev accepted_status : ConnectionStatus
accepted_status = record { code = pos 0 }

abbrev keep_alive : Duration
keep_alive = record { secs = 5; nanos = 0 }

-- The client disconnects, and connects again.
abbrev requested : ReasonCode
requested = record { code = pos 0 }

abbrev apart : State platform
apart = on_disconnect platform client requested (new platform (runtime (pos 0)))

abbrev connecting : State platform
connecting = (connect platform client (str "localhost") (pos 1883) keep_alive none apart).1

connect-ended_example :
    ((connect_poll platform 0 (on_connect platform client accepted_status connecting)).0
      ≡ some (ok accepted_status))
    × ((on_connect platform client accepted_status connecting).process.world
        ≡ (library.mosquitto_disconnect tt connecting.process.world).1)
unfolding on_disconnect is_unexpected_disconnect look drop_event_tx new open_new update connect
    network.connect cstr as_bytes opt_cstr to_c_int result err_code
connect-ended_example =
    connect-ended platform client documented documented 0 (Event.disconnected requested ∷ [])
      (λ rx. ⊥) (str "localhost") (pos 1883) keep_alive none apart accepted_status 0
      (runtime (pos 0)) (quiet ∷ []) (refl, refl)
      (apart, Step.disconnects client requested refl refl, refl) refl

abbrev transient : Mosq library
transient = record { m = tt; cb = none }

abbrev raw : MosquittoMessage
raw = record {
  mid = pos 0;
  topic = 0xc3 ∷ 0xa9 ∷ [];
  payload = b'x' ∷ [];
  qos = pos 1;
  retain = false;
}

-- The topic is one letter of two bytes.
message-Holds_example :
    Holds platform transient documented 0
      (Event.message (record {
        topic = 0xe9 ∷ [];
        payload = b'x' ∷ [];
        qos = QoS.at_least_once;
        retain = false;
        mid = pos 0;
      })
        ∷ [])
      true
      (trampoline.message library (callbacks platform) tt raw (new platform (runtime (pos 0))))
unfolding as_bytes new open_new look qos_from_int
message-Holds_example =
    message-Holds platform documented 0 tt raw (0xe9 ∷ []) [] (new platform (runtime (pos 0)))
      (ground arith, tt) refl ((0, refl, refl), refl)
