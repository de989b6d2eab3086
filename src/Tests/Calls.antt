-- ===== src/Tests/Calls.antt =====
-- Calls of the C library in the small world.
use mosquitto_rs.Base.{
  ◌≡◌, refl, ◌+◌, List, arith, ◌⊎◌, ◌<◌, ◌≤◌, ℕ, false, true, none, [], ◌∷◌, Str, Bytes, str,
  length, err,
}
use mosquitto_rs.Base.Int.{pos}
use mosquitto_rs.Base.Utf8.{as_bytes}
use mosquitto_rs.Base.{Option}
use mosquitto_rs.Sys.Library.{Trampoline, callback_set}
use mosquitto_rs.Client.State.{Runtime, handler_ref}
use mosquitto_rs.Error.{Error, mosq, c_string}
use mosquitto_rs.Lowlevel.Calls.{HasNoNul, HasNoNulIn, FirstNul, publish_cases, connect_cases}
use mosquitto_rs.Lowlevel.Agreement as method
use mosquitto_rs.Lowlevel.Bounds.{guarded-Agrees}
use mosquitto_rs.Lowlevel.Guarded.{guarded, guard}
use mosquitto_rs.Lowlevel.Init.{
  Counted, Use, asks_version, makes, drops, use_all, use_all-Keeps, any_needs, needs,
}
use mosquitto_rs.Lowlevel.Io.{Process, check, check_mid}
use mosquitto_rs.Lowlevel.Mosq as constructors
use mosquitto_rs.Lowlevel.Network.{publish, connect}
use mosquitto_rs.Lowlevel.Status.{QoS, qos_code}
use mosquitto_rs.Lowlevel.Strings.{Duration}
use mosquitto_rs.Sys.{MosqErr}
use mosquitto_rs.Tests.World.{Broker, library, platform, broker, runtime, mosq as client}

abbrev process : Process Broker
process = record { initialised = true; world = broker (pos 0) }

-- A topic with a NUL for its second character.
abbrev bad_topic : Str
bad_topic = b'a' ∷ 0 ∷ []

abbrev payload : Bytes
payload = b'x' ∷ []

publish_cases_example :
    ((i : ℕ) × FirstNul (as_bytes bad_topic) i
      × (publish library client bad_topic payload QoS.at_least_once true process
          ≡ (err (c_string (record { position = i; bytes = as_bytes bad_topic })), process)))
    ⊎ (HasNoNul (as_bytes bad_topic)
        × (2147483648 ≤ length payload)
        × (publish library client bad_topic payload QoS.at_least_once true process
            ≡ (err (mosq MosqErr.payload_size), process)))
    ⊎ (HasNoNul (as_bytes bad_topic)
        × (length payload < 2147483648)
        × (publish library client bad_topic payload QoS.at_least_once true process
            ≡ check_mid library
                (library.mosquitto_publish client.m
                  (pos 0)
                  (record { bytes = as_bytes bad_topic })
                  (pos (length payload))
                  payload
                  (qos_code QoS.at_least_once)
                  true)
                process))
publish_cases_example =
    publish_cases library client bad_topic payload QoS.at_least_once true process

abbrev keep_alive : Duration
keep_alive = record { secs = 5; nanos = 0 }

connect_cases_example :
    (HasNoNul (as_bytes (str "h"))
      × HasNoNulIn library client none
      × (keep_alive.secs < 2147483648)
      × (connect library client (str "h") (pos 1883) keep_alive none process
          ≡ check library
              (library.mosquitto_connect_bind client.m
                (record { bytes = as_bytes (str "h") })
                (pos 1883)
                (pos 5)
                none)
              process))
    ⊎ ((HasNoNul (as_bytes (str "h"))
            × HasNoNulIn library client none
            × (keep_alive.secs < 2147483648)
          → ⊥)
        × (e : Error) × (connect library client (str "h") (pos 1883) keep_alive none process
            ≡ (err e, process)))
connect_cases_example = connect_cases library client (str "h") (pos 1883) keep_alive none process

-- The loop thread does not start.
abbrev threadless : Runtime platform
threadless = record (runtime (pos 0)) {
  process = record { initialised = false; world = record (broker (pos 0)) { loop_code = pos 10 } };
}

abbrev trap : Broker → Broker
trap w = record w { destroyed = w.destroyed + 1 }

guarded-Agrees_example :
    publish
      (guarded library trap)
      (guard library trap client)
      bad_topic
      payload
      QoS.at_least_once
      true
      process
    ≡ publish library client bad_topic payload QoS.at_least_once true process
guarded-Agrees_example =
    guarded-Agrees library trap client process
      (method.publish bad_topic payload QoS.at_least_once true)

callback_set-inits :
    (kind : Trampoline) (m : Unit {0}) (t : Option Trampoline) (w : Broker)
    → (callback_set library kind m t w).inits ≡ w.inits
callback_set-inits Trampoline.connect m t w = refl
callback_set-inits Trampoline.disconnect m t w = refl
callback_set-inits Trampoline.publish m t w = refl
callback_set-inits Trampoline.subscribe m t w = refl
callback_set-inits Trampoline.message m t w = refl
callback_set-inits Trampoline.unsubscribe m t w = refl
callback_set-inits Trampoline.bridge_logs m t w = refl

abbrev counted : Counted library
counted = record {
  inits = λ w. w.inits;
  lib_init = λ w. omega arith;
  new = λ id clean obj w. refl;
  callback_sets = callback_set-inits;
  destroy = λ m w. refl;
}

abbrev fresh : Process Broker
fresh = record { initialised = false; world = broker (pos 0) }

abbrev uses : List (Use library)
uses =
    makes handler_ref (str "me") true
    ∷ asks_version
    ∷ drops client
    ∷ makes handler_ref bad_topic true
    ∷ []

use_all-Keeps_example :
    ((use_all library uses fresh).initialised ≡ true)
    × ((use_all library uses fresh).world.inits ≡ 1)
unfolding any_needs needs
use_all-Keeps_example = use_all-Keeps library counted uses fresh
