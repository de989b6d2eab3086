-- ===== src/Tests/Session.antt =====
-- The asynchronous example program in the small world.
use mosquitto_rs.Base.{◌≡◌, refl, arith, false, some, List, [], ◌∷◌, str}
use mosquitto_rs.Base.Int.{pos, to_c_int}
use mosquitto_rs.Base.Utf8.{as_bytes}
use mosquitto_rs.Client.Callbacks.{on_connect, on_message, acknowledge}
use mosquitto_rs.Client.Data.{Event, Message}
use mosquitto_rs.Client.Incoming.{connects, receives, acknowledges}
use mosquitto_rs.Client.Requests.{
  connect, subscribe, publish, connect_poll, subscribe_poll, publish_poll, subscriber,
}
use mosquitto_rs.Client.Setup.{with_auto_id}
use mosquitto_rs.Client.State.{new}
use mosquitto_rs.Error.{result}
use mosquitto_rs.Examples.Async.{main, resume}
use mosquitto_rs.Examples.Async.Finishing.{IsEnded, Prints, main-rounds-IsEnded, main-rounds-Prints}
use mosquitto_rs.Examples.Async.Rounds.{
  Turn, called, turn, rounds, round, first_event, answers, is_answer,
}
use mosquitto_rs.Lowlevel.Mosq.{init_library, set_callbacks}
use mosquitto_rs.Lowlevel.Mosq as mosq
use mosquitto_rs.Lowlevel.Network as network
use mosquitto_rs.Lowlevel.Status.{ConnectionStatus, QoS, is_successful}
use mosquitto_rs.Lowlevel.Strings.{cstr, opt_cstr}
use mosquitto_rs.Sys.{err_code}
use mosquitto_rs.Tests.Channels.{documented, open_new, look, update}
use mosquitto_rs.Tests.World.{platform, runtime}

abbrev accepted : ConnectionStatus
accepted = record { code = pos 0 }

abbrev woot : Message
woot = record {
  topic = str "test/this";
  payload = str "woot";
  qos = QoS.at_most_once;
  retain = false;
  mid = pos 7;
}

-- The message comes back before the publication is acknowledged; the first round brings nothing.
abbrev schedule : List (List (Turn platform))
schedule =
    []
    ∷ (called (connects accepted) ∷ [])
    ∷ (called (acknowledges (pos 1)) ∷ [])
    ∷ (called (receives woot) ∷ called (acknowledges (pos 2)) ∷ [])
    ∷ []
    ∷ []

four_answers : answers platform schedule (main platform (runtime (pos 0))) ≡ 4
unfolding answers main is_answer round resume with_auto_id new connect subscribe publish
    connect_poll subscribe_poll publish_poll subscriber on_connect acknowledge init_library
    set_callbacks mosq.with_auto_id network.start_loop_thread network.connect network.subscribe
    network.publish cstr opt_cstr as_bytes to_c_int result err_code open_new look is_successful turn
    update on_message
four_answers = refl

main-rounds-IsEnded_example :
    IsEnded platform (rounds platform schedule (main platform (runtime (pos 0))))
main-rounds-IsEnded_example =
    main-rounds-IsEnded platform documented documented documented (runtime (pos 0)) schedule
      (omega (arith, four_answers))

main-rounds-Prints_example :
    Prints platform
      (some (Event.connected accepted))
      (rounds platform schedule (main platform (runtime (pos 0))))
unfolding first_event
main-rounds-Prints_example =
    main-rounds-Prints platform documented documented documented (runtime (pos 0)) schedule
