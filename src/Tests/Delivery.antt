-- ===== src/Tests/Delivery.antt =====
-- Calls of the C library, and what a subscriber of the small world receives.
use mosquitto_rs.Base.{◌≡◌, refl, false, List, [], ◌∷◌}
use mosquitto_rs.Base.Int.{pos}
use mosquitto_rs.Base.Utf8.{to_string_lossy}
use mosquitto_rs.Channel.{Poll, ready, closed}
use mosquitto_rs.Client.Data.{Event}
use mosquitto_rs.Client.Delivery.{
  LibraryCall, connect, subscribe, message, disconnect, meaning, deliver_all, receive,
  deliver_all-receive,
}
use mosquitto_rs.Client.Incoming.{stream, ended, events_of, ends}
use mosquitto_rs.Client.Requests.{subscriber}
use mosquitto_rs.Client.State.{new}
use mosquitto_rs.Lowlevel.Callbacks.{MosquittoMessage}
use mosquitto_rs.Lowlevel.Status.{QoS, qos_from_int, is_unexpected_disconnect}
use mosquitto_rs.Tests.Channels.{documented, open_new}
use mosquitto_rs.Tests.World.{platform, runtime}

-- The topic is not UTF-8.
abbrev raw : MosquittoMessage
raw = record {
  mid = pos 0;
  topic = b'a' ∷ 0xff ∷ [];
  payload = b'x' ∷ [];
  qos = pos 2;
  retain = false;
}

abbrev calls : List LibraryCall
calls =
    connect (pos 0)
    ∷ subscribe (pos 1) (pos 2 ∷ [])
    ∷ message raw
    ∷ disconnect (pos 0)
    ∷ message raw
    ∷ []

abbrev expected : List (Poll Event)
expected =
    ready (Event.connected (record { code = pos 0 }))
    ∷ ready (
        Event.message (record {
          topic = b'a' ∷ 0xfffd ∷ [];
          payload = b'x' ∷ [];
          qos = QoS.exactly_once;
          retain = false;
          mid = pos 0;
        }))
    ∷ ready (Event.disconnected (record { code = pos 0 }))
    ∷ closed
    ∷ []

deliver_all-receive_example :
    receive platform documented 0 4
      (deliver_all platform tt calls (new platform (runtime (pos 0)))).event_store
    ≡ expected
unfolding meaning stream subscriber new open_new events_of ended ends is_unexpected_disconnect
    to_string_lossy qos_from_int
deliver_all-receive_example =
    deliver_all-receive platform tt documented (runtime (pos 0)) 0 calls 1 refl
