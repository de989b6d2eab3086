-- ===== src/Client/Incoming.antt =====
-- What the C library calls back, and what a subscriber of mosquitto-rs/src/client.rs is to receive of
-- it.
use mosquitto_rs.Base.{Bool, false, not, ◌||◌, List, [], ◌∷◌, ◌++◌, if◌then◌else◌}
use mosquitto_rs.Client.Callbacks.{acknowledge, on_connect, on_disconnect, on_message}
use mosquitto_rs.Client.Data.{Event, Message}
use mosquitto_rs.Client.State.{Platform, State}
use mosquitto_rs.Lowlevel.Mosq.{Mosq}
use mosquitto_rs.Lowlevel.Status.{MessageId, ConnectionStatus, ReasonCode, is_unexpected_disconnect}

-- A call that the C library makes.
pub data Incoming : Type 0 where
  connects : ConnectionStatus → Incoming
  disconnects : ReasonCode → Incoming
  receives : Message → Incoming
  acknowledges : MessageId → Incoming

-- What a subscriber is to receive of a call.
unfoldable pub events_of : Incoming → List Event
events_of (connects rc) = Event.connected rc ∷ []
events_of (disconnects reason) = Event.disconnected reason ∷ []
events_of (receives m) = Event.message m ∷ []
events_of (acknowledges k) = []

-- A disconnection that was asked for ends the stream.
unfoldable pub ends : Incoming → Bool
ends (connects rc) = false
ends (disconnects reason) = not (is_unexpected_disconnect reason)
ends (receives m) = false
ends (acknowledges k) = false

-- The events of the calls, in their order, up to the end of the stream.
unfoldable pub stream : List Incoming → List Event
stream [] = []
stream (i ∷ is) = events_of i ++ (if ends i then [] else stream is)

unfoldable pub ended : List Incoming → Bool
ended [] = false
ended (i ∷ is) = ends i || ended is

module _ (p : Platform) (client : Mosq p.lib) where
  unfoldable pub call_back : Incoming → State p → State p
  call_back (connects rc) = on_connect p client rc
  call_back (disconnects reason) = on_disconnect p client reason
  call_back (receives m) = on_message p client m.mid m.topic m.payload m.qos m.retain
  call_back (acknowledges k) = acknowledge p client k

  unfoldable pub call_back_all : List Incoming → State p → State p
  call_back_all [] st = st
  call_back_all (i ∷ is) st = call_back_all is (call_back i st)
