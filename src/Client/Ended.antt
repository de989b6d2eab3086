-- ===== src/Client/Ended.antt =====
-- mosquitto-rs/src/client.rs: messages on their way from the C library into the stream.
use mosquitto_rs.Base.{◌≡◌, ap, ◌∙◌, true, none, List, [], ◌∷◌, ◌++◌, Str, All}
use mosquitto_rs.Base.Utf8.{IsChar, as_bytes, to_string_lossy, to_string_lossy-as_bytes}
use mosquitto_rs.Channel.{Documented}
use mosquitto_rs.Client.Callbacks.{on_message, callbacks}
use mosquitto_rs.Client.Data.{Event}
use mosquitto_rs.Client.State.{Platform, State}
use mosquitto_rs.Client.Stream.{Holds, dispatch_event-Holds}
use mosquitto_rs.Lowlevel.Callbacks as trampoline
use mosquitto_rs.Lowlevel.Callbacks.{MosquittoMessage}
use mosquitto_rs.Lowlevel.Status.{qos_from_int}

module _ (p : Platform) (d : Documented p.events) (rx : p.events.Receiver) where
  -- A message that the C library hands over while the stream is open, with the bytes of a text for
  -- its topic, is queued behind the earlier events: with that text, its own payload, id and retain
  -- flag, and the quality of service that its number stands for.
  pub message-Holds :
      (m : p.lib.Handle) (msg : MosquittoMessage) (topic : Str) (q : List Event) (st : State p)
      → All IsChar topic
      → msg.topic ≡ as_bytes topic
      → Holds p (record { m = m; cb = none }) d rx q true st
      → Holds p
          (record { m = m; cb = none })
          d
          rx
          (q
            ++ Event.message (record {
              topic = topic;
              payload = msg.payload;
              qos = qos_from_int msg.qos;
              retain = msg.retain;
              mid = msg.mid;
            })
              ∷ [])
          true
          (trampoline.message p.lib (callbacks p) m msg st)
  unfolding trampoline.message trampoline.with_transient_client callbacks on_message
  message-Holds m msg topic q st chars sent h =
      let whole : to_string_lossy msg.topic ≡ topic =
        ap to_string_lossy sent ∙ to_string_lossy-as_bytes topic chars in
      rw whole (
        dispatch_event-Holds p (record { m = m; cb = none }) d rx
          (Event.message (record {
            topic = topic;
            payload = msg.payload;
            qos = qos_from_int msg.qos;
            retain = msg.retain;
            mid = msg.mid;
          }))
          q st h)
