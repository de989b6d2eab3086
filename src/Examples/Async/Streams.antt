-- ===== src/Examples/Async/Streams.antt =====
-- What a turn of the C library does to the stream of events in the program of
-- mosquitto-rs/examples/publish_async.rs.
use mosquitto_rs.Base.{
  ◌≡◌, refl, ◌∙◌, inl, inr, Bool, true, false, Option, none, some, List, [], ◌∷◌, Option-cases,
  if_either,
}
use mosquitto_rs.Channel.{Documented}
use mosquitto_rs.Client.Callbacks.{
  acknowledge, on_connect, on_disconnect, on_message, dispatch_event, tell_connect, disconnecting,
}
use mosquitto_rs.Client.Data.{Event}
use mosquitto_rs.Client.Incoming.{
  Incoming, connects, disconnects, receives, acknowledges, call_back, events_of, ends,
}
use mosquitto_rs.Client.State.{Platform, State, on_process}
use mosquitto_rs.Client.Stream.{Holds, call_back-Holds, call_back-ended}
use mosquitto_rs.Examples.Async.Rounds.{
  Turn, called, moved, transient, turn, turns, noted, noted_all,
}
use mosquitto_rs.Lowlevel.Mosq.{Mosq}
use mosquitto_rs.Lowlevel.Status.{MessageId, ConnectionStatus}

module _ (p : Platform) (client : Mosq p.lib) where
  -- No callback takes the receiver out of the handler.
  abbrev Same : State p → State p → Type 0
  Same st st' = st'.subscriber_rx ≡ st.subscriber_rx

  dispatch_event-Same : (e : Event) (st : State p) → Same st (dispatch_event p client e st)
  unfolding dispatch_event disconnecting
  dispatch_event-Same e st = elim (Option-cases st.subscriber_tx) [
    | inl gone ↦ rw (gone, dispatch_event) refl
    | inr (tx, held) ↦
        rw (held, dispatch_event)
          (if_either (Same st) (p.events.try_send tx e st.event_store).0 refl refl)
  ]

  tell_connect-Same : (rc : ConnectionStatus) (st : State p) → Same st (tell_connect p client rc st)
  unfolding tell_connect disconnecting
  tell_connect-Same rc st = elim (Option-cases st.connect) [
    | inl gone ↦ rw (gone, tell_connect) refl
    | inr (tx, held) ↦
        rw (held, tell_connect)
          (if_either (Same st) (p.conns.try_send tx rc st.conn_store).0 refl refl)
  ]

  acknowledge-Same : (k : MessageId) (st : State p) → Same st (acknowledge p client k st)
  unfolding acknowledge disconnecting
  acknowledge-Same k st = elim (Option-cases (st.mids k)) [
    | inl gone ↦ rw (gone, acknowledge) refl
    | inr (tx, held) ↦
        rw (held, acknowledge) (if_either (Same st) (p.acks.try_send tx k st.ack_store).0 refl refl)
  ]

  call_back-Same : (i : Incoming) (st : State p) → Same st (call_back p client i st)
  unfolding call_back on_connect on_disconnect on_message
  call_back-Same (connects rc) st =
      dispatch_event-Same (Event.connected rc) (tell_connect p client rc st)
      ∙ tell_connect-Same rc st
  call_back-Same (disconnects reason) st =
      let kept = dispatch_event-Same (Event.disconnected reason) st in
      if_either (Same st) _ kept kept
  call_back-Same (receives m) st = dispatch_event-Same (Event.message m) st
  call_back-Same (acknowledges k) st = acknowledge-Same k st

module _ (p : Platform) (client : Mosq p.lib) (d : Documented p.events)
    (rx : p.events.Receiver) where
  pub turns-subscriber_rx :
      (ts : List (Turn p)) (st : State p) → (turns p client ts st).subscriber_rx ≡ st.subscriber_rx
  unfolding turns turn
  turns-subscriber_rx [] st = refl
  turns-subscriber_rx (called i ∷ ts) st =
      turns-subscriber_rx ts (turn p client (called i) st)
      ∙ call_back-Same p (transient p client) i st
  turns-subscriber_rx (moved w ∷ ts) st = turns-subscriber_rx ts (turn p client (moved w) st)

  -- The stream of a program to which the library has reported nothing, or an event first.
  abbrev pub Streams : Option Event → State p → Type 0
  Streams none st = Holds p client d rx [] true st
  Streams (some e) st = (q : List Event) × (b : Bool) × Holds p client d rx (e ∷ q) b st

  reported_Streams :
      (e : Event) (b : Bool) (st : State p)
      → Holds p client d rx (e ∷ []) b st
      → Streams (some e) st
  reported_Streams e b st h = ([], b, h)

  turn-Streams :
      (o : Option Event) (t : Turn p) (st : State p)
      → Streams o st
      → Streams (noted p o t) (turn p client t st)
  unfolding noted turn events_of ends on_process
  turn-Streams none (called (connects rc)) st h =
      reported_Streams (Event.connected rc) true _
        (call_back-Holds p (transient p client) d rx (connects rc) [] st h)
  turn-Streams none (called (disconnects reason)) st h =
      reported_Streams (Event.disconnected reason) _ _
        (call_back-Holds p (transient p client) d rx (disconnects reason) [] st h)
  turn-Streams none (called (receives m)) st h =
      reported_Streams (Event.message m) true _
        (call_back-Holds p (transient p client) d rx (receives m) [] st h)
  turn-Streams none (called (acknowledges k)) st h =
      call_back-Holds p (transient p client) d rx (acknowledges k) [] st h
  turn-Streams none (moved w) st h = h
  turn-Streams (some e) (called i) st (q, true, h) =
      (_, _, call_back-Holds p (transient p client) d rx i (e ∷ q) st h)
  turn-Streams (some e) (called i) st (q, false, h) =
      (q, false, call_back-ended p (transient p client) d rx i (e ∷ q) st h)
  turn-Streams (some e) (moved w) st (q, true, h) = (q, true, h)
  turn-Streams (some e) (moved w) st (q, false, h) = (q, false, h)

  pub turns-Streams :
      (o : Option Event) (ts : List (Turn p)) (st : State p)
      → Streams o st
      → Streams (noted_all p o ts) (turns p client ts st)
  unfolding turns noted_all
  turns-Streams o [] st h = h
  turns-Streams o (t ∷ ts) st h =
      turns-Streams (noted p o t) ts (turn p client t st) (turn-Streams o t st h)
