-- ===== src/Client/Stream.antt =====
-- The stream of events in mosquitto-rs/src/client.rs: what a subscriber receives of what the C
-- library calls back.
use mosquitto_rs.Base.{
  ◌≡◌, refl, sym, inl, inr, Bool, true, false, not, none, some, List, [], ◌∷◌, ◌++◌, arith,
  Option-cases, Bool-cases, if_either,
}
use mathlib.Core.List.{append_assoc, append-nil}
use mosquitto_rs.Channel.{Documented, Status}
use mosquitto_rs.Client.Callbacks.{
  acknowledge, on_connect, on_disconnect, on_message, dispatch_event, tell_connect, disconnecting,
}
use mosquitto_rs.Client.Data.{Event}
use mosquitto_rs.Client.Requests.{subscriber}
use mosquitto_rs.Client.State.{Platform, State, Runtime, new, drop_event_tx}
use mosquitto_rs.Lowlevel.Mosq.{Mosq}
use mosquitto_rs.Lowlevel.Status.{MessageId, ConnectionStatus, ReasonCode, is_unexpected_disconnect}
use mosquitto_rs.Client.Incoming.{
  Incoming, connects, disconnects, receives, acknowledges, events_of, ends, stream, ended,
  call_back, call_back_all,
}

module _ (p : Platform) (client : Mosq p.lib) (d : Documented p.events)
    (rx : p.events.Receiver) where
  abbrev pub channel : List Event → Bool → Status Event
  channel q has_sender = record {
    queue = q;
    capacity = none;
    has_sender = has_sender;
    has_receiver = true;
  }

  -- The subscriber's channel holds `q`, and its sender stands in the handler until the end.
  abbrev pub Holds : List Event → Bool → State p → Type 0
  Holds q true st =
      ((tx : p.events.Sender) × (st.subscriber_tx ≡ some tx) × (d.tx_id tx ≡ d.rx_id rx))
      × (d.at st.event_store (d.rx_id rx) ≡ some (channel q true))
  Holds q false st =
      (st.subscriber_tx ≡ none) × (d.at st.event_store (d.rx_id rx) ≡ some (channel q false))

  sent_at :
      (e : Event) (q : List Event) (s : p.events.Store) (tx : p.events.Sender)
      → d.tx_id tx ≡ d.rx_id rx
      → d.at s (d.rx_id rx) ≡ some (channel q true)
      → ((p.events.try_send tx e s).0 ≡ true)
        × (d.at (p.events.try_send tx e s).1 (d.rx_id rx) ≡ some (channel (q ++ e ∷ []) true))
  sent_at e q s tx own chan =
      (ground (arith, d.try_send_taken tx e s), ground (arith, d.try_send_at tx e s (d.rx_id rx)))

  -- While the stream is open an event is queued, and the connection is left alone.
  pub dispatch_event-Holds :
      (e : Event) (q : List Event) (st : State p)
      → Holds q true st
      → Holds (q ++ e ∷ []) true (dispatch_event p client e st)
  unfolding dispatch_event
  dispatch_event-Holds e q st ((tx, held, own), chan) =
      let (took, chan') = sent_at e q st.event_store tx own chan in
      rw (held, dispatch_event, took) ((tx, held, own), chan')

  pub dispatch_event-process :
      (e : Event) (q : List Event) (st : State p)
      → Holds q true st
      → (dispatch_event p client e st).process ≡ st.process
  unfolding dispatch_event
  dispatch_event-process e q st ((tx, held, own), chan) =
      let (took, _) = sent_at e q st.event_store tx own chan in rw (held, dispatch_event, took) refl

  -- Once it has ended an event is dropped, and the connection is asked to end.
  dispatch_event-ended :
      (e : Event) (q : List Event) (st : State p)
      → Holds q false st
      → Holds q false (dispatch_event p client e st)
  unfolding dispatch_event disconnecting
  dispatch_event-ended e q st (gone, chan) = rw (gone, dispatch_event) (gone, chan)

  abbrev pub SameEvents : State p → State p → Type 0
  SameEvents st st' = (st'.subscriber_tx ≡ st.subscriber_tx) × (st'.event_store ≡ st.event_store)

  pub SameEvents-Holds :
      (q : List Event) (b : Bool) (st st' : State p)
      → SameEvents st st'
      → Holds q b st
      → Holds q b st'
  SameEvents-Holds q true st st' (same, store) h = rw (same, store) h
  SameEvents-Holds q false st st' (same, store) h = rw (same, store) h

  pub tell_connect-SameEvents :
      (rc : ConnectionStatus) (st : State p) → SameEvents st (tell_connect p client rc st)
  unfolding tell_connect
  tell_connect-SameEvents rc st = elim (Option-cases st.connect) [
    | inl e ↦ rw (e, tell_connect) (refl, refl)
    | inr (tx, e) ↦
        rw (e, tell_connect)
          (if_either
            (λ (s : State p).
              (s.subscriber_tx ≡ st.subscriber_tx) × (s.event_store ≡ st.event_store))
            (p.conns.try_send tx rc st.conn_store).0 (refl, refl) (refl, refl))
  ]

  acknowledge-SameEvents :
      (k : MessageId) (st : State p) → SameEvents st (acknowledge p client k st)
  unfolding acknowledge
  acknowledge-SameEvents k st = elim (Option-cases (st.mids k)) [
    | inl e ↦ rw (e, acknowledge) (refl, refl)
    | inr (tx, e) ↦
        rw (e, acknowledge)
          (if_either
            (λ (s : State p).
              (s.subscriber_tx ≡ st.subscriber_tx) × (s.event_store ≡ st.event_store))
            (p.acks.try_send tx k st.ack_store).0 (refl, refl) (refl, refl))
  ]

  -- A requested disconnection is queued, and then the sender goes.
  ended-Holds :
      (reason : ReasonCode) (q : List Event) (st : State p)
      → is_unexpected_disconnect reason ≡ false
      → Holds q true st
      → Holds (q ++ Event.disconnected reason ∷ []) false (on_disconnect p client reason st)
  unfolding on_disconnect drop_event_tx
  ended-Holds reason q st expected h =
      let ((tx, held, own), chan) = dispatch_event-Holds (Event.disconnected reason) q st h in
      rw (expected, held)
        (
          refl,
          ground (
            arith,
            d.drop_sender_at tx (dispatch_event p client (Event.disconnected reason) st).event_store
                (d.rx_id rx),
          ),
        )

  unexpected-Holds :
      (reason : ReasonCode) (q : List Event) (st : State p)
      → is_unexpected_disconnect reason ≡ true
      → Holds q true st
      → Holds (q ++ Event.disconnected reason ∷ []) true (on_disconnect p client reason st)
  unfolding on_disconnect
  unexpected-Holds reason q st unexpected h =
      rw unexpected (dispatch_event-Holds (Event.disconnected reason) q st h)

  pub call_back-Holds :
      (i : Incoming) (q : List Event) (st : State p)
      → Holds q true st
      → Holds (q ++ events_of i) (not (ends i)) (call_back p client i st)
  unfolding call_back events_of ends on_connect on_message
  call_back-Holds (connects rc) q st h =
      dispatch_event-Holds (Event.connected rc) q (tell_connect p client rc st)
        (SameEvents-Holds q true st (tell_connect p client rc st) (tell_connect-SameEvents rc st) h)
  call_back-Holds (disconnects reason) q st h =
      elim (Bool-cases (is_unexpected_disconnect reason)) [
        | inl unexpected ↦ rw unexpected (unexpected-Holds reason q st unexpected h)
        | inr expected ↦ rw expected (ended-Holds reason q st expected h)
      ]
  call_back-Holds (receives m) q st h = dispatch_event-Holds (Event.message m) q st h
  call_back-Holds (acknowledges k) q st h =
      rw (append-nil q)
        (SameEvents-Holds q true st (acknowledge p client k st) (acknowledge-SameEvents k st) h)

  pub call_back-ended :
      (i : Incoming) (q : List Event) (st : State p)
      → Holds q false st
      → Holds q false (call_back p client i st)
  unfolding call_back on_connect on_message on_disconnect drop_event_tx
  call_back-ended (connects rc) q st h =
      dispatch_event-ended (Event.connected rc) q (tell_connect p client rc st) (
        SameEvents-Holds q false st (tell_connect p client rc st) (tell_connect-SameEvents rc st) h)
  call_back-ended (disconnects reason) q st h =
      let (gone, chan) = dispatch_event-ended (Event.disconnected reason) q st h in
      if_either (Holds q false) (is_unexpected_disconnect reason) (gone, chan) (refl, rw gone chan)
  call_back-ended (receives m) q st h = dispatch_event-ended (Event.message m) q st h
  call_back-ended (acknowledges k) q st h =
      SameEvents-Holds q false st (acknowledge p client k st) (acknowledge-SameEvents k st) h

  call_back_all-ended :
      (is : List Incoming) (q : List Event) (st : State p)
      → Holds q false st
      → Holds q false (call_back_all p client is st)
  unfolding call_back_all
  call_back_all-ended [] q st h = h
  call_back_all-ended (i ∷ is) q st h =
      call_back_all-ended is q (call_back p client i st) (call_back-ended i q st h)

  call_back_all-Holds :
      (is : List Incoming) (q : List Event) (st : State p)
      → Holds q true st
      → Holds (q ++ stream is) (not (ended is)) (call_back_all p client is st)
  unfolding call_back_all stream ended
  call_back_all-Holds [] q st h = rw (append-nil q) h
  call_back_all-Holds (i ∷ is) q st h = elim (Bool-cases (ends i)) [
    | inl last ↦
        rw (last, append-nil (events_of i))
          (call_back_all-ended is (q ++ events_of i) (call_back p client i st)
            (rw last at (call_back-Holds i q st h)))
    | inr goes_on ↦
        rw (goes_on, ← append_assoc)
          (call_back_all-Holds is (q ++ events_of i) (call_back p client i st)
            (rw goes_on at (call_back-Holds i q st h)))
  ]

pub new-Holds :
    (p : Platform) (client : Mosq p.lib) (d : Documented p.events) (r : Runtime p)
    (rx : p.events.Receiver)
    → (subscriber p (new p r)).0 ≡ some rx
    → Holds p client d rx [] true (new p r)
unfolding new subscriber
new-Holds p client d r rx taken =
    let same : (p.events.unbounded r.event_store).1 ≡ rx = cc taken in
    rw (← same) (
      ((p.events.unbounded r.event_store).0, refl, sym (d.unbounded_ids r.event_store)),
      ground (
        arith,
        d.unbounded_at r.event_store (d.tx_id (p.events.unbounded r.event_store).0),
        d.unbounded_ids r.event_store,
      ),
    )

-- Whatever the C library calls back, the channel that `subscriber` gives out for a new client holds
-- the event of each call in order, up to and including the first disconnection with reason 0, and
-- its sender is gone exactly if there was one.
pub call_back_all-stream :
    (p : Platform) (client : Mosq p.lib) (d : Documented p.events) (r : Runtime p)
    (rx : p.events.Receiver) (is : List Incoming)
    → (subscriber p (new p r)).0 ≡ some rx
    → d.at (call_back_all p client is (new p r)).event_store (d.rx_id rx)
      ≡ some (channel p client d rx (stream is) (not (ended is)))
call_back_all-stream p client d r rx is taken =
    holds-at (not (ended is))
      (call_back_all-Holds p client d rx is [] (new p r) (new-Holds p client d r rx taken))
  where
    holds-at :
        (b : Bool)
        → Holds p client d rx (stream is) b (call_back_all p client is (new p r))
        → d.at (call_back_all p client is (new p r)).event_store (d.rx_id rx)
          ≡ some (channel p client d rx (stream is) b)
    holds-at true h = h.1
    holds-at false h = h.1
