-- ===== src/Examples/Async/Advance.antt =====
-- What one round makes of the program of mosquitto-rs/examples/publish_async.rs, at each of its
-- awaits.
use mosquitto_rs.Base.{
  ℕ, ◌≡◌, refl, ap, ◌∙◌, inl, inr, Bool, true, false, Option, some, List, str, arith, Bool-cases,
  if◌then◌else◌,
}
use mosquitto_rs.Base.Int.{pos, ◌==ℤ◌}
use mosquitto_rs.Channel.{Documented, ready, polled}
use mosquitto_rs.Client.Connecting.{unanswered, told, connected_outcome}
use mosquitto_rs.Client.Data.{Event}
use mosquitto_rs.Client.Elsewhere.{connect_poll-SameAcks}
use mosquitto_rs.Client.Futures.{waiting, answered, outcome}
use mosquitto_rs.Client.Invariant.{Valid}
use mosquitto_rs.Client.Outcome.{Rests, poll-connected_outcome}
use mosquitto_rs.Client.Progress.{Tracks, poll-outcome}
use mosquitto_rs.Client.Requests.{
  connect_poll, subscriber, subscribe, subscribe_poll, publish, publish_poll, ack_poll,
}
use mosquitto_rs.Client.State.{Platform, State}
use mosquitto_rs.Examples.Async.{
  connecting, subscribing, publishing, Session, waits, quit, received, published, subscribed,
  unwrapped, connected,
}
use mosquitto_rs.Examples.Async.Answers.{
  ack_poll-SameStream, connect_poll-SameStream, connect_poll-subscriber_rx, subscribe_poll-none,
  subscribe_poll-ok, connect_poll-Rests, ack_poll-Tracks, ack_poll-Valid,
}
use mosquitto_rs.Examples.Async.Invariant.{
  Untaken, Taken, Inv, Better, SameStream-Streams, SameStream-Taken, turns-Taken, publishes-Better,
  subscribes-Better,
}
use mosquitto_rs.Examples.Async.Rounds.{Turn, turns, noted_all, is_report, is_ack, any}
use mosquitto_rs.Examples.Async.Stages.{turns-Valid, turns-Rests, turns-Tracks, reported-noted}
use mosquitto_rs.Examples.Async.Streams.{turns-subscriber_rx, Streams, turns-Streams}
use mosquitto_rs.Lowlevel.Mosq.{Mosq}
use mosquitto_rs.Lowlevel.Network as network
use mosquitto_rs.Lowlevel.Status.{MessageId, ConnectionStatus, QoS}

module _ (p : Platform) (acks : Documented p.acks) (conns : Documented p.conns)
    (events : Documented p.events) where
  abbrev pub Advances : Option Event → ℕ → Bool → Session p → Type 0
  Advances = Better p acks conns events

  module _ (client : Mosq p.lib) (o : Option Event) (st : State p) where
    turns-Untaken :
        (ts : List (Turn p))
        → Untaken p acks conns events client o st
        → Untaken p acks conns events client (noted_all p o ts) (turns p client ts st)
    turns-Untaken ts (rx, held, h) = (
      rx,
      turns-subscriber_rx p client events rx ts st ∙ held,
      turns-Streams p client events rx o ts st h,
    )

    connected_waiting :
        (rx : p.conns.Receiver)
        → Valid p acks st
        → Rests p conns rx unanswered st
        → Untaken p acks conns events client o st
        → Advances o 4 false (connected p client rx (connect_poll p rx st))
    unfolding connected connected_outcome
    connected_waiting rx v rests (taken, held, h) =
        let nothing = poll-connected_outcome p conns rx unanswered st rests in
        let kept = connect_poll-subscriber_rx p rx st in
        let (same, store) = connect_poll-SameAcks p rx st in
        rw (nothing, connected)
          (
            (
              rw (same, store) v,
              connect_poll-Rests p conns rx st rests,
              (
                taken,
                kept ∙ held,
                SameStream-Streams p acks conns events client taken o st (connect_poll p rx st).1
                    (connect_poll-SameStream p rx st) h,
              ),
            ),
            omega arith,
          )

    connected-told :
        (rx : p.conns.Receiver) (rc : ConnectionStatus) (e : Event)
        → o ≡ some e
        → Valid p acks st
        → Rests p conns rx (told rc) st
        → Untaken p acks conns events client o st
        → Advances o 4 true (connected p client rx (connect_poll p rx st))
    unfolding connected connected_outcome unwrapped subscriber subscribe quit
    connected-told rx rc e first v rests (taken, held, h) =
        let found = poll-connected_outcome p conns rx (told rc) st rests in
        let kept = connect_poll-subscriber_rx p rx st in
        let (same, store) = connect_poll-SameAcks p rx st in
        let h' : Streams p client events taken (some e) st = rw first at h in
        let next : State p = (subscriber p (connect_poll p rx st).1).1 in
        elim (Bool-cases (rc.code ==ℤ pos 0)) [
          | inl success ↦
              rw (found, success, connected)
                (rw (kept ∙ held, unwrapped)
                  (subscribes-Better p acks conns events client taken o
                    (network.subscribe p.lib client (str "test/#") QoS.at_most_once) next
                    (rw (same, store) v)
                    (
                      e,
                      first,
                      SameStream-Streams p acks conns events client taken (some e) st next
                          (connect_poll-SameStream p rx st) h',
                    )))
          | inr failure ↦ rw (found, failure, connected) (refl, omega arith)
        ]

    subscribed-Better :
        (b : Bool) (taken : p.events.Receiver) (mid : MessageId) (rx : p.acks.Receiver)
        → Tracks p acks mid rx (if b then answered else waiting) st
        → Taken p acks conns events client taken o st
        → Advances o 3 b (subscribed p client taken mid rx (subscribe_poll p client rx st))
    unfolding subscribed outcome publish
    subscribed-Better true taken mid rx (v, shows) h =
        let found = poll-outcome p acks mid rx answered st (v, shows) in
        let (polled_ok, same) = subscribe_poll-ok p client rx st mid found in
        rw (polled_ok, same, subscribed)
          (publishes-Better p acks conns events client taken o
            (network.publish p.lib client (str "test/this") (str "woot") QoS.at_most_once false)
            (ack_poll p rx st).1 (ack_poll-Valid p acks mid rx st v)
            (SameStream-Taken p acks conns events client taken o st (ack_poll p rx st).1
              (ack_poll-SameStream p rx st) h))
    subscribed-Better false taken mid rx tracks h =
        let nothing = poll-outcome p acks mid rx waiting st tracks in
        let (polled_none, same) = subscribe_poll-none p client rx st nothing in
        rw (polled_none, same, subscribed)
          (
            (
              ack_poll-Tracks p acks mid rx st tracks,
              SameStream-Taken p acks conns events client taken o st (ack_poll p rx st).1
                  (ack_poll-SameStream p rx st) h,
            ),
            omega arith,
          )

    published-Better :
        (b : Bool) (taken : p.events.Receiver) (mid : MessageId) (rx : p.acks.Receiver)
        → Tracks p acks mid rx (if b then answered else waiting) st
        → Taken p acks conns events client taken o st
        → Advances o 2 b (published p client taken mid rx (publish_poll p client rx st))
    unfolding published publish_poll outcome
    published-Better true taken mid rx tracks h =
        let found = poll-outcome p acks mid rx answered st tracks in
        rw (found, published)
          (
            SameStream-Taken p acks conns events client taken o st (ack_poll p rx st).1
                (ack_poll-SameStream p rx st) h,
            omega arith,
          )
    published-Better false taken mid rx tracks h =
        let nothing = poll-outcome p acks mid rx waiting st tracks in
        rw (nothing, published)
          (
            (
              ack_poll-Tracks p acks mid rx st tracks,
              SameStream-Taken p acks conns events client taken o st (ack_poll p rx st).1
                  (ack_poll-SameStream p rx st) h,
            ),
            omega arith,
          )

    pub received-Better :
        (taken : p.events.Receiver)
        → Taken p acks conns events client taken o st
        → Advances o 1 true (received p client taken (p.events.recv taken st.event_store) st)
    unfolding received quit
    received-Better taken (e, first, h) =
        let found : (p.events.recv taken st.event_store).0 ≡ ready e =
          events.recv_poll taken st.event_store ∙ front_at h in
        rw (found, received) ((e, first, refl), omega arith)
      where
        front_at :
            Streams p client events taken (some e) st
            → polled (events.at st.event_store (events.rx_id taken)) ≡ ready e
        front_at (q, true, (held, chan)) = ap polled chan
        front_at (q, false, (gone, chan)) = ap polled chan

  -- One round, wherever the program waits.
  module _ (client : Mosq p.lib) (o : Option Event) (st : State p) (ts : List (Turn p)) where
    pub connecting-Better :
        (rx : p.conns.Receiver)
        → Inv p acks conns events o (waits client (connecting rx) st)
        → Advances
            (noted_all p o ts)
            4
            (any p (is_report p) ts)
            (connected p client rx (connect_poll p rx (turns p client ts st)))
    connecting-Better rx (v, rests, untaken) =
        let st' : State p = turns p client ts st in
        let v' = turns-Valid p client acks ts st v in
        let untaken' = turns-Untaken client o st ts untaken in
        elim (turns-Rests p client conns rx ts st rests) [
          | inl (none_yet, rests') ↦
              rw none_yet (connected_waiting client (noted_all p o ts) st' rx v' rests' untaken')
          | inr (told_now, (rc, rests')) ↦
              let (e, first) = reported-noted p o ts told_now in
              rw told_now
                (connected-told client (noted_all p o ts) st' rx rc e first v' rests' untaken')
        ]

    pub subscribing-Better :
        (taken : p.events.Receiver) (mid : MessageId) (rx : p.acks.Receiver)
        → Inv p acks conns events o (waits client (subscribing taken mid rx) st)
        → Advances
            (noted_all p o ts)
            3
            (any p (is_ack p mid) ts)
            (subscribed p client taken mid rx (subscribe_poll p client rx (turns p client ts st)))
    subscribing-Better taken mid rx (tracks, h) =
        let h' = turns-Taken p acks conns events client taken o ts st h in
        elim (turns-Tracks p client acks mid rx ts st tracks) [
          | inl (none_yet, tracks') ↦ rw none_yet (
              subscribed-Better client (noted_all p o ts) (turns p client ts st) false taken mid rx
                tracks' h')
          | inr (now, tracks') ↦ rw now (
              subscribed-Better client (noted_all p o ts) (turns p client ts st) true taken mid rx
                tracks' h')
        ]

    pub publishing-Better :
        (taken : p.events.Receiver) (mid : MessageId) (rx : p.acks.Receiver)
        → Inv p acks conns events o (waits client (publishing taken mid rx) st)
        → Advances
            (noted_all p o ts)
            2
            (any p (is_ack p mid) ts)
            (published p client taken mid rx (publish_poll p client rx (turns p client ts st)))
    publishing-Better taken mid rx (tracks, h) =
        let h' = turns-Taken p acks conns events client taken o ts st h in
        elim (turns-Tracks p client acks mid rx ts st tracks) [
          | inl (none_yet, tracks') ↦ rw none_yet (
              published-Better client (noted_all p o ts) (turns p client ts st) false taken mid rx
                tracks' h')
          | inr (now, tracks') ↦ rw now (
              published-Better client (noted_all p o ts) (turns p client ts st) true taken mid rx
                tracks' h')
        ]
