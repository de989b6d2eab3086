-- ===== src/Examples/Async/Answers.antt =====
-- What polling the futures of mosquitto-rs/src/client.rs leaves alone, for the program of
-- mosquitto-rs/examples/publish_async.rs.
use mosquitto_rs.Base.{
  ◌≡◌, refl, inl, inr, Option, none, some, Result, ok, err, arith, Result-cases,
}
use mosquitto_rs.Channel.{Documented, pending, Poll-cases}
use mosquitto_rs.Client.Connecting.{unanswered}
use mosquitto_rs.Client.Futures.{waiting}
use mosquitto_rs.Client.Invariant.{Valid}
use mosquitto_rs.Client.Keeps.{Lives-IsValid, polled-Lives}
use mosquitto_rs.Client.Outcome.{Rests}
use mosquitto_rs.Client.Progress.{Tracks}
use mosquitto_rs.Client.Requests.{
  discard_polled, request, ack_poll, subscribe_poll, connect, connect_poll,
}
use mosquitto_rs.Client.State.{Platform, State}
use mosquitto_rs.Error.{Error}
use mosquitto_rs.Lowlevel.Io.{Io, Process}
use mosquitto_rs.Lowlevel.Mosq.{Mosq}
use mosquitto_rs.Lowlevel.Network as network
use mosquitto_rs.Lowlevel.Status.{MessageId}
use mosquitto_rs.Base.Int.{ℤ}
use mosquitto_rs.Base.{Str}
use mosquitto_rs.Lowlevel.Strings.{Duration}

module _ (p : Platform) where
  -- The stream of events.
  abbrev pub SameStream : State p → State p → Type 0
  SameStream st st' = (st'.subscriber_tx ≡ st.subscriber_tx) × (st'.event_store ≡ st.event_store)

  pub request-SameStream :
      (call : Io (Process p.lib.World) MessageId) (st : State p)
      → SameStream st (request p call st).1
  unfolding request
  request-SameStream call st = elim (Result-cases (call st.process).0) [
    | inl (k, e) ↦ rw (e, request) (refl, refl)
    | inr (x, e) ↦ rw (e, request) (refl, refl)
  ]

  pub connect-SameStream :
      (client : Mosq p.lib) (host : Str) (port : ℤ) (keep : Duration) (bind : Option Str)
      (st : State p)
      → SameStream st (connect p client host port keep bind st).1
  unfolding connect
  connect-SameStream client host port keep bind st =
      elim (Result-cases (network.connect p.lib client host port keep bind st.process).0) [
        | inl (u, e) ↦ rw (e, connect) (refl, refl)
        | inr (x, e) ↦ rw (e, connect) (refl, refl)
      ]

  pub ack_poll-SameStream :
      (rx : p.acks.Receiver) (st : State p) → SameStream st (ack_poll p rx st).1
  unfolding ack_poll
  ack_poll-SameStream rx st = elim (Poll-cases (p.acks.recv rx st.ack_store).0) [
    | inl (_, e) ↦ rw (e, ack_poll) (refl, refl)
    | inr (inl e) ↦ rw (e, ack_poll) (refl, refl)
    | inr (inr e) ↦ rw (e, ack_poll) (refl, refl)
  ]

  pub connect_poll-SameStream :
      (rx : p.conns.Receiver) (st : State p) → SameStream st (connect_poll p rx st).1
  unfolding connect_poll
  connect_poll-SameStream rx st = elim (Poll-cases (p.conns.recv rx st.conn_store).0) [
    | inl (_, e) ↦ rw (e, connect_poll) (refl, refl)
    | inr (inl e) ↦ rw (e, connect_poll) (refl, refl)
    | inr (inr e) ↦ rw (e, connect_poll) (refl, refl)
  ]

  pub connect-subscriber_rx :
      (client : Mosq p.lib) (host : Str) (port : ℤ) (keep : Duration) (bind : Option Str)
      (st : State p)
      → (connect p client host port keep bind st).1.subscriber_rx ≡ st.subscriber_rx
  unfolding connect
  connect-subscriber_rx client host port keep bind st =
      elim (Result-cases (network.connect p.lib client host port keep bind st.process).0) [
        | inl (u, e) ↦ rw (e, connect) refl
        | inr (x, e) ↦ rw (e, connect) refl
      ]

  pub connect_poll-subscriber_rx :
      (rx : p.conns.Receiver) (st : State p)
      → (connect_poll p rx st).1.subscriber_rx ≡ st.subscriber_rx
  unfolding connect_poll
  connect_poll-subscriber_rx rx st = elim (Poll-cases (p.conns.recv rx st.conn_store).0) [
    | inl (_, e) ↦ rw (e, connect_poll) refl
    | inr (inl e) ↦ rw (e, connect_poll) refl
    | inr (inr e) ↦ rw (e, connect_poll) refl
  ]

  discarded_none :
      (polled : Option (Result MessageId Error) × State p)
      → polled.0 ≡ none
      → ((discard_polled p polled).0 ≡ none) × ((discard_polled p polled).1 ≡ polled.1)
  discarded_none (none, st) e = (refl, refl)
  discarded_none (some r, st) e = cc e

  discarded_ok :
      (polled : Option (Result MessageId Error) × State p) (mid : MessageId)
      → polled.0 ≡ some (ok mid)
      → ((discard_polled p polled).0 ≡ some (ok tt)) × ((discard_polled p polled).1 ≡ polled.1)
  discarded_ok (none, st) mid e = cc e
  discarded_ok (some (ok k), st) mid e = (refl, refl)
  discarded_ok (some (err x), st) mid e = cc e

  pub subscribe_poll-none :
      (client : Mosq p.lib) (rx : p.acks.Receiver) (st : State p)
      → (ack_poll p rx st).0 ≡ none
      → ((subscribe_poll p client rx st).0 ≡ none)
        × ((subscribe_poll p client rx st).1 ≡ (ack_poll p rx st).1)
  unfolding subscribe_poll
  subscribe_poll-none client rx st = discarded_none (ack_poll p rx st)

  pub subscribe_poll-ok :
      (client : Mosq p.lib) (rx : p.acks.Receiver) (st : State p) (mid : MessageId)
      → (ack_poll p rx st).0 ≡ some (ok mid)
      → ((subscribe_poll p client rx st).0 ≡ some (ok tt))
        × ((subscribe_poll p client rx st).1 ≡ (ack_poll p rx st).1)
  unfolding subscribe_poll
  subscribe_poll-ok client rx st = discarded_ok (ack_poll p rx st)

  -- A poll that finds nothing leaves the future waiting.
  pub connect_poll-Rests :
      (d : Documented p.conns) (rx : p.conns.Receiver) (st : State p)
      → Rests p d rx unanswered st
      → Rests p d rx unanswered (connect_poll p rx st).1
  unfolding connect_poll
  connect_poll-Rests d rx st (slot, chan) =
      let nothing : (p.conns.recv rx st.conn_store).0 ≡ pending =
        ground (arith, d.recv_poll rx st.conn_store) in
      rw (nothing, connect_poll) (slot, ground (arith, d.recv_at rx st.conn_store (d.rx_id rx)))

  pub ack_poll-Tracks :
      (d : Documented p.acks) (mid : MessageId) (rx : p.acks.Receiver) (st : State p)
      → Tracks p d mid rx waiting st
      → Tracks p d mid rx waiting (ack_poll p rx st).1
  unfolding ack_poll
  ack_poll-Tracks d mid rx st (v, (held, chan)) =
      let nothing : (p.acks.recv rx st.ack_store).0 ≡ pending =
        ground (arith, d.recv_poll rx st.ack_store) in
      let (same, lives) = polled-Lives p d rx st in
      rw (nothing, ack_poll)
        (
          Lives-IsValid p d st.mids st.ack_store (p.acks.recv rx st.ack_store).1
              (rw (nothing, ack_poll) at lives) v,
          (held, ground (arith, d.recv_at rx st.ack_store (d.rx_id rx))),
        )

  pub ack_poll-Valid :
      (d : Documented p.acks) (mid : MessageId) (rx : p.acks.Receiver) (st : State p)
      → Valid p d st
      → Valid p d (ack_poll p rx st).1
  ack_poll-Valid d mid rx st v =
      let (same, lives) = polled-Lives p d rx st in
      rw same (Lives-IsValid p d st.mids st.ack_store (ack_poll p rx st).1.ack_store lives v)
