-- ===== src/Examples/Async/Invariant.antt =====
-- What holds of the program of mosquitto-rs/examples/publish_async.rs between two rounds.
use mosquitto_rs.Base.{
  ℕ, ◌+◌, ◌≤◌, ◌≡◌, refl, inl, inr, Bool, true, false, Option, none, some, List, ok, err, arith,
  Result-cases, if◌then◌else◌,
}
use mosquitto_rs.Channel.{Documented}
use mosquitto_rs.Client.Connecting.{unanswered}
use mosquitto_rs.Client.Data.{Event}
use mosquitto_rs.Client.Futures.{waiting}
use mosquitto_rs.Client.Invariant.{Valid}
use mosquitto_rs.Client.Outcome.{Rests}
use mosquitto_rs.Client.Progress.{Tracks, request-Tracks}
use mosquitto_rs.Client.Requests.{request}
use mosquitto_rs.Client.State.{Platform, State}
use mosquitto_rs.Examples.Async.{
  connecting, subscribing, publishing, receiving, Session, waits, ended, panicked, quit, publishes,
  subscribes,
}
use mosquitto_rs.Examples.Async.Answers.{SameStream, request-SameStream}
use mosquitto_rs.Examples.Async.Rounds.{Turn, turns, noted_all}
use mosquitto_rs.Examples.Async.Stages.{noted_all-some}
use mosquitto_rs.Examples.Async.Streams.{Streams, turns-Streams}
use mosquitto_rs.Lowlevel.Mosq.{Mosq}
use mosquitto_rs.Lowlevel.Io.{Io, Process}
use mosquitto_rs.Lowlevel.Status.{MessageId}

module _ (p : Platform) (acks : Documented p.acks) (conns : Documented p.conns)
    (events : Documented p.events) where
  -- The stream, of which `o` is the first event, and its receiver in the handler.
  abbrev pub Untaken : Mosq p.lib → Option Event → State p → Type 0
  Untaken client o st =
      (rx : p.events.Receiver) × (st.subscriber_rx ≡ some rx) × Streams p client events rx o st

  -- The stream and the receiver that the program took, after the first event.
  abbrev pub Taken : Mosq p.lib → p.events.Receiver → Option Event → State p → Type 0
  Taken client rx o st = (e : Event) × (o ≡ some e) × Streams p client events rx (some e) st

  -- The program at the start of a round, where `o` is the first event that was reported.
  abbrev pub Inv : Option Event → Session p → Type 0
  Inv o (waits client (connecting rx) st) =
      Valid p acks st × Rests p conns rx unanswered st × Untaken client o st
  Inv o (waits client (subscribing subscriptions mid rx) st) =
      Tracks p acks mid rx waiting st × Taken client subscriptions o st
  Inv o (waits client (publishing subscriptions mid rx) st) =
      Tracks p acks mid rx waiting st × Taken client subscriptions o st
  Inv o (waits client (receiving subscriptions) st) = Taken client subscriptions o st
  Inv o (ended (ok u) printed r) = (e : Event) × (o ≡ some e) × (printed ≡ some e)
  Inv o (ended (err e) printed r) = printed ≡ none
  Inv o panicked = ⊥

  -- The results that the program still waits for.
  abbrev pub left : Session p → ℕ
  left (waits client (connecting rx) st) = 4
  left (waits client (subscribing subscriptions mid rx) st) = 3
  left (waits client (publishing subscriptions mid rx) st) = 2
  left (waits client (receiving subscriptions) st) = 1
  left (ended r printed runtime) = 0
  left panicked = 0

  abbrev pub Better : Option Event → ℕ → Bool → Session p → Type 0
  Better o n b s = Inv o s × (left s + (if b then 1 else 0) ≤ n)

  pub SameStream-Streams :
      (client : Mosq p.lib) (rx : p.events.Receiver) (o : Option Event) (st st' : State p)
      → SameStream p st st'
      → Streams p client events rx o st
      → Streams p client events rx o st'
  SameStream-Streams client rx none st st' (tx, store) h = rw (tx, store) h
  SameStream-Streams client rx (some e) st st' (tx, store) (q, true, h) =
      (q, true, rw (tx, store) h)
  SameStream-Streams client rx (some e) st st' (tx, store) (q, false, h) =
      (q, false, rw (tx, store) h)

  module _ (client : Mosq p.lib) (rx : p.events.Receiver) (o : Option Event) where
    pub SameStream-Taken :
        (st st' : State p) → SameStream p st st' → Taken client rx o st → Taken client rx o st'
    SameStream-Taken st st' same (e, first, h) =
        (e, first, SameStream-Streams client rx (some e) st st' same h)

    pub turns-Taken :
        (ts : List (Turn p)) (st : State p)
        → Taken client rx o st
        → Taken client rx (noted_all p o ts) (turns p client ts st)
    turns-Taken ts st (e, first, h) = (
      e,
      rw first (noted_all-some p e ts),
      rw (noted_all-some p e ts) at (turns-Streams p client events rx (some e) ts st h),
    )

    -- The parts of `main` between two awaits.
    module _ (call : Io (Process p.lib.World) MessageId) (st : State p) (v : Valid p acks st)
        (h : Taken client rx o st) where
      pub publishes-Better : Better o 3 true (publishes p client rx (request p call st))
      unfolding publishes quit
      publishes-Better = elim (Result-cases (request p call st).0) [
        | inl ((mid, answer), e) ↦
            rw (e, publishes)
              (
                (
                  request-Tracks p acks call st mid answer v e,
                  SameStream-Taken st (request p call st).1 (request-SameStream p call st) h,
                ),
                omega arith,
              )
        | inr (x, e) ↦ rw (e, publishes) (refl, omega arith)
      ]

      pub subscribes-Better : Better o 4 true (subscribes p client rx (request p call st))
      unfolding subscribes quit
      subscribes-Better = elim (Result-cases (request p call st).0) [
        | inl ((mid, answer), e) ↦
            rw (e, subscribes)
              (
                (
                  request-Tracks p acks call st mid answer v e,
                  SameStream-Taken st (request p call st).1 (request-SameStream p call st) h,
                ),
                omega arith,
              )
        | inr (x, e) ↦ rw (e, subscribes) (refl, omega arith)
      ]
