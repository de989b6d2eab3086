-- ===== src/Examples/Async/Finishing.antt =====
-- The program of mosquitto-rs/examples/publish_async.rs from its start to its end.
use mosquitto_rs.Base.{
  ◌+◌, ◌≤◌, ◌≡◌, refl, ◌∙◌, inl, inr, Option, none, some, List, [], ◌∷◌, str, Result, ok, err,
  arith, Result-cases, Str,
}
use mosquitto_rs.Base.Int.{pos}
use mosquitto_rs.Channel.{Documented}
use mosquitto_rs.Client.Data.{Event}
use mosquitto_rs.Client.Elsewhere.{connect-SameAcks}
use mosquitto_rs.Client.Invariant.{Valid, new-IsValid}
use mosquitto_rs.Client.Outcome.{accepted_Rests}
use mosquitto_rs.Client.Requests.{connect, subscriber}
use mosquitto_rs.Client.Setup.{with_auto_id, start}
use mosquitto_rs.Client.State.{Platform, Runtime, State, new, handler_ref}
use mosquitto_rs.Client.Stream.{new-Holds}
use mosquitto_rs.Error.{Error}
use mosquitto_rs.Examples.Async.{
  connecting, subscribing, publishing, receiving, Session, waits, ended, panicked, quit, connects,
  started, main,
}
use mosquitto_rs.Examples.Async.Advance.{
  connecting-Better, subscribing-Better, publishing-Better, received-Better,
}
use mosquitto_rs.Examples.Async.Answers.{connect-SameStream, connect-subscriber_rx}
use mosquitto_rs.Examples.Async.Invariant.{Inv, left, Better, SameStream-Streams, turns-Taken}
use mosquitto_rs.Examples.Async.Rounds.{
  Turn, turns, round, rounds, is_answer, answers, noted_all, first_event,
}
use mosquitto_rs.Examples.Async.Stages.{noted_all-some}
use mosquitto_rs.Examples.Async.Streams.{Streams}
use mosquitto_rs.Lowlevel.Io.{Process}
use mosquitto_rs.Lowlevel.Mosq.{Mosq}
use mosquitto_rs.Lowlevel.Mosq as mosq
use mosquitto_rs.Lowlevel.Network as network
use mosquitto_rs.Lowlevel.Strings.{Duration}

-- The program is over: it has left `main`, and not by a panic.
abbrev pub IsEnded : (p : Platform) → Session p → Type 0
IsEnded p (waits client await_ st) = ⊥
IsEnded p (ended r printed runtime) = Unit
IsEnded p panicked = ⊥

-- What may have been printed, where `first` is the first event that the library reported.
abbrev pub Prints : (p : Platform) → Option Event → Session p → Type 0
Prints p first (waits client await_ st) = Unit
Prints p first (ended (ok u) printed r) = (e : Event) × (first ≡ some e) × (printed ≡ some e)
Prints p first (ended (err e) printed r) = printed ≡ none
Prints p first panicked = ⊥

module _ (p : Platform) (acks : Documented p.acks) (conns : Documented p.conns)
    (events : Documented p.events) where
  round-Better :
      (o : Option Event) (ts : List (Turn p)) (s : Session p)
      → Inv p acks conns events o s
      → Better p acks conns events
          (noted_all p o ts)
          (left p acks conns events s)
          (is_answer p ts s)
          (round p ts s)
  unfolding round is_answer
  round-Better o ts (waits client (connecting rx) st) h =
      connecting-Better p acks conns events client o st ts rx h
  round-Better o ts (waits client (subscribing taken mid rx) st) h =
      subscribing-Better p acks conns events client o st ts taken mid rx h
  round-Better o ts (waits client (publishing taken mid rx) st) h =
      publishing-Better p acks conns events client o st ts taken mid rx h
  round-Better o ts (waits client (receiving taken) st) h =
      received-Better p acks conns events client (noted_all p o ts) (turns p client ts st) taken
        (turns-Taken p acks conns events client taken o ts st h)
  round-Better o ts (ended (ok u) printed r) (e, first, printed_it) =
      ((e, rw first (noted_all-some p e ts), printed_it), omega arith)
  round-Better o ts (ended (err x) printed r) h = (h, omega arith)
  round-Better o ts panicked h = elim h [ ]

  rounds-Better :
      (o : Option Event) (rs : List (List (Turn p))) (s : Session p)
      → Inv p acks conns events o s
      → Inv p acks conns events (first_event p o rs) (rounds p rs s)
        × (left p acks conns events (rounds p rs s) + answers p rs s ≤ left p acks conns events s)
  unfolding rounds answers first_event
  rounds-Better o [] s h = (h, omega arith)
  rounds-Better o (ts ∷ rs) s h =
      let (h', less) = round-Better o ts s h in
      let (h'', fewer) = rounds-Better (noted_all p o ts) rs (round p ts s) h' in
      (h'', omega (arith, less, fewer))

  connects-Inv :
      (client : Mosq p.lib) (st : State p)
      → Valid p acks st
      → st.connect ≡ none
      → (rx : p.events.Receiver) → st.subscriber_rx ≡ some rx
      → Streams p client events rx none st
      → Inv p acks conns events none (
          connects p client (
            connect p client (str "localhost") (pos 1883) (record { secs = 5; nanos = 0 }) none st))
  unfolding connects quit
  connects-Inv client st v no_sender rx held h =
      let keep : Duration = record { secs = 5; nanos = 0 } in
      let host : Str = str "localhost" in
      let (same, store) = connect-SameAcks p client host (pos 1883) keep none st in
      elim (Result-cases (connect p client host (pos 1883) keep none st).0) [
        | inl (answer, e) ↦
            rw (e, connects)
              (
                rw (same, store) v,
                accepted_Rests p conns client host (pos 1883) keep none st answer
                    (λ tx was. cc (was, no_sender)) e,
                (
                  rx,
                  connect-subscriber_rx p client host (pos 1883) keep none st ∙ held,
                  SameStream-Streams p acks conns events client rx none st
                      (connect p client host (pos 1883) keep none st).1
                      (connect-SameStream p client host (pos 1883) keep none st) h,
                ),
              )
        | inr (x, e) ↦ rw (e, connects) refl
      ]

  start-Inv :
      (r : Runtime p) (made : Result (Mosq p.lib) Error × Process p.lib.World)
      → Inv p acks conns events none (started p (start p (new p r) made))
  unfolding started start new subscriber
  start-Inv r (err e, process) = refl
  start-Inv r (ok client, process) =
      elim (Result-cases (network.start_loop_thread p.lib client process).0) [
        | inl (u, e) ↦
            rw (e, start, started)
              (connects-Inv client
                (record {
                  handler = (new p r).handler;
                  runtime = record (new p r).runtime {
                    process = (network.start_loop_thread p.lib client process).1;
                  };
                })
                (new-IsValid p acks r) refl (p.events.unbounded r.event_store).1 refl
                (new-Holds p client events r (p.events.unbounded r.event_store).1 refl))
        | inr (x, e) ↦ rw (e, start, started) refl
      ]

  left_most : (s : Session p) → left p acks conns events s ≤ 4
  left_most (waits client (connecting rx) st) = omega arith
  left_most (waits client (subscribing taken mid rx) st) = omega arith
  left_most (waits client (publishing taken mid rx) st) = omega arith
  left_most (waits client (receiving taken) st) = omega arith
  left_most (ended r printed runtime) = omega arith
  left_most panicked = omega arith

  main-Inv : (r : Runtime p) → Inv p acks conns events none (main p r)
  unfolding main with_auto_id
  main-Inv r = start-Inv r (mosq.with_auto_id p.lib handler_ref (new p r).process)

  left_none :
      (o : Option Event) (s : Session p)
      → Inv p acks conns events o s
      → left p acks conns events s ≡ 0
      → IsEnded p s
  left_none o (waits client (connecting rx) st) h e = omega arith
  left_none o (waits client (subscribing taken mid rx) st) h e = omega arith
  left_none o (waits client (publishing taken mid rx) st) h e = omega arith
  left_none o (waits client (receiving taken) st) h e = omega arith
  left_none o (ended r printed runtime) h e = tt
  left_none o panicked h e = absurd h

  Inv-Prints : (o : Option Event) (s : Session p) → Inv p acks conns events o s → Prints p o s
  Inv-Prints o (waits client await_ st) h = tt
  Inv-Prints o (ended (ok u) printed r) h = h
  Inv-Prints o (ended (err e) printed r) h = h
  Inv-Prints o panicked h = h

  -- The program ends: however its polls and the C library's callbacks take turns, it has left `main`
  -- without a panic as soon as four rounds of callbacks and a poll have brought what it waited for
  -- when they began: a report of its connection, the acknowledgement of its subscription, that of its
  -- publication, and for its last wait no more than a poll. Rounds that bring something else, or
  -- nothing, may come between them.
  pub main-rounds-IsEnded :
      (r : Runtime p) (rs : List (List (Turn p)))
      → 4 ≤ answers p rs (main p r)
      → IsEnded p (rounds p rs (main p r))
  main-rounds-IsEnded r rs enough =
      let (h, fewer) = rounds-Better none rs (main p r) (main-Inv r) in
      left_none (first_event p none rs) (rounds p rs (main p r)) h
        (omega (arith, fewer, left_most (main p r), enough))

  -- Whatever the C library calls back between the polls, the program never panics; if it has ended
  -- with an error it has printed no event, and if it has ended with `Ok(())` it has printed the first
  -- event that the library reported: so if that was its connection, it prints no message.
  pub main-rounds-Prints :
      (r : Runtime p) (rs : List (List (Turn p)))
      → Prints p (first_event p none rs) (rounds p rs (main p r))
  main-rounds-Prints r rs =
      let (h, _) = rounds-Better none rs (main p r) (main-Inv r) in
      Inv-Prints (first_event p none rs) (rounds p rs (main p r)) h
