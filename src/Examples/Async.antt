-- ===== src/Examples/Async.antt =====
-- mosquitto-rs/examples/publish_async.rs: its future, polled by `block_on`. Of what it prints, the
-- event is kept.
pub mod Rounds
pub mod Streams
pub mod Stages
pub mod Answers
pub mod Invariant
pub mod Advance
pub mod Finishing
use mosquitto_rs.Base.{Option, none, some, false, str, Result, ok, err}
use mosquitto_rs.Base.Int.{pos}
use mosquitto_rs.Channel.{Poll, ready, pending, closed}
use mosquitto_rs.Client.Data.{Event}
use mosquitto_rs.Client.Requests.{
  connect, connect_poll, subscriber, subscribe, subscribe_poll, publish, publish_poll,
}
use mosquitto_rs.Client.Setup.{with_auto_id}
use mosquitto_rs.Client.State.{Platform, Runtime, Handler, State}
use mosquitto_rs.Error.{Error}
use mosquitto_rs.Lowlevel.Mosq.{Mosq, drop}
use mosquitto_rs.Lowlevel.Status.{MessageId, QoS, ConnectionStatus}

module _ (p : Platform) where
  -- The `await` at which the future stands, with what it holds. The id of a request is there for
  -- proofs to name.
  pub data Await : Type 0 where
    connecting : p.conns.Receiver → Await
    subscribing publishing : p.events.Receiver → MessageId → p.acks.Receiver → Await
    receiving : p.events.Receiver → Await

  -- The program: its future waits, it has ended with a result and with the event that it printed, or
  -- `unwrap` has panicked.
  pub data Session : Type 0 where
    waits : Mosq p.lib → Await → State p → Session
    ended : Result (Unit {0}) Error → Option Event → Runtime p → Session
    panicked : Session

  -- The client is dropped at the end, and when `?` leaves early.
  unfoldable pub quit : Mosq p.lib → Result (Unit {0}) Error → Option Event → State p → Session
  quit client r printed st =
      ended r printed (record st.runtime { process = drop p.lib client st.process })

  -- Each `await` in its turn: what the future does with the result of the call before it, and with
  -- that of polling it.
  unfoldable pub received :
      Mosq p.lib → p.events.Receiver → Poll Event × p.events.Store → State p → Session
  unfolding quit
  received client subscriptions (ready event, store) st =
      quit client (ok tt) (some event)
        (record st { runtime = record st.runtime { event_store = store } })
  received client subscriptions (closed, store) st =
      quit client (ok tt) none (record st { runtime = record st.runtime { event_store = store } })
  received client subscriptions (pending, store) st =
      waits client (receiving subscriptions)
        (record st { runtime = record st.runtime { event_store = store } })

  unfoldable pub published :
      Mosq p.lib
      → p.events.Receiver
      → MessageId
      → p.acks.Receiver
      → Option (Result MessageId Error) × State p
      → Session
  unfolding quit
  published client subscriptions mid rx (none, st) =
      waits client (publishing subscriptions mid rx) st
  published client subscriptions mid rx (some (err e), st) = quit client (err e) none st
  published client subscriptions mid rx (some (ok _), st) =
      waits client (receiving subscriptions) st

  unfoldable pub publishes :
      Mosq p.lib
      → p.events.Receiver
      → Result (MessageId × p.acks.Receiver) Error × State p
      → Session
  unfolding quit
  publishes client subscriptions (err e, st) = quit client (err e) none st
  publishes client subscriptions (ok (mid, rx), st) =
      waits client (publishing subscriptions mid rx) st

  unfoldable pub subscribed :
      Mosq p.lib
      → p.events.Receiver
      → MessageId
      → p.acks.Receiver
      → Option (Result (Unit {0}) Error) × State p
      → Session
  unfolding quit publishes
  subscribed client subscriptions mid rx (none, st) =
      waits client (subscribing subscriptions mid rx) st
  subscribed client subscriptions mid rx (some (err e), st) = quit client (err e) none st
  subscribed client subscriptions mid rx (some (ok _), st) =
      publishes client subscriptions
        (publish p client (str "test/this") (str "woot") QoS.at_most_once false st)

  unfoldable pub subscribes :
      Mosq p.lib
      → p.events.Receiver
      → Result (MessageId × p.acks.Receiver) Error × State p
      → Session
  unfolding quit
  subscribes client subscriptions (err e, st) = quit client (err e) none st
  subscribes client subscriptions (ok (mid, rx), st) =
      waits client (subscribing subscriptions mid rx) st

  -- `client.subscriber().unwrap()`.
  unfoldable pub unwrapped : Mosq p.lib → Option p.events.Receiver × State p → Session
  unfolding subscribes
  unwrapped client (none, st) = panicked
  unwrapped client (some subscriptions, st) =
      subscribes client subscriptions (subscribe p client (str "test/#") QoS.at_most_once st)

  unfoldable pub connected :
      Mosq p.lib → p.conns.Receiver → Option (Result ConnectionStatus Error) × State p → Session
  unfolding quit unwrapped
  connected client rx (none, st) = waits client (connecting rx) st
  connected client rx (some (err e), st) = quit client (err e) none st
  connected client rx (some (ok rc), st) = unwrapped client (subscriber p st)

  unfoldable pub connects : Mosq p.lib → Result p.conns.Receiver Error × State p → Session
  unfolding quit
  connects client (err e, st) = quit client (err e) none st
  connects client (ok rx, st) = waits client (connecting rx) st

  unfoldable pub started : Result (Mosq p.lib × Handler p) Error × Runtime p → Session
  unfolding connects
  started (err e, r) = ended (err e) none r
  started (ok (client, handler), r) = connects client (
      connect p client (str "localhost") (pos 1883) (record { secs = 5; nanos = 0 }) none
        (record { handler = handler; runtime = r }))

  -- Up to the first `await`.
  unfoldable pub main : Runtime p → Session
  unfolding started
  main r = started (with_auto_id p r)

  -- Polling the future where it stands, up to the next `await`. A poll that goes on from there is
  -- the next call of this function.
  unfoldable pub resume : Session → Session
  unfolding connected subscribed published received
  resume (waits client (connecting rx) st) = connected client rx (connect_poll p rx st)
  resume (waits client (subscribing subscriptions mid rx) st) =
      subscribed client subscriptions mid rx (subscribe_poll p client rx st)
  resume (waits client (publishing subscriptions mid rx) st) =
      published client subscriptions mid rx (publish_poll p client rx st)
  resume (waits client (receiving subscriptions) st) =
      received client subscriptions (p.events.recv subscriptions st.event_store) st
  resume (ended r printed runtime) = ended r printed runtime
  resume panicked = panicked
