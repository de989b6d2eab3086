-- ===== src/Client/Requests.antt =====
-- mosquitto-rs/src/client.rs: the methods of `Client` that wait for the broker. Each is two parts:
-- what it does up to its `await`, and what it does each time it is polled after that.
use mosquitto_rs.Base.{Bool, Option, none, some, Str, Bytes, Result, ok, err, if◌then◌else◌}
use mosquitto_rs.Base.Int.{ℤ}
use mosquitto_rs.Channel.{ready, pending, closed}
use mosquitto_rs.Client.State.{Platform, State, insert, on_process, drop_old, drop_conn}
use mosquitto_rs.Error.{Error, mosq, rejected_connection}
use mosquitto_rs.Lowlevel.Io.{Process, Io}
use mosquitto_rs.Lowlevel.Mosq.{Mosq}
use mosquitto_rs.Lowlevel.Network as network
use mosquitto_rs.Lowlevel.Status.{MessageId, QoS, ConnectionStatus, is_successful}
use mosquitto_rs.Lowlevel.Strings.{Duration}
use mosquitto_rs.Sys.{MosqErr}

module _ (p : Platform) where
  -- The part before the `await` that `publish`, `subscribe` and `unsubscribe` share: `mids` is locked,
  -- so no callback comes between the call and the entry. A sender that stood under the same id is
  -- dropped. The id is returned beside the receiver for proofs to name; the source keeps it local.
  unfoldable pub request :
      Io (Process p.lib.World) MessageId → Io (State p) (MessageId × p.acks.Receiver)
  unfolding on_process drop_old
  request call st =
      let (tx, rx, store) = p.acks.bounded 1 st.ack_store in
      let (r, st') = on_process p call st in
      elim r [
        | err e ↦ (
          err e,
          record st' {
            runtime = record st'.runtime {
              ack_store = p.acks.drop_sender tx (p.acks.drop_receiver rx store);
            };
          },
        )
        | ok mid ↦ (
          ok (mid, rx),
          record st' {
            handler = record st'.handler { mids = insert mid tx st'.mids };
            runtime = record st'.runtime { ack_store = drop_old p (st'.mids mid) store };
          },
        )
      ]

  -- The part after it: `none` while there is nothing to receive.
  unfoldable pub ack_poll : p.acks.Receiver → State p → Option (Result MessageId Error) × State p
  ack_poll rx st =
      let (found, store) = p.acks.recv rx st.ack_store in
      let over : State p = record st {
        runtime = record st.runtime { ack_store = p.acks.drop_receiver rx store };
      } in
      elim found [
        | pending ↦ (none, record st { runtime = record st.runtime { ack_store = store } })
        | closed ↦ (some (err (mosq MosqErr.inval)), over)
        | ready mid ↦ (some (ok mid), over)
      ]

  -- `let _ = …; Ok(())`.
  abbrev pub discard : Result MessageId Error → Result (Unit {0}) Error
  discard (ok mid) = ok tt
  discard (err e) = err e

  abbrev pub discard_polled :
      Option (Result MessageId Error) × State p → Option (Result (Unit {0}) Error) × State p
  discard_polled (none, st) = (none, st)
  discard_polled (some r, st) = (some (discard r), st)

  module _ (self : Mosq p.lib) where
    unfoldable pub publish : Str → Bytes → QoS → Bool → Io (State p) (MessageId × p.acks.Receiver)
    unfolding request
    publish topic payload qos retain = request (network.publish p.lib self topic payload qos retain)

    unfoldable pub publish_poll :
        p.acks.Receiver → State p → Option (Result MessageId Error) × State p
    unfolding ack_poll
    publish_poll = ack_poll

    unfoldable pub subscribe : Str → QoS → Io (State p) (MessageId × p.acks.Receiver)
    unfolding request
    subscribe pattern_ qos = request (network.subscribe p.lib self pattern_ qos)

    unfoldable pub subscribe_poll :
        p.acks.Receiver → State p → Option (Result (Unit {0}) Error) × State p
    unfolding ack_poll
    subscribe_poll rx st = discard_polled (ack_poll rx st)

    unfoldable pub unsubscribe : Str → Io (State p) (MessageId × p.acks.Receiver)
    unfolding request
    unsubscribe pattern_ = request (network.unsubscribe p.lib self pattern_)

    unfoldable pub unsubscribe_poll :
        p.acks.Receiver → State p → Option (Result (Unit {0}) Error) × State p
    unfolding ack_poll
    unsubscribe_poll rx st = discard_polled (ack_poll rx st)

    -- The new sender replaces one that an earlier `connect` left; it stays if the call fails. The lock
    -- is not held during the call of C; here nothing comes between the two.
    unfoldable pub connect : Str → ℤ → Duration → Option Str → Io (State p) p.conns.Receiver
    unfolding on_process drop_conn
    connect host port keep_alive_interval bind_address st =
        let (tx, rx, store) = p.conns.bounded 1 st.conn_store in
        let st' : State p = record st {
          handler = record st.handler { connect = some tx };
          runtime = record st.runtime { conn_store = drop_conn p st.connect store };
        } in
        let (r, st'') =
          on_process p (network.connect p.lib self host port keep_alive_interval bind_address)
            st' in
        elim r [
          | ok _ ↦ (ok rx, st'')
          | err e ↦ (
            err e,
            record st'' {
              runtime = record st''.runtime {
                conn_store = p.conns.drop_receiver rx st''.conn_store;
              };
            },
          )
        ]

  unfoldable pub connect_poll :
      p.conns.Receiver → State p → Option (Result ConnectionStatus Error) × State p
  connect_poll rx st =
      let (found, store) = p.conns.recv rx st.conn_store in
      let over : State p = record st {
        runtime = record st.runtime { conn_store = p.conns.drop_receiver rx store };
      } in
      elim found [
        | pending ↦ (none, record st { runtime = record st.runtime { conn_store = store } })
        | closed ↦ (some (err (mosq MosqErr.inval)), over)
        | ready rc ↦ (some (if is_successful rc then ok rc else err (rejected_connection rc)), over)
      ]

  -- A future that is dropped while it waits drops its receiver.
  unfoldable pub cancel_ack : p.acks.Receiver → State p → State p
  cancel_ack rx st = record st {
    runtime = record st.runtime { ack_store = p.acks.drop_receiver rx st.ack_store };
  }

  unfoldable pub cancel_connect : p.conns.Receiver → State p → State p
  cancel_connect rx st = record st {
    runtime = record st.runtime { conn_store = p.conns.drop_receiver rx st.conn_store };
  }

  -- The stream of events is given out once.
  unfoldable pub subscriber : State p → Option p.events.Receiver × State p
  subscriber st =
      (st.subscriber_rx, record st { handler = record st.handler { subscriber_rx = none } })
