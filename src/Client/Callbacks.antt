-- ===== src/Client/Callbacks.antt =====
-- mosquitto-rs/src/client.rs: the callbacks of `Handler`, each under the locks that it takes.
use mosquitto_rs.Base.{Bool, none, some, List, Str, Bytes, if◌then◌else◌}
use mosquitto_rs.Client.Data.{Event, message, connected, disconnected}
use mosquitto_rs.Client.State.{Platform, State, remove, ignoring, drop_event_tx}
use mosquitto_rs.Lowlevel.Callbacks.{Callbacks}
use mosquitto_rs.Lowlevel.Mosq.{Mosq}
use mosquitto_rs.Lowlevel.Network.{disconnect}
use mosquitto_rs.Lowlevel.Status.{
  MessageId, QoS, ConnectionStatus, ReasonCode, is_unexpected_disconnect,
}

module _ (p : Platform) (client : Mosq p.lib) where
  -- `let _ = client.disconnect();`
  unfoldable pub disconnecting : State p → State p
  unfolding ignoring
  disconnecting = ignoring p (disconnect p.lib client)

  unfoldable pub dispatch_event : Event → State p → State p
  unfolding disconnecting
  dispatch_event event st = elim st.subscriber_tx [
    | none ↦ disconnecting st
    | some tx ↦
        let (sent, store) = p.events.try_send tx event st.event_store in
        let st' : State p = record st { runtime = record st.runtime { event_store = store } } in
        if sent then st' else disconnecting st'
  ]

  -- The waiting `connect`, if there is one, is told and its sender dropped.
  unfoldable pub tell_connect : ConnectionStatus → State p → State p
  unfolding disconnecting
  tell_connect reason st = elim st.connect [
    | none ↦ st
    | some tx ↦
        let (sent, store) = p.conns.try_send tx reason st.conn_store in
        let st' : State p = record st {
          handler = record st.handler { connect = none };
          runtime = record st.runtime { conn_store = p.conns.drop_sender tx store };
        } in
        if sent then st' else disconnecting st'
  ]

  unfoldable pub on_connect : ConnectionStatus → State p → State p
  unfolding dispatch_event tell_connect
  on_connect reason st = dispatch_event (connected reason) (tell_connect reason st)

  -- The one body of `on_publish`, `on_subscribe` and `on_unsubscribe`.
  unfoldable pub acknowledge : MessageId → State p → State p
  unfolding disconnecting
  acknowledge mid st = elim (st.mids mid) [
    | none ↦ disconnecting st
    | some tx ↦
        let (sent, store) = p.acks.try_send tx mid st.ack_store in
        let st' : State p = record st {
          handler = record st.handler { mids = remove mid st.mids };
          runtime = record st.runtime { ack_store = p.acks.drop_sender tx store };
        } in
        if sent then st' else disconnecting st'
  ]

  unfoldable pub on_publish : MessageId → State p → State p
  unfolding acknowledge
  on_publish = acknowledge

  unfoldable pub on_subscribe : MessageId → List QoS → State p → State p
  unfolding acknowledge
  on_subscribe mid granted_qos = acknowledge mid

  unfoldable pub on_unsubscribe : MessageId → State p → State p
  unfolding acknowledge
  on_unsubscribe = acknowledge

  unfoldable pub on_disconnect : ReasonCode → State p → State p
  unfolding dispatch_event
  on_disconnect reason st =
      let st' = dispatch_event (disconnected reason) st in
      if is_unexpected_disconnect reason then st' else record st' {
        handler = record st'.handler { subscriber_tx = none };
        runtime = record st'.runtime {
          event_store = drop_event_tx p st'.subscriber_tx st'.event_store;
        };
      }

  unfoldable pub on_message : MessageId → Str → Bytes → QoS → Bool → State p → State p
  unfolding dispatch_event
  on_message mid topic payload qos retain =
      dispatch_event (
        message
          (record { topic = topic; payload = payload; qos = qos; retain = retain; mid = mid }))

-- `impl Callbacks for Handler`.
unfoldable pub callbacks : (p : Platform) → Callbacks p.lib (State p)
callbacks p = record {
  on_connect = on_connect p;
  on_disconnect = on_disconnect p;
  on_publish = on_publish p;
  on_subscribe = on_subscribe p;
  on_message = on_message p;
  on_unsubscribe = on_unsubscribe p;
}
