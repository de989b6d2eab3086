-- ===== src/Client/Elsewhere.antt =====
-- The handlers and methods of mosquitto-rs/src/client.rs that leave `mids` and its channels alone.
use mosquitto_rs.Base.{
  ◌≡◌, refl, ◌∙◌, inl, inr, Option, Str, Bytes, Bool, if_either, Option-cases, Result-cases,
}
use mosquitto_rs.Base.Int.{ℤ}
use mosquitto_rs.Channel.{Poll-cases}
use mosquitto_rs.Client.Callbacks.{
  on_connect, on_disconnect, on_message, dispatch_event, tell_connect,
}
use mosquitto_rs.Client.Data.{Event}
use mosquitto_rs.Client.Requests.{connect, connect_poll, cancel_connect, subscriber}
use mosquitto_rs.Client.State.{Platform, State, on_process}
use mosquitto_rs.Lowlevel.Io.{Io, Process}
use mosquitto_rs.Lowlevel.Mosq.{Mosq}
use mosquitto_rs.Lowlevel.Network as network
use mosquitto_rs.Lowlevel.Status.{
  MessageId, ConnectionStatus, ReasonCode, QoS, is_unexpected_disconnect,
}
use mosquitto_rs.Lowlevel.Strings.{Duration}

-- `mids` and the store of its channels are the same in both states.
abbrev pub SameAcks : (p : Platform) → State p → State p → Type 0
SameAcks p st st' = (st'.mids ≡ st.mids) × (st'.ack_store ≡ st.ack_store)

module _ (p : Platform) (client : Mosq p.lib) where
  dispatch_event-SameAcks :
      (event : Event) (st : State p) → SameAcks p st (dispatch_event p client event st)
  unfolding dispatch_event
  dispatch_event-SameAcks event st = elim (Option-cases st.subscriber_tx) [
    | inl e ↦ rw (e, dispatch_event) (refl, refl)
    | inr (tx, e) ↦
        rw (e, dispatch_event)
          (if_either (SameAcks p st) (p.events.try_send tx event st.event_store).0 (refl, refl)
            (refl, refl))
  ]

  tell_connect-SameAcks :
      (rc : ConnectionStatus) (st : State p) → SameAcks p st (tell_connect p client rc st)
  unfolding tell_connect
  tell_connect-SameAcks rc st = elim (Option-cases st.connect) [
    | inl e ↦ rw (e, tell_connect) (refl, refl)
    | inr (tx, e) ↦
        rw (e, tell_connect)
          (if_either (SameAcks p st) (p.conns.try_send tx rc st.conn_store).0 (refl, refl)
            (refl, refl))
  ]

  pub on_connect-SameAcks :
      (rc : ConnectionStatus) (st : State p) → SameAcks p st (on_connect p client rc st)
  unfolding on_connect
  on_connect-SameAcks rc st =
      let (m, s) = tell_connect-SameAcks rc st in
      let (m', s') = dispatch_event-SameAcks (Event.connected rc) (tell_connect p client rc st) in
      (m' ∙ m, s' ∙ s)

  pub on_message-SameAcks :
      (mid : MessageId) (topic : Str) (payload : Bytes) (qos : QoS) (retain : Bool) (st : State p)
      → SameAcks p st (on_message p client mid topic payload qos retain st)
  unfolding on_message
  on_message-SameAcks mid topic payload qos retain st = dispatch_event-SameAcks _ st

  pub on_disconnect-SameAcks :
      (reason : ReasonCode) (st : State p) → SameAcks p st (on_disconnect p client reason st)
  unfolding on_disconnect
  on_disconnect-SameAcks reason st =
      let same = dispatch_event-SameAcks (Event.disconnected reason) st in
      if_either (SameAcks p st) (is_unexpected_disconnect reason) same same

  pub connect-SameAcks :
      (host : Str) (port : ℤ) (keep_alive : Duration) (bind : Option Str) (st : State p)
      → SameAcks p st (connect p client host port keep_alive bind st).1
  unfolding connect
  connect-SameAcks host port keep_alive bind st =
      elim (Result-cases (network.connect p.lib client host port keep_alive bind st.process).0) [
        | inl (_, e) ↦ rw (e, connect) (refl, refl)
        | inr (_, e) ↦ rw (e, connect) (refl, refl)
      ]

module _ (p : Platform) (rx : p.conns.Receiver) (st : State p) where
  pub connect_poll-SameAcks : SameAcks p st (connect_poll p rx st).1
  unfolding connect_poll
  connect_poll-SameAcks = elim (Poll-cases (p.conns.recv rx st.conn_store).0) [
    | inl (_, e) ↦ rw (e, connect_poll) (refl, refl)
    | inr (inl e) ↦ rw (e, connect_poll) (refl, refl)
    | inr (inr e) ↦ rw (e, connect_poll) (refl, refl)
  ]

  pub cancel_connect-SameAcks : SameAcks p st (cancel_connect p rx st)
  unfolding cancel_connect
  cancel_connect-SameAcks = (refl, refl)

module _ (p : Platform) (st : State p) where
  pub subscriber-SameAcks : SameAcks p st (subscriber p st).1
  unfolding subscriber
  subscriber-SameAcks = (refl, refl)

  pub on_process-SameAcks :
      (call : Io (Process p.lib.World) (Unit {0})) → SameAcks p st (on_process p call st).1
  unfolding on_process
  on_process-SameAcks call = (refl, refl)
