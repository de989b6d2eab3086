-- ===== src/Client/Unmoved.antt =====
-- The handlers and methods of mosquitto-rs/src/client.rs that leave the slot of `connect` and its
-- channels alone.
use mosquitto_rs.Base.{◌≡◌, refl, inl, inr, Str, Bytes, Bool, if_either, Option-cases, Result-cases}
use mosquitto_rs.Channel.{Poll-cases}
use mosquitto_rs.Client.Callbacks.{acknowledge, on_disconnect, on_message, dispatch_event}
use mosquitto_rs.Client.Data.{Event}
use mosquitto_rs.Client.Requests.{request, ack_poll, cancel_ack, subscriber}
use mosquitto_rs.Client.State.{Platform, State, on_process}
use mosquitto_rs.Lowlevel.Io.{Io, Process}
use mosquitto_rs.Lowlevel.Mosq.{Mosq}
use mosquitto_rs.Lowlevel.Status.{MessageId, ReasonCode, QoS, is_unexpected_disconnect}

-- The slot and the store of its channels are the same in both states.
abbrev pub SameConns : (p : Platform) → State p → State p → Type 0
SameConns p st st' = (st'.connect ≡ st.connect) × (st'.conn_store ≡ st.conn_store)

module _ (p : Platform) (client : Mosq p.lib) where
  pub dispatch_event-SameConns :
      (event : Event) (st : State p) → SameConns p st (dispatch_event p client event st)
  unfolding dispatch_event
  dispatch_event-SameConns event st = elim (Option-cases st.subscriber_tx) [
    | inl e ↦ rw (e, dispatch_event) (refl, refl)
    | inr (tx, e) ↦
        rw (e, dispatch_event)
          (if_either (SameConns p st) (p.events.try_send tx event st.event_store).0 (refl, refl)
            (refl, refl))
  ]

  pub acknowledge-SameConns :
      (mid : MessageId) (st : State p) → SameConns p st (acknowledge p client mid st)
  unfolding acknowledge
  acknowledge-SameConns mid st = elim (Option-cases (st.mids mid)) [
    | inl e ↦ rw (e, acknowledge) (refl, refl)
    | inr (tx, e) ↦
        rw (e, acknowledge)
          (if_either (SameConns p st) (p.acks.try_send tx mid st.ack_store).0 (refl, refl)
            (refl, refl))
  ]

  pub on_message-SameConns :
      (mid : MessageId) (topic : Str) (payload : Bytes) (qos : QoS) (retain : Bool) (st : State p)
      → SameConns p st (on_message p client mid topic payload qos retain st)
  unfolding on_message
  on_message-SameConns mid topic payload qos retain st = dispatch_event-SameConns _ st

  pub on_disconnect-SameConns :
      (reason : ReasonCode) (st : State p) → SameConns p st (on_disconnect p client reason st)
  unfolding on_disconnect
  on_disconnect-SameConns reason st =
      let same = dispatch_event-SameConns (Event.disconnected reason) st in
      if_either (SameConns p st) (is_unexpected_disconnect reason) same same

module _ (p : Platform) (st : State p) where
  pub request-SameConns :
      (call : Io (Process p.lib.World) MessageId) → SameConns p st (request p call st).1
  unfolding request
  request-SameConns call = elim (Result-cases (call st.process).0) [
    | inl (_, e) ↦ rw (e, request) (refl, refl)
    | inr (_, e) ↦ rw (e, request) (refl, refl)
  ]

  pub ack_poll-SameConns : (rx : p.acks.Receiver) → SameConns p st (ack_poll p rx st).1
  unfolding ack_poll
  ack_poll-SameConns rx = elim (Poll-cases (p.acks.recv rx st.ack_store).0) [
    | inl (_, e) ↦ rw (e, ack_poll) (refl, refl)
    | inr (inl e) ↦ rw (e, ack_poll) (refl, refl)
    | inr (inr e) ↦ rw (e, ack_poll) (refl, refl)
  ]

  pub cancel_ack-SameConns : (rx : p.acks.Receiver) → SameConns p st (cancel_ack p rx st)
  unfolding cancel_ack
  cancel_ack-SameConns rx = (refl, refl)

  pub subscriber-SameConns : SameConns p st (subscriber p st).1
  unfolding subscriber
  subscriber-SameConns = (refl, refl)

  pub on_process-SameConns :
      (call : Io (Process p.lib.World) (Unit {0})) → SameConns p st (on_process p call st).1
  unfolding on_process
  on_process-SameConns call = (refl, refl)
