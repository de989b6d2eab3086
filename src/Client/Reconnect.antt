-- ===== src/Client/Reconnect.antt =====
-- mosquitto-rs/src/client.rs: a client that connects again after its stream of events has ended.
use mosquitto_rs.Base.{
  ◌≡◌, refl, ap, ◌∙◌, inl, inr, true, false, Option, none, some, List, Str, ok, err, arith,
  if◌then◌else◌, Result-cases,
}
use mosquitto_rs.Base.Int.{ℤ, pos, ◌==ℤ◌}
use mosquitto_rs.Channel.{Documented, opened}
use mosquitto_rs.Client.Callbacks.{on_connect, dispatch_event, tell_connect, disconnecting}
use mosquitto_rs.Client.Connect.{connect_ok, connect_err, connected_at, connect-on_connect-poll}
use mosquitto_rs.Client.Data.{Event}
use mosquitto_rs.Client.Requests.{connect, connect_poll}
use mosquitto_rs.Client.Slot.{Run-SlotLives}
use mosquitto_rs.Client.Futures.{Label}
use mosquitto_rs.Client.Runs.{Run}
use mosquitto_rs.Client.State.{Platform, State, Runtime, new}
use mosquitto_rs.Client.Stream.{Holds, tell_connect-SameEvents}
use mosquitto_rs.Error.{rejected_connection}
use mosquitto_rs.Lowlevel.Mosq.{Mosq}
use mosquitto_rs.Lowlevel.Network as network
use mosquitto_rs.Lowlevel.Status.{ConnectionStatus}
use mosquitto_rs.Lowlevel.Strings.{Duration}

module _ (p : Platform) (client : Mosq p.lib) (d : Documented p.conns) (rc : ConnectionStatus)
    (st : State p) where
  -- A waiting call that can be told does not touch the connection.
  tell_connect-process :
      (tx : p.conns.Sender)
      → st.connect ≡ some tx
      → d.at st.conn_store (d.tx_id tx) ≡ some (opened (some 1))
      → (tell_connect p client rc st).process ≡ st.process
  unfolding tell_connect
  tell_connect-process tx held chan =
      let took : (p.conns.try_send tx rc st.conn_store).0 ≡ true =
        ground (arith, d.try_send_taken tx rc st.conn_store) in
      rw (held, tell_connect, took) refl

  -- Without a sender for events the connection is asked to end.
  on_connect-process :
      (tell_connect p client rc st).subscriber_tx ≡ none
      → (on_connect p client rc st).process.world
        ≡ (p.lib.mosquitto_disconnect client.m (tell_connect p client rc st).process.world).1
  unfolding on_connect dispatch_event disconnecting network.disconnect
  on_connect-process gone = rw (gone, dispatch_event) refl

connect-subscriber_tx :
    (p : Platform) (client : Mosq p.lib) (host : Str) (port : ℤ) (keep_alive : Duration)
    (bind : Option Str) (st : State p)
    → (network.connect p.lib client host port keep_alive bind st.process).0 ≡ ok tt
    → (connect p client host port keep_alive bind st).1.subscriber_tx ≡ st.subscriber_tx
unfolding connect
connect-subscriber_tx p client host port keep_alive bind st e = rw (e, connect) refl

module _ (p : Platform) (client : Mosq p.lib) (d : Documented p.conns) (de : Documented p.events)
    (ex : p.events.Receiver) (q : List Event) (Polled : p.acks.Receiver → Type 0) where
  -- A call of `connect` after the stream of events has ended, which the C library accepts and then
  -- answers with the status `rc`, returns `Ok(rc)` if `rc` is 0 and `Err(RejectedConnection(rc))` for
  -- any other `rc`; but with the answer `mosquitto_disconnect` is called once, so the connection that
  -- `connect` reports is asked to end. The client may have come there by any run of its steps.
  pub connect-ended :
      (host : Str) (port : ℤ) (keep_alive : Duration) (bind : Option Str) (st : State p)
      (rc : ConnectionStatus) (rx : p.conns.Receiver) (r : Runtime p) (ls : List Label)
      → Holds p client de ex q false st
      → Run p Polled (new p r) ls st
      → (connect p client host port keep_alive bind st).0 ≡ ok rx
      → ((connect_poll p rx
            (on_connect p client rc (connect p client host port keep_alive bind st).1)).0
          ≡ some (if rc.code ==ℤ pos 0 then ok rc else err (rejected_connection rc)))
        × ((on_connect p client rc (connect p client host port keep_alive bind st).1).process.world
            ≡ (p.lib.mosquitto_disconnect client.m
                (connect p client host port keep_alive bind st).1.process.world).1)
  connect-ended host port keep_alive bind st rc rx r ls (gone, _) run accepted =
      let lives = Run-SlotLives p d Polled r ls st run in
      let st' : State p = (connect p client host port keep_alive bind st).1 in
      (
        connect-on_connect-poll p client d host port keep_alive bind st rc rx lives accepted,
        elim (Result-cases (network.connect p.lib client host port keep_alive bind st.process).0) [
          | inl (_, called) ↦
              let (_, slot, store) = connect_ok p client host port keep_alive bind st called in
              let told : (tell_connect p client rc st').process ≡ st'.process =
                tell_connect-process p client d rc st' (p.conns.bounded 1 st.conn_store).0 slot
                  (rw store (connected_at p d st.connect st.conn_store lives)) in
              let no_sender : (tell_connect p client rc st').subscriber_tx ≡ none =
                (tell_connect-SameEvents p client de ex rc st').0
                ∙ connect-subscriber_tx p client host port keep_alive bind st called
                ∙ gone in
              on_connect-process p client d rc st' no_sender
              ∙ ap (λ s. (p.lib.mosquitto_disconnect client.m s.world).1) told
          | inr (e, failed) ↦
              let (refused, _, _, _, _) =
                connect_err p client host port keep_alive bind st e failed in
              cc (accepted, refused)
        ],
      )
