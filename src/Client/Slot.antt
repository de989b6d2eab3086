-- ===== src/Client/Slot.antt =====
-- The sender that `connect` of mosquitto-rs/src/client.rs leaves in the handler always belongs to a
-- channel.
use mosquitto_rs.Base.{
  ◌≡◌, ◌≢◌, inl, inr, Option, none, some, List, [], ◌∷◌, Str, arith, Option-cases, Result-cases,
}
use mosquitto_rs.Base.Int.{ℤ}
use mosquitto_rs.Channel.{Documented, Status, Poll-cases}
use mosquitto_rs.Client.Callbacks.{on_connect, tell_connect}
use mosquitto_rs.Client.Connect.{
  connect_ok, connect_err, connected_at, failed_at, told_none, told_some,
}
use mosquitto_rs.Client.Data.{Event}
use mosquitto_rs.Client.Futures.{Label}
use mosquitto_rs.Client.Requests.{connect, connect_poll, cancel_connect}
use mosquitto_rs.Client.Runs.{
  Step, requests, fails, acknowledges, polls, cancels, connects, disconnects, receives,
  calls_connect, polls_connect, cancels_connect, takes_subscriber, configures, Run,
}
use mosquitto_rs.Client.State.{Platform, State, Runtime, new}
use mosquitto_rs.Client.Unmoved.{
  SameConns, dispatch_event-SameConns, acknowledge-SameConns, on_message-SameConns,
  on_disconnect-SameConns, request-SameConns, ack_poll-SameConns, cancel_ack-SameConns,
  subscriber-SameConns, on_process-SameConns,
}
use mosquitto_rs.Lowlevel.Mosq.{Mosq}
use mosquitto_rs.Lowlevel.Network as network
use mosquitto_rs.Lowlevel.Status.{ConnectionStatus}
use mosquitto_rs.Lowlevel.Strings.{Duration}

module _ (p : Platform) (d : Documented p.conns) where
  abbrev pub Lives : Option p.conns.Sender → p.conns.Store → Type 0
  Lives slot s = (tx : p.conns.Sender) → slot ≡ some tx → d.at s (d.tx_id tx) ≢ none

  none-Lives : (s : p.conns.Store) → Lives none s
  none-Lives s tx e = cc e

  -- No operation forgets a channel.
  recv-Lives :
      (rx : p.conns.Receiver) (o : Option p.conns.Sender) (s : p.conns.Store)
      → Lives o s
      → Lives o (p.conns.recv rx s).1
  recv-Lives rx o s h tx e = ground (arith, h tx e, d.recv_at rx s (d.tx_id tx))

  drop_receiver-Lives :
      (rx : p.conns.Receiver) (o : Option p.conns.Sender) (s : p.conns.Store)
      → Lives o s
      → Lives o (p.conns.drop_receiver rx s)
  drop_receiver-Lives rx o s h tx e = ground (arith, h tx e, d.drop_receiver_at rx s (d.tx_id tx))

  lost :
      {o : Option (Status ConnectionStatus)} (c : Status ConnectionStatus)
      → o ≡ some c
      → o ≡ none
      → ⊥
  lost c e f = cc (e, f)

  -- The handler's sender belongs to a channel.
  abbrev pub SlotLives : State p → Type 0
  SlotLives st = Lives st.connect st.conn_store

  unmoved :
      (st : State p) {st' u : State p} → st' ≡ u → SameConns p st u → SlotLives st → SlotLives st'
  unmoved st after (slot, store) h = rw (after, slot, store) h

  on_connect-SlotLives :
      (client : Mosq p.lib) (rc : ConnectionStatus) (st : State p)
      → SlotLives st
      → SlotLives (on_connect p client rc st)
  unfolding on_connect
  on_connect-SlotLives client rc st h =
      let (slot, store) =
        dispatch_event-SameConns p client (Event.connected rc) (tell_connect p client rc st) in
      rw (slot, store)
        (elim (Option-cases st.connect) [
          | inl e ↦ let (same, stays) = told_none p client rc st e in rw (same, stays) h
          | inr (tx, e) ↦ let (gone, left) = told_some p client rc st tx e in rw gone (none-Lives _)
        ])

  connect-SlotLives :
      (client : Mosq p.lib) (host : Str) (port : ℤ) (keep_alive : Duration) (bind : Option Str)
      (st : State p)
      → SlotLives st
      → SlotLives (connect p client host port keep_alive bind st).1
  connect-SlotLives client host port keep_alive bind st h =
      elim (Result-cases (network.connect p.lib client host port keep_alive bind st.process).0) [
        | inl (_, e) ↦
            let (_, slot, store) = connect_ok p client host port keep_alive bind st e in
            let chan = connected_at p d st.connect st.conn_store h in
            rw (slot, store)
              λ tx held.
                let same : (p.conns.bounded 1 st.conn_store).0 ≡ tx = cc held in
                λ no. lost _ chan (rw (← same) at no)
        | inr (x, e) ↦
            let (_, slot, store, _, _) = connect_err p client host port keep_alive bind st x e in
            let (b, chan) = failed_at p client d st.connect st.conn_store in
            rw (slot, store)
              λ tx held.
                let same : (p.conns.bounded 1 st.conn_store).0 ≡ tx = cc held in
                λ no. lost _ chan (rw (← same) at no)
      ]

  connect_poll-SlotLives :
      (rx : p.conns.Receiver) (st : State p) → SlotLives st → SlotLives (connect_poll p rx st).1
  unfolding connect_poll
  connect_poll-SlotLives rx st h =
      let found = recv-Lives rx st.connect st.conn_store h in
      let left = drop_receiver-Lives rx st.connect (p.conns.recv rx st.conn_store).1 found in
      elim (Poll-cases (p.conns.recv rx st.conn_store).0) [
        | inl (_, e) ↦ rw (e, connect_poll) left
        | inr (inl e) ↦ rw (e, connect_poll) found
        | inr (inr e) ↦ rw (e, connect_poll) left
      ]

  module _ (Polled : p.acks.Receiver → Type 0) where
    Step-SlotLives :
        {st st' : State p} {l : Label} → Step p Polled st st' l → SlotLives st → SlotLives st'
    unfolding cancel_connect
    Step-SlotLives {st} (connects client rc after label) h =
        rw after (on_connect-SlotLives client rc st h)
    Step-SlotLives {st} (calls_connect client host port keep_alive bind after label) h =
        rw after (connect-SlotLives client host port keep_alive bind st h)
    Step-SlotLives {st} (polls_connect other after label) h =
        rw after (connect_poll-SlotLives other st h)
    Step-SlotLives {st} (cancels_connect other after label) h =
        rw after (drop_receiver-Lives other st.connect st.conn_store h)
    Step-SlotLives {st} (requests call k made after label) h =
        unmoved st after (request-SameConns p st call) h
    Step-SlotLives {st} (fails call e failed after label) h =
        unmoved st after (request-SameConns p st call) h
    Step-SlotLives {st} (acknowledges client k after label) h =
        unmoved st after (acknowledge-SameConns p client k st) h
    Step-SlotLives {st} (polls other own after label) h =
        unmoved st after (ack_poll-SameConns p st other) h
    Step-SlotLives {st} (cancels other own after label) h =
        unmoved st after (cancel_ack-SameConns p st other) h
    Step-SlotLives {st} (disconnects client reason after label) h =
        unmoved st after (on_disconnect-SameConns p client reason st) h
    Step-SlotLives {st} (receives client k topic payload qos retain after label) h =
        unmoved st after (on_message-SameConns p client k topic payload qos retain st) h
    Step-SlotLives {st} (takes_subscriber after label) h =
        unmoved st after (subscriber-SameConns p st) h
    Step-SlotLives {st} (configures call after label) h =
        unmoved st after (on_process-SameConns p st call) h

    kept :
        (ls : List Label) (st st' : State p) → Run p Polled st ls st' → SlotLives st → SlotLives st'
    kept [] st st' same h = rw same h
    kept (l ∷ ls) st st' (u, step, rest) h = kept ls u st' rest (Step-SlotLives step h)

    -- In every state that a run of steps of a new client reaches, the sender in the handler, if there
    -- is one, belongs to a channel.
    pub Run-SlotLives :
        (r : Runtime p) (ls : List Label) (st : State p)
        → Run p Polled (new p r) ls st
        → SlotLives st
    unfolding new
    Run-SlotLives r ls st run = kept ls (new p r) st run (none-Lives _)
