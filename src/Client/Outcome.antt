-- ===== src/Client/Outcome.antt =====
-- The future of `connect` in mosquitto-rs/src/client.rs moves through its phases as the signals of a
-- run say.
use mosquitto_rs.Base.{
  ◌≡◌, ◌≢◌, refl, sym, ap, ◌∙◌, inl, inr, Option, none, some, List, [], ◌∷◌, Str, ok, arith,
  Result-cases,
}
use mosquitto_rs.Base.Int.{ℤ}
use mosquitto_rs.Channel.{Documented, ready, Poll-cases}
use mosquitto_rs.Client.Connect.{connect_ok, connect_err, connected_at}
use mosquitto_rs.Client.Connecting.{
  Progress, unanswered, replaced, told, unrelated, called_again, progress, progress_after,
  connected_outcome, signal, signals, Spares, SparesAll, Stands,
}
use mosquitto_rs.Client.Futures.{Label}
use mosquitto_rs.Client.Requests.{connect, connect_poll, cancel_connect}
use mosquitto_rs.Client.Runs.{
  Step, requests, fails, acknowledges, polls, cancels, connects, disconnects, receives,
  calls_connect, polls_connect, cancels_connect, takes_subscriber, configures, Run,
}
use mosquitto_rs.Client.State.{Platform, State}
use mosquitto_rs.Client.Unmoved.{
  SameConns, acknowledge-SameConns, on_message-SameConns, on_disconnect-SameConns,
  request-SameConns, ack_poll-SameConns, cancel_ack-SameConns, subscriber-SameConns,
  on_process-SameConns,
}
use mosquitto_rs.Lowlevel.Mosq.{Mosq}
use mosquitto_rs.Lowlevel.Network as network
use mosquitto_rs.Lowlevel.Status.{is_successful}
use mosquitto_rs.Lowlevel.Strings.{Duration}
use mosquitto_rs.Client.Connected.{Stands-same, on_connect-Stands, called-Stands}

module _ (p : Platform) (d : Documented p.conns) (rx : p.conns.Receiver) where
  -- The state of the program while the future is in a phase.
  abbrev pub Rests : Progress → State p → Type 0
  Rests ph st = Stands p d rx ph st.connect st.conn_store

  unmoved :
      (ph : Progress) (st : State p) {st' u : State p}
      → st' ≡ u
      → SameConns p st u
      → Rests ph st
      → Rests (progress unrelated ph) st'
  unfolding progress
  unmoved ph st after (slot, store) h = rw (after, slot, store) h

  connect-Rests :
      (client : Mosq p.lib) (host : Str) (port : ℤ) (keep_alive : Duration) (bind : Option Str)
      (st : State p) (ph : Progress)
      → Rests ph st
      → Rests (progress called_again ph) (connect p client host port keep_alive bind st).1
  connect-Rests client host port keep_alive bind st ph h =
      let (done, failed) = called-Stands p d rx st.connect st.conn_store ph h in
      elim (Result-cases (network.connect p.lib client host port keep_alive bind st.process).0) [
        | inl (_, e) ↦
            let (_, slot, store) = connect_ok p client host port keep_alive bind st e in
            rw (slot, store) done
        | inr (x, e) ↦
            let (_, slot, store, _, _) = connect_err p client host port keep_alive bind st x e in
            rw (slot, store) failed
      ]

  -- Another future is polled or dropped.
  module _ (other : p.conns.Receiver) (apart : d.rx_id other ≢ d.rx_id rx) (st : State p) where
    connect_poll-Rests : (ph : Progress) → Rests ph st → Rests ph (connect_poll p other st).1
    unfolding connect_poll
    connect_poll-Rests ph h =
        let found : d.at (p.conns.recv other st.conn_store).1 (d.rx_id rx)
            ≡ d.at st.conn_store (d.rx_id rx) =
          ground (arith, apart, d.recv_at other st.conn_store (d.rx_id rx)) in
        let left : d.at (p.conns.drop_receiver other (p.conns.recv other st.conn_store).1)
              (d.rx_id rx)
            ≡ d.at st.conn_store (d.rx_id rx) =
          ground (
            arith,
            apart,
            found,
            d.drop_receiver_at other (p.conns.recv other st.conn_store).1 (d.rx_id rx),
          ) in
        elim (Poll-cases (p.conns.recv other st.conn_store).0) [
          | inl (_, e) ↦
              rw (e, connect_poll)
                (Stands-same p d rx ph st.connect st.connect st.conn_store _ refl left h)
          | inr (inl e) ↦
              rw (e, connect_poll)
                (Stands-same p d rx ph st.connect st.connect st.conn_store _ refl found h)
          | inr (inr e) ↦
              rw (e, connect_poll)
                (Stands-same p d rx ph st.connect st.connect st.conn_store _ refl left h)
        ]

    cancel_connect-Rests : (ph : Progress) → Rests ph st → Rests ph (cancel_connect p other st)
    unfolding cancel_connect
    cancel_connect-Rests ph h =
        Stands-same p d rx ph st.connect st.connect st.conn_store _ refl
          (ground (arith, apart, d.drop_receiver_at other st.conn_store (d.rx_id rx))) h

  module _ (Polled : p.acks.Receiver → Type 0) where
    pub Step-Rests :
        {st st' : State p} {l : Label} (ph : Progress) (step : Step p Polled st st' l)
        → Spares p Polled d rx step
        → Rests ph st
        → Rests (progress (signal p Polled step) ph) st'
    unfolding signal Spares progress
    Step-Rests {st} ph (connects client rc after label) apart h =
        rw after (on_connect-Stands p d rx client rc st ph h)
    Step-Rests {st} ph (calls_connect client host port keep_alive bind after label) apart h =
        rw after (connect-Rests client host port keep_alive bind st ph h)
    Step-Rests {st} ph (polls_connect other after label) apart h =
        rw after (connect_poll-Rests other apart st ph h)
    Step-Rests {st} ph (cancels_connect other after label) apart h =
        rw after (cancel_connect-Rests other apart st ph h)
    Step-Rests {st} ph (requests call k made after label) apart h =
        unmoved ph st after (request-SameConns p st call) h
    Step-Rests {st} ph (fails call e failed after label) apart h =
        unmoved ph st after (request-SameConns p st call) h
    Step-Rests {st} ph (acknowledges client k after label) apart h =
        unmoved ph st after (acknowledge-SameConns p client k st) h
    Step-Rests {st} ph (polls other own after label) apart h =
        unmoved ph st after (ack_poll-SameConns p st other) h
    Step-Rests {st} ph (cancels other own after label) apart h =
        unmoved ph st after (cancel_ack-SameConns p st other) h
    Step-Rests {st} ph (disconnects client reason after label) apart h =
        unmoved ph st after (on_disconnect-SameConns p client reason st) h
    Step-Rests {st} ph (receives client k topic payload qos retain after label) apart h =
        unmoved ph st after (on_message-SameConns p client k topic payload qos retain st) h
    Step-Rests {st} ph (takes_subscriber after label) apart h =
        unmoved ph st after (subscriber-SameConns p st) h
    Step-Rests {st} ph (configures call after label) apart h =
        unmoved ph st after (on_process-SameConns p st call) h

    Run-Rests :
        (ls : List Label) (st st' : State p) (ph : Progress) (run : Run p Polled st ls st')
        → SparesAll p Polled d rx ls st st' run
        → Rests ph st
        → Rests (progress_after (signals p Polled ls st st' run) ph) st'
    unfolding progress_after signals SparesAll
    Run-Rests [] st st' ph same apart h = rw same h
    Run-Rests (l ∷ ls) st st' ph (u, step, rest) (apart, others) h =
        Run-Rests ls u st' (progress (signal p Polled step) ph) rest others
          (Step-Rests ph step apart h)

  pub poll-connected_outcome :
      (ph : Progress) (st : State p) → Rests ph st → (connect_poll p rx st).0 ≡ connected_outcome ph
  unfolding connect_poll connected_outcome is_successful
  poll-connected_outcome unanswered st (_, chan) = ground (arith, d.recv_poll rx st.conn_store)
  poll-connected_outcome replaced st (_, chan) = ground (arith, d.recv_poll rx st.conn_store)
  poll-connected_outcome (told rc) st (_, chan) =
      let found : (p.conns.recv rx st.conn_store).0 ≡ ready rc =
        ground (arith, d.recv_poll rx st.conn_store) in
      rw (found, connect_poll) refl

pub accepted_Rests :
    (p : Platform) (d : Documented p.conns) (client : Mosq p.lib) (host : Str) (port : ℤ)
    (keep_alive : Duration) (bind : Option Str) (st : State p) (rx : p.conns.Receiver)
    → ((tx : p.conns.Sender) → st.connect ≡ some tx → d.at st.conn_store (d.tx_id tx) ≢ none)
    → (connect p client host port keep_alive bind st).0 ≡ ok rx
    → Rests p d rx unanswered (connect p client host port keep_alive bind st).1
accepted_Rests p d client host port keep_alive bind st rx live accepted =
    elim (Result-cases (network.connect p.lib client host port keep_alive bind st.process).0) [
      | inl (_, called) ↦
          let (gives, slot, store) = connect_ok p client host port keep_alive bind st called in
          let same : (p.conns.bounded 1 st.conn_store).1 ≡ rx = cc (gives, accepted) in
          let own : d.tx_id (p.conns.bounded 1 st.conn_store).0 ≡ d.rx_id rx =
            sym (d.bounded_ids 1 st.conn_store) ∙ ap d.rx_id same in
          (
            ((p.conns.bounded 1 st.conn_store).0, slot, own),
            rw (store, ← own) (connected_at p d st.connect st.conn_store live),
          )
      | inr (e, failed) ↦
          let (refused, _, _, _, _) = connect_err p client host port keep_alive bind st e failed in
          cc (accepted, refused)
    ]

-- A call of `connect` that the C library accepts follows the specification: after any run of steps
-- that neither polls nor drops its future, polling it gives nothing while the run has neither
-- reported a connection nor called `connect` again, `Ok(rc)` or `Err(RejectedConnection(rc))` if it
-- reported the status `rc` first, whether that is 0 or not, and `Err(MOSQ_ERR_INVAL)` if it called
-- `connect` again first, even if that call failed. A sender that stood in the handler before is to
-- belong to a channel.
pub connect-Run-outcome :
    (p : Platform) (d : Documented p.conns) (client : Mosq p.lib) (host : Str) (port : ℤ)
    (keep_alive : Duration) (bind : Option Str) (st : State p) (rx : p.conns.Receiver)
    (Polled : p.acks.Receiver → Type 0) (ls : List Label) (st' : State p)
    (run : Run p Polled (connect p client host port keep_alive bind st).1 ls st')
    → ((tx : p.conns.Sender) → st.connect ≡ some tx → d.at st.conn_store (d.tx_id tx) ≢ none)
    → (connect p client host port keep_alive bind st).0 ≡ ok rx
    → SparesAll p Polled d rx ls (connect p client host port keep_alive bind st).1 st' run
    → (connect_poll p rx st').0
      ≡ connected_outcome (
          progress_after
            (signals p Polled ls (connect p client host port keep_alive bind st).1 st' run)
            unanswered)
connect-Run-outcome p d client host port keep_alive bind st rx Polled ls st' run live accepted
      apart =
    poll-connected_outcome p d rx _ st' (
      Run-Rests p d rx Polled ls (connect p client host port keep_alive bind st).1 st' unanswered
        run apart (accepted_Rests p d client host port keep_alive bind st rx live accepted))
