-- ===== src/Client/Connect.antt =====
-- `connect` of mosquitto-rs/src/client.rs with the `on_connect` that answers it.
use mosquitto_rs.Base.{
  ◌==◌, ◌≡◌, refl, sym, ap, ◌∙◌, ◌≢◌, inl, inr, Bool, true, false, not, Option, none, some, List,
  [], ◌∷◌, Str, ok, err, arith, if◌then◌else◌, if_either, Option-cases, Result-cases,
}
use mosquitto_rs.Base.Int.{ℤ, pos, ◌==ℤ◌}
use mosquitto_rs.Channel.{Documented, Status, opened, ready}
use mosquitto_rs.Client.Callbacks.{on_connect, dispatch_event, tell_connect, disconnecting}
use mosquitto_rs.Client.Data.{Event}
use mosquitto_rs.Client.Requests.{connect, connect_poll}
use mosquitto_rs.Client.State.{Platform, State, drop_conn}
use mosquitto_rs.Client.Stream.{Holds, dispatch_event-process}
use mosquitto_rs.Error.{Error, rejected_connection}
use mosquitto_rs.Lowlevel.Mosq.{Mosq}
use mosquitto_rs.Lowlevel.Network as network
use mosquitto_rs.Lowlevel.Status.{ConnectionStatus, is_successful}
use mosquitto_rs.Lowlevel.Strings.{Duration}

module _ (p : Platform) (client : Mosq p.lib) (host : Str) (port : ℤ) (keep_alive : Duration)
    (bind : Option Str) (st : State p) where
  pub connect_ok :
      (network.connect p.lib client host port keep_alive bind st.process).0 ≡ ok tt
      → ((connect p client host port keep_alive bind st).0 ≡ ok (p.conns.bounded 1 st.conn_store).1)
        × ((connect p client host port keep_alive bind st).1.connect
            ≡ some (p.conns.bounded 1 st.conn_store).0)
        × ((connect p client host port keep_alive bind st).1.conn_store
            ≡ drop_conn p st.connect (p.conns.bounded 1 st.conn_store).2)
  unfolding connect
  connect_ok e = rw (e, connect) (refl, refl, refl)

  pub connect_err :
      (e : Error)
      → (network.connect p.lib client host port keep_alive bind st.process).0 ≡ err e
      → ((connect p client host port keep_alive bind st).0 ≡ err e)
        × ((connect p client host port keep_alive bind st).1.connect
            ≡ some (p.conns.bounded 1 st.conn_store).0)
        × ((connect p client host port keep_alive bind st).1.conn_store
            ≡ p.conns.drop_receiver
                (p.conns.bounded 1 st.conn_store).1
                (drop_conn p st.connect (p.conns.bounded 1 st.conn_store).2))
        × ((connect p client host port keep_alive bind st).1.subscriber_tx ≡ st.subscriber_tx)
        × ((connect p client host port keep_alive bind st).1.event_store ≡ st.event_store)
  unfolding connect
  connect_err e h = rw (h, connect) (refl, refl, refl, refl, refl)

-- What the answer of `on_connect` to a waiting call leaves.
module _ (p : Platform) (client : Mosq p.lib) (rc : ConnectionStatus) (st : State p) where
  pub told_none :
      st.connect ≡ none
      → ((tell_connect p client rc st).connect ≡ st.connect)
        × ((tell_connect p client rc st).conn_store ≡ st.conn_store)
  unfolding tell_connect
  told_none e = rw (e, tell_connect) (e, refl)

  pub told_some :
      (tx : p.conns.Sender)
      → st.connect ≡ some tx
      → ((tell_connect p client rc st).connect ≡ none)
        × ((tell_connect p client rc st).conn_store
            ≡ p.conns.drop_sender tx (p.conns.try_send tx rc st.conn_store).1)
  unfolding tell_connect
  told_some tx e =
      rw (e, tell_connect)
        (if_either
          (λ (u : State p).
            (u.connect ≡ none)
            × (u.conn_store ≡ p.conns.drop_sender tx (p.conns.try_send tx rc st.conn_store).1))
          (p.conns.try_send tx rc st.conn_store).0 (refl, refl) (refl, refl))

-- The connection slot of the handler, and what `on_connect` does with it.
module _ (p : Platform) (client : Mosq p.lib) (d : Documented p.conns) where
  -- The sender that stands in the slot has no receiver any more.
  abbrev pub IsStale : State p → Type 0
  IsStale st =
      (tx : p.conns.Sender) × (c : Status ConnectionStatus) × (st.connect ≡ some tx)
      × (d.at st.conn_store (d.tx_id tx) ≡ some c)
      × (c.has_receiver ≡ false)

  tell_connect-stale :
      (rc : ConnectionStatus) (st : State p)
      → IsStale st
      → ((tell_connect p client rc st).process ≡ (network.disconnect p.lib client st.process).1)
        × ((tell_connect p client rc st).subscriber_tx ≡ st.subscriber_tx)
        × ((tell_connect p client rc st).event_store ≡ st.event_store)
  unfolding tell_connect disconnecting
  tell_connect-stale rc st (tx, c, held, chan, gone) =
      let refused : (p.conns.try_send tx rc st.conn_store).0 ≡ false =
        ground (arith, d.try_send_taken tx rc st.conn_store) in
      rw (held, tell_connect, refused) (refl, refl, refl)

  abbrev unheard : Bool → Status ConnectionStatus
  unheard b = record { queue = []; capacity = some 1; has_sender = b; has_receiver = false }

  -- The channel of a failed call, whose receiver is dropped, and which an older sender may share.
  pub failed_at :
      (o : Option p.conns.Sender) (s : p.conns.Store)
      → (b : Bool) × (d.at
            (p.conns.drop_receiver (p.conns.bounded 1 s).1 (drop_conn p o (p.conns.bounded 1 s).2))
            (d.tx_id (p.conns.bounded 1 s).0)
          ≡ some (unheard b))
  unfolding drop_conn
  failed_at none s = (
    true,
    ground (
      arith,
      d.drop_receiver_at (p.conns.bounded 1 s).1 (p.conns.bounded 1 s).2
          (d.tx_id (p.conns.bounded 1 s).0),
      d.bounded_at 1 s (d.tx_id (p.conns.bounded 1 s).0),
      d.bounded_ids 1 s,
    ),
  )
  failed_at (some old) s = (
    not (d.tx_id old == d.tx_id (p.conns.bounded 1 s).0),
    ground (
      arith,
      d.drop_receiver_at (p.conns.bounded 1 s).1 (p.conns.drop_sender old (p.conns.bounded 1 s).2)
          (d.tx_id (p.conns.bounded 1 s).0),
      d.drop_sender_at old (p.conns.bounded 1 s).2 (d.tx_id (p.conns.bounded 1 s).0),
      d.bounded_at 1 s (d.tx_id (p.conns.bounded 1 s).0),
      d.bounded_ids 1 s,
    ),
  )

  -- A call of `connect` that fails leaves such a sender behind.
  connect_err-IsStale :
      (host : Str) (port : ℤ) (keep_alive : Duration) (bind : Option Str) (st : State p) (e : Error)
      → (network.connect p.lib client host port keep_alive bind st.process).0 ≡ err e
      → IsStale (connect p client host port keep_alive bind st).1
  connect_err-IsStale host port keep_alive bind st e h =
      let (_, held, store, _, _) = connect_err p client host port keep_alive bind st e h in
      let (b, chan) = failed_at st.connect st.conn_store in
      ((p.conns.bounded 1 st.conn_store).0, unheard b, held, rw store chan, refl)

-- If `connect` fails inside the C library while the stream of events is open, the next connection
-- that the library reports makes the client disconnect, whatever its status: the sender that the
-- failed call left in the handler has lost its receiver.
pub connect_err-on_connect :
    (p : Platform) (client : Mosq p.lib) (d : Documented p.conns) (de : Documented p.events)
    (rx : p.events.Receiver) (q : List Event) (host : Str) (port : ℤ) (keep_alive : Duration)
    (bind : Option Str) (st : State p) (e : Error) (rc : ConnectionStatus)
    → Holds p client de rx q true st
    → (network.connect p.lib client host port keep_alive bind st.process).0 ≡ err e
    → (on_connect p client rc (connect p client host port keep_alive bind st).1).process
      ≡ (network.disconnect p.lib client
          (connect p client host port keep_alive bind st).1.process).1
unfolding on_connect
connect_err-on_connect p client d de rx q host port keep_alive bind st e rc open_ failed =
    let (_, _, _, tx', store') = connect_err p client host port keep_alive bind st e failed in
    let (asked, tx'', store'') =
      tell_connect-stale p client d rc (connect p client host port keep_alive bind st).1
        (connect_err-IsStale p client d host port keep_alive bind st e failed) in
    dispatch_event-process p client de rx (Event.connected rc) q
      (tell_connect p client rc (connect p client host port keep_alive bind st).1)
      (rw (tx'', store'', tx', store') open_)
    ∙ asked

module _ (p : Platform) (client : Mosq p.lib) (d : Documented p.conns) (rx : p.conns.Receiver) where
  abbrev told : ConnectionStatus → Status ConnectionStatus
  told rc = record { queue = rc ∷ []; capacity = some 1; has_sender = false; has_receiver = true }

  dispatch_event-conn_store :
      (e : Event) (st : State p) → (dispatch_event p client e st).conn_store ≡ st.conn_store
  unfolding dispatch_event disconnecting
  dispatch_event-conn_store e st = elim (Option-cases st.subscriber_tx) [
    | inl gone ↦ rw (gone, dispatch_event) refl
    | inr (tx, held) ↦
        rw (held, dispatch_event)
          (if_either (λ (s : State p). s.conn_store ≡ st.conn_store)
            (p.events.try_send tx e st.event_store).0 refl refl)
  ]

  tell_connect-told :
      (rc : ConnectionStatus) (st : State p) (tx : p.conns.Sender)
      → st.connect ≡ some tx
      → d.tx_id tx ≡ d.rx_id rx
      → d.at st.conn_store (d.rx_id rx) ≡ some (opened (some 1))
      → d.at (tell_connect p client rc st).conn_store (d.rx_id rx) ≡ some (told rc)
  unfolding tell_connect disconnecting
  tell_connect-told rc st tx held own chan =
      let took : (p.conns.try_send tx rc st.conn_store).0 ≡ true =
        ground (arith, d.try_send_taken tx rc st.conn_store) in
      rw (held, tell_connect, took)
        (ground (
          arith,
          d.drop_sender_at tx (p.conns.try_send tx rc st.conn_store).1 (d.rx_id rx),
          d.try_send_at tx rc st.conn_store (d.rx_id rx),
        ))

  connect_poll-told :
      (rc : ConnectionStatus) (st : State p)
      → d.at st.conn_store (d.rx_id rx) ≡ some (told rc)
      → (connect_poll p rx st).0
        ≡ some (if is_successful rc then ok rc else err (rejected_connection rc))
  unfolding connect_poll
  connect_poll-told rc st chan =
      let found : (p.conns.recv rx st.conn_store).0 ≡ ready rc =
        ground (arith, d.recv_poll rx st.conn_store) in
      rw (found, connect_poll) refl

pub connected_at :
    (p : Platform) (d : Documented p.conns) (o : Option p.conns.Sender) (s : p.conns.Store)
    → ((tx : p.conns.Sender) → o ≡ some tx → d.at s (d.tx_id tx) ≢ none)
    → d.at (drop_conn p o (p.conns.bounded 1 s).2) (d.tx_id (p.conns.bounded 1 s).0)
      ≡ some (opened (some 1))
unfolding drop_conn
connected_at p d none s live = ground (arith, d.bounded_at 1 s (d.tx_id (p.conns.bounded 1 s).0))
connected_at p d (some old) s live = ground (
  arith,
  d.drop_sender_at old (p.conns.bounded 1 s).2 (d.tx_id (p.conns.bounded 1 s).0),
  d.bounded_at 1 s (d.tx_id (p.conns.bounded 1 s).0),
  d.bounded_fresh 1 s,
  live old refl,
)

-- A call of `connect` that the C library accepts, followed by the library's report of the status
-- `rc`, gives `Ok(rc)` if `rc` is 0 and `Err(RejectedConnection(rc))` for any other `rc`, provided
-- that a sender which already stood in the handler belongs to a channel.
pub connect-on_connect-poll :
    (p : Platform) (client : Mosq p.lib) (d : Documented p.conns) (host : Str) (port : ℤ)
    (keep_alive : Duration) (bind : Option Str) (st : State p) (rc : ConnectionStatus)
    (rx : p.conns.Receiver)
    → ((tx : p.conns.Sender) → st.connect ≡ some tx → d.at st.conn_store (d.tx_id tx) ≢ none)
    → (connect p client host port keep_alive bind st).0 ≡ ok rx
    → (connect_poll p rx
        (on_connect p client rc (connect p client host port keep_alive bind st).1)).0
      ≡ some (if rc.code ==ℤ pos 0 then ok rc else err (rejected_connection rc))
unfolding on_connect is_successful
connect-on_connect-poll p client d host port keep_alive bind st rc rx live accepted =
    elim (Result-cases (network.connect p.lib client host port keep_alive bind st.process).0) [
      | inl (_, called) ↦
          let (gives, slot, store) = connect_ok p client host port keep_alive bind st called in
          let same : (p.conns.bounded 1 st.conn_store).1 ≡ rx = cc (gives, accepted) in
          let own : d.tx_id (p.conns.bounded 1 st.conn_store).0 ≡ d.rx_id rx =
            sym (d.bounded_ids 1 st.conn_store) ∙ ap d.rx_id same in
          connect_poll-told p client d rx rc
            (on_connect p client rc (connect p client host port keep_alive bind st).1)
            (rw
              (dispatch_event-conn_store p client d rx (Event.connected rc)
                (tell_connect p client rc (connect p client host port keep_alive bind st).1))
              (tell_connect-told p client d rx rc (connect p client host port keep_alive bind st).1
                (p.conns.bounded 1 st.conn_store).0 slot own
                (rw (store, ← own) (connected_at p d st.connect st.conn_store live))))
      | inr (e, failed) ↦
          let (refused, _, _, _, _) = connect_err p client host port keep_alive bind st e failed in
          cc (accepted, refused)
    ]
