-- ===== src/Client/Connected.antt =====
-- What `on_connect` and later calls of `connect` in mosquitto-rs/src/client.rs do to the future of an
-- earlier call.
use mosquitto_rs.Base.{◌≡◌, ◌≢◌, refl, ap, ◌∙◌, inl, inr, Option, none, some, arith, Option-cases}
use mosquitto_rs.Channel.{Documented, Status, opened}
use mosquitto_rs.Client.Callbacks.{on_connect, tell_connect}
use mosquitto_rs.Client.Connect.{told_none, told_some}
use mosquitto_rs.Client.Connecting.{
  Progress, unanswered, replaced, told, called_again, reported, progress, NotHeld, Stands,
  replaced_channel,
}
use mosquitto_rs.Client.Data.{Event}
use mosquitto_rs.Client.State.{Platform, State, drop_conn}
use mosquitto_rs.Client.Unmoved.{dispatch_event-SameConns}
use mosquitto_rs.Lowlevel.Mosq.{Mosq}
use mosquitto_rs.Lowlevel.Status.{ConnectionStatus}

module _ (p : Platform) (d : Documented p.conns) (rx : p.conns.Receiver) where
  -- A phase depends on the slot and on the future's own channel only.
  pub Stands-same :
      (ph : Progress) (o o' : Option p.conns.Sender) (s s' : p.conns.Store)
      → o' ≡ o
      → d.at s' (d.rx_id rx) ≡ d.at s (d.rx_id rx)
      → Stands p d rx ph o s
      → Stands p d rx ph o' s'
  Stands-same unanswered o o' s s' same keeps (slot, chan) = rw same (slot, keeps ∙ chan)
  Stands-same replaced o o' s s' same keeps (slot, chan) = rw same (slot, keeps ∙ chan)
  Stands-same (told rc) o o' s s' same keeps (slot, chan) = rw same (slot, keeps ∙ chan)

  none-NotHeld : NotHeld p d rx none
  none-NotHeld tx e = cc e

  -- What `on_connect` does to the slot and the channels.
  module _ (client : Mosq p.lib) (rc : ConnectionStatus) (st : State p) where
    sent_elsewhere :
        (tx : p.conns.Sender)
        → d.tx_id tx ≢ d.rx_id rx
        → d.at (p.conns.drop_sender tx (p.conns.try_send tx rc st.conn_store).1) (d.rx_id rx)
          ≡ d.at st.conn_store (d.rx_id rx)
    sent_elsewhere tx other = ground (
      arith,
      other,
      d.drop_sender_at tx (p.conns.try_send tx rc st.conn_store).1 (d.rx_id rx),
      d.try_send_at tx rc st.conn_store (d.rx_id rx),
    )

    told_elsewhere :
        (ph : Progress)
        → NotHeld p d rx st.connect
        → ((o : Option p.conns.Sender) (s : p.conns.Store)
            → NotHeld p d rx o
            → d.at s (d.rx_id rx) ≡ d.at st.conn_store (d.rx_id rx)
            → Stands p d rx ph o s)
        → Stands p d rx ph
            (tell_connect p client rc st).connect
            (tell_connect p client rc st).conn_store
    told_elsewhere ph free stands = elim (Option-cases st.connect) [
      | inl e ↦
          let (slot, store) = told_none p client rc st e in
          rw (slot, store) (stands st.connect st.conn_store free refl)
      | inr (tx, e) ↦
          let (slot, store) = told_some p client rc st tx e in
          rw (slot, store) (stands none _ none-NotHeld (sent_elsewhere tx (free tx e)))
    ]

    tell_connect-Stands :
        (ph : Progress)
        → Stands p d rx ph st.connect st.conn_store
        → Stands p d rx
            (progress (reported rc) ph)
            (tell_connect p client rc st).connect
            (tell_connect p client rc st).conn_store
    unfolding progress
    tell_connect-Stands unanswered ((tx, held, own), chan) =
        let (slot, store) = told_some p client rc st tx held in
        rw (slot, store)
          (
            none-NotHeld,
            ground (
              arith,
              own,
              chan,
              d.drop_sender_at tx (p.conns.try_send tx rc st.conn_store).1 (d.rx_id rx),
              d.try_send_at tx rc st.conn_store (d.rx_id rx),
            ),
          )
    tell_connect-Stands replaced (free, chan) =
        told_elsewhere replaced free (λ o s h same. (h, same ∙ chan))
    tell_connect-Stands (told first) (free, chan) =
        told_elsewhere (told first) free (λ o s h same. (h, same ∙ chan))

    pub on_connect-Stands :
        (ph : Progress)
        → Stands p d rx ph st.connect st.conn_store
        → Stands p d rx
            (progress (reported rc) ph)
            (on_connect p client rc st).connect
            (on_connect p client rc st).conn_store
    unfolding on_connect
    on_connect-Stands ph h =
        let (slot, store) =
          dispatch_event-SameConns p client (Event.connected rc) (tell_connect p client rc st) in
        rw (slot, store) (tell_connect-Stands ph h)

  -- What a later call of `connect` does to the slot and the channels: the new channel has its own
  -- number, and the sender that stood in the slot is dropped.
  module _ (o : Option p.conns.Sender) (s : p.conns.Store) where
    abbrev made : p.conns.Store
    made = p.conns.drop_receiver (p.conns.bounded 1 s).1 (drop_conn p o (p.conns.bounded 1 s).2)

    abbrev next_slot : Option p.conns.Sender
    next_slot = some (p.conns.bounded 1 s).0

    new_apart :
        (c : Status ConnectionStatus)
        → d.at s (d.rx_id rx) ≡ some c
        → d.tx_id (p.conns.bounded 1 s).0 ≢ d.rx_id rx
    new_apart c chan same =
        let fresh : d.at s (d.rx_id rx) ≡ none = rw⁻¹ same (d.bounded_fresh 1 s) in cc (chan, fresh)

    new-NotHeld :
        (c : Status ConnectionStatus) → d.at s (d.rx_id rx) ≡ some c → NotHeld p d rx next_slot
    new-NotHeld c chan tx e own =
        let same : (p.conns.bounded 1 s).0 ≡ tx = cc e in new_apart c chan (ap d.tx_id same ∙ own)

    dropped_at :
        (c : Status ConnectionStatus)
        → d.at s (d.rx_id rx) ≡ some c
        → NotHeld p d rx o
        → d.at (drop_conn p o (p.conns.bounded 1 s).2) (d.rx_id rx) ≡ some c
    unfolding drop_conn
    dropped_at c chan free = elim (Option-cases o) [
      | inl e ↦ rw e (ground (arith, chan, new_apart c chan, d.bounded_at 1 s (d.rx_id rx)))
      | inr (tx, e) ↦ rw e (
          ground (
            arith,
            chan,
            new_apart c chan,
            free tx e,
            d.drop_sender_at tx (p.conns.bounded 1 s).2 (d.rx_id rx),
            d.bounded_at 1 s (d.rx_id rx),
          ))
    ]

    replaced_at :
        (tx : p.conns.Sender)
        → o ≡ some tx
        → d.tx_id tx ≡ d.rx_id rx
        → d.at s (d.rx_id rx) ≡ some (opened (some 1))
        → d.at (drop_conn p o (p.conns.bounded 1 s).2) (d.rx_id rx) ≡ some (replaced_channel p d rx)
    unfolding drop_conn
    replaced_at tx held own chan = rw held (
        ground (
          arith,
          own,
          chan,
          new_apart (opened (some 1)) chan,
          d.drop_sender_at tx (p.conns.bounded 1 s).2 (d.rx_id rx),
          d.bounded_at 1 s (d.rx_id rx),
        ))

    -- The new receiver is another one.
    made_at :
        (c : Status ConnectionStatus)
        → d.at s (d.rx_id rx) ≡ some c
        → d.at made (d.rx_id rx) ≡ d.at (drop_conn p o (p.conns.bounded 1 s).2) (d.rx_id rx)
    made_at c chan = ground (
      arith,
      new_apart c chan,
      d.bounded_ids 1 s,
      d.drop_receiver_at (p.conns.bounded 1 s).1 (drop_conn p o (p.conns.bounded 1 s).2)
          (d.rx_id rx),
    )

    pub called-Stands :
        (ph : Progress)
        → Stands p d rx ph o s
        → Stands p d rx (progress called_again ph) next_slot (drop_conn p o (p.conns.bounded 1 s).2)
          × Stands p d rx (progress called_again ph) next_slot made
    unfolding progress
    called-Stands unanswered ((tx, held, own), chan) =
        let free = new-NotHeld (opened (some 1)) chan in
        let gone = replaced_at tx held own chan in
        ((free, gone), (free, made_at (opened (some 1)) chan ∙ gone))
    called-Stands replaced (free, chan) =
        let free' = new-NotHeld _ chan in
        let kept = dropped_at _ chan free in ((free', kept), (free', made_at _ chan ∙ kept))
    called-Stands (told rc) (free, chan) =
        let free' = new-NotHeld _ chan in
        let kept = dropped_at _ chan free in ((free', kept), (free', made_at _ chan ∙ kept))
