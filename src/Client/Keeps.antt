-- ===== src/Client/Keeps.antt =====
-- Changes of the channels in mosquitto-rs/src/client.rs that the entries of `mids`, or one future, do
-- not notice.
use mosquitto_rs.Base.{ℕ, ◌≡◌, refl, sym, ◌∙◌, ◌≢◌, inl, inr, none, some, arith}
use mosquitto_rs.Channel.{Documented, Status, Poll-cases}
use mosquitto_rs.Client.Assign.{refused, refused_at}
use mosquitto_rs.Client.Futures.{Phase, waiting, answered, lost, IsValid, Shows}
use mosquitto_rs.Client.Requests.{ack_poll, cancel_ack}
use mosquitto_rs.Client.State.{Platform, Map, State}
use mosquitto_rs.Lowlevel.Status.{MessageId}

module _ (p : Platform) (d : Documented p.acks) where
  -- No channel goes away.
  abbrev pub Lives : p.acks.Store → p.acks.Store → Type 0
  Lives s s' = (j : ℕ) → d.at s j ≢ none → d.at s' j ≢ none

  -- Nor does one future's channel change.
  abbrev pub Keeps : p.acks.Receiver → p.acks.Store → p.acks.Store → Type 0
  Keeps rx s s' =
      Lives s s'
      × ((c : Status MessageId) → d.at s (d.rx_id rx) ≡ some c → d.at s' (d.rx_id rx) ≡ some c)

  pub Lives-IsValid :
      (m : Map p.acks.Sender) (s s' : p.acks.Store)
      → Lives s s'
      → IsValid p d m s
      → IsValid p d m s'
  Lives-IsValid m s s' live v = record {
    live = λ k tx held. live (d.tx_id tx) (v.live k tx held);
    distinct = v.distinct;
  }

  pub Keeps-Shows :
      (mid : MessageId) (rx : p.acks.Receiver) (ph : Phase) (m : Map p.acks.Sender)
      (s s' : p.acks.Store)
      → Keeps rx s s'
      → Shows p d mid rx ph m s
      → Shows p d mid rx ph m s'
  Keeps-Shows mid rx waiting m s s' (_, same) (held, chan) = (held, same _ chan)
  Keeps-Shows mid rx answered m s s' (_, same) (unheld, chan) = (unheld, same _ chan)
  Keeps-Shows mid rx lost m s s' (_, same) (unheld, chan) = (unheld, same _ chan)

  pub refused-Lives : (s : p.acks.Store) → Lives s (refused p s)
  refused-Lives s j h e = h (sym (refused_at p d s j h) ∙ e)

  pub refused-Keeps : (rx : p.acks.Receiver) (s : p.acks.Store) → Keeps rx s (refused p s)
  refused-Keeps rx s = (refused-Lives s, λ c e. refused_at p d s (d.rx_id rx) (λ h. cc (e, h)) ∙ e)

  dropped-Lives :
      (other : p.acks.Receiver) (s : p.acks.Store) → Lives s (p.acks.drop_receiver other s)
  dropped-Lives other s j h = ground (arith, d.drop_receiver_at other s j)

  received-Lives : (other : p.acks.Receiver) (s : p.acks.Store) → Lives s (p.acks.recv other s).1
  received-Lives other s j h = ground (arith, d.recv_at other s j)

  -- Polling or dropping any future.
  module _ (other : p.acks.Receiver) (st : State p) where
    both-Lives : Lives st.ack_store (p.acks.drop_receiver other (p.acks.recv other st.ack_store).1)
    both-Lives j h =
        dropped-Lives other (p.acks.recv other st.ack_store).1 j
          (received-Lives other st.ack_store j h)

    pub polled-Lives :
        ((ack_poll p other st).1.mids ≡ st.mids)
        × Lives st.ack_store (ack_poll p other st).1.ack_store
    unfolding ack_poll
    polled-Lives = elim (Poll-cases (p.acks.recv other st.ack_store).0) [
      | inl (_, e) ↦ rw (e, ack_poll) (refl, both-Lives)
      | inr (inl e) ↦ rw (e, ack_poll) (refl, received-Lives other st.ack_store)
      | inr (inr e) ↦ rw (e, ack_poll) (refl, both-Lives)
    ]

    pub cancelled-Lives :
        ((cancel_ack p other st).mids ≡ st.mids)
        × Lives st.ack_store (cancel_ack p other st).ack_store
    unfolding cancel_ack
    cancelled-Lives = (refl, dropped-Lives other st.ack_store)

  -- Polling or dropping another future than that of `rx`.
  module _ (rx other : p.acks.Receiver) (apart : d.rx_id other ≢ d.rx_id rx) (st : State p) where
    dropped-same :
        (s : p.acks.Store) (c : Status MessageId)
        → d.at s (d.rx_id rx) ≡ some c
        → d.at (p.acks.drop_receiver other s) (d.rx_id rx) ≡ some c
    dropped-same s c e = ground (arith, d.drop_receiver_at other s (d.rx_id rx))

    received-same :
        (s : p.acks.Store) (c : Status MessageId)
        → d.at s (d.rx_id rx) ≡ some c
        → d.at (p.acks.recv other s).1 (d.rx_id rx) ≡ some c
    received-same s c e = ground (arith, d.recv_at other s (d.rx_id rx))

    pub polled-Keeps : Keeps rx st.ack_store (ack_poll p other st).1.ack_store
    unfolding ack_poll
    polled-Keeps = (
      (polled-Lives other st).1,
      λ c e. elim (Poll-cases (p.acks.recv other st.ack_store).0) [
        | inl (_, h) ↦ rw (h, ack_poll) (dropped-same _ c (received-same st.ack_store c e))
        | inr (inl h) ↦ rw (h, ack_poll) (received-same st.ack_store c e)
        | inr (inr h) ↦ rw (h, ack_poll) (dropped-same _ c (received-same st.ack_store c e))
      ],
    )

    pub cancelled-Keeps : Keeps rx st.ack_store (cancel_ack p other st).ack_store
    unfolding cancel_ack
    cancelled-Keeps = ((cancelled-Lives other st).1, dropped-same st.ack_store)
