-- ===== src/Client/Acknowledge.antt =====
-- What `acknowledge` of mosquitto-rs/src/client.rs does to the futures.
use mosquitto_rs.Base.{
  ℕ, ◌==◌, ◌≡◌, refl, sym, ap, ◌∙◌, ◌≢◌, inl, inr, none, some, arith, if◌then◌else◌, if_either,
  Option-cases, Bool-cases,
}
use mosquitto_rs.Base.Int.{◌==ℤ◌, ==ℤ_iff, ==ℤ_ne}
use mosquitto_rs.Channel.{Documented, opened, offer, unsent}
use mosquitto_rs.Client.Callbacks.{acknowledge}
use mosquitto_rs.Client.Futures.{
  Phase, waiting, answered, lost, acked, next_phase, IsValid, Unheld, Shows, answered_channel,
}
use mosquitto_rs.Client.State.{Platform, State, Map, remove}
use mosquitto_rs.Lowlevel.Mosq.{Mosq}
use mosquitto_rs.Lowlevel.Status.{MessageId}

module _ (p : Platform) (client : Mosq p.lib) (k : MessageId) (st : State p) where
  -- An unknown id changes nothing that futures see.
  pub acknowledge_unknown :
      st.mids k ≡ none
      → ((acknowledge p client k st).mids ≡ st.mids)
        × ((acknowledge p client k st).ack_store ≡ st.ack_store)
  unfolding acknowledge
  acknowledge_unknown e = rw (e, acknowledge) (refl, refl)

  -- A known id takes its entry out, hands the id over and drops the sender.
  pub acknowledge_known :
      (tx : p.acks.Sender)
      → st.mids k ≡ some tx
      → ((acknowledge p client k st).mids ≡ remove k st.mids)
        × ((acknowledge p client k st).ack_store
            ≡ p.acks.drop_sender tx (p.acks.try_send tx k st.ack_store).1)
  unfolding acknowledge
  acknowledge_known tx e =
      rw (e, acknowledge)
        (if_either
          (λ (s : State p).
            (s.mids ≡ remove k st.mids)
            × (s.ack_store ≡ p.acks.drop_sender tx (p.acks.try_send tx k st.ack_store).1))
          (p.acks.try_send tx k st.ack_store).0 (refl, refl) (refl, refl))

module _ (p : Platform) (d : Documented p.acks) (k : MessageId) (m : Map p.acks.Sender)
    (s : p.acks.Store) (tx : p.acks.Sender) (held : m k ≡ some tx) (v : IsValid p d m s) where
  abbrev pub handed : p.acks.Store
  handed = p.acks.drop_sender tx (p.acks.try_send tx k s).1

  handed_at :
      (j : ℕ) → d.at handed j ≡ (if d.tx_id tx == j then unsent (offer k (d.at s j)) else d.at s j)
  handed_at j =
      ground (arith, d.drop_sender_at tx (p.acks.try_send tx k s).1 j, d.try_send_at tx k s j)

  remove-some :
      (j : MessageId) (ty : p.acks.Sender) → remove k m j ≡ some ty → (m j ≡ some ty) × (k ≢ j)
  remove-some j ty e = ground (arith, ==ℤ_iff k j)

  pub handed-IsValid : IsValid p d (remove k m) handed
  handed-IsValid = record {
    live = λ j ty e. grind (arith, handed_at (d.tx_id ty), remove-some j ty e, v.live j ty);
    distinct = λ i j ty tz e f same.
        v.distinct i j ty tz (remove-some i ty e).0 (remove-some j tz f).0 same;
  }

  handed_ne : (j : ℕ) → d.tx_id tx ≢ j → d.at handed j ≡ d.at s j
  handed_ne j other = ground (arith, handed_at j)

  -- The channel of the entry that is taken out.
  handed_own :
      (j : ℕ)
      → d.tx_id tx ≡ j
      → d.at s j ≡ some (opened (some 1))
      → d.at handed j ≡ some (answered_channel k)
  handed_own j own chan = ground (arith, handed_at j)

  handed-Unheld : (rx : p.acks.Receiver) → d.tx_id tx ≡ d.rx_id rx → Unheld p d rx (remove k m)
  handed-Unheld rx own j ty e same =
      let (still, other) = remove-some j ty e in
      other (v.distinct k j tx ty held still (own ∙ sym same))

  handed-waiting :
      (mid : MessageId) (rx : p.acks.Receiver)
      → Shows p d mid rx waiting m s
      → Shows p d mid rx (if k ==ℤ mid then answered else waiting) (remove k m) handed
  handed-waiting mid rx ((tx0, at_mid, own), chan) = elim (Bool-cases (k ==ℤ mid)) [
    | inl hit ↦
        let same : k ≡ mid = (==ℤ_iff k mid).0 hit in
        let own' : d.tx_id tx ≡ d.rx_id rx = ground (arith, held, at_mid, same) in
        rw hit (
          handed-Unheld rx own',
          handed_own (d.rx_id rx) own' chan ∙ ap (λ i. some (answered_channel i)) same,
        )
    | inr miss ↦ rw miss (
      (tx0, rw miss at_mid, own),
      handed_ne (d.rx_id rx)
            (λ e. ==ℤ_ne k mid miss (v.distinct k mid tx tx0 held at_mid (e ∙ sym own)))
          ∙ chan,
    )
  ]

  pub handed-Shows :
      (mid : MessageId) (rx : p.acks.Receiver) (ph : Phase)
      → Shows p d mid rx ph m s
      → Shows p d mid rx (next_phase mid (acked k) ph) (remove k m) handed
  unfolding next_phase
  handed-Shows mid rx waiting sh = handed-waiting mid rx sh
  handed-Shows mid rx answered (unheld, chan) =
      (λ j ty e. unheld j ty (remove-some j ty e).0, handed_ne _ (unheld k tx held) ∙ chan)
  handed-Shows mid rx lost (unheld, chan) =
      (λ j ty e. unheld j ty (remove-some j ty e).0, handed_ne _ (unheld k tx held) ∙ chan)

-- An acknowledgement keeps `mids` well formed, and moves each future as its phase says.
module _ (p : Platform) (d : Documented p.acks) (client : Mosq p.lib) (k : MessageId)
    (st : State p) where
  pub acknowledge-IsValid :
      IsValid p d st.mids st.ack_store
      → IsValid p d (acknowledge p client k st).mids (acknowledge p client k st).ack_store
  acknowledge-IsValid v = elim (Option-cases (st.mids k)) [
    | inl unknown ↦
        let (same, store) = acknowledge_unknown p client k st unknown in rw (same, store) v
    | inr (tx, held) ↦
        let (same, store) = acknowledge_known p client k st tx held in
        rw (same, store) (handed-IsValid p d k st.mids st.ack_store tx held v)
  ]

  unknown-phase :
      (mid : MessageId) (rx : p.acks.Receiver) (ph : Phase)
      → st.mids k ≡ none
      → Shows p d mid rx ph st.mids st.ack_store
      → next_phase mid (acked k) ph ≡ ph
  unfolding next_phase
  unknown-phase mid rx waiting e ((tx, held, _), _) = ground (arith, ==ℤ_iff k mid)
  unknown-phase mid rx answered e sh = refl
  unknown-phase mid rx lost e sh = refl

  pub acknowledge-Shows :
      (mid : MessageId) (rx : p.acks.Receiver) (ph : Phase)
      → IsValid p d st.mids st.ack_store
      → Shows p d mid rx ph st.mids st.ack_store
      → Shows p d mid rx
          (next_phase mid (acked k) ph)
          (acknowledge p client k st).mids
          (acknowledge p client k st).ack_store
  acknowledge-Shows mid rx ph v sh = elim (Option-cases (st.mids k)) [
    | inl unknown ↦
        let (same, store) = acknowledge_unknown p client k st unknown in
        rw (same, store, unknown-phase mid rx ph unknown sh) sh
    | inr (tx, held) ↦
        let (same, store) = acknowledge_known p client k st tx held in
        rw (same, store) (handed-Shows p d k st.mids st.ack_store tx held v mid rx ph sh)
  ]
