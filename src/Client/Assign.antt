-- ===== src/Client/Assign.antt =====
-- What a new request of mosquitto-rs/src/client.rs does to the futures.
use mosquitto_rs.Base.{
  ℕ, ◌==◌, ◌≡◌, refl, sym, ap, ◌∙◌, ◌≢◌, ◌⊎◌, inl, inr, Option, none, some, ok, err, arith,
  if◌then◌else◌, Option-cases, Bool-cases,
}
use mosquitto_rs.Base.Int.{◌==ℤ◌, ==ℤ_iff, ==ℤ_refl, ==ℤ_ne}
use mosquitto_rs.Channel.{Documented, Status, opened, unsent}
use mosquitto_rs.Client.Futures.{
  Phase, waiting, answered, lost, assigned, next_phase, IsValid, Unheld, Shows, lost_channel,
}
use mosquitto_rs.Client.Requests.{request}
use mosquitto_rs.Client.State.{Platform, State, Map, insert, drop_old}
use mosquitto_rs.Error.{Error}
use mosquitto_rs.Lowlevel.Io.{Io, Process}
use mosquitto_rs.Lowlevel.Status.{MessageId}

module _ (p : Platform) (d : Documented p.acks) (k : MessageId) (m : Map p.acks.Sender)
    (s : p.acks.Store) (v : IsValid p d m s) where
  abbrev tx : p.acks.Sender
  tx = (p.acks.bounded 1 s).0

  abbrev pub replaced : p.acks.Store
  replaced = drop_old p (m k) (p.acks.bounded 1 s).2

  abbrev unsent_of :
      Option p.acks.Sender → ℕ → Option (Status MessageId) → Option (Status MessageId)
  unsent_of none j c = c
  unsent_of (some ty) j c = if d.tx_id ty == j then unsent c else c

  drop_old_at :
      (o : Option p.acks.Sender) (t : p.acks.Store) (j : ℕ)
      → d.at (drop_old p o t) j ≡ unsent_of o j (d.at t j)
  unfolding drop_old
  drop_old_at none t j = refl
  drop_old_at (some ty) t j = d.drop_sender_at ty t j

  replaced_at :
      (j : ℕ)
      → d.at replaced j
        ≡ unsent_of (m k) j (if d.tx_id tx == j then some (opened (some 1)) else d.at s j)
  replaced_at j =
      drop_old_at (m k) (p.acks.bounded 1 s).2 j ∙ ap (unsent_of (m k) j) (d.bounded_at 1 s j)

  -- The new channel is none of those that entries or futures have.
  new_ne : (j : ℕ) → d.at s j ≢ none → d.tx_id tx ≢ j
  new_ne j h e = h (ap (d.at s) (sym e) ∙ d.bounded_fresh 1 s)

  held_ne : (j : MessageId) (ty : p.acks.Sender) → m j ≡ some ty → d.tx_id tx ≢ d.tx_id ty
  held_ne j ty held = new_ne (d.tx_id ty) (v.live j ty held)

  insert_some :
      (j : MessageId) (ty : p.acks.Sender)
      → insert k tx m j ≡ some ty
      → ((k ≡ j) × (tx ≡ ty)) ⊎ ((k ≢ j) × (m j ≡ some ty))
  insert_some j ty e = ground (arith, ==ℤ_iff k j)

  replaced_live : (j : ℕ) → d.at s j ≢ none ⊎ (d.tx_id tx ≡ j) → d.at replaced j ≢ none
  replaced_live j h = ground (arith, replaced_at j)

  replaced_distinct :
      (i j : MessageId) (ty tz : p.acks.Sender)
      → insert k tx m i ≡ some ty
      → insert k tx m j ≡ some tz
      → d.tx_id ty ≡ d.tx_id tz
      → i ≡ j
  replaced_distinct i j ty tz e f same = elim (insert_some i ty e) [
    | inl (at_i, new) ↦ elim (insert_some j tz f) [
      | inl (at_j, _) ↦ sym at_i ∙ at_j
      | inr (_, held) ↦ absurd (held_ne j tz held (ap d.tx_id new ∙ same))
    ]
    | inr (_, held) ↦ elim (insert_some j tz f) [
      | inl (_, new) ↦ absurd (held_ne i ty held (ap d.tx_id new ∙ sym same))
      | inr (_, held') ↦ v.distinct i j ty tz held held' same
    ]
  ]

  pub replaced-IsValid : IsValid p d (insert k tx m) replaced
  replaced-IsValid = record {
    live = λ j ty e. replaced_live (d.tx_id ty) (elim (insert_some j ty e) [
      | inl (_, same) ↦ inr (ap d.tx_id same)
      | inr (_, held) ↦ inl (v.live j ty held)
    ]);
    distinct = replaced_distinct;
  }

  some_ne : (j : ℕ) (c : Status MessageId) → d.at s j ≡ some c → d.tx_id tx ≢ j
  some_ne j c e = new_ne j (λ h. cc (e, h))

  -- A channel that no entry for `k` sends to stays as it was.
  replaced_kept :
      (j : ℕ) (c : Status MessageId)
      → ((ty : p.acks.Sender) → m k ≡ some ty → d.tx_id ty ≢ j)
      → d.at s j ≡ some c
      → d.at replaced j ≡ some c
  replaced_kept j c h e = elim (Option-cases (m k)) [
    | inl free ↦ ground (arith, replaced_at j, some_ne j c e)
    | inr (ty, held) ↦ ground (arith, replaced_at j, some_ne j c e, h ty held)
  ]

  replaced_lost :
      (j : ℕ) (ty : p.acks.Sender)
      → m k ≡ some ty
      → d.tx_id ty ≡ j
      → d.at s j ≡ some (opened (some 1))
      → d.at replaced j ≡ some lost_channel
  replaced_lost j ty held own e = ground (arith, replaced_at j, some_ne j (opened (some 1)) e)

  insert-Unheld :
      (rx : p.acks.Receiver)
      → ((j : MessageId) (ty : p.acks.Sender) → k ≢ j → m j ≡ some ty → d.tx_id ty ≢ d.rx_id rx)
      → d.tx_id tx ≢ d.rx_id rx
      → Unheld p d rx (insert k tx m)
  insert-Unheld rx others new j ty e own = elim (insert_some j ty e) [
    | inl (_, same) ↦ new (ap d.tx_id same ∙ own)
    | inr (other, held) ↦ others j ty other held own
  ]

  replaced-waiting :
      (mid : MessageId) (rx : p.acks.Receiver)
      → Shows p d mid rx waiting m s
      → Shows p d mid rx (if k ==ℤ mid then lost else waiting) (insert k tx m) replaced
  replaced-waiting mid rx ((tx0, at_mid, own), chan) = elim (Bool-cases (k ==ℤ mid)) [
    | inl hit ↦
        let same : k ≡ mid = (==ℤ_iff k mid).0 hit in
        rw hit (
          insert-Unheld rx
              (λ j ty other held e.
                other (same ∙ v.distinct mid j tx0 ty at_mid held (own ∙ sym e)))
              (some_ne _ _ chan),
          replaced_lost _ tx0 (ap m same ∙ at_mid) own chan,
        )
    | inr miss ↦ rw miss (
      (tx0, rw miss at_mid, own),
      replaced_kept _ _
          (λ ty held e. ==ℤ_ne k mid miss (v.distinct k mid ty tx0 held at_mid (e ∙ sym own))) chan,
    )
  ]

  pub replaced-Shows :
      (mid : MessageId) (rx : p.acks.Receiver) (ph : Phase)
      → Shows p d mid rx ph m s
      → Shows p d mid rx (next_phase mid (assigned k) ph) (insert k tx m) replaced
  unfolding next_phase
  replaced-Shows mid rx waiting sh = replaced-waiting mid rx sh
  replaced-Shows mid rx answered (unheld, chan) = (
    insert-Unheld rx (λ j ty _ held. unheld j ty held) (some_ne _ _ chan),
    replaced_kept _ _ (unheld k) chan,
  )
  replaced-Shows mid rx lost (unheld, chan) = (
    insert-Unheld rx (λ j ty _ held. unheld j ty held) (some_ne _ _ chan),
    replaced_kept _ _ (unheld k) chan,
  )

  replaced_own : d.at replaced (d.tx_id tx) ≡ some (opened (some 1))
  replaced_own = elim (Option-cases (m k)) [
    | inl free ↦ ground (arith, replaced_at (d.tx_id tx))
    | inr (ty, held) ↦ ground (arith, replaced_at (d.tx_id tx), held_ne k ty held)
  ]

  -- The new future waits.
  pub replaced-new : Shows p d k (p.acks.bounded 1 s).1 waiting (insert k tx m) replaced
  replaced-new =
      ((tx, rw (==ℤ_refl k) refl, sym (d.bounded_ids 1 s)), rw (d.bounded_ids 1 s) replaced_own)

-- A call that fails leaves `mids` as it was, and the channels of the entries and the futures.
abbrev pub refused : (p : Platform) → p.acks.Store → p.acks.Store
refused p s =
    p.acks.drop_sender (p.acks.bounded 1 s).0
      (p.acks.drop_receiver (p.acks.bounded 1 s).1 (p.acks.bounded 1 s).2)

module _ (p : Platform) (d : Documented p.acks) (s : p.acks.Store) where
  pub refused_at : (j : ℕ) → d.at s j ≢ none → d.at (refused p s) j ≡ d.at s j
  refused_at j h =
      let new : d.tx_id (p.acks.bounded 1 s).0 ≢ j =
        λ e. h (ap (d.at s) (sym e) ∙ d.bounded_fresh 1 s) in
      ground (
        arith,
        d.drop_sender_at (p.acks.bounded 1 s).0
            (p.acks.drop_receiver (p.acks.bounded 1 s).1 (p.acks.bounded 1 s).2) j,
        d.drop_receiver_at (p.acks.bounded 1 s).1 (p.acks.bounded 1 s).2 j,
        d.bounded_at 1 s j,
        d.bounded_ids 1 s,
      )

module _ (p : Platform) (call : Io (Process p.lib.World) MessageId) (st : State p) where
  pub request_made :
      (k : MessageId)
      → (call st.process).0 ≡ ok k
      → ((request p call st).0 ≡ ok (k, (p.acks.bounded 1 st.ack_store).1))
        × ((request p call st).1.mids ≡ insert k (p.acks.bounded 1 st.ack_store).0 st.mids)
        × ((request p call st).1.ack_store
            ≡ drop_old p (st.mids k) (p.acks.bounded 1 st.ack_store).2)
  unfolding request
  request_made k e = rw (e, request) (refl, refl, refl)

  pub request-refused :
      (e : Error)
      → (call st.process).0 ≡ err e
      → ((request p call st).0 ≡ err e)
        × ((request p call st).1.mids ≡ st.mids)
        × ((request p call st).1.ack_store ≡ refused p st.ack_store)
  unfolding request
  request-refused e h = rw (h, request) (refl, refl, refl)
