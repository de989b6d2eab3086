-- ===== src/Channel.antt =====
-- The crate `async-channel`, as a parameter: its operations, and its documented behaviour.
use mosquitto_rs.Base.{
  ℕ, ◌≡◌, refl, ◌⊎◌, inl, inr, Bool, true, false, ◌&&◌, Option, none, some, List, [], ◌∷◌, ◌++◌,
  length, ltb, ◌==◌, if◌then◌else◌,
}

-- What `recv` finds: an item, an empty open channel, or an empty closed one.
pub data Poll {ℓ} (A : Type ℓ) : Type ℓ where
  ready : A → Poll A
  pending : Poll A
  closed : Poll A

pub Poll-cases {ℓ} :
    {A : Type ℓ} (r : Poll A) → ((a : A) × (r ≡ ready a)) ⊎ ((r ≡ pending) ⊎ (r ≡ closed))
Poll-cases (ready a) = inl (a, refl)
Poll-cases pending = inr (inl refl)
Poll-cases closed = inr (inr refl)

pub record Channel (A : Type 0) : Type 1 where
  pub Store : Type 0
  pub Sender : Type 0
  pub Receiver : Type 0
  pub bounded : ℕ → Store → Sender × Receiver × Store
  pub unbounded : Store → Sender × Receiver × Store
  -- Whether the item was taken.
  pub try_send : Sender → A → Store → Bool × Store
  pub recv : Receiver → Store → Poll A × Store
  pub drop_sender : Sender → Store → Store
  pub drop_receiver : Receiver → Store → Store

-- A channel as its documentation describes it.
pub record Status (A : Type 0) : Type 0 where
  pub queue : List A
  pub capacity : Option ℕ
  pub has_sender : Bool
  pub has_receiver : Bool

module _ {A : Type 0} where
  abbrev pub opened : Option ℕ → Status A
  opened n = record { queue = []; capacity = n; has_sender = true; has_receiver = true }

  abbrev pub has_room : List A → Option ℕ → Bool
  has_room q none = true
  has_room q (some n) = ltb (length q) n

  -- A send succeeds if a receiver is left and there is room.
  abbrev pub accepts : Option (Status A) → Bool
  accepts none = false
  accepts (some c) = c.has_receiver && has_room c.queue c.capacity

  abbrev pub offer : A → Option (Status A) → Option (Status A)
  offer a none = none
  offer a (some c) =
      if accepts (some c) then some (record c { queue = c.queue ++ a ∷ [] }) else some c

  -- The oldest item; a channel whose sender is gone gives out what is left in it.
  abbrev pub front : List A → Bool → Poll A
  front (a ∷ q) open_ = ready a
  front [] true = pending
  front [] false = closed

  abbrev pub behind : List A → List A
  behind [] = []
  behind (a ∷ q) = q

  abbrev pub polled : Option (Status A) → Poll A
  polled none = closed
  polled (some c) = front c.queue c.has_sender

  abbrev pub taken : Option (Status A) → Option (Status A)
  taken none = none
  taken (some c) = some (record c { queue = behind c.queue })

  abbrev pub unsent : Option (Status A) → Option (Status A)
  unsent none = none
  unsent (some c) = some (record c { has_sender = false })

  abbrev pub unread : Option (Status A) → Option (Status A)
  unread none = none
  unread (some c) = some (record c { has_receiver = false })

-- The documented behaviour, over the channels that a store holds, each under a number. A new channel
-- has a new number; any other operation acts on its own channel only.
pub record Documented {A : Type 0} (c : Channel A) : Type 0 where
  pub at : c.Store → ℕ → Option (Status A)
  pub tx_id : c.Sender → ℕ
  pub rx_id : c.Receiver → ℕ
  pub bounded_ids : (n : ℕ) (s : c.Store) → rx_id (c.bounded n s).1 ≡ tx_id (c.bounded n s).0
  pub bounded_fresh : (n : ℕ) (s : c.Store) → at s (tx_id (c.bounded n s).0) ≡ none
  pub bounded_at :
      (n : ℕ) (s : c.Store) (j : ℕ)
      → at (c.bounded n s).2 j
        ≡ (if tx_id (c.bounded n s).0 == j then some (opened (some n)) else at s j)
  pub unbounded_ids : (s : c.Store) → rx_id (c.unbounded s).1 ≡ tx_id (c.unbounded s).0
  pub unbounded_fresh : (s : c.Store) → at s (tx_id (c.unbounded s).0) ≡ none
  pub unbounded_at :
      (s : c.Store) (j : ℕ)
      → at (c.unbounded s).2 j
        ≡ (if tx_id (c.unbounded s).0 == j then some (opened none) else at s j)
  pub try_send_taken :
      (tx : c.Sender) (a : A) (s : c.Store) → (c.try_send tx a s).0 ≡ accepts (at s (tx_id tx))
  pub try_send_at :
      (tx : c.Sender) (a : A) (s : c.Store) (j : ℕ)
      → at (c.try_send tx a s).1 j ≡ (if tx_id tx == j then offer a (at s j) else at s j)
  pub recv_poll : (rx : c.Receiver) (s : c.Store) → (c.recv rx s).0 ≡ polled (at s (rx_id rx))
  pub recv_at :
      (rx : c.Receiver) (s : c.Store) (j : ℕ)
      → at (c.recv rx s).1 j ≡ (if rx_id rx == j then taken (at s j) else at s j)
  pub drop_sender_at :
      (tx : c.Sender) (s : c.Store) (j : ℕ)
      → at (c.drop_sender tx s) j ≡ (if tx_id tx == j then unsent (at s j) else at s j)
  pub drop_receiver_at :
      (rx : c.Receiver) (s : c.Store) (j : ℕ)
      → at (c.drop_receiver rx s) j ≡ (if rx_id rx == j then unread (at s j) else at s j)
