-- ===== src/Tests/Channels.antt =====
-- Channels that behave as the documentation of `async-channel` says.
use mosquitto_rs.Base.{ℕ, ◌+◌, ltb, ◌==◌, ◌≡◌, refl, Option, none, some, arith, if◌then◌else◌}
use mosquitto_rs.Channel.{
  Channel, Status, Documented, opened, accepts, offer, polled, taken, unsent, unread,
}

-- The numbers below `next` are taken.
pub record Store (A : Type 0) : Type 0 where
  pub next : ℕ
  pub chans : ℕ → Option (Status A)

module _ {A : Type 0} where
  unfoldable pub look : Store A → ℕ → Option (Status A)
  look s j = if ltb j s.next then s.chans j else none

  unfoldable pub open_new : Option ℕ → Store A → ℕ × ℕ × Store A
  open_new n s = (
    s.next,
    s.next,
    record { next = s.next + 1; chans = λ j. if s.next == j then some (opened n) else s.chans j },
  )

  unfoldable pub update : (Option (Status A) → Option (Status A)) → ℕ → Store A → Store A
  unfolding look
  update f i s = record s { chans = λ j. if i == j then f (look s j) else s.chans j }

  abbrev pub channels : Channel A
  channels = record {
    Store = Store A;
    Sender = ℕ;
    Receiver = ℕ;
    bounded = λ n. open_new (some n);
    unbounded = open_new none;
    try_send = λ tx a s. (accepts (look s tx), update (offer a) tx s);
    recv = λ rx s. (polled (look s rx), update taken rx s);
    drop_sender = update unsent;
    drop_receiver = update unread;
  }

  pub open_at :
      (n : Option ℕ) (s : Store A) (j : ℕ)
      → look (open_new n s).2 j ≡ (if (open_new n s).0 == j then some (opened n) else look s j)
  unfolding open_new look
  open_at n s j = ground arith

  pub open_ids : (n : Option ℕ) (s : Store A) → (open_new n s).1 ≡ (open_new n s).0
  unfolding open_new
  open_ids n s = refl

  pub fresh : (n : Option ℕ) (s : Store A) → look s (open_new n s).0 ≡ none
  unfolding open_new look
  fresh n s = ground arith

  pub update_at :
      (f : Option (Status A) → Option (Status A)) (i : ℕ) (s : Store A) (j : ℕ)
      → f none ≡ none
      → look (update f i s) j ≡ (if i == j then f (look s j) else look s j)
  unfolding update look
  update_at f i s j h = ground (arith, h)

  abbrev pub documented : Documented channels
  documented = record {
    at = look;
    tx_id = λ tx. tx;
    rx_id = λ rx. rx;
    bounded_ids = λ n s. open_ids (some n) s;
    bounded_fresh = λ n s. fresh (some n) s;
    bounded_at = λ n s j. open_at (some n) s j;
    unbounded_ids = λ s. open_ids none s;
    unbounded_fresh = λ s. fresh none s;
    unbounded_at = λ s j. open_at none s j;
    try_send_taken = λ tx a s. refl;
    try_send_at = λ tx a s j. update_at (offer a) tx s j refl;
    recv_poll = λ rx s. refl;
    recv_at = λ rx s j. update_at taken rx s j refl;
    drop_sender_at = λ tx s j. update_at unsent tx s j refl;
    drop_receiver_at = λ rx s j. update_at unread rx s j refl;
  }
