-- ===== src/Client/Futures.antt =====
-- The futures of `publish`, `subscribe` and `unsubscribe` in mosquitto-rs/src/client.rs, as they are
-- specified: three phases, and what moves a future from one to the next.
use mosquitto_rs.Base.{
  ◌≡◌, ◌≢◌, true, false, Option, none, some, List, [], ◌∷◌, Result, ok, err, if◌then◌else◌,
}
use mosquitto_rs.Base.Int.{◌==ℤ◌}
use mosquitto_rs.Channel.{Status, Documented, opened}
use mosquitto_rs.Client.State.{Platform, Map}
use mosquitto_rs.Error.{Error, mosq}
use mosquitto_rs.Lowlevel.Status.{MessageId}
use mosquitto_rs.Sys.{MosqErr}

-- Waiting for the broker, answered by it, or replaced by a later request under the same id.
pub data Phase : Type 0 where
  waiting answered lost : Phase

-- What a step of the program means to the futures.
pub data Label : Type 0 where
  quiet : Label
  acked assigned : MessageId → Label

unfoldable pub next_phase : MessageId → Label → Phase → Phase
next_phase mid quiet ph = ph
next_phase mid (acked k) waiting = if k ==ℤ mid then answered else waiting
next_phase mid (acked k) answered = answered
next_phase mid (acked k) lost = lost
next_phase mid (assigned k) waiting = if k ==ℤ mid then lost else waiting
next_phase mid (assigned k) answered = answered
next_phase mid (assigned k) lost = lost

unfoldable pub phase_after : MessageId → List Label → Phase → Phase
phase_after mid [] ph = ph
phase_after mid (l ∷ ls) ph = phase_after mid ls (next_phase mid l ph)

-- What polling a future in a phase gives.
unfoldable pub outcome : MessageId → Phase → Option (Result MessageId Error)
outcome mid waiting = none
outcome mid answered = some (ok mid)
outcome mid lost = some (err (mosq MosqErr.inval))

abbrev pub answered_channel : MessageId → Status MessageId
answered_channel mid = record {
  queue = mid ∷ [];
  capacity = some 1;
  has_sender = false;
  has_receiver = true;
}

abbrev pub lost_channel : Status MessageId
lost_channel = record { queue = []; capacity = some 1; has_sender = false; has_receiver = true }

module _ (p : Platform) (d : Documented p.acks) where
  -- The entries of `mids` have channels, each its own.
  pub record IsValid (m : Map p.acks.Sender) (s : p.acks.Store) : Type 0 where
    pub live : (k : MessageId) (tx : p.acks.Sender) → m k ≡ some tx → d.at s (d.tx_id tx) ≢ none
    pub distinct :
        (j k : MessageId) (tx ty : p.acks.Sender)
        → m j ≡ some tx
        → m k ≡ some ty
        → d.tx_id tx ≡ d.tx_id ty
        → j ≡ k

  -- No entry of `mids` sends to the channel.
  abbrev pub Unheld : p.acks.Receiver → Map p.acks.Sender → Type 0
  Unheld rx m = (k : MessageId) (tx : p.acks.Sender) → m k ≡ some tx → d.tx_id tx ≢ d.rx_id rx

  -- `mids` and the channels in each phase of the future that `mid` and `rx` belong to.
  abbrev pub Shows : MessageId → p.acks.Receiver → Phase → Map p.acks.Sender → p.acks.Store → Type 0
  Shows mid rx waiting m s =
      ((tx : p.acks.Sender) × (m mid ≡ some tx) × (d.tx_id tx ≡ d.rx_id rx))
      × (d.at s (d.rx_id rx) ≡ some (opened (some 1)))
  Shows mid rx answered m s = Unheld rx m × (d.at s (d.rx_id rx) ≡ some (answered_channel mid))
  Shows mid rx lost m s = Unheld rx m × (d.at s (d.rx_id rx) ≡ some lost_channel)
