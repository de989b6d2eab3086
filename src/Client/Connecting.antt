-- ===== src/Client/Connecting.antt =====
-- The future of `connect` in mosquitto-rs/src/client.rs, as it is specified: three phases, and what
-- moves it from one to the next.
use mosquitto_rs.Base.{
  ◌≡◌, ◌≢◌, true, false, Option, none, some, List, [], ◌∷◌, Result, ok, err, if◌then◌else◌,
}
use mosquitto_rs.Base.Int.{pos, ◌==ℤ◌}
use mosquitto_rs.Channel.{Status, Documented, opened}
use mosquitto_rs.Client.Futures.{Label}
use mosquitto_rs.Client.Runs.{
  Step, requests, fails, acknowledges, polls, cancels, connects, disconnects, receives,
  calls_connect, polls_connect, cancels_connect, takes_subscriber, configures, Run,
}
use mosquitto_rs.Client.State.{Platform, State}
use mosquitto_rs.Error.{Error, mosq, rejected_connection}
use mosquitto_rs.Lowlevel.Status.{ConnectionStatus}
use mosquitto_rs.Sys.{MosqErr}

-- Waiting for the broker, told a status by it, or replaced by a later call.
pub data Progress : Type 0 where
  unanswered replaced : Progress
  told : ConnectionStatus → Progress

-- What a step means to a call of `connect`.
pub data Signal : Type 0 where
  unrelated called_again : Signal
  reported : ConnectionStatus → Signal

unfoldable pub progress : Signal → Progress → Progress
progress unrelated ph = ph
progress called_again unanswered = replaced
progress called_again replaced = replaced
progress called_again (told rc) = told rc
progress (reported rc) unanswered = told rc
progress (reported rc) replaced = replaced
progress (reported rc) (told first) = told first

unfoldable pub progress_after : List Signal → Progress → Progress
progress_after [] ph = ph
progress_after (l ∷ ls) ph = progress_after ls (progress l ph)

-- What polling the future gives.
unfoldable pub connected_outcome : Progress → Option (Result ConnectionStatus Error)
connected_outcome unanswered = none
connected_outcome replaced = some (err (mosq MosqErr.inval))
connected_outcome (told rc) =
    some (if rc.code ==ℤ pos 0 then ok rc else err (rejected_connection rc))

module _ (p : Platform) (Polled : p.acks.Receiver → Type 0) where
  unfoldable pub signal : {st st' : State p} {l : Label} → Step p Polled st st' l → Signal
  signal (connects client rc after label) = reported rc
  signal (calls_connect client host port keep_alive bind after label) = called_again
  signal (requests call k made after label) = unrelated
  signal (fails call e failed after label) = unrelated
  signal (acknowledges client k after label) = unrelated
  signal (polls other apart after label) = unrelated
  signal (cancels other apart after label) = unrelated
  signal (disconnects client reason after label) = unrelated
  signal (receives client k topic payload qos retain after label) = unrelated
  signal (polls_connect other after label) = unrelated
  signal (cancels_connect other after label) = unrelated
  signal (takes_subscriber after label) = unrelated
  signal (configures call after label) = unrelated

  unfoldable pub signals :
      (ls : List Label) (st st' : State p) → Run p Polled st ls st' → List Signal
  signals [] st st' run = []
  signals (l ∷ ls) st st' (u, step, rest) = signal step ∷ signals ls u st' rest

module _ (p : Platform) (Polled : p.acks.Receiver → Type 0) (d : Documented p.conns)
    (rx : p.conns.Receiver) where
  -- The step neither polls nor drops the future of `rx`.
  unfoldable pub Spares : {st st' : State p} {l : Label} → Step p Polled st st' l → Type 0
  Spares (polls_connect other after label) = d.rx_id other ≢ d.rx_id rx
  Spares (cancels_connect other after label) = d.rx_id other ≢ d.rx_id rx
  Spares (connects client rc after label) = Unit
  Spares (calls_connect client host port keep_alive bind after label) = Unit
  Spares (requests call k made after label) = Unit
  Spares (fails call e failed after label) = Unit
  Spares (acknowledges client k after label) = Unit
  Spares (polls other apart after label) = Unit
  Spares (cancels other apart after label) = Unit
  Spares (disconnects client reason after label) = Unit
  Spares (receives client k topic payload qos retain after label) = Unit
  Spares (takes_subscriber after label) = Unit
  Spares (configures call after label) = Unit

  unfoldable pub SparesAll : (ls : List Label) (st st' : State p) → Run p Polled st ls st' → Type 0
  SparesAll [] st st' run = Unit
  SparesAll (l ∷ ls) st st' (u, step, rest) = Spares step × SparesAll ls u st' rest

module _ (p : Platform) (d : Documented p.conns) (rx : p.conns.Receiver) where
  abbrev pub told_channel : ConnectionStatus → Status ConnectionStatus
  told_channel rc = record {
    queue = rc ∷ [];
    capacity = some 1;
    has_sender = false;
    has_receiver = true;
  }

  abbrev pub replaced_channel : Status ConnectionStatus
  replaced_channel = record {
    queue = [];
    capacity = some 1;
    has_sender = false;
    has_receiver = true;
  }

  abbrev pub NotHeld : Option p.conns.Sender → Type 0
  NotHeld slot = (tx : p.conns.Sender) → slot ≡ some tx → d.tx_id tx ≢ d.rx_id rx

  -- The handler's slot and the channels while the future is in a phase.
  abbrev pub Stands : Progress → Option p.conns.Sender → p.conns.Store → Type 0
  Stands unanswered slot s =
      ((tx : p.conns.Sender) × (slot ≡ some tx) × (d.tx_id tx ≡ d.rx_id rx))
      × (d.at s (d.rx_id rx) ≡ some (opened (some 1)))
  Stands replaced slot s = NotHeld slot × (d.at s (d.rx_id rx) ≡ some replaced_channel)
  Stands (told rc) slot s = NotHeld slot × (d.at s (d.rx_id rx) ≡ some (told_channel rc))
