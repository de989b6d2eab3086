-- ===== src/Client/Runs.antt =====
-- The runs of a client: every step that its code can take, and what each means to the futures of
-- `publish`, `subscribe` and `unsubscribe` in mosquitto-rs/src/client.rs.
use mosquitto_rs.Base.{◌≡◌, ◌≢◌, Bool, Option, List, [], ◌∷◌, Str, Bytes, ok, err}
use mosquitto_rs.Base.Int.{ℤ}
use mosquitto_rs.Channel.{Documented}
use mosquitto_rs.Client.Callbacks.{acknowledge, on_connect, on_disconnect, on_message}
use mosquitto_rs.Client.Futures.{Label, quiet, acked, assigned}
use mosquitto_rs.Client.Requests.{
  request, ack_poll, cancel_ack, connect, connect_poll, cancel_connect, subscriber,
}
use mosquitto_rs.Client.State.{Platform, State, on_process}
use mosquitto_rs.Error.{Error}
use mosquitto_rs.Lowlevel.Io.{Io, Process}
use mosquitto_rs.Lowlevel.Mosq.{Mosq}
use mosquitto_rs.Lowlevel.Status.{MessageId, ConnectionStatus, ReasonCode, QoS}
use mosquitto_rs.Lowlevel.Strings.{Duration}

-- The receivers of the other futures than that of `rx`.
abbrev pub NotOf : (p : Platform) → Documented p.acks → p.acks.Receiver → p.acks.Receiver → Type 0
NotOf p d rx other = d.rx_id other ≢ d.rx_id rx

module _ (p : Platform) (Polled : p.acks.Receiver → Type 0) where
  -- A step, with what it means to the futures. Those that it may poll or drop are `Polled`.
  pub data Step (st st' : State p) (l : Label) : Type 0 where
    requests :
        (call : Io (Process p.lib.World) MessageId) (k : MessageId)
        → (call st.process).0 ≡ ok k
        → st' ≡ (request p call st).1
        → l ≡ assigned k
        → Step st st' l
    fails :
        (call : Io (Process p.lib.World) MessageId) (e : Error)
        → (call st.process).0 ≡ err e
        → st' ≡ (request p call st).1
        → l ≡ quiet
        → Step st st' l
    acknowledges :
        (client : Mosq p.lib) (k : MessageId)
        → st' ≡ acknowledge p client k st
        → l ≡ acked k
        → Step st st' l
    polls :
        (other : p.acks.Receiver)
        → Polled other
        → st' ≡ (ack_poll p other st).1
        → l ≡ quiet
        → Step st st' l
    cancels :
        (other : p.acks.Receiver)
        → Polled other
        → st' ≡ cancel_ack p other st
        → l ≡ quiet
        → Step st st' l
    connects :
        (client : Mosq p.lib) (rc : ConnectionStatus)
        → st' ≡ on_connect p client rc st
        → l ≡ quiet
        → Step st st' l
    disconnects :
        (client : Mosq p.lib) (reason : ReasonCode)
        → st' ≡ on_disconnect p client reason st
        → l ≡ quiet
        → Step st st' l
    receives :
        (client : Mosq p.lib) (mid : MessageId) (topic : Str) (payload : Bytes) (qos : QoS)
        (retain : Bool)
        → st' ≡ on_message p client mid topic payload qos retain st
        → l ≡ quiet
        → Step st st' l
    calls_connect :
        (client : Mosq p.lib) (host : Str) (port : ℤ) (keep_alive : Duration) (bind : Option Str)
        → st' ≡ (connect p client host port keep_alive bind st).1
        → l ≡ quiet
        → Step st st' l
    polls_connect :
        (other : p.conns.Receiver) → st' ≡ (connect_poll p other st).1 → l ≡ quiet → Step st st' l
    cancels_connect :
        (other : p.conns.Receiver) → st' ≡ cancel_connect p other st → l ≡ quiet → Step st st' l
    takes_subscriber : st' ≡ (subscriber p st).1 → l ≡ quiet → Step st st' l
    configures :
        (call : Io (Process p.lib.World) (Unit {0}))
        → st' ≡ (on_process p call st).1
        → l ≡ quiet
        → Step st st' l

  -- A run with its labels, the first step's first.
  abbrev pub Run : State p → List Label → State p → Type 0
  Run st [] st' = st' ≡ st
  Run st (l ∷ ls) st' = (u : State p) × Step st u l × Run u ls st'
