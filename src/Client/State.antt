-- ===== src/Client/State.antt =====
-- mosquitto-rs/src/client.rs: `Handler`, whose fields the client and the callbacks share under
-- locks, and all that the client's code acts on.
use mosquitto_rs.Base.{Option, none, some, if◌then◌else◌}
use mosquitto_rs.Base.Int.{◌==ℤ◌}
use mosquitto_rs.Channel.{Channel}
use mosquitto_rs.Client.Data.{Event}
use mosquitto_rs.Lowlevel.Io.{Process, Io}
use mosquitto_rs.Lowlevel.Status.{MessageId, ConnectionStatus}
use mosquitto_rs.Sys.Library.{Library}

-- The address of a client's one handler; what the handler holds is part of `State`.
pub data HandlerRef : Type 0 where
  handler_ref : HandlerRef

-- The code that the client stands on: the C library and the channels for each type of item.
pub record Platform : Type 1 where
  pub lib : Library HandlerRef
  pub conns : Channel ConnectionStatus
  pub acks : Channel MessageId
  pub events : Channel Event

-- `HashMap<MessageId, V>`.
abbrev pub Map : Type 0 → Type 0
Map V = MessageId → Option V

abbrev pub insert : {V : Type 0} → MessageId → V → Map V → Map V
insert k v m j = if k ==ℤ j then some v else m j

abbrev pub remove : {V : Type 0} → MessageId → Map V → Map V
remove k m j = if k ==ℤ j then none else m j

module _ (p : Platform) where
  pub record Handler : Type 0 where
    pub connect : Option p.conns.Sender
    pub mids : Map p.acks.Sender
    pub subscriber_tx : Option p.events.Sender
    pub subscriber_rx : Option p.events.Receiver

  pub record Runtime : Type 0 where
    pub process : Process p.lib.World
    pub conn_store : p.conns.Store
    pub ack_store : p.acks.Store
    pub event_store : p.events.Store

  pub record State : Type 0 where
    pub handler : Handler
    pub open handler use *
    pub runtime : Runtime
    pub open runtime use *

  -- `Handler::new`, with the channel that it makes.
  unfoldable pub new : Runtime → State
  new r =
      let (tx, rx, store) = p.events.unbounded r.event_store in
      record {
        handler = record {
          connect = none;
          mids = λ _. none;
          subscriber_tx = some tx;
          subscriber_rx = some rx;
        };
        runtime = record r { event_store = store };
      }

  -- A method of `Mosq` on a client's state.
  unfoldable pub on_process : {A : Type 0} → Io (Process p.lib.World) A → Io State A
  on_process call st =
      let (r, process) = call st.process in
      (r, record st { runtime = record st.runtime { process = process } })

  -- `let _ = …`: the call is made and its result dropped.
  unfoldable pub ignoring : {A : Type 0} → Io (Process p.lib.World) A → State → State
  ignoring call st = record st { runtime = record st.runtime { process = (call st.process).1 } }

  -- Dropping an optional sender.
  unfoldable pub drop_old : Option p.acks.Sender → p.acks.Store → p.acks.Store
  drop_old none s = s
  drop_old (some tx) s = p.acks.drop_sender tx s

  unfoldable pub drop_conn : Option p.conns.Sender → p.conns.Store → p.conns.Store
  drop_conn none s = s
  drop_conn (some tx) s = p.conns.drop_sender tx s

  unfoldable pub drop_event_tx : Option p.events.Sender → p.events.Store → p.events.Store
  drop_event_tx none s = s
  drop_event_tx (some tx) s = p.events.drop_sender tx s
