-- ===== src/Examples/Async/Rounds.antt =====
-- The program of mosquitto-rs/examples/publish_async.rs beside the C library's thread: between two
-- polls of its future the library calls back, and changes its own state.
use mosquitto_rs.Base.{
  ◌+◌, ℕ, ◌≡◌, refl, ◌||◌, Bool, true, false, Option, none, some, List, [], ◌∷◌, ok, if◌then◌else◌,
}
use mosquitto_rs.Base.Int.{ℤ, ◌==ℤ◌}
use mosquitto_rs.Channel.{Documented}
use mosquitto_rs.Client.Connecting.{Signal, unrelated, reported, signal, Spares}
use mosquitto_rs.Client.Data.{Event}
use mosquitto_rs.Client.Futures.{Label, quiet, acked}
use mosquitto_rs.Client.Incoming.{
  Incoming, connects, disconnects, receives, acknowledges, call_back,
}
use mosquitto_rs.Client.Runs.{Step}
use mosquitto_rs.Client.Runs as steps
use mosquitto_rs.Client.State.{Platform, State, on_process}
use mosquitto_rs.Examples.Async.{
  connecting, subscribing, publishing, receiving, Session, waits, ended, panicked, resume,
}
use mosquitto_rs.Lowlevel.Io.{Io, Process}
use mosquitto_rs.Lowlevel.Mosq.{Mosq}

module _ (p : Platform) where
  -- What the library's thread does at a time.
  pub data Turn : Type 0 where
    called : Incoming → Turn
    moved : p.lib.World → Turn

  abbrev pub settle : p.lib.World → Io (Process p.lib.World) (Unit {0})
  settle w s = (ok tt, record s { world = w })

  -- Callbacks are given a client of the handle that the library called with.
  abbrev pub transient : Mosq p.lib → Mosq p.lib
  transient client = record { m = client.m; cb = none }

  unfoldable pub turn : Mosq p.lib → Turn → State p → State p
  unfolding call_back on_process
  turn client (called i) st = call_back p (transient client) i st
  turn client (moved w) st = (on_process p (settle w) st).1

  unfoldable pub turns : Mosq p.lib → List Turn → State p → State p
  turns client [] st = st
  turns client (t ∷ ts) st = turns client ts (turn client t st)

  -- Once the future has ended nothing of the program is left to call.
  unfoldable pub meanwhile : List Turn → Session p → Session p
  unfolding turns
  meanwhile ts (waits client await_ st) = waits client await_ (turns client ts st)
  meanwhile ts (ended r printed runtime) = ended r printed runtime
  meanwhile ts panicked = panicked

  -- Some turns, and a poll.
  unfoldable pub round : List Turn → Session p → Session p
  unfolding meanwhile resume
  round ts s = resume p (meanwhile ts s)

  unfoldable pub rounds : List (List Turn) → Session p → Session p
  unfolding round
  rounds [] s = s
  rounds (ts ∷ rest) s = rounds rest (round ts s)

  -- Does the library do what the future waits for? An event is there since the connection was
  -- reported.
  abbrev pub is_report : Turn → Bool
  is_report (called (connects rc)) = true
  is_report (called (disconnects reason)) = false
  is_report (called (receives m)) = false
  is_report (called (acknowledges k)) = false
  is_report (moved w) = false

  abbrev pub is_ack : ℤ → Turn → Bool
  is_ack mid (called (connects rc)) = false
  is_ack mid (called (disconnects reason)) = false
  is_ack mid (called (receives m)) = false
  is_ack mid (called (acknowledges k)) = k ==ℤ mid
  is_ack mid (moved w) = false

  abbrev pub any : (Turn → Bool) → List Turn → Bool
  any f [] = false
  any f (t ∷ ts) = f t || any f ts

  unfoldable pub is_answer : List Turn → Session p → Bool
  is_answer ts (waits client (connecting rx) st) = any is_report ts
  is_answer ts (waits client (subscribing subscriptions mid rx) st) = any (is_ack mid) ts
  is_answer ts (waits client (publishing subscriptions mid rx) st) = any (is_ack mid) ts
  is_answer ts (waits client (receiving subscriptions) st) = true
  is_answer ts (ended r printed runtime) = false
  is_answer ts panicked = false

  -- How many of the rounds bring what the future waits for when they begin.
  unfoldable pub answers : List (List Turn) → Session p → ℕ
  unfolding is_answer round
  answers [] s = 0
  answers (ts ∷ rest) s = (if is_answer ts s then 1 else 0) + answers rest (round ts s)

  -- The first event that the library reports in some turns, if none came before them.
  unfoldable pub noted : Option Event → Turn → Option Event
  noted (some e) t = some e
  noted none (called (connects rc)) = some (Event.connected rc)
  noted none (called (disconnects reason)) = some (Event.disconnected reason)
  noted none (called (receives m)) = some (Event.message m)
  noted none (called (acknowledges k)) = none
  noted none (moved w) = none

  unfoldable pub noted_all : Option Event → List Turn → Option Event
  unfolding noted
  noted_all o [] = o
  noted_all o (t ∷ ts) = noted_all (noted o t) ts

  unfoldable pub first_event : Option Event → List (List Turn) → Option Event
  unfolding noted_all
  first_event o [] = o
  first_event o (ts ∷ rest) = first_event (noted_all o ts) rest

  -- A turn is a step of the client.
  unfoldable pub label : Turn → Label
  label (called (connects rc)) = quiet
  label (called (disconnects reason)) = quiet
  label (called (receives m)) = quiet
  label (called (acknowledges k)) = acked k
  label (moved w) = quiet

  unfoldable pub signal_of : Turn → Signal
  signal_of (called (connects rc)) = reported rc
  signal_of (called (disconnects reason)) = unrelated
  signal_of (called (receives m)) = unrelated
  signal_of (called (acknowledges k)) = unrelated
  signal_of (moved w) = unrelated

  module _ (Polled : p.acks.Receiver → Type 0) (client : Mosq p.lib) where
    unfoldable pub turn-Step :
        (t : Turn) (st : State p) → Step p Polled st (turn client t st) (label t)
    unfolding turn label call_back
    turn-Step (called (connects rc)) st = steps.connects (transient client) rc refl refl
    turn-Step (called (disconnects reason)) st =
        steps.disconnects (transient client) reason refl refl
    turn-Step (called (receives m)) st =
        steps.receives (transient client) m.mid m.topic m.payload m.qos m.retain refl refl
    turn-Step (called (acknowledges k)) st = steps.acknowledges (transient client) k refl refl
    turn-Step (moved w) st = steps.configures (settle w) refl refl

    pub turn-signal : (t : Turn) (st : State p) → signal p Polled (turn-Step t st) ≡ signal_of t
    unfolding turn-Step signal signal_of
    turn-signal (called (connects rc)) st = refl
    turn-signal (called (disconnects reason)) st = refl
    turn-signal (called (receives m)) st = refl
    turn-signal (called (acknowledges k)) st = refl
    turn-signal (moved w) st = refl

    pub turn-Spares :
        (d : Documented p.conns) (rx : p.conns.Receiver) (t : Turn) (st : State p)
        → Spares p Polled d rx (turn-Step t st)
    unfolding turn-Step Spares
    turn-Spares d rx (called (connects rc)) st = tt
    turn-Spares d rx (called (disconnects reason)) st = tt
    turn-Spares d rx (called (receives m)) st = tt
    turn-Spares d rx (called (acknowledges k)) st = tt
    turn-Spares d rx (moved w) st = tt
