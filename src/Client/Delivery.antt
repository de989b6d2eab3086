-- ===== src/Client/Delivery.antt =====
-- From the C library to the subscriber: the trampolines of mosquitto-rs/src/lowlevel.rs with the
-- handler of mosquitto-rs/src/client.rs, and what is received from the stream.
use mosquitto_rs.Base.{
  ◌≡◌, refl, ap, ◌∙◌, Bool, true, false, not, some, none, List, [], ◌∷◌, ◌++◌, map, length,
  replicate, ℕ, zero, suc, arith, ◌+◌, if◌then◌else◌,
}
use mosquitto_rs.Base.Int.{ℤ}
use mosquitto_rs.Base.Utf8.{to_string_lossy}
use mosquitto_rs.Channel.{Documented, Poll, ready, pending, closed, polled, taken, front, behind}
use mosquitto_rs.Client.Callbacks.{callbacks, on_publish, on_subscribe, on_unsubscribe}
use mosquitto_rs.Client.Data.{Event}
use mosquitto_rs.Client.Incoming.{
  Incoming, connects, disconnects, receives, acknowledges, call_back, call_back_all, stream, ended,
}
use mosquitto_rs.Client.Requests.{subscriber}
use mosquitto_rs.Client.State.{Platform, State, Runtime, new}
use mosquitto_rs.Client.Stream.{channel, call_back_all-stream}
use mosquitto_rs.Lowlevel.Callbacks.{MosquittoMessage}
use mosquitto_rs.Lowlevel.Callbacks as trampoline
use mosquitto_rs.Lowlevel.Mosq.{Mosq}
use mosquitto_rs.Lowlevel.Status.{MessageId, qos_from_int}

-- A call of a registered function, with the arguments that C gives it.
pub data LibraryCall : Type 0 where
  connect disconnect : ℤ → LibraryCall
  publish unsubscribe : MessageId → LibraryCall
  subscribe : MessageId → List ℤ → LibraryCall
  message : MosquittoMessage → LibraryCall

-- What each call means to a subscriber. A topic that is not UTF-8 is repaired.
unfoldable pub meaning : LibraryCall → Incoming
meaning (connect rc) = connects (record { code = rc })
meaning (disconnect rc) = disconnects (record { code = rc })
meaning (publish mid) = acknowledges mid
meaning (unsubscribe mid) = acknowledges mid
meaning (subscribe mid granted_qos) = acknowledges mid
meaning (message msg) = receives (record {
  topic = to_string_lossy msg.topic;
  payload = msg.payload;
  qos = qos_from_int msg.qos;
  retain = msg.retain;
  mid = msg.mid;
})

module _ (p : Platform) (m : p.lib.Handle) where
  unfoldable pub deliver : LibraryCall → State p → State p
  deliver (connect rc) = trampoline.connect p.lib (callbacks p) m rc
  deliver (disconnect rc) = trampoline.disconnect p.lib (callbacks p) m rc
  deliver (publish mid) = trampoline.publish p.lib (callbacks p) m mid
  deliver (unsubscribe mid) = trampoline.unsubscribe p.lib (callbacks p) m mid
  deliver (subscribe mid qos) = trampoline.subscribe p.lib (callbacks p) m mid qos
  deliver (message msg) = trampoline.message p.lib (callbacks p) m msg

  unfoldable pub deliver_all : List LibraryCall → State p → State p
  deliver_all [] st = st
  deliver_all (c ∷ cs) st = deliver_all cs (deliver c st)

  abbrev transient : Mosq p.lib
  transient = record { m = m; cb = none }

  pub deliver-call_back :
      (c : LibraryCall) (st : State p) → deliver c st ≡ call_back p transient (meaning c) st
  unfolding deliver meaning call_back callbacks on_publish on_subscribe on_unsubscribe
      trampoline.connect trampoline.disconnect trampoline.publish trampoline.unsubscribe
      trampoline.subscribe trampoline.message
  deliver-call_back (connect rc) st = refl
  deliver-call_back (disconnect rc) st = refl
  deliver-call_back (publish mid) st = refl
  deliver-call_back (unsubscribe mid) st = refl
  deliver-call_back (subscribe mid qos) st = refl
  deliver-call_back (message msg) st = refl

  deliver_all-call_back_all :
      (cs : List LibraryCall) (st : State p)
      → deliver_all cs st ≡ call_back_all p transient (map meaning cs) st
  unfolding deliver_all call_back_all
  deliver_all-call_back_all [] st = refl
  deliver_all-call_back_all (c ∷ cs) st =
      deliver_all-call_back_all cs (deliver c st)
      ∙ ap (call_back_all p transient (map meaning cs)) (deliver-call_back c st)

module _ (p : Platform) (d : Documented p.events) (rx : p.events.Receiver) where
  -- Receiving `n` times in a row.
  unfoldable pub receive : ℕ → p.events.Store → List (Poll Event)
  receive zero s = []
  receive (suc n) s = let (found, s') = p.events.recv rx s in found ∷ receive n s'

  module _ (m : Mosq p.lib) (b : Bool) where
    -- One item is taken from the front.
    receive_one :
        (q : List Event) (s : p.events.Store)
        → d.at s (d.rx_id rx) ≡ some (channel p m d rx q b)
        → ((p.events.recv rx s).0 ≡ front q b)
          × (d.at (p.events.recv rx s).1 (d.rx_id rx) ≡ some (channel p m d rx (behind q) b))
    receive_one q s chan =
        (d.recv_poll rx s ∙ ap polled chan, ground (arith, d.recv_at rx s (d.rx_id rx)))

    receive_empty :
        (n : ℕ) (s : p.events.Store)
        → d.at s (d.rx_id rx) ≡ some (channel p m d rx [] b)
        → receive n s ≡ replicate n (front [] b)
    unfolding receive
    receive_empty zero s chan = refl
    receive_empty (suc n) s chan =
        let (found, rest) = receive_one [] s chan in
        rw (found, receive_empty n (p.events.recv rx s).1 rest) refl

    receive_queue :
        (q : List Event) (n k : ℕ) (s : p.events.Store)
        → k ≡ length q + n
        → d.at s (d.rx_id rx) ≡ some (channel p m d rx q b)
        → receive k s ≡ map ready q ++ replicate n (front [] b)
    unfolding receive
    receive_queue [] n k s count chan =
        let same : k ≡ n = omega arith in rw same (receive_empty n s chan)
    receive_queue (e ∷ q) n zero s count chan = absurd (omega arith)
    receive_queue (e ∷ q) n (suc k) s count chan =
        let (found, rest) = receive_one (e ∷ q) s chan in
        rw (found, receive_queue q n k (p.events.recv rx s).1 (omega arith) rest) refl

-- Whatever functions the C library calls on a new client, receiving from the channel that
-- `subscriber` gives out yields the events that the calls mean, one for each in their order, up to
-- and including the first disconnection with reason 0; and from then on, however often it is done,
-- it finds the channel closed if there was such a disconnection, and empty and open if there was not.
pub deliver_all-receive :
    (p : Platform) (m : p.lib.Handle) (d : Documented p.events) (r : Runtime p)
    (rx : p.events.Receiver) (cs : List LibraryCall) (n : ℕ)
    → (subscriber p (new p r)).0 ≡ some rx
    → receive p d rx
        (length (stream (map meaning cs)) + n)
        (deliver_all p m cs (new p r)).event_store
      ≡ map ready (stream (map meaning cs))
        ++ replicate n (if ended (map meaning cs) then closed else pending)
deliver_all-receive p m d r rx cs n taken =
    receive_queue p d rx (transient p m) (not (ended (map meaning cs))) (stream (map meaning cs)) n
      _ (deliver_all p m cs (new p r)).event_store refl
      (rw (deliver_all-call_back_all p m cs (new p r))
        (call_back_all-stream p (transient p m) d r rx (map meaning cs) taken))
    ∙ ap (λ x. map ready (stream (map meaning cs)) ++ replicate n x)
        (front_not (ended (map meaning cs)))
  where
    front_not : (b : Bool) → front {A = Event} [] (not b) ≡ (if b then closed else pending)
    front_not true = refl
    front_not false = refl
