-- ===== src/Client/Registered.antt =====
-- From the constructors of `Client` in mosquitto-rs/src/client.rs to its stream of events: the
-- functions that mosquitto-rs/src/lowlevel.rs registers are those that the C library calls.
use mosquitto_rs.Base.{
  ℕ, ◌+◌, ◌≡◌, refl, ap, ◌∙◌, inl, inr, Bool, Option, none, some, List, [], ◌∷◌, ◌++◌, map, length,
  replicate, Str, Result, ok, err, if◌then◌else◌, if_either, Option-cases, Result-cases,
}
use mosquitto_rs.Channel.{Documented, ready, pending, closed}
use mosquitto_rs.Client.Callbacks.{
  acknowledge, on_connect, on_disconnect, on_message, dispatch_event, tell_connect, disconnecting,
}
use mosquitto_rs.Client.Data.{Event}
use mosquitto_rs.Client.Delivery.{
  LibraryCall, connect, disconnect, publish, subscribe, unsubscribe, message, meaning, deliver,
  deliver_all, deliver-call_back, receive, deliver_all-receive,
}
use mosquitto_rs.Client.Incoming.{
  Incoming, connects, disconnects, receives, acknowledges, call_back, stream, ended,
}
use mosquitto_rs.Client.Requests.{subscriber}
use mosquitto_rs.Client.Setup.{with_id, start}
use mosquitto_rs.Client.State.{Platform, State, Runtime, Handler, handler_ref, new, remove}
use mosquitto_rs.Error.{Error}
use mosquitto_rs.Lowlevel.Io.{Process}
use mosquitto_rs.Lowlevel.Mosq.{Mosq, init_library, from_new, set_callbacks}
use mosquitto_rs.Lowlevel.Mosq as mosq
use mosquitto_rs.Lowlevel.Network as network
use mosquitto_rs.Lowlevel.Registration.{Registry, Complete, with_id-Complete}
use mosquitto_rs.Lowlevel.Status.{MessageId, ConnectionStatus, is_unexpected_disconnect}
use mosquitto_rs.Sys.Library.{Trampoline}

-- The kind of a call.
abbrev pub trampoline_of : LibraryCall → Trampoline
trampoline_of (connect rc) = Trampoline.connect
trampoline_of (disconnect rc) = Trampoline.disconnect
trampoline_of (publish mid) = Trampoline.publish
trampoline_of (subscribe mid qos) = Trampoline.subscribe
trampoline_of (unsubscribe mid) = Trampoline.unsubscribe
trampoline_of (message msg) = Trampoline.message

-- What the arguments of a call mean to a function: the functions for connections and disconnections
-- have one C type, as do those for publications and unsubscriptions, and the others fit no other kind.
abbrev pub passed : Trampoline → LibraryCall → Option LibraryCall
passed Trampoline.connect (connect rc) = some (connect rc)
passed Trampoline.connect (disconnect rc) = some (connect rc)
passed Trampoline.disconnect (connect rc) = some (disconnect rc)
passed Trampoline.disconnect (disconnect rc) = some (disconnect rc)
passed Trampoline.publish (publish mid) = some (publish mid)
passed Trampoline.publish (unsubscribe mid) = some (publish mid)
passed Trampoline.unsubscribe (publish mid) = some (unsubscribe mid)
passed Trampoline.unsubscribe (unsubscribe mid) = some (unsubscribe mid)
passed Trampoline.subscribe (subscribe mid qos) = some (subscribe mid qos)
passed Trampoline.message (message msg) = some (message msg)
passed _ _ = none

passed-trampoline_of : (c : LibraryCall) → passed (trampoline_of c) c ≡ some c
passed-trampoline_of (connect rc) = refl
passed-trampoline_of (disconnect rc) = refl
passed-trampoline_of (publish mid) = refl
passed-trampoline_of (subscribe mid qos) = refl
passed-trampoline_of (unsubscribe mid) = refl
passed-trampoline_of (message msg) = refl

module _ (p : Platform) (m : p.lib.Handle) where
  abbrev delivered : Option LibraryCall → State p → State p
  delivered none st = st
  delivered (some c) st = deliver p m c st

  unfoldable pub called : Option Trampoline → LibraryCall → State p → State p
  unfolding deliver
  called none c st = st
  called (some t) c st = delivered (passed t c) st

module _ (p : Platform) (registry : Registry p.lib) (m : p.lib.Handle) where
  open registry use {registered}

  -- The library calls the function that it was given for the kind of the call, if any, and else
  -- reports nothing.
  unfoldable pub fire : LibraryCall → State p → State p
  unfolding called
  fire c st = called p m (registered st.process.world m (trampoline_of c)) c st

  unfoldable pub fire_all : List LibraryCall → State p → State p
  unfolding fire
  fire_all [] st = st
  fire_all (c ∷ cs) st = fire_all cs (fire c st)

  abbrev Ready : State p → Type 0
  Ready st = Complete p.lib registry m st.process.world

  abbrev client : Mosq p.lib
  client = record { m = m; cb = none }

  disconnecting-Ready : (st : State p) → Ready st → Ready (disconnecting p client st)
  unfolding disconnecting network.disconnect
  disconnecting-Ready st h t = registry.disconnect_keeps m t st.process.world ∙ h t

  dispatch_event-Ready :
      (e : Event) (st : State p) → Ready st → Ready (dispatch_event p client e st)
  unfolding dispatch_event
  dispatch_event-Ready e st h = elim (Option-cases st.subscriber_tx) [
    | inl gone ↦ rw (gone, dispatch_event) (disconnecting-Ready st h)
    | inr (tx, held) ↦
        let store : p.events.Store = (p.events.try_send tx e st.event_store).1 in
        let st' : State p = record st { runtime = record st.runtime { event_store = store } } in
        rw (held, dispatch_event)
          (if_either Ready (p.events.try_send tx e st.event_store).0 {x = st'}
            {y = disconnecting p client st'} h (disconnecting-Ready st' h))
  ]

  tell_connect-Ready :
      (rc : ConnectionStatus) (st : State p) → Ready st → Ready (tell_connect p client rc st)
  unfolding tell_connect
  tell_connect-Ready rc st h = elim (Option-cases st.connect) [
    | inl gone ↦ rw (gone, tell_connect) h
    | inr (tx, held) ↦
        let sent = p.conns.try_send tx rc st.conn_store in
        let st' : State p = record st {
          handler = record st.handler { connect = none };
          runtime = record st.runtime { conn_store = p.conns.drop_sender tx sent.1 };
        } in
        rw (held, tell_connect)
          (if_either Ready sent.0 {x = st'} {y = disconnecting p client st'} h
            (disconnecting-Ready st' h))
  ]

  acknowledge-Ready : (k : MessageId) (st : State p) → Ready st → Ready (acknowledge p client k st)
  unfolding acknowledge
  acknowledge-Ready k st h = elim (Option-cases (st.mids k)) [
    | inl gone ↦ rw (gone, acknowledge) (disconnecting-Ready st h)
    | inr (tx, held) ↦
        let sent = p.acks.try_send tx k st.ack_store in
        let st' : State p = record st {
          handler = record st.handler { mids = remove k st.mids };
          runtime = record st.runtime { ack_store = p.acks.drop_sender tx sent.1 };
        } in
        rw (held, acknowledge)
          (if_either Ready sent.0 {x = st'} {y = disconnecting p client st'} h
            (disconnecting-Ready st' h))
  ]

  call_back-Ready : (i : Incoming) (st : State p) → Ready st → Ready (call_back p client i st)
  unfolding call_back on_connect on_disconnect on_message
  call_back-Ready (connects rc) st h =
      dispatch_event-Ready (Event.connected rc) (tell_connect p client rc st)
        (tell_connect-Ready rc st h)
  call_back-Ready (disconnects reason) st h =
      let kept = dispatch_event-Ready (Event.disconnected reason) st h in
      if_either Ready (is_unexpected_disconnect reason) kept kept
  call_back-Ready (receives m) st h = dispatch_event-Ready (Event.message m) st h
  call_back-Ready (acknowledges k) st h = acknowledge-Ready k st h

  fire-deliver : (c : LibraryCall) (st : State p) → Ready st → fire c st ≡ deliver p m c st
  unfolding fire called
  fire-deliver c st h = rw (h (trampoline_of c), called, passed-trampoline_of c) refl

  fire_all-deliver_all :
      (cs : List LibraryCall) (st : State p) → Ready st → fire_all cs st ≡ deliver_all p m cs st
  unfolding fire_all deliver_all
  fire_all-deliver_all [] st h = refl
  fire_all-deliver_all (c ∷ cs) st h =
      let h' : Ready (deliver p m c st) =
        rw (deliver-call_back p m c st) (call_back-Ready (meaning c) st h) in
      ap (fire_all cs) (fire-deliver c st h) ∙ fire_all-deliver_all cs (deliver p m c st) h'

module _ (p : Platform) (registry : Registry p.lib) where
  -- What `start` makes of a handle with every function, if it succeeds.
  start-Ready :
      (r : Runtime p) (made : Result (Mosq p.lib) Error × Process p.lib.World) (client : Mosq p.lib)
      (handler : Handler p) (r' : Runtime p)
      → ((m : Mosq p.lib) → made.0 ≡ ok m → Complete p.lib registry m.m made.1.world)
      → start p (new p r) made ≡ (ok (client, handler), r')
      → Complete p.lib registry client.m r'.process.world
        × (◌≡◌ {A = State p}
            (record { handler = handler; runtime = r' })
            (new p (record r { process = r'.process })))
  unfolding start new network.start_loop_thread
  start-Ready r (err e, process) client handler r' h done =
      let failed : ◌≡◌ {A = Result (Mosq p.lib × Handler p) Error} (err e) (ok (client, handler)) =
        ap (λ x. x.0) done in
      cc failed
  start-Ready r (ok m, process) client handler r' h done =
      elim (Result-cases (network.start_loop_thread p.lib m process).0) [
        | inl (u, e) ↦
            let process' = (network.start_loop_thread p.lib m process).1 in
            let done' : ◌≡◌ {A = Result (Mosq p.lib × Handler p) Error × Runtime p}
                (ok (m, (new p r).handler), record (new p r).runtime { process = process' })
                (ok (client, handler), r') =
              rw (e, start) at done in
            let outs : ◌≡◌ {A = Result (Mosq p.lib × Handler p) Error} (ok (m, (new p r).handler))
                (ok (client, handler)) =
              ap (λ x. x.0) done' in
            let pair : ◌≡◌ {A = Mosq p.lib × Handler p} (m, (new p r).handler) (client, handler) =
              cc outs in
            let same_m : m ≡ client = ap (λ x. x.0) pair in
            let same_handler : (new p r).handler ≡ handler = ap (λ x. x.1) pair in
            let same_runtime : record (new p r).runtime { process = process' } ≡ r' =
              ap (λ x. x.1) done' in
            rw (← same_runtime, ← same_handler, ← same_m)
              ((λ t. registry.loop_start_keeps m.m t process.world ∙ h m refl t), refl)
        | inr (x, e) ↦
            let failed : ◌≡◌ {A = Result (Mosq p.lib × Handler p) Error} (err x)
                (ok (client, handler)) =
              ap (λ y. y.0) (rw (e, start) at done) in
            cc failed
      ]

  -- What the C library has to report to a client that `with_id` made reaches its subscriber, if for
  -- each kind of callback the library keeps the function that was set last with that kind's setter,
  -- calls it for a report of that kind, and forgets none when it starts the loop's thread or is asked
  -- to disconnect: whatever it would report, receiving from the
  -- channel that `subscriber` gives out yields the events that the calls mean, one for each in their
  -- order, up to and including the first disconnection with reason 0; and from then on the channel is
  -- found closed if there was such a disconnection, and empty and open if there was not.
  pub with_id-fire_all-receive :
      (d : Documented p.events) (id : Str) (clean_session : Bool) (r r' : Runtime p)
      (client : Mosq p.lib) (handler : Handler p) (rx : p.events.Receiver) (cs : List LibraryCall)
      (n : ℕ)
      → with_id p id clean_session r ≡ (ok (client, handler), r')
      → (subscriber p (record { handler = handler; runtime = r' })).0 ≡ some rx
      → receive p d rx
          (length (stream (map meaning cs)) + n)
          (fire_all p registry client.m cs (record { handler = handler; runtime = r' })).event_store
        ≡ map ready (stream (map meaning cs))
          ++ replicate n (if ended (map meaning cs) then closed else pending)
  unfolding with_id
  with_id-fire_all-receive d id clean_session r r' client handler rx cs n made taken =
      let (complete, same) =
        start-Ready r (mosq.with_id p.lib handler_ref id clean_session (new p r).process) client
          handler r'
          (λ m e.
            with_id-Complete p.lib registry handler_ref id clean_session (new p r).process m e)
          made in
      let st : State p = record { handler = handler; runtime = r' } in
      rw (fire_all-deliver_all p registry client.m cs st complete, same)
        (deliver_all-receive p client.m d (record r { process = r'.process }) rx cs n
          (rw same at taken))
