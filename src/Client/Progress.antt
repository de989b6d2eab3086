-- ===== src/Client/Progress.antt =====
-- Futures of mosquitto-rs/src/client.rs move through their phases as the labels of a run say.
use mosquitto_rs.Base.{
  ◌≡◌, refl, sym, ap, ◌∙◌, inl, inr, List, [], ◌∷◌, ok, err, arith, Result-cases,
}
use mosquitto_rs.Channel.{Documented}
use mosquitto_rs.Client.Acknowledge.{acknowledge-IsValid, acknowledge-Shows}
use mosquitto_rs.Client.Assign.{
  replaced-IsValid, replaced-Shows, replaced-new, request_made, request-refused,
}
use mosquitto_rs.Client.Elsewhere.{
  SameAcks, on_connect-SameAcks, on_message-SameAcks, on_disconnect-SameAcks, connect-SameAcks,
  connect_poll-SameAcks, cancel_connect-SameAcks, subscriber-SameAcks, on_process-SameAcks,
}
use mosquitto_rs.Client.Futures.{
  Phase, waiting, answered, lost, Label, next_phase, phase_after, outcome, quiet, IsValid, Shows,
}
use mosquitto_rs.Client.Keeps.{
  Keeps, Lives-IsValid, Keeps-Shows, refused-Keeps, polled-Lives, cancelled-Lives, polled-Keeps,
  cancelled-Keeps,
}
use mosquitto_rs.Client.Requests.{request, ack_poll}
use mosquitto_rs.Client.Runs.{
  Step, requests, fails, acknowledges, polls, cancels, connects, disconnects, receives,
  calls_connect, polls_connect, cancels_connect, takes_subscriber, configures, Run, NotOf,
}
use mosquitto_rs.Client.State.{Platform, State}
use mosquitto_rs.Error.{Error}
use mosquitto_rs.Lowlevel.Io.{Io, Process}
use mosquitto_rs.Lowlevel.Status.{MessageId}

-- The program's state while a future is in a phase.
abbrev pub Tracks :
    (p : Platform) → Documented p.acks → MessageId → p.acks.Receiver → Phase → State p → Type 0
Tracks p d mid rx ph st =
    IsValid p d st.mids st.ack_store × Shows p d mid rx ph st.mids st.ack_store

module _ (p : Platform) (d : Documented p.acks) (mid : MessageId) (rx : p.acks.Receiver) where
  next_phase-quiet : (ph : Phase) → next_phase mid quiet ph ≡ ph
  unfolding next_phase
  next_phase-quiet ph = refl

  -- A step that keeps `mids` and the channels in question.
  quietly :
      (ph : Phase) (st : State p) {st' u : State p} {l : Label}
      → st' ≡ u
      → l ≡ quiet
      → u.mids ≡ st.mids
      → Keeps p d rx st.ack_store u.ack_store
      → Tracks p d mid rx ph st
      → Tracks p d mid rx (next_phase mid l ph) st'
  quietly ph st {u} after still same keeps (v, sh) =
      rw (after, still, next_phase-quiet ph, same)
        (
          Lives-IsValid p d st.mids st.ack_store u.ack_store keeps.0 v,
          Keeps-Shows p d mid rx ph st.mids st.ack_store u.ack_store keeps sh,
        )

  elsewhere :
      (ph : Phase) (st : State p) {st' u : State p} {l : Label}
      → st' ≡ u
      → l ≡ quiet
      → SameAcks p st u
      → Tracks p d mid rx ph st
      → Tracks p d mid rx (next_phase mid l ph) st'
  elsewhere ph st after still (same, store) (v, sh) =
      rw (after, still, next_phase-quiet ph, same, store) (v, sh)

  requested-Tracks :
      (ph : Phase) (st : State p) (call : Io (Process p.lib.World) MessageId) (k : MessageId)
      → (call st.process).0 ≡ ok k
      → Tracks p d mid rx ph st
      → Tracks p d mid rx (next_phase mid (Label.assigned k) ph) (request p call st).1
  requested-Tracks ph st call k made (v, sh) =
      let (_, same, store) = request_made p call st k made in
      rw (same, store)
        (
          replaced-IsValid p d k st.mids st.ack_store v,
          replaced-Shows p d k st.mids st.ack_store v mid rx ph sh,
        )

  refused-Tracks :
      (ph : Phase) (st : State p) (call : Io (Process p.lib.World) MessageId) (e : Error)
      → (call st.process).0 ≡ err e
      → Tracks p d mid rx ph st
      → Tracks p d mid rx (next_phase mid quiet ph) (request p call st).1
  refused-Tracks ph st call e failed t =
      let (_, same, store) = request-refused p call st e failed in
      quietly ph st {u = (request p call st).1} refl refl same
        (rw store (refused-Keeps p d rx st.ack_store)) t

  pub Step-Tracks :
      {st st' : State p} {l : Label} (ph : Phase)
      → Step p (NotOf p d rx) st st' l
      → Tracks p d mid rx ph st
      → Tracks p d mid rx (next_phase mid l ph) st'
  Step-Tracks {st} ph (requests call k made after label) t =
      rw (after, label) (requested-Tracks ph st call k made t)
  Step-Tracks {st} ph (fails call e failed after label) t =
      rw (after, label) (refused-Tracks ph st call e failed t)
  Step-Tracks {st} ph (acknowledges client k after label) (v, sh) =
      rw (after, label)
        (acknowledge-IsValid p d client k st v, acknowledge-Shows p d client k st mid rx ph v sh)
  Step-Tracks {st} ph (polls other apart after label) t =
      quietly ph st after label (polled-Lives p d other st).0 (polled-Keeps p d rx other apart st) t
  Step-Tracks {st} ph (cancels other apart after label) t =
      quietly ph st after label (cancelled-Lives p d other st).0
        (cancelled-Keeps p d rx other apart st) t
  Step-Tracks {st} ph (connects client rc after label) t =
      elsewhere ph st after label (on_connect-SameAcks p client rc st) t
  Step-Tracks {st} ph (disconnects client reason after label) t =
      elsewhere ph st after label (on_disconnect-SameAcks p client reason st) t
  Step-Tracks {st} ph (receives client k topic payload qos retain after label) t =
      elsewhere ph st after label (on_message-SameAcks p client k topic payload qos retain st) t
  Step-Tracks {st} ph (calls_connect client host port keep_alive bind after label) t =
      elsewhere ph st after label (connect-SameAcks p client host port keep_alive bind st) t
  Step-Tracks {st} ph (polls_connect other after label) t =
      elsewhere ph st after label (connect_poll-SameAcks p other st) t
  Step-Tracks {st} ph (cancels_connect other after label) t =
      elsewhere ph st after label (cancel_connect-SameAcks p other st) t
  Step-Tracks {st} ph (takes_subscriber after label) t =
      elsewhere ph st after label (subscriber-SameAcks p st) t
  Step-Tracks {st} ph (configures call after label) t =
      elsewhere ph st after label (on_process-SameAcks p st call) t

  Run-Tracks :
      (ls : List Label) (st st' : State p) (ph : Phase)
      → Run p (NotOf p d rx) st ls st'
      → Tracks p d mid rx ph st
      → Tracks p d mid rx (phase_after mid ls ph) st'
  unfolding phase_after
  Run-Tracks [] st st' ph same t = rw same t
  Run-Tracks (l ∷ ls) st st' ph (u, step, rest) t =
      Run-Tracks ls u st' (next_phase mid l ph) rest (Step-Tracks ph step t)

  pub poll-outcome :
      (ph : Phase) (st : State p) → Tracks p d mid rx ph st → (ack_poll p rx st).0 ≡ outcome mid ph
  unfolding ack_poll outcome
  poll-outcome waiting st (_, (_, chan)) = ground (arith, d.recv_poll rx st.ack_store)
  poll-outcome answered st (_, (_, chan)) = ground (arith, d.recv_poll rx st.ack_store)
  poll-outcome lost st (_, (_, chan)) = ground (arith, d.recv_poll rx st.ack_store)

-- What a request that has been given an id returns.
request_inv :
    (p : Platform) (call : Io (Process p.lib.World) MessageId) (st : State p) (mid : MessageId)
    (rx : p.acks.Receiver)
    → (request p call st).0 ≡ ok (mid, rx)
    → ((call st.process).0 ≡ ok mid) × (rx ≡ (p.acks.bounded 1 st.ack_store).1)
request_inv p call st mid rx asked = elim (Result-cases (call st.process).0) [
  | inl (k, made) ↦
      let (gives, _, _) = request_made p call st k made in
      let pair : ◌≡◌ {A = MessageId × p.acks.Receiver} (k, (p.acks.bounded 1 st.ack_store).1)
          (mid, rx) =
        cc (asked, gives) in
      (made ∙ ap (λ i. ok i.0) pair, sym (ap (λ i. i.1) pair))
  | inr (e, failed) ↦ let (gives, _, _) = request-refused p call st e failed in cc (asked, gives)
]

pub request-Tracks :
    (p : Platform) (d : Documented p.acks) (call : Io (Process p.lib.World) MessageId)
    (st : State p) (mid : MessageId) (rx : p.acks.Receiver)
    → IsValid p d st.mids st.ack_store
    → (request p call st).0 ≡ ok (mid, rx)
    → Tracks p d mid rx waiting (request p call st).1
request-Tracks p d call st mid rx v asked =
    let (made, new) = request_inv p call st mid rx asked in
    let (_, same, store) = request_made p call st mid made in
    rw (new, same, store)
      (replaced-IsValid p d mid st.mids st.ack_store v, replaced-new p d mid st.mids st.ack_store v)

-- A request that was given `mid`, from a state whose entries are well formed, follows the
-- specification: after any run of steps that does not poll it, polling it gives nothing while the
-- run has neither acknowledged `mid` nor assigned it again, `Ok(mid)` if it acknowledged `mid`
-- first, and `Err(MOSQ_ERR_INVAL)` if it assigned `mid` to a later request first.
pub request-Run-outcome :
    (p : Platform) (d : Documented p.acks) (call : Io (Process p.lib.World) MessageId)
    (st : State p) (mid : MessageId) (rx : p.acks.Receiver) (ls : List Label) (st' : State p)
    → IsValid p d st.mids st.ack_store
    → (request p call st).0 ≡ ok (mid, rx)
    → Run p (NotOf p d rx) (request p call st).1 ls st'
    → (ack_poll p rx st').0 ≡ outcome mid (phase_after mid ls waiting)
request-Run-outcome p d call st mid rx ls st' v asked run =
    poll-outcome p d mid rx (phase_after mid ls waiting) st' (
      Run-Tracks p d mid rx ls (request p call st).1 st' waiting run
        (request-Tracks p d call st mid rx v asked))
