-- ===== src/Client/Invariant.antt =====
-- Every state that a client of mosquitto-rs/src/client.rs reaches has well-formed `mids`.
use mosquitto_rs.Base.{
  ◌≡◌, refl, sym, ap, ◌∙◌, inl, inr, Bool, true, false, Option, none, some, List, [], ◌∷◌,
  if◌then◌else◌, Bool-cases, Option-cases,
}
use mosquitto_rs.Base.Int.{◌==ℤ◌, ==ℤ_iff}
use mosquitto_rs.Lowlevel.Status.{MessageId}
use mosquitto_rs.Channel.{Documented}
use mosquitto_rs.Client.Acknowledge.{acknowledge-IsValid, acknowledge_unknown, acknowledge_known}
use mosquitto_rs.Client.Assign.{replaced-IsValid, refused, request_made, request-refused}
use mosquitto_rs.Client.Elsewhere.{
  SameAcks, on_connect-SameAcks, on_message-SameAcks, on_disconnect-SameAcks, connect-SameAcks,
  connect_poll-SameAcks, cancel_connect-SameAcks, subscriber-SameAcks, on_process-SameAcks,
}
use mosquitto_rs.Client.Futures.{Label, quiet, acked, assigned, IsValid}
use mosquitto_rs.Client.Keeps.{Lives, Lives-IsValid, refused-Lives, polled-Lives, cancelled-Lives}
use mosquitto_rs.Client.Runs.{
  Step, requests, fails, acknowledges, polls, cancels, connects, disconnects, receives,
  calls_connect, polls_connect, cancels_connect, takes_subscriber, configures, Run,
}
use mosquitto_rs.Client.State.{Platform, State, Runtime, Map, insert, remove, new}

module _ (p : Platform) (d : Documented p.acks) where
  -- Any future may be polled or dropped.
  abbrev pub Any : p.acks.Receiver → Type 0
  Any rx = Unit

  abbrev pub Valid : State p → Type 0
  Valid st = IsValid p d st.mids st.ack_store

  pub new-IsValid : (r : Runtime p) → Valid (new p r)
  unfolding new
  new-IsValid r = record {
    live = λ k tx held. cc held;
    distinct = λ j k tx ty held held' same. cc held;
  }

  elsewhere : (st : State p) {st' u : State p} → st' ≡ u → SameAcks p st u → Valid st → Valid st'
  elsewhere st after (same, store) v = rw (after, same, store) v

  kept :
      (st : State p) {st' u : State p}
      → st' ≡ u
      → (u.mids ≡ st.mids) × Lives p d st.ack_store u.ack_store
      → Valid st
      → Valid st'
  kept st {u} after (same, lives) v =
      rw (after, same) (Lives-IsValid p d st.mids st.ack_store u.ack_store lives v)

  pub Step-IsValid : {st st' : State p} {l : Label} → Step p Any st st' l → Valid st → Valid st'
  Step-IsValid {st} (requests call k made after label) v =
      let (_, same, store) = request_made p call st k made in
      rw (after, same, store) (replaced-IsValid p d k st.mids st.ack_store v)
  Step-IsValid {st} (fails call e failed after label) v =
      let (_, same, store) = request-refused p call st e failed in
      rw (after, same, store)
        (Lives-IsValid p d st.mids st.ack_store (refused p st.ack_store)
          (refused-Lives p d st.ack_store) v)
  Step-IsValid {st} (acknowledges client k after label) v =
      rw after (acknowledge-IsValid p d client k st v)
  Step-IsValid {st} (polls other _ after label) v = kept st after (polled-Lives p d other st) v
  Step-IsValid {st} (cancels other _ after label) v = kept st after (cancelled-Lives p d other st) v
  Step-IsValid {st} (connects client rc after label) v =
      elsewhere st after (on_connect-SameAcks p client rc st) v
  Step-IsValid {st} (disconnects client reason after label) v =
      elsewhere st after (on_disconnect-SameAcks p client reason st) v
  Step-IsValid {st} (receives client k topic payload qos retain after label) v =
      elsewhere st after (on_message-SameAcks p client k topic payload qos retain st) v
  Step-IsValid {st} (calls_connect client host port keep_alive bind after label) v =
      elsewhere st after (connect-SameAcks p client host port keep_alive bind st) v
  Step-IsValid {st} (polls_connect other after label) v =
      elsewhere st after (connect_poll-SameAcks p other st) v
  Step-IsValid {st} (cancels_connect other after label) v =
      elsewhere st after (cancel_connect-SameAcks p other st) v
  Step-IsValid {st} (takes_subscriber after label) v =
      elsewhere st after (subscriber-SameAcks p st) v
  Step-IsValid {st} (configures call after label) v =
      elsewhere st after (on_process-SameAcks p st call) v

  Run-kept : (ls : List Label) (st st' : State p) → Run p Any st ls st' → Valid st → Valid st'
  Run-kept [] st st' same v = rw same v
  Run-kept (l ∷ ls) st st' (u, step, rest) v = Run-kept ls u st' rest (Step-IsValid step v)

  pub Run-new-IsValid :
      (r : Runtime p) (ls : List Label) (st : State p) → Run p Any (new p r) ls st → Valid st
  Run-new-IsValid r ls st run = Run-kept ls (new p r) st run (new-IsValid r)

-- Whether an id waits for the broker after a run: the last step about it gave it to a request, and did
-- not acknowledge it.
unfoldable pub waits_after : MessageId → List Label → Bool → Bool
waits_after mid [] b = b
waits_after mid (quiet ∷ ls) b = waits_after mid ls b
waits_after mid (assigned k ∷ ls) b = waits_after mid ls (if k ==ℤ mid then true else b)
waits_after mid (acked k ∷ ls) b = waits_after mid ls (if k ==ℤ mid then false else b)

abbrev pub is_held : {V : Type 0} → Option V → Bool
is_held none = false
is_held (some v) = true

module _ (p : Platform) (d : Documented p.acks) (mid : MessageId) where
  abbrev Held : State p → Bool → Type 0
  Held st b = is_held (st.mids mid) ≡ b

  quiet-Held :
      (b : Bool) (st : State p) {st' u : State p} {l : Label}
      → st' ≡ u
      → l ≡ quiet
      → u.mids ≡ st.mids
      → Held st b
      → Held st' (waits_after mid (l ∷ []) b)
  unfolding waits_after
  quiet-Held b st after label same h = rw (after, label, same) h

  insert-Held :
      (k : MessageId) (tx : p.acks.Sender) (m : Map p.acks.Sender)
      → is_held (insert k tx m mid) ≡ (if k ==ℤ mid then true else is_held (m mid))
  insert-Held k tx m = elim (Bool-cases (k ==ℤ mid)) [ inl e ↦ rw e refl | inr e ↦ rw e refl ]

  remove-Held :
      (k : MessageId) (m : Map p.acks.Sender)
      → is_held (remove k m mid) ≡ (if k ==ℤ mid then false else is_held (m mid))
  remove-Held k m = elim (Bool-cases (k ==ℤ mid)) [ inl e ↦ rw e refl | inr e ↦ rw e refl ]

  -- An id that has no entry is removed by leaving the entries.
  absent-Held :
      (k : MessageId) (m : Map p.acks.Sender)
      → m k ≡ none
      → is_held (m mid) ≡ (if k ==ℤ mid then false else is_held (m mid))
  absent-Held k m gone = elim (Bool-cases (k ==ℤ mid)) [
    | inl e ↦ let same : k ≡ mid = (==ℤ_iff k mid).0 e in rw e (ap is_held (ap m (sym same) ∙ gone))
    | inr e ↦ rw e refl
  ]

  Step-Held :
      {st st' : State p} {l : Label} (b : Bool)
      → Step p (Any p d) st st' l
      → Held st b
      → Held st' (waits_after mid (l ∷ []) b)
  unfolding waits_after
  Step-Held {st} b (requests call k made after label) h =
      let (_, same, _) = request_made p call st k made in
      rw (after, label, same, ← h) (insert-Held k (p.acks.bounded 1 st.ack_store).0 st.mids)
  Step-Held {st} b (acknowledges client k after label) h = elim (Option-cases (st.mids k)) [
    | inl gone ↦
        let (same, _) = acknowledge_unknown p client k st gone in
        rw (after, label, same, ← h) (absent-Held k st.mids gone)
    | inr (tx, held) ↦
        let (same, _) = acknowledge_known p client k st tx held in
        rw (after, label, same, ← h) (remove-Held k st.mids)
  ]
  Step-Held {st} b (fails call e failed after label) h =
      quiet-Held b st after label (request-refused p call st e failed).1 h
  Step-Held {st} b (polls other _ after label) h =
      quiet-Held b st after label (polled-Lives p d other st).0 h
  Step-Held {st} b (cancels other _ after label) h =
      quiet-Held b st after label (cancelled-Lives p d other st).0 h
  Step-Held {st} b (connects client rc after label) h =
      quiet-Held b st after label (on_connect-SameAcks p client rc st).0 h
  Step-Held {st} b (disconnects client reason after label) h =
      quiet-Held b st after label (on_disconnect-SameAcks p client reason st).0 h
  Step-Held {st} b (receives client k topic payload qos retain after label) h =
      quiet-Held b st after label (on_message-SameAcks p client k topic payload qos retain st).0 h
  Step-Held {st} b (calls_connect client host port keep_alive bind after label) h =
      quiet-Held b st after label (connect-SameAcks p client host port keep_alive bind st).0 h
  Step-Held {st} b (polls_connect other after label) h =
      quiet-Held b st after label (connect_poll-SameAcks p other st).0 h
  Step-Held {st} b (cancels_connect other after label) h =
      quiet-Held b st after label (cancel_connect-SameAcks p other st).0 h
  Step-Held {st} b (takes_subscriber after label) h =
      quiet-Held b st after label (subscriber-SameAcks p st).0 h
  Step-Held {st} b (configures call after label) h =
      quiet-Held b st after label (on_process-SameAcks p st call).0 h

  waits_after-step :
      (l : Label) (ls : List Label) (b : Bool)
      → waits_after mid (l ∷ ls) b ≡ waits_after mid ls (waits_after mid (l ∷ []) b)
  unfolding waits_after
  waits_after-step quiet ls b = refl
  waits_after-step (acked k) ls b = refl
  waits_after-step (assigned k) ls b = refl

  Run-Held :
      (ls : List Label) (st st' : State p) (b : Bool)
      → Run p (Any p d) st ls st'
      → Held st b
      → Held st' (waits_after mid ls b)
  unfolding waits_after
  Run-Held [] st st' b same h = rw same h
  Run-Held (l ∷ ls) st st' b (u, step, rest) h =
      Run-Held ls u st' (waits_after mid (l ∷ []) b) rest (Step-Held b step h)
      ∙ sym (waits_after-step l ls b)

-- In every state that a run of a new client's steps reaches, whichever futures are polled or dropped
-- in it, `mids` has an entry for an id exactly if the last step of the run about the id gave it to a
-- request and did not acknowledge it; and each entry sends to a channel that exists, no two entries
-- to the same one.
pub Run-IsValid :
    (p : Platform) (d : Documented p.acks) (r : Runtime p) (ls : List Label) (st : State p)
    → Run p (Any p d) (new p r) ls st
    → ((mid : MessageId) → is_held (st.mids mid) ≡ waits_after mid ls false)
      × IsValid p d st.mids st.ack_store
unfolding new
Run-IsValid p d r ls st run =
    ((λ mid. Run-Held p d mid ls (new p r) st false run refl), Run-new-IsValid p d r ls st run)
