-- ===== src/Examples/Async/Stages.antt =====
-- What the C library's turns do to the future that the program of
-- mosquitto-rs/examples/publish_async.rs waits for.
use mosquitto_rs.Base.{
  ◌≡◌, refl, ◌⊎◌, inl, inr, true, false, Option, none, some, List, [], ◌∷◌, Bool-cases,
}
use mosquitto_rs.Base.Int.{◌==ℤ◌}
use mosquitto_rs.Channel.{Documented}
use mosquitto_rs.Client.Connecting.{Progress, unanswered, told, progress}
use mosquitto_rs.Client.Data.{Event}
use mosquitto_rs.Client.Futures.{
  Phase, waiting, answered, Label, next_phase, quiet, acked, assigned,
}
use mosquitto_rs.Client.Incoming.{Incoming, connects, disconnects, receives, acknowledges}
use mosquitto_rs.Client.Invariant.{Any, Valid, Step-IsValid}
use mosquitto_rs.Client.Outcome.{Rests, Step-Rests}
use mosquitto_rs.Client.Progress.{Tracks, Step-Tracks}
use mosquitto_rs.Client.Runs.{NotOf}
use mosquitto_rs.Client.State.{Platform, State}
use mosquitto_rs.Examples.Async.Rounds.{
  Turn, called, moved, turn, turns, is_report, is_ack, any, noted, noted_all, label, signal_of,
  turn-Step, turn-signal, turn-Spares,
}
use mosquitto_rs.Lowlevel.Mosq.{Mosq}
use mosquitto_rs.Lowlevel.Status.{MessageId, ConnectionStatus}

module _ (p : Platform) (client : Mosq p.lib) where
  pub turns-Valid :
      (d : Documented p.acks) (ts : List (Turn p)) (st : State p)
      → Valid p d st
      → Valid p d (turns p client ts st)
  unfolding turns
  turns-Valid d [] st v = v
  turns-Valid d (t ∷ ts) st v =
      turns-Valid d ts (turn p client t st) (Step-IsValid p d (turn-Step p (Any p d) client t st) v)

  module _ (d : Documented p.conns) (rx : p.conns.Receiver) where
    turn-Rests :
        (ph : Progress) (t : Turn p) (st : State p)
        → Rests p d rx ph st
        → Rests p d rx (progress (signal_of p t) ph) (turn p client t st)
    turn-Rests ph t st h =
        let Nothing : p.acks.Receiver → Type 0 = λ other. ⊥ in
        rw (turn-signal p Nothing client t st) at (
          Step-Rests p d rx Nothing ph (turn-Step p Nothing client t st)
            (turn-Spares p Nothing client d rx t st) h)

    turns-Rests-told :
        (rc : ConnectionStatus) (ts : List (Turn p)) (st : State p)
        → Rests p d rx (told rc) st
        → Rests p d rx (told rc) (turns p client ts st)
    unfolding turns signal_of progress
    turns-Rests-told rc [] st h = h
    turns-Rests-told rc (called i ∷ ts) st h =
        turns-Rests-told rc ts (turn p client (called i) st)
          (told_again i (turn-Rests (told rc) (called i) st h))
      where
        told_again :
            (j : Incoming)
            → Rests p d rx
                (progress (signal_of p (called j)) (told rc))
                (turn p client (called i) st)
            → Rests p d rx (told rc) (turn p client (called i) st)
        told_again (connects rc') k = k
        told_again (disconnects reason) k = k
        told_again (receives m) k = k
        told_again (acknowledges mid) k = k
    turns-Rests-told rc (moved w ∷ ts) st h =
        turns-Rests-told rc ts (turn p client (moved w) st) (turn-Rests (told rc) (moved w) st h)

    -- The future of `connect` is told a status exactly if one is reported.
    pub turns-Rests :
        (ts : List (Turn p)) (st : State p)
        → Rests p d rx unanswered st
        → ((any p (is_report p) ts ≡ false) × Rests p d rx unanswered (turns p client ts st))
          ⊎ ((any p (is_report p) ts ≡ true)
              × ((rc : ConnectionStatus) × Rests p d rx (told rc) (turns p client ts st)))
    unfolding turns signal_of progress
    turns-Rests [] st h = inl (refl, h)
    turns-Rests (called (connects rc) ∷ ts) st h = inr (
      refl,
      (
        rc,
        turns-Rests-told rc ts (turn p client (called (connects rc)) st)
            (turn-Rests unanswered (called (connects rc)) st h),
      ),
    )
    turns-Rests (called (disconnects reason) ∷ ts) st h =
        turns-Rests ts (turn p client (called (disconnects reason)) st)
          (turn-Rests unanswered (called (disconnects reason)) st h)
    turns-Rests (called (receives m) ∷ ts) st h =
        turns-Rests ts (turn p client (called (receives m)) st)
          (turn-Rests unanswered (called (receives m)) st h)
    turns-Rests (called (acknowledges k) ∷ ts) st h =
        turns-Rests ts (turn p client (called (acknowledges k)) st)
          (turn-Rests unanswered (called (acknowledges k)) st h)
    turns-Rests (moved w ∷ ts) st h =
        turns-Rests ts (turn p client (moved w) st) (turn-Rests unanswered (moved w) st h)

  module _ (d : Documented p.acks) (mid : MessageId) (rx : p.acks.Receiver) where
    turn-Tracks :
        (ph : Phase) (t : Turn p) (st : State p)
        → Tracks p d mid rx ph st
        → Tracks p d mid rx (next_phase mid (label p t) ph) (turn p client t st)
    turn-Tracks ph t st h = Step-Tracks p d mid rx ph (turn-Step p (NotOf p d rx) client t st) h

    turns-Tracks_answered :
        (ts : List (Turn p)) (st : State p)
        → Tracks p d mid rx answered st
        → Tracks p d mid rx answered (turns p client ts st)
    unfolding turns next_phase
    turns-Tracks_answered [] st h = h
    turns-Tracks_answered (t ∷ ts) st h =
        turns-Tracks_answered ts (turn p client t st)
          (rw (stays_answered (label p t)) at (turn-Tracks answered t st h))
      where
        stays_answered : (l : Label) → next_phase mid l answered ≡ answered
        stays_answered quiet = refl
        stays_answered (acked k) = refl
        stays_answered (assigned k) = refl

    -- A request is answered exactly if its id is acknowledged.
    pub turns-Tracks :
        (ts : List (Turn p)) (st : State p)
        → Tracks p d mid rx waiting st
        → ((any p (is_ack p mid) ts ≡ false) × Tracks p d mid rx waiting (turns p client ts st))
          ⊎ ((any p (is_ack p mid) ts ≡ true) × Tracks p d mid rx answered (turns p client ts st))
    unfolding turns next_phase label
    turns-Tracks [] st h = inl (refl, h)
    turns-Tracks (called (acknowledges k) ∷ ts) st h =
        let next = turn-Tracks waiting (called (acknowledges k)) st h in
        elim (Bool-cases (k ==ℤ mid)) [
          | inl hit ↦ rw hit (
              inr (
                refl,
                turns-Tracks_answered ts (turn p client (called (acknowledges k)) st)
                    (rw hit at next),
              ))
          | inr miss ↦
              rw miss
                (turns-Tracks ts (turn p client (called (acknowledges k)) st) (rw miss at next))
        ]
    turns-Tracks (called (connects rc) ∷ ts) st h =
        turns-Tracks ts (turn p client (called (connects rc)) st)
          (turn-Tracks waiting (called (connects rc)) st h)
    turns-Tracks (called (disconnects reason) ∷ ts) st h =
        turns-Tracks ts (turn p client (called (disconnects reason)) st)
          (turn-Tracks waiting (called (disconnects reason)) st h)
    turns-Tracks (called (receives m) ∷ ts) st h =
        turns-Tracks ts (turn p client (called (receives m)) st)
          (turn-Tracks waiting (called (receives m)) st h)
    turns-Tracks (moved w ∷ ts) st h =
        turns-Tracks ts (turn p client (moved w) st) (turn-Tracks waiting (moved w) st h)

module _ (p : Platform) where
  pub noted_all-some : (e : Event) (ts : List (Turn p)) → noted_all p (some e) ts ≡ some e
  unfolding noted_all noted
  noted_all-some e [] = refl
  noted_all-some e (t ∷ ts) = noted_all-some e ts

  -- Where a status is reported there is an event.
  pub reported-noted :
      (o : Option Event) (ts : List (Turn p))
      → any p (is_report p) ts ≡ true
      → (e : Event) × (noted_all p o ts ≡ some e)
  unfolding noted_all noted
  reported-noted (some e) ts h = (e, noted_all-some e ts)
  reported-noted none [] h = cc h
  reported-noted none (called (connects rc) ∷ ts) h =
      (Event.connected rc, noted_all-some (Event.connected rc) ts)
  reported-noted none (called (disconnects reason) ∷ ts) h =
      (Event.disconnected reason, noted_all-some (Event.disconnected reason) ts)
  reported-noted none (called (receives m) ∷ ts) h =
      (Event.message m, noted_all-some (Event.message m) ts)
  reported-noted none (called (acknowledges k) ∷ ts) h = reported-noted none ts h
  reported-noted none (moved w ∷ ts) h = reported-noted none ts h
