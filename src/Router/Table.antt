-- ===== src/Router/Table.antt =====
-- mosquitto-rs/src/router.rs: a router on which several routes have been registered.
use mathlib.Core.List.{Memᴰ}
use mathlib.Core.List.Memᴰ
use mosquitto_rs.Base.{
  ◌≡◌, refl, ap, ◌∙◌, ◌⊎◌, inl, inr, some, List, [], ◌∷◌, Str, Bytes, ok, err, map_err, All,
  All-iff, ◌≢◌, Result-cases,
}
use mosquitto_rs.Base.Utf8.{IsChar, as_bytes, to_string_lossy, to_string_lossy-as_bytes}
use mosquitto_rs.Lowlevel.Mosq.{Mosq}
use mosquitto_rs.Lowlevel.Status.{MessageId}
use mosquitto_rs.Router.Subscribing.{
  Subscriptions, route-patterns, route_poll-inserted, route_to_topic-IsChar,
}
use mosquitto_rs.Client.Data.{Message}
use mosquitto_rs.Client.State.{Platform, State}
use mosquitto_rs.Router.Request.{Crates, match_error, any, Dispatcher}
use mosquitto_rs.Router.Levels.{split}
use mosquitto_rs.Router.Matching.{
  IsReserved, IsRoute, RouteMatches, FilterMatches, FilterMatches-RouteMatches,
  RouteMatches-FilterMatches,
}
use mosquitto_rs.Router.Topic.{route_to_topic}
use mosquitto_rs.Router.Dispatch.{Matchit, call, MqttRouter, dispatch, route, route_poll}
use mosquitto_rs.Router.Handling.{requested}

-- What the documentation of `matchit` says of a router: it holds the routes that were inserted,
-- finds a value only for a topic that its route matches, and misses no route that matches; asked only
-- of topics without an empty level.
pub record Tabled (c : Crates) (V : Type 0) (matchit : Matchit c V) : Type 0 where
  pub entries : matchit.Router → List (Str × V)
  pub new_entries : entries matchit.new ≡ []
  pub inserted :
      (path : Str) (v : V) (r r' : matchit.Router)
      → matchit.insert path v r ≡ (ok tt, r')
      → entries r' ≡ (path, v) ∷ entries r
  pub found :
      (topic : Str) (r : matchit.Router) (params : List (Str × Str)) (v : V)
      → All (λ x. IsRoute x.0) (entries r)
      → All (λ t. t ≢ []) (split topic)
      → matchit.at r topic ≡ ok (params, v)
      → (path : Str) × Memᴰ (path, v) (entries r) × RouteMatches path topic
  pub not_found :
      (topic : Str) (r : matchit.Router) (e : c.MatchError) (path : Str) (v : V)
      → All (λ x. IsRoute x.0) (entries r)
      → All (λ t. t ≢ []) (split topic)
      → matchit.at r topic ≡ err e
      → Memᴰ (path, v) (entries r)
      → RouteMatches path topic
      → ⊥

-- The broker was asked for the messages of a topic: one of the subscriptions matches it.
abbrev pub Asked : (p : Platform) → Subscriptions p.lib → Mosq p.lib → State p → Str → Type 0
Asked p s client st topic =
    (b : Bytes) × Memᴰ b (s.patterns client.m st.process.world)
    × FilterMatches (to_string_lossy b) topic

module _ {S W : Type 0} (c : Crates) (p : Platform) (matchit : Matchit c (Dispatcher c S W)) where
  -- The routes are registered one after the other, from one state of the client to another: `route`
  -- is given an id by the C library, and a later poll of it returns `Ok`. What happens between leaves
  -- the subscriptions.
  abbrev pub Registers :
      Subscriptions p.lib
      → List (Str × Dispatcher c S W)
      → MqttRouter c p matchit
      → State p
      → MqttRouter c p matchit
      → State p
      → Type 0
  Registers s [] self st self' st' =
      (self' ≡ self)
      × (s.patterns self.client.m st'.process.world ≡ s.patterns self.client.m st.process.world)
  Registers s ((path, value) ∷ routes) self st self' st' =
      (mid : MessageId) × (rx : p.acks.Receiver) × (polled : State p) × (next : MqttRouter c p
        matchit)
      × (after : State p) × ((route c p matchit self path st).0 ≡ ok (mid, rx))
      × ((route_poll c p matchit path value rx self polled).0 ≡ some (ok tt))
      × ((route_poll c p matchit path value rx self polled).1 ≡ next)
      × (s.patterns self.client.m after.process.world
          ≡ s.patterns self.client.m (route c p matchit self path st).1.process.world)
      × Registers s routes next after self' st'

  module _ (laws : Tabled c (Dispatcher c S W) matchit) (s : Subscriptions p.lib) where
    abbrev held : MqttRouter c p matchit → List (Str × Dispatcher c S W)
    held self = laws.entries self.router

    -- The router holds the routes and what it held.
    Registers-held :
        (routes : List (Str × Dispatcher c S W)) (self self' : MqttRouter c p matchit)
        (st st' : State p)
        → Registers s routes self st self' st'
        → (x : Str × Dispatcher c S W)
        → (Memᴰ x (held self') → Memᴰ x routes ⊎ Memᴰ x (held self))
          × (Memᴰ x routes ⊎ Memᴰ x (held self) → Memᴰ x (held self'))
    Registers-held [] self self' st st' (e, _) x =
        rw e ((λ m. inr m), (λ m. elim m [ inl h ↦ absurd (Memᴰ.not-nil h) | inr h ↦ h ]))
    Registers-held ((path, value) ∷ routes) self self' st st'
          (mid, rx, polled, next, after, asked, done, given, kept, rest) x =
        let (there, back) = Registers-held routes next self' after st' rest x in
        let (into, _) = route_poll-inserted c p matchit path value rx polled self next done given in
        let same : held next ≡ (path, value) ∷ held self =
          laws.inserted path value self.router next.router into in
        (
          λ m. elim (there m) [
            | inl h ↦ inl (Memᴰ.tail h)
            | inr h ↦ elim (Memᴰ.cases_cons (rw same at h)) [
              | inl e ↦ inl (Memᴰ.head e)
              | inr k ↦ inr k
            ]
          ],
          λ m. elim m [
            | inl h ↦ elim (Memᴰ.cases_cons h) [
              | inl e ↦ back (inr (rw same (Memᴰ.head e)))
              | inr k ↦ back (inl k)
            ]
            | inr k ↦ back (inr (rw same (Memᴰ.tail k)))
          ],
        )

    -- The pattern of a route, as C is handed it.
    abbrev Pattern : Bytes → List (Str × Dispatcher c S W) → Type 0
    Pattern b routes =
        (path : Str) × (value : Dispatcher c S W) × Memᴰ (path, value) routes
        × (b ≡ as_bytes (route_to_topic path))

    -- The subscriptions are the routes' patterns and what was there.
    Registers-patterns :
        (routes : List (Str × Dispatcher c S W)) (self self' : MqttRouter c p matchit)
        (st st' : State p)
        → Registers s routes self st self' st'
        → (b : Bytes)
        → (Memᴰ b (s.patterns self.client.m st'.process.world)
            → Pattern b routes ⊎ Memᴰ b (s.patterns self.client.m st.process.world))
          × (Pattern b routes ⊎ Memᴰ b (s.patterns self.client.m st.process.world)
              → Memᴰ b (s.patterns self.client.m st'.process.world))
    Registers-patterns [] self self' st st' (_, e) b =
        rw e
          ((λ m. inr m), (λ m. elim m [ inl (_, _, h, _) ↦ absurd (Memᴰ.not-nil h) | inr h ↦ h ]))
    Registers-patterns ((path, value) ∷ routes) self self' st st'
          (mid, rx, polled, next, after, asked, done, given, kept, rest) b =
        let (_, client) =
          route_poll-inserted c p matchit path value rx polled self next done given in
        let (there, back) = rw client at (Registers-patterns routes next self' after st' rest b) in
        let same : s.patterns self.client.m after.process.world
            ≡ as_bytes (route_to_topic path) ∷ s.patterns self.client.m st.process.world =
          kept ∙ route-patterns c p matchit s self path st (mid, rx) asked in
        (
          λ m. elim (there m) [
            | inl (path', value', h, e) ↦ inl (path', value', Memᴰ.tail h, e)
            | inr h ↦ elim (Memᴰ.cases_cons (rw same at h)) [
              | inl e ↦ inl (path, value, Memᴰ.head refl, e)
              | inr k ↦ inr k
            ]
          ],
          λ m. elim m [
            | inl (path', value', h, e) ↦ elim (Memᴰ.cases_cons h) [
              | inl f ↦
                  back (inr (rw same (Memᴰ.head (e ∙ ap (λ x. as_bytes (route_to_topic x.0)) f))))
              | inr k ↦ back (inl (path', value', k, e))
            ]
            | inr k ↦ back (inr (rw same (Memᴰ.tail k)))
          ],
        )

    -- A message is handled by a route that was registered and matches its topic.
    abbrev pub Handled :
        List (Str × Dispatcher c S W) → MqttRouter c p matchit → Message → S → W → Type 0
    Handled routes self message state w =
        (path : Str) × (value : Dispatcher c S W) × (params : List (Str × Str)) × Memᴰ (path, value)
          routes
        × RouteMatches path message.topic
        × (dispatch c p matchit self message state w
            ≡ (let (r, w') = value (requested c params message state) w in (map_err any r, w')))

    -- Nothing is done with a message.
    abbrev pub Unhandled : MqttRouter c p matchit → Message → S → W → Type 0
    Unhandled self message state w =
        (e : c.MatchError) × (dispatch c p matchit self message state w ≡ (err (match_error e), w))

    decoded :
        (path : Str)
        → All IsChar path
        → to_string_lossy (as_bytes (route_to_topic path)) ≡ route_to_topic path
    decoded path h = to_string_lossy-as_bytes (route_to_topic path) (route_to_topic-IsChar path h)

    -- A client that had no subscriptions has registered well-formed routes on a new router. A message
    -- whose topic has no empty level and does not start with `$` is then either one that the broker was
    -- asked for, and one of the routes that match its topic handles it, with some parameters; or the
    -- broker was not asked for it, it ends in `MatchError`, and nothing is run. So no message that the
    -- broker sends for the subscriptions is left unhandled, and no other is handled.
    pub Registers-dispatch :
        (routes : List (Str × Dispatcher c S W)) (self self' : MqttRouter c p matchit)
        (st st' : State p) (message : Message) (state : S) (w : W)
        → self.router ≡ matchit.new
        → s.patterns self.client.m st.process.world ≡ []
        → Registers s routes self st self' st'
        → All (λ x. IsRoute x.0) routes
        → All (λ x. All IsChar x.0) routes
        → All (λ t. t ≢ []) (split message.topic)
        → (IsReserved message.topic → ⊥)
        → (Asked p s self.client st' message.topic × Handled routes self' message state w)
          ⊎ ((Asked p s self.client st' message.topic → ⊥) × Unhandled self' message state w)
    unfolding dispatch
    Registers-dispatch routes self self' st st' message state w new_router unasked done well chars
          full open_ =
        let none_held : held self ≡ [] = rw new_router laws.new_entries in
        let of_route : (x : Str × Dispatcher c S W) → Memᴰ x routes → IsRoute x.0 × All IsChar x.0 =
          λ x m. (
            (All-iff (λ y. IsRoute y.0) routes).0 well x m,
            (All-iff (λ y. All IsChar y.0) routes).0 chars x m,
          ) in
        let in_routes : (x : Str × Dispatcher c S W) → Memᴰ x (held self') → Memᴰ x routes = λ x m.
          elim ((Registers-held routes self self' st st' done x).0 m) [
            | inl h ↦ h
            | inr h ↦ let no : Memᴰ x [] = rw none_held at h in absurd (Memᴰ.not-nil no)
          ] in
        let each : All (λ x. IsRoute x.0) (held self') =
          (All-iff (λ x. IsRoute x.0) (held self')).1 (λ x m. (of_route x (in_routes x m)).0) in
        elim (Result-cases (matchit.at self'.router message.topic)) [
          | inl ((params, value), e) ↦
              let (path, there, m) =
                laws.found message.topic self'.router params value each full e in
              let here = in_routes (path, value) there in
              let (route_, text) = of_route (path, value) here in
              inl (
                (
                  as_bytes (route_to_topic path),
                  (Registers-patterns routes self self' st st' done
                        (as_bytes (route_to_topic path))).1
                      (inl (path, value, here, refl)),
                  rw (decoded path text)
                      (RouteMatches-FilterMatches path message.topic route_ open_ m),
                ),
                (path, value, params, here, m, rw (e, dispatch, call) refl),
              )
          | inr (x, e) ↦ inr (
            (λ (b, there, asked).
                elim ((Registers-patterns routes self self' st st' done b).0 there) [
                  | inl (path, value, here, same) ↦
                      let (route_, text) = of_route (path, value) here in
                      let matches : FilterMatches (route_to_topic path) message.topic =
                        rw (same, decoded path text) at asked in
                      laws.not_found message.topic self'.router x path value each full e
                        ((Registers-held routes self self' st st' done (path, value)).1 (inl here))
                        (FilterMatches-RouteMatches path message.topic route_ full matches)
                  | inr h ↦ let no : Memᴰ b [] = rw unasked at h in absurd (Memᴰ.not-nil no)
                ]),
            (x, rw (e, dispatch) refl),
          )
        ]
