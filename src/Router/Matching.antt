-- ===== src/Router/Matching.antt =====
-- The topics of a route of mosquitto-rs/src/router.rs, and those of the subscription made for it.
use mosquitto_rs.Base.{
  ◌==◌, ◌≡◌, refl, sym, ap, ◌∙◌, ◌≢◌, ◌⊎◌, inl, inr, ◌↔◌, false, List, [], ◌∷◌, map, All, Str,
  arith, if◌then◌else◌,
}
use mosquitto_rs.Router.Levels.{split, level, pluses, split-route_to_topic}
use mosquitto_rs.Router.Topic.{route_to_topic}

abbrev pub HasNoColon : Str → Type 0
HasNoColon s = All (λ c. c ≢ b':') s

-- Text with no sign that means something in a route, `:` and `*`, or in a subscription, `+` and `#`.
abbrev pub IsPlain : Str → Type 0
IsPlain s = All (λ c. (c ≢ b':') × (c ≢ b'*') × (c ≢ b'+') × (c ≢ b'#')) s

-- A level of a route is a parameter, `:` and a name, or plain text.
pub data IsRouteLevel : Str → Type 0 where
  param : (name : Str) → HasNoColon name → IsRouteLevel (b':' ∷ name)
  literal : (s : Str) → IsPlain s → IsRouteLevel s

abbrev pub IsRoute : Str → Type 0
IsRoute route = All IsRouteLevel (split route)

-- A route's parameter stands for any text but the empty one.
abbrev pub RouteLevel : Str → Str → Type 0
RouteLevel [] t = t ≡ []
RouteLevel (c ∷ s) t = if c == b':' then t ≢ [] else t ≡ c ∷ s

-- A subscription's `+` stands for any level.
abbrev FilterLevel : Str → Str → Type 0
FilterLevel f t = (f ≡ b'+' ∷ []) ⊎ (t ≡ f)

abbrev pub Matches : (Str → Str → Type 0) → List Str → List Str → Type 0
Matches P [] [] = Unit
Matches P (x ∷ xs) (t ∷ ts) = P x t × Matches P xs ts
Matches P [] (t ∷ ts) = ⊥
Matches P (x ∷ xs) [] = ⊥

-- A route, and a subscription pattern, against a topic, level by level.
abbrev pub RouteMatches : Str → Str → Type 0
RouteMatches route topic = Matches RouteLevel (split route) (split topic)

-- A pattern that starts with a wildcard does not match the topics that start with `$`, which the
-- broker keeps for itself (MQTT 3.1.1, 4.7.2).
abbrev StartsWithWildcard : Str → Type 0
StartsWithWildcard [] = ⊥
StartsWithWildcard (c ∷ s) = (c ≡ b'+') ⊎ (c ≡ b'#')

abbrev pub IsReserved : Str → Type 0
IsReserved [] = ⊥
IsReserved (c ∷ s) = c ≡ b'$'

abbrev pub FilterMatches : Str → Str → Type 0
FilterMatches pattern_ topic =
    (StartsWithWildcard pattern_ → IsReserved topic → ⊥)
    × Matches FilterLevel (split pattern_) (split topic)

IsPlain-HasNoColon : (s : Str) → IsPlain s → HasNoColon s
IsPlain-HasNoColon [] h = tt
IsPlain-HasNoColon (c ∷ s) ((n, star, plus, hash), h) = (n, IsPlain-HasNoColon s h)

IsPlain-not_plus : (s : Str) → IsPlain s → s ≢ b'+' ∷ []
IsPlain-not_plus [] h = ground arith
IsPlain-not_plus (c ∷ s) ((n, star, plus, hash), h) = ground arith

pluses_none : (s : Str) → HasNoColon s → pluses s ≡ []
unfolding pluses
pluses_none [] h = refl
pluses_none (c ∷ s) (n, h) = ground (arith, pluses_none s h)

level_literal : (s : Str) → HasNoColon s → level s ≡ s
unfolding level
level_literal [] h = refl
level_literal (c ∷ s) (n, h) = ground (arith, level_literal s h)

level_param : (name : Str) → HasNoColon name → level (b':' ∷ name) ≡ b'+' ∷ []
unfolding level
level_param name h = ap (◌∷◌ b'+') (pluses_none name h)

RouteLevel-literal : (s t : Str) → HasNoColon s → RouteLevel s t ↔ (t ≡ s)
RouteLevel-literal [] t h = (λ e. e, λ e. e)
RouteLevel-literal (c ∷ s) t (n, h) =
    let other : (c == b':') ≡ false = ground arith in rw other (λ e. e, λ e. e)

RouteLevel-FilterLevel : (s t : Str) → IsRouteLevel s → RouteLevel s t → FilterLevel (level s) t
RouteLevel-FilterLevel s t (param name h) m = inl (level_param name h)
RouteLevel-FilterLevel s t (literal x plain) m =
    let h = IsPlain-HasNoColon s plain in
    inr ((RouteLevel-literal s t h).0 m ∙ sym (level_literal s h))

FilterLevel-RouteLevel :
    (s t : Str) → IsRouteLevel s → t ≢ [] → FilterLevel (level s) t → RouteLevel s t
FilterLevel-RouteLevel s t (param name h) full m = full
FilterLevel-RouteLevel s t (literal x plain) full (inl plus) =
    let h = IsPlain-HasNoColon s plain in
    absurd (IsPlain-not_plus s plain (sym (level_literal s h) ∙ plus))
FilterLevel-RouteLevel s t (literal x plain) full (inr same) =
    let h = IsPlain-HasNoColon s plain in (RouteLevel-literal s t h).1 (same ∙ level_literal s h)

Matches-filter :
    (xs ts : List Str)
    → All IsRouteLevel xs
    → Matches RouteLevel xs ts
    → Matches FilterLevel (map level xs) ts
Matches-filter [] [] r m = m
Matches-filter (x ∷ xs) (t ∷ ts) (r, rs) (m, ms) =
    (RouteLevel-FilterLevel x t r m, Matches-filter xs ts rs ms)
Matches-filter [] (t ∷ ts) r m = absurd m
Matches-filter (x ∷ xs) [] r m = absurd m

Matches-route :
    (xs ts : List Str)
    → All IsRouteLevel xs
    → All (λ t. t ≢ []) ts
    → Matches FilterLevel (map level xs) ts
    → Matches RouteLevel xs ts
Matches-route [] [] r full m = m
Matches-route (x ∷ xs) (t ∷ ts) (r, rs) (f, fs) (m, ms) =
    (FilterLevel-RouteLevel x t r f m, Matches-route xs ts rs fs ms)
Matches-route [] (t ∷ ts) r full m = absurd m
Matches-route (x ∷ xs) [] r full m = absurd m

-- Every topic that a well-formed route matches, and that does not start with `$`, is matched by the
-- subscription made for the route, so the broker sends its messages.
pub RouteMatches-FilterMatches :
    (route topic : Str)
    → IsRoute route
    → (IsReserved topic → ⊥)
    → RouteMatches route topic
    → FilterMatches (route_to_topic route) topic
RouteMatches-FilterMatches route topic r open_ m = (
  λ wild. open_,
  rw (split-route_to_topic route) (Matches-filter (split route) (split topic) r m),
)

-- Of the topics without an empty level the subscription made for a well-formed route matches only
-- those that the route matches.
pub FilterMatches-RouteMatches :
    (route topic : Str)
    → IsRoute route
    → All (λ t. t ≢ []) (split topic)
    → FilterMatches (route_to_topic route) topic
    → RouteMatches route topic
FilterMatches-RouteMatches route topic r full (_, m) =
    Matches-route (split route) (split topic) r full (rw (split-route_to_topic route) at m)
