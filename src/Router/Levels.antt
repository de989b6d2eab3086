-- ===== src/Router/Levels.antt =====
-- `route_to_topic` of mosquitto-rs/src/router.rs level by level.
use mathlib.Core.List.{append_assoc, append-nil}
use mosquitto_rs.Base.{
  ℕ, ◌==◌, ◌≡◌, refl, sym, ap, ◌∙◌, inl, inr, Bool, true, false, List, [], ◌∷◌, ◌++◌, map, Str,
  arith, if◌then◌else◌, Bool-cases,
}
use mosquitto_rs.Router.Topic.{convert, route_to_topic}

-- What lies between the slashes of a text; MQTT calls it the levels of a topic.
abbrev cons_head : ℕ → List Str → List Str
cons_head c [] = (c ∷ []) ∷ []
cons_head c (x ∷ xs) = (c ∷ x) ∷ xs

unfoldable pub split : Str → List Str
split [] = [] ∷ []
split (c ∷ s) = if c == b'/' then [] ∷ split s else cons_head c (split s)

-- A `+` for each colon.
unfoldable pub pluses : Str → Str
pluses [] = []
pluses (c ∷ s) = if c == b':' then b'+' ∷ pluses s else pluses s

-- The level of the topic that a level of a route becomes: what stands before its first colon, and a
-- `+` for each colon.
unfoldable pub level : Str → Str
level [] = []
level (c ∷ s) = if c == b':' then b'+' ∷ pluses s else c ∷ level s

-- The loop without its accumulator.
plain : Bool → Str → Str
plain in_param [] = []
plain in_param (c ∷ s) =
    let rest = plain true s in
    let on = plain (if c == b'/' then false else in_param) s in
    if c == b':'
    then b'+' ∷ rest
    else if (if c == b'/' then false else in_param)
    then on
    else c ∷ on

convert-plain :
    (result : Str) (in_param : Bool) (s : Str)
    → convert result in_param s ≡ result ++ plain in_param s
unfolding convert plain
convert-plain result in_param [] = sym (append-nil result)
convert-plain result in_param (c ∷ s) = elim (Bool-cases (c == b':')) [
  | inl colon ↦
      rw colon (
        convert-plain (result ++ b'+' ∷ []) true s ∙ append_assoc result (b'+' ∷ []) (plain true s))
  | inr other ↦ rw other (elim (Bool-cases (if c == b'/' then false else in_param)) [
    | inl skip ↦ rw skip (convert-plain result true s)
    | inr keep ↦
        rw keep
          (convert-plain (result ++ c ∷ []) false s ∙ append_assoc result (c ∷ []) (plain false s))
  ])
]

-- The levels of what the loop adds, from inside a parameter or not.
levels_in : Bool → List Str → List Str
levels_in in_param [] = []
levels_in true (x ∷ xs) = pluses x ∷ map level xs
levels_in false (x ∷ xs) = level x ∷ map level xs

split-cons : (s : Str) → (x : Str) × (xs : List Str) × (split s ≡ x ∷ xs)
unfolding split
split-cons [] = ([], [], refl)
split-cons (c ∷ s) = elim (Bool-cases (c == b'/')) [
  | inl slash ↦ ([], split s, rw slash refl)
  | inr other ↦ let (x, xs, e) = split-cons s in (c ∷ x, xs, rw (other, e) refl)
]

levels_in-split : (s : Str) → levels_in false (split s) ≡ map level (split s)
unfolding levels_in
levels_in-split s = let (x, xs, e) = split-cons s in rw e refl

split-plain : (in_param : Bool) (s : Str) → split (plain in_param s) ≡ levels_in in_param (split s)
unfolding split plain levels_in level pluses
split-plain true [] = refl
split-plain false [] = refl
split-plain true (c ∷ s) =
    let (x, xs, e) = split-cons s in
    ground (arith, e, split-plain true s, split-plain false s, levels_in-split s)
split-plain false (c ∷ s) =
    let (x, xs, e) = split-cons s in
    ground (arith, e, split-plain true s, split-plain false s, levels_in-split s)

-- The topic of a route has the levels of the route, each turned by itself: up to its first colon it
-- stays, and from there on a `+` stands for each colon.
pub split-route_to_topic : (route : Str) → split (route_to_topic route) ≡ map level (split route)
unfolding route_to_topic
split-route_to_topic route =
    ap split (convert-plain [] false route) ∙ split-plain false route ∙ levels_in-split route
