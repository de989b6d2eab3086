-- ===== src/Tests/OneRoute.antt =====
-- A router of one route at most.
use mosquitto_rs.Base.{
  ◌≡◌, refl, ◌↔◌, ◌⊎◌, inl, inr, Bool, true, false, ◌&&◌, ◌==◌, Option, none, some, List, [], ◌∷◌,
  Str, Result, ok, err, arith, if◌then◌else◌, Bool-cases, ◌++◌,
}
use mosquitto_rs.Router.Dispatch.{Matchit}
use mosquitto_rs.Router.Levels.{split}
use mosquitto_rs.Router.Matching.{RouteLevel, Matches}
use mosquitto_rs.Router.Request.{Crates}

-- Errors without a content, and parameters as they come.
abbrev pub crates : Crates
crates = record {
  InsertError = Unit;
  MatchError = Unit;
  JsonError = Unit;
  AnyError = Unit;
  JsonValue = List (Str × Str);
  JsonMap = List (Str × Str);
  null = [];
  empty = [];
  insert = λ k v m. (k, v) ∷ m;
  is_empty = none_left;
  object = λ m. m;
}
  where
    none_left : List (Str × Str) → Bool
    none_left [] = true
    none_left (x ∷ xs) = false

unfoldable pub same : Str → Str → Bool
same [] [] = true
same [] (c ∷ t) = false
same (c ∷ s) [] = false
same (c ∷ s) (e ∷ t) = (c == e) && same s t

pub same_iff : (s t : Str) → (same s t ≡ true) ↔ (t ≡ s)
unfolding same
same_iff [] [] = ground arith
same_iff [] (c ∷ t) = ground arith
same_iff (c ∷ s) [] = ground arith
same_iff (c ∷ s) (e ∷ t) = ground (arith, same_iff s t)

-- What a level of a route takes from a level of a topic.
unfoldable pub take_level : Str → Str → Option (List (Str × Str))
take_level [] t = if same [] t then some [] else none
take_level (c ∷ s) t =
    if c == b':'
    then (if same [] t then none else some ((s, t) ∷ []))
    else (if same (c ∷ s) t then some [] else none)

take_level_cases :
    (s t : Str)
    → (RouteLevel s t × (ps : List (Str × Str)) × (take_level s t ≡ some ps))
      ⊎ ((RouteLevel s t → ⊥) × (take_level s t ≡ none))
unfolding take_level
take_level_cases [] t = elim (Bool-cases (same [] t)) [
  | inl e ↦ inl ((same_iff [] t).0 e, [], rw e refl)
  | inr e ↦ inr (λ h. cc (e, (same_iff [] t).1 h), rw e refl)
]
take_level_cases (c ∷ s) t = elim (Bool-cases (c == b':')) [
  | inl colon ↦ rw colon (elim (Bool-cases (same [] t)) [
    | inl e ↦ inr (λ h. h ((same_iff [] t).0 e), rw e refl)
    | inr e ↦ inl (λ h. cc (e, (same_iff [] t).1 h), (s, t) ∷ [], rw e refl)
  ])
  | inr other ↦ rw other (elim (Bool-cases (same (c ∷ s) t)) [
    | inl e ↦ inl ((same_iff (c ∷ s) t).0 e, [], rw e refl)
    | inr e ↦ inr (λ h. cc (e, (same_iff (c ∷ s) t).1 h), rw e refl)
  ])
]

abbrev pub joined :
    Option (List (Str × Str)) → Option (List (Str × Str)) → Option (List (Str × Str))
joined none qs = none
joined (some ps) none = none
joined (some ps) (some qs) = some (ps ++ qs)

unfoldable pub take_all : List Str → List Str → Option (List (Str × Str))
take_all [] [] = some []
take_all (x ∷ xs) (t ∷ ts) = joined (take_level x t) (take_all xs ts)
take_all [] (t ∷ ts) = none
take_all (x ∷ xs) [] = none

pub take_all_cases :
    (xs ts : List Str)
    → (Matches RouteLevel xs ts × (ps : List (Str × Str)) × (take_all xs ts ≡ some ps))
      ⊎ ((Matches RouteLevel xs ts → ⊥) × (take_all xs ts ≡ none))
unfolding take_all
take_all_cases [] [] = inl (tt, [], refl)
take_all_cases [] (t ∷ ts) = inr (λ h. h, refl)
take_all_cases (x ∷ xs) [] = inr (λ h. h, refl)
take_all_cases (x ∷ xs) (t ∷ ts) = elim (take_level_cases x t) [
  | inl (m, ps, e) ↦ elim (take_all_cases xs ts) [
    | inl (ms, qs, f) ↦ inl ((m, ms), ps ++ qs, rw (e, f) refl)
    | inr (n, f) ↦ inr (λ h. n h.1, rw (e, f) refl)
  ]
  | inr (n, e) ↦ inr (λ h. n h.0, rw e refl)
]

module _ {V : Type 0} where
  abbrev answer : V → Option (List (Str × Str)) → Result (List (Str × Str) × V) (Unit {0})
  answer v none = err tt
  answer v (some ps) = ok (ps, v)

  abbrev found_at : Option (Str × V) → Str → Result (List (Str × Str) × V) (Unit {0})
  found_at none topic = err tt
  found_at (some (path, v)) topic = answer v (take_all (split path) (split topic))

  abbrev put : Str → V → Option (Str × V) → Result (Unit {0}) (Unit {0}) × Option (Str × V)
  put path v none = (ok tt, some (path, v))
  put path v (some r) = (err tt, some r)

  abbrev pub one_route : Matchit crates V
  one_route = record { Router = Option (Str × V); new = none; insert = put; at = found_at }
