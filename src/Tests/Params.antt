-- ===== src/Tests/Params.antt =====
-- Parameters as JSON objects, over association lists.
use mosquitto_rs.Base.{
  ◌≡◌, refl, ◌≢◌, ◌⊎◌, inl, inr, Option, none, some, List, [], ◌∷◌, ◌++◌, Str, str, Bool-cases,
  if◌then◌else◌,
}
use mosquitto_rs.Router.Dispatch.{params_value}
use mosquitto_rs.Router.Params.{MapLaws, IsAbsent, params_value_cases}
use mosquitto_rs.Tests.OneRoute.{crates, same, same_iff}

abbrev find_value : Str → List (Str × Str) → Option Str
find_value k [] = none
find_value k ((j, v) ∷ m) = if same j k then some v else find_value k m

find_same : (k v : Str) (m : List (Str × Str)) → find_value k ((k, v) ∷ m) ≡ some v
find_same k v m = rw ((same_iff k k).1 refl) refl

find_other :
    (k j v : Str) (m : List (Str × Str)) → j ≢ k → find_value k ((j, v) ∷ m) ≡ find_value k m
find_other k j v m n = elim (Bool-cases (same j k)) [
  | inl e ↦ absurd (n (cc ((same_iff j k).0 e)))
  | inr e ↦ rw e refl
]

laws : MapLaws crates
laws = record {
  get = find_value;
  get_empty = λ k. refl;
  get_same = find_same;
  get_other = find_other;
  is_empty_empty = refl;
  is_empty_insert = λ k v m. refl;
}

-- Two parameters of one name.
abbrev twice : List (Str × Str)
twice = (str "a", str "1") ∷ (str "b", str "2") ∷ (str "a", str "3") ∷ []

params_value_cases_example :
    ((twice ≡ []) × (params_value crates twice ≡ []))
    ⊎ ((m : List (Str × Str)) × (params_value crates twice ≡ m)
        × ((before after : List (Str × Str)) (k v : Str)
            → twice ≡ before ++ (k, v) ∷ after
            → IsAbsent k after
            → find_value k m ≡ some v)
        × ((k : Str) → IsAbsent k twice → find_value k m ≡ none))
unfolding laws
params_value_cases_example = params_value_cases crates laws twice
