-- ===== src/Router/Params.antt =====
-- mosquitto-rs/src/router.rs: the parameters of a route as the JSON value of a request.
use mosquitto_rs.Base.{
  ◌≡◌, refl, ◌∙◌, ap, ◌≢◌, ◌⊎◌, inl, inr, true, false, Option, none, some, List, [], ◌∷◌, ◌++◌, All,
  Str,
}
use mosquitto_rs.Router.Dispatch.{value_map, params_value}
use mosquitto_rs.Router.Request.{Crates}

-- The documented behaviour of `serde_json::Map`.
pub record MapLaws (c : Crates) : Type 0 where
  pub get : Str → c.JsonMap → Option Str
  pub get_empty : (k : Str) → get k c.empty ≡ none
  pub get_same : (k v : Str) (m : c.JsonMap) → get k (c.insert k v m) ≡ some v
  pub get_other : (k j v : Str) (m : c.JsonMap) → j ≢ k → get k (c.insert j v m) ≡ get k m
  pub is_empty_empty : c.is_empty c.empty ≡ true
  pub is_empty_insert : (k v : Str) (m : c.JsonMap) → c.is_empty (c.insert k v m) ≡ false

-- No parameter has the name.
abbrev pub IsAbsent : Str → List (Str × Str) → Type 0
IsAbsent k params = All (λ q. q.0 ≢ k) params

module _ (c : Crates) (laws : MapLaws c) where
  value_map_absent :
      (k : Str) (m : c.JsonMap) (params : List (Str × Str))
      → IsAbsent k params
      → laws.get k (value_map c m params) ≡ laws.get k m
  unfolding value_map
  value_map_absent k m [] h = refl
  value_map_absent k m ((j, v) ∷ params) (n, h) =
      value_map_absent k (c.insert j v m) params h ∙ laws.get_other k j v m n

  value_map_last :
      (k v : Str) (m : c.JsonMap) (before after : List (Str × Str))
      → IsAbsent k after
      → laws.get k (value_map c m (before ++ (k, v) ∷ after)) ≡ some v
  unfolding value_map
  value_map_last k v m [] after h =
      value_map_absent k (c.insert k v m) after h ∙ laws.get_same k v m
  value_map_last k v m ((j, w) ∷ before) after h =
      value_map_last k v (c.insert j w m) before after h

  -- A map that holds some parameter is not empty.
  value_map_full :
      (m : c.JsonMap) (k v : Str) (params : List (Str × Str))
      → c.is_empty (value_map c (c.insert k v m) params) ≡ false
  unfolding value_map
  value_map_full m k v [] = laws.is_empty_insert k v m
  value_map_full m k v ((j, w) ∷ params) = value_map_full (c.insert k v m) j w params

  -- A request without parameters has the JSON value `null`. Any other has an object: it maps each
  -- name that occurs to the value of its last occurrence, and no other name to anything.
  pub params_value_cases :
      (params : List (Str × Str))
      → ((params ≡ []) × (params_value c params ≡ c.null))
        ⊎ ((m : c.JsonMap) × (params_value c params ≡ c.object m)
            × ((before after : List (Str × Str)) (k v : Str)
                → params ≡ before ++ (k, v) ∷ after
                → IsAbsent k after
                → laws.get k m ≡ some v)
            × ((k : Str) → IsAbsent k params → laws.get k m ≡ none))
  unfolding params_value
  params_value_cases [] = inl (refl, rw (laws.is_empty_empty, params_value) refl)
  params_value_cases ((j, w) ∷ params) = inr (
    value_map c c.empty ((j, w) ∷ params),
    rw (value_map_full c.empty j w params, params_value) refl,
    λ before after k v e h.
        ap (λ ps. laws.get k (value_map c c.empty ps)) e
        ∙ value_map_last k v c.empty before after h,
    λ k h. value_map_absent k c.empty ((j, w) ∷ params) h ∙ laws.get_empty k,
  )
