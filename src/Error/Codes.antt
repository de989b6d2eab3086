-- ===== src/Error/Codes.antt =====
-- Which error each result code of the C library becomes.
use mosquitto_rs.Base.{
  ℕ, zero, suc, ◌<◌, ◌≡◌, refl, sym, ap, subst, ◌∙◌, ◌≢◌, ◌↔◌, ◌⊎◌, inl, inr, Bool, true, false,
  ◌&&◌, Option, none, some, List, [], ◌∷◌, All, ok, err, arith, Bool-cases, Option-cases,
}
use mosquitto_rs.Base.Int.{ℤ, pos, negsuc, ◌==ℤ◌, ==ℤ_iff, ==ℤ_ne}
use mosquitto_rs.Error.{
  Error, io, mosq, unknown_mosq, resolution, ErrMap, get, build_map, gai_error, from_err, result,
}
use mosquitto_rs.Sys.{MosqErr, err_code}
use mosquitto_rs.Sys.Library.{Library}

-- The codes that `build_map` lists run from -4 to 26.
abbrev pub IsListed : ℤ → Type 0
IsListed (pos n) = n < 27
IsListed (negsuc n) = n < 4

is_found : Option MosqErr → Bool
is_found none = false
is_found (some e) = true

is_found-some : (o : Option MosqErr) → is_found o ≡ true → (e : MosqErr) × (o ≡ some e)
unfolding is_found
is_found-some none h = cc
is_found-some (some e) h = (e, refl)

-- Whether the map has an entry for each of the first codes of a sequence.
maps_first : (ℕ → ℤ) → ℕ → Bool
maps_first code zero = true
maps_first code (suc k) = maps_first code k && is_found (get (code k) build_map)

maps_first-get :
    (code : ℕ → ℤ) (k i : ℕ)
    → i < k
    → maps_first code k ≡ true
    → is_found (get (code i) build_map) ≡ true
unfolding maps_first
maps_first-get code zero i below all = absurd (omega arith)
maps_first-get code (suc k) i below all = ground (arith, maps_first-get code k i)

get-IsListed : (c : ℤ) → IsListed c → (e : MosqErr) × (get c build_map ≡ some e)
unfolding maps_first is_found get build_map
get-IsListed (pos n) h = is_found-some _ (maps_first-get pos 27 n h refl)
get-IsListed (negsuc n) h = is_found-some _ (maps_first-get negsuc 4 n h refl)

-- Every entry stands under its own code, which is listed.
abbrev IsCoherent : ErrMap → Type 0
IsCoherent m = All (λ p. (err_code p.1 ≡ p.0) × IsListed p.0) m

build_map-IsCoherent : IsCoherent build_map
unfolding build_map
build_map-IsCoherent = ground arith

get-code :
    (c : ℤ) (m : ErrMap) (e : MosqErr)
    → IsCoherent m
    → get c m ≡ some e
    → (err_code e ≡ c) × IsListed c
unfolding get
get-code c [] e h g = cc
get-code c ((k, d) ∷ m) e ((own, listed), h) g = elim (Bool-cases (k ==ℤ c)) [
  | inl hit ↦
      let held : d ≡ e = ground arith in
      subst (λ j. (err_code e ≡ j) × IsListed j) ((==ℤ_iff k c).0 hit)
        (ap err_code (sym held) ∙ own, listed)
  | inr miss ↦ get-code c m e h (ground arith)
]

module _ {Obj : Type 0} (lib : Library Obj) (w : lib.World) where
  -- What an error says of the code that it was made from.
  abbrev pub Reports : ℤ → Error → Type 0
  Reports c (io e) = (c ≡ err_code MosqErr.errno) × (e ≡ lib.last_os_error w)
  Reports c (resolution reason) =
      (c ≡ err_code MosqErr.eai) × (reason ≡ gai_error lib (lib.last_os_error w))
  Reports c (mosq e) = (err_code e ≡ c) × IsListed c × (e ≢ MosqErr.errno) × (e ≢ MosqErr.eai)
  Reports c (unknown_mosq d) = (d ≡ c) × (¬ IsListed c)
  Reports c _ = ⊥

  other-Reports :
      (c : ℤ)
      → c ≢ err_code MosqErr.errno
      → c ≢ err_code MosqErr.eai
      → Reports c (elim (get c build_map) [ some e ↦ mosq e | none ↦ unknown_mosq c ])
  other-Reports c p q = elim (Option-cases (get c build_map)) [
    | inl e ↦ rw e (refl, λ listed. cc (e, (get-IsListed c listed).1))
    | inr (e, found) ↦ rw found (
        let (own, listed) = get-code c build_map e build_map-IsCoherent found in
        (own, listed, λ a. p (sym own ∙ ap err_code a), λ a. q (sym own ∙ ap err_code a)))
  ]

  pub from_err-Reports : (c : ℤ) → Reports c (from_err lib c w)
  unfolding from_err
  from_err-Reports c = elim (Bool-cases (c ==ℤ err_code MosqErr.errno)) [
    | inl os ↦ rw os ((==ℤ_iff _ _).0 os, refl)
    | inr not_os ↦ rw not_os (elim (Bool-cases (c ==ℤ err_code MosqErr.eai)) [
      | inl dns ↦ rw dns ((==ℤ_iff _ _).0 dns, refl)
      | inr not_dns ↦ rw not_dns (other-Reports c (==ℤ_ne _ _ not_os) (==ℤ_ne _ _ not_dns))
    ])
  ]

  of_Reports : (c : ℤ) (e : Error) → Reports c e → ¬ IsListed c → e ≡ unknown_mosq c
  unfolding err_code
  of_Reports c (unknown_mosq d) (same, _) h = ap unknown_mosq same
  of_Reports c (io e) (same, _) h = absurd (h (rw same (omega arith)))
  of_Reports c (resolution t) (same, _) h = absurd (h (rw same (omega arith)))
  of_Reports c (mosq e) (_, listed, _, _) h = absurd (h listed)
  of_Reports c (Error.create e) r h = absurd r
  of_Reports c (Error.c_string e) r h = absurd r
  of_Reports c (Error.rejected_connection e) r h = absurd r

  -- `Error::result` is `Ok` exactly for the code 0. Any other code gives an error that reports it:
  -- `Io` with `errno` for 14, `Resolution` with the text of `getaddrinfo`'s code for 15, `Mosq` with
  -- the enumerator of that very code, or `UnknownMosq` with the code, which is then outside -4..26.
  pub result-Reports :
      {T : Type 0} (c : ℤ) (res : T)
      → ((c ≡ pos 0) × (result lib c res w ≡ ok res))
        ⊎ ((c ≢ pos 0) × ((e : Error) × (result lib c res w ≡ err e) × Reports c e))
  unfolding result err_code
  result-Reports c res = elim (Bool-cases (c ==ℤ pos 0)) [
    | inl zero_code ↦ inl ((==ℤ_iff _ _).0 zero_code, rw zero_code refl)
    | inr other ↦ inr (==ℤ_ne _ _ other, (from_err lib c w, rw other refl, from_err-Reports c))
  ]

  -- A code becomes `UnknownMosq` exactly if it is outside -4..26.
  pub from_err-unknown_iff : (c : ℤ) → (from_err lib c w ≡ unknown_mosq c) ↔ (¬ IsListed c)
  from_err-unknown_iff c =
      (λ e. (subst (Reports c) e (from_err-Reports c)).1, of_Reports c _ (from_err-Reports c))

-- `mosq_err_t` has five enumerators that `build_map` leaves out.
abbrev pub left_out : List MosqErr
left_out =
    MosqErr.timeout ∷ MosqErr.retain_not_supported ∷ MosqErr.topic_alias_invalid
    ∷ MosqErr.administrative_action ∷ MosqErr.already_exists ∷ []

IsListed-err_code : (e : MosqErr) → All (λ d. e ≢ d) left_out → IsListed (err_code e)
unfolding err_code
IsListed-err_code e h = ground arith

All-of_IsListed : (e : MosqErr) → IsListed (err_code e) → All (λ d. e ≢ d) left_out
unfolding err_code
All-of_IsListed e h = ground arith

-- Of the enumerators of `mosq_err_t` those five, and no other, come back as `UnknownMosq` with their
-- code, in every state of the C library.
pub from_err-left_out_iff :
    {Obj : Type 0} (lib : Library Obj) (w : lib.World) (e : MosqErr)
    → (from_err lib (err_code e) w ≡ unknown_mosq (err_code e)) ↔ (¬ All (λ d. e ≢ d) left_out)
from_err-left_out_iff lib w e =
    let (to, from) = from_err-unknown_iff lib w (err_code e) in
    (
      λ u others. to u (IsListed-err_code e others),
      λ h. from (λ listed. h (All-of_IsListed e listed)),
    )
