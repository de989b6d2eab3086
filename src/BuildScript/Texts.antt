-- ===== src/BuildScript/Texts.antt =====
-- What the searches in texts of libmosquitto-sys/build.rs find.
use mosquitto_rs.Base.{
  ◌==◌, ==_iff, ==_refl, ◌≡◌, ◌≢◌, refl, ap, ◌↔◌, ◌⊎◌, inl, inr, true, false, [], ◌∷◌, ◌++◌, All,
  Str, Bytes, arith, Bool-cases,
}
use mosquitto_rs.BuildScript.Cargo.{first_path, starts_with, contains}

-- The text occurs in the other.
abbrev pub Contains : Str → Str → Type 0
Contains p s = (a : Str) × (b : Str) × (s ≡ a ++ p ++ b)

starts_with-append : (p s : Str) → starts_with p s ≡ true → (b : Str) × (s ≡ p ++ b)
unfolding starts_with
starts_with-append [] s h = (s, refl)
starts_with-append (x ∷ p) [] h = cc
starts_with-append (x ∷ p) (c ∷ s) h = elim (Bool-cases (x == c)) [
  | inl e ↦
      let (b, f) = starts_with-append p s (rw e at h) in
      let same : x ≡ c = (==_iff x c).0 e in (b, cc (f, same))
  | inr e ↦ let no : false ≡ true = rw e at h in cc no
]

starts_with_prefix : (p b : Str) → starts_with p (p ++ b) ≡ true
unfolding starts_with
starts_with_prefix [] b = refl
starts_with_prefix (x ∷ p) b = rw (==_refl x) (starts_with_prefix p b)

contains-Contains : (p s : Str) → contains p s ≡ true → Contains p s
unfolding contains
contains-Contains p [] h = let (b, e) = starts_with-append p [] h in ([], b, e)
contains-Contains p (c ∷ s) h = elim (Bool-cases (starts_with p (c ∷ s))) [
  | inl e ↦ let (b, f) = starts_with-append p (c ∷ s) e in ([], b, f)
  | inr e ↦ let (a, b, f) = contains-Contains p s (rw e at h) in (c ∷ a, b, ap (◌∷◌ c) f)
]

contains_start : (p s : Str) → starts_with p s ≡ true → contains p s ≡ true
unfolding contains
contains_start p [] h = h
contains_start p (c ∷ s) h = rw (contains, h) refl

contains_inside : (p a b : Str) → contains p (a ++ p ++ b) ≡ true
unfolding contains
contains_inside p [] b = contains_start p (p ++ b) (starts_with_prefix p b)
contains_inside p (c ∷ a) b = ground (arith, contains_inside p a b)

pub contains_iff : (p s : Str) → (contains p s ≡ true) ↔ Contains p s
contains_iff p s = (contains-Contains p s, λ (a, b, e). rw e (contains_inside p a b))

-- A list of paths ends, or goes on after a colon.
abbrev pub Ends : Bytes → Type 0
Ends rest = (rest ≡ []) ⊎ ((more : Bytes) × (rest ≡ b':' ∷ more))

abbrev pub HasNoColon : Bytes → Type 0
HasNoColon path = All (λ b. b ≢ b':') path

pub first_path-HasNoColon :
    (bs : Bytes)
    → HasNoColon (first_path bs) × ((rest : Bytes) × Ends rest × (bs ≡ first_path bs ++ rest))
unfolding first_path
first_path-HasNoColon [] = (tt, ([], inl refl, refl))
first_path-HasNoColon (b ∷ bs) = elim (Bool-cases (b == b':')) [
  | inl e ↦
      let same : b ≡ b':' = (==_iff b b':').0 e in
      rw (first_path, e) (tt, (b ∷ bs, inr (bs, ap (λ x. x ∷ bs) same), refl))
  | inr e ↦
      let (none_before, (rest, ends, split)) = first_path-HasNoColon bs in
      rw (first_path, e) ((ground (arith, e), none_before), (rest, ends, ap (◌∷◌ b) split))
]

pub first_path-append :
    (path rest : Bytes) → HasNoColon path → Ends rest → first_path (path ++ rest) ≡ path
unfolding first_path
first_path-append [] rest h (inl e) = rw e refl
first_path-append [] rest h (inr (more, e)) = rw e refl
first_path-append (b ∷ path) rest (n, h) ends =
    ground (arith, n, first_path-append path rest h ends)
