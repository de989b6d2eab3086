-- ===== src/Lowlevel/Version.antt =====
-- The `Display` instance of `LibraryVersion` in mosquitto-rs/src/lowlevel.rs.
use mathlib.Core.List.{append_assoc}
use mosquitto_rs.Base.{◌≡◌, refl, sym, ◌∙◌, ◌≢◌, ◌↔◌, [], ◌∷◌, ◌++◌, All, Str, str}
use mosquitto_rs.Base.Int.{ℤ, show_int}
use mosquitto_rs.Base.Int.Reading.{show_int-inj, show_int-All}
use mosquitto_rs.Lowlevel.Mosq.{LibraryVersion, version_display}

-- A version as it is written: three numbers, and points between them.
abbrev pub dotted : ℤ → ℤ → ℤ → Str
dotted a b c = show_int a ++ str "." ++ show_int b ++ str "." ++ show_int c

abbrev HasNoPoint : Str → Type 0
HasNoPoint s = All (λ c. c ≢ b'.') s

-- Texts with the same rest of a text behind a first point.
before_point :
    (xs ys a b : Str) → HasNoPoint xs → HasNoPoint ys → xs ++ b'.' ∷ a ≡ ys ++ b'.' ∷ b → xs ≡ ys
before_point [] [] a b h k e = refl
before_point [] (y ∷ ys) a b h (n, k) e = absurd (n (cc e))
before_point (x ∷ xs) [] a b (n, h) k e = absurd (n (cc e))
before_point (x ∷ xs) (y ∷ ys) a b (n, h) (m, k) e =
    let heads : x ≡ y = cc e in
    let tails : xs ++ b'.' ∷ a ≡ ys ++ b'.' ∷ b = cc e in
    let rest = before_point xs ys a b h k tails in cc (heads, rest)

regroup : (a b c : ℤ) → dotted a b c ≡ show_int a ++ b'.' ∷ (show_int b ++ str "." ++ show_int c)
regroup a b c = simp (append_assoc)

dotted-first : (a b c a' b' c' : ℤ) → dotted a b c ≡ dotted a' b' c' → a ≡ a'
dotted-first a b c a' b' c' e = show_int-inj a a' (
    before_point (show_int a) (show_int a') (show_int b ++ str "." ++ show_int c)
      (show_int b' ++ str "." ++ show_int c') (show_int-All a) (show_int-All a')
      (sym (regroup a b c) ∙ e ∙ regroup a' b' c'))

-- The text of a version is the version as it is written, major.minor.revision, exactly if the major
-- and the minor number are equal.
pub version_display_iff :
    (v : LibraryVersion)
    → (version_display v ≡ dotted v.major v.minor v.revision) ↔ (v.major ≡ v.minor)
unfolding version_display
version_display_iff v = (
  λ e. sym (dotted-first v.minor v.major v.revision v.major v.minor v.revision e),
  λ e. rw e refl,
)
