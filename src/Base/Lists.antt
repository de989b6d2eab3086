-- ===== src/Base/Lists.antt =====
-- Lists measured by native numbers, a predicate on all elements, and texts as code points.
use Prim.Native.Char.{code}
use Prim.Native.Nat.{ℕ, zero, suc, ◌+◌}
use Prim.Native.String.{String}
use mathlib.Core.Path.{◌≡◌, refl, sym, ap, subst}
use mathlib.Core.Logic.{◌↔◌, ◌≢◌, inl, inr}
use mathlib.Core.List.Memᴰ
use mathlib.Core.List.{Memᴰ, List, [], ◌∷◌, ◌++◌}
use native.Mathlib.Omega.{arith}

-- The characters of a text, as code points.
abbrev pub Str : Type 0
Str = List ℕ

abbrev pub Bytes : Type 0
Bytes = List ℕ

abbrev pub str : String → Str
str String.[] = []
str (String.◌∷◌ c s) = code c ∷ str s

module _ {ℓ} {A : Type ℓ} where
  abbrev pub length : List A → ℕ
  length [] = 0
  length (x ∷ xs) = suc (length xs)

  abbrev pub replicate : ℕ → A → List A
  replicate zero a = []
  replicate (suc n) a = a ∷ replicate n a

  pub length-append : (xs ys : List A) → length (xs ++ ys) ≡ length xs + length ys
  length-append [] ys = omega arith
  length-append (x ∷ xs) ys = omega (arith, length-append xs ys)

module _ {ℓ κ} {A : Type ℓ} (P : A → Type κ) where
  abbrev pub All : List A → Type κ
  All [] = Unit
  All (x ∷ xs) = P x × All xs

  pub All-append : (xs ys : List A) → All xs → All ys → All (xs ++ ys)
  All-append [] ys h k = k
  All-append (x ∷ xs) ys (p, h) k = (p, All-append xs ys h k)

  -- What holds on all elements is what holds on each member.
  pub All-iff : (xs : List A) → All xs ↔ ((x : A) → Memᴰ x xs → P x)
  All-iff [] = ((λ h x m. absurd (Memᴰ.not-nil m)), (λ h. tt))
  All-iff (y ∷ xs) = (
    λ (p, h) x m. elim (Memᴰ.cases_cons m) [
      | inl e ↦ subst P (sym e) p
      | inr k ↦ (All-iff xs).0 h x k
    ],
    λ h. (h y (Memᴰ.head refl), (All-iff xs).1 (λ x m. h x (Memᴰ.tail m))),
  )

-- The character at a place, 0 behind the end.
abbrev pub nth : ℕ → Str → ℕ
nth n [] = 0
nth zero (c ∷ s) = c
nth (suc n) (c ∷ s) = nth n s

-- Texts that differ in one place differ.
pub differ {ℓ} : {P : Type ℓ} (n : ℕ) {x y : Str} → nth n x ≢ nth n y → x ≡ y → P
differ n other e = absurd (other (ap (nth n) e))
