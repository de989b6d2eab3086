-- ===== src/Base/Int/Reading.antt =====
-- Numbers that were written in decimal can be read back.
use Prim.Native.Nat.{ℕ, zero, suc, ◌+◌, ◌-◌, ◌*◌, ◌/◌, ◌%◌, ◌≤◌, ◌<◌}
use mathlib.Core.List.{[], ◌∷◌}
use mathlib.Core.Path.{◌≡◌, refl, sym, ap, subst, ◌∙◌}
use mathlib.Core.Logic.{inl, inr, ◌≢◌}
use native.Mathlib.Omega.{arith}
use mosquitto_rs.Base.Tests.{◌==◌, Bool-cases}
use mosquitto_rs.Base.Lists.{Str, All}
use mosquitto_rs.Base.Int.{ℤ, pos, negsuc, digits, show_nat, show_int}

-- The number that digits stand for, after those of `n`.
read_nat : ℕ → Str → ℕ
read_nat n [] = n
read_nat n (c ∷ s) = read_nat (n * 10 + (c - 48)) s

read_nat-digits : (f n : ℕ) (rest : Str) → n < f → read_nat 0 (digits f n rest) ≡ read_nat n rest
unfolding read_nat digits
read_nat-digits zero n rest h = absurd (omega (arith, h))
read_nat-digits (suc f) n rest h = elim (Bool-cases (n / 10 == 0)) [
  | inl e ↦
      let same : 0 * 10 + (48 + n % 10 - 48) ≡ n = ground (arith, e) in
      rw (digits, e) rw (read_nat, same) refl
  | inr e ↦
      let same : n / 10 * 10 + (48 + n % 10 - 48) ≡ n = omega arith in
      rw (digits, e)
        (read_nat-digits f (n / 10) ((48 + n % 10) ∷ rest) (ground (arith, e, h))
          ∙ ap (λ k. read_nat k rest) same)
]

digits-All : (f n : ℕ) (rest : Str) → All (λ c. 48 ≤ c) rest → All (λ c. 48 ≤ c) (digits f n rest)
unfolding digits
digits-All zero n rest h = h
digits-All (suc f) n rest h = elim (Bool-cases (n / 10 == 0)) [
  | inl e ↦ rw (digits, e) (omega arith, h)
  | inr e ↦ rw (digits, e) (digits-All f (n / 10) ((48 + n % 10) ∷ rest) (omega arith, h))
]

show_nat-inj : (m n : ℕ) → show_nat m ≡ show_nat n → m ≡ n
unfolding show_nat read_nat
show_nat-inj m n e =
    sym (read_nat-digits (m + 1) m [] (omega arith))
    ∙ ap (read_nat 0) e
    ∙ read_nat-digits (n + 1) n [] (omega arith)

unsigned : (n : ℕ) (s : Str) → show_nat n ≡ b'-' ∷ s → ⊥
unfolding show_nat
unsigned n s e =
    let big : All (λ c. 48 ≤ c) (b'-' ∷ s) =
      subst (All (λ c. 48 ≤ c)) e (digits-All (n + 1) n [] tt) in
    omega (arith, big.0)

pub show_int-inj : (a b : ℤ) → show_int a ≡ show_int b → a ≡ b
unfolding show_int
show_int-inj (pos m) (pos n) e = ap pos (show_nat-inj m n e)
show_int-inj (negsuc m) (negsuc n) e =
    let same : show_nat (m + 1) ≡ show_nat (n + 1) = cc e in
    ap negsuc (omega (arith, show_nat-inj (m + 1) (n + 1) same))
show_int-inj (pos m) (negsuc n) e = absurd (unsigned m (show_nat (n + 1)) e)
show_int-inj (negsuc m) (pos n) e = absurd (unsigned n (show_nat (m + 1)) (sym e))

-- No written number has a point in it.
big-All : (s : Str) → All (λ c. 48 ≤ c) s → All (λ c. c ≢ b'.') s
big-All [] h = tt
big-All (c ∷ s) (big, h) = (ground (arith, big), big-All s h)

pub show_int-All : (a : ℤ) → All (λ c. c ≢ b'.') (show_int a)
unfolding show_int show_nat
show_int-All (pos n) = big-All (show_nat n) (digits-All (n + 1) n [] tt)
show_int-All (negsuc n) =
    (ground arith, big-All (show_nat (n + 1)) (digits-All (n + 1 + 1) (n + 1) [] tt))
