-- ===== src/Base/Int.antt =====
-- C's `int` as an integer, its casts and the checked conversions into it.
pub mod Reading
use Prim.Native.Nat.{ℕ, zero, suc, ◌+◌, ◌-◌, ◌<◌, ◌^◌, ◌/◌, ◌%◌}
use mathlib.Core.List.{List, [], ◌∷◌}
use mathlib.Core.Bool.{Bool, true, false}
use mathlib.Core.Logic.{◌↔◌, ◌≢◌}
use mathlib.Core.Option.{Option, none, some}
use mathlib.Core.Path.{◌≡◌, refl}
use native.Mathlib.Omega.{arith}
use mosquitto_rs.Base.Tests.{◌==◌, leb, if◌then◌else◌}

-- `negsuc n` is -(n + 1).
pub data ℤ : Type 0 where
  pos : ℕ → ℤ
  negsuc : ℕ → ℤ

infix 50 ◌==ℤ◌
abbrev pub ◌==ℤ◌ : ℤ → ℤ → Bool
pos a ==ℤ pos b = a == b
negsuc a ==ℤ negsuc b = a == b
pos a ==ℤ negsuc b = false
negsuc a ==ℤ pos b = false

pub ==ℤ_iff : (a b : ℤ) → ((a ==ℤ b) ≡ true) ↔ (a ≡ b)
==ℤ_iff (pos a) (pos b) = ground arith
==ℤ_iff (negsuc a) (negsuc b) = ground arith
==ℤ_iff (pos a) (negsuc b) = ground arith
==ℤ_iff (negsuc a) (pos b) = ground arith

pub ==ℤ_refl : (a : ℤ) → (a ==ℤ a) ≡ true
==ℤ_refl a = (==ℤ_iff a a).1 refl

pub ==ℤ_ne : (a b : ℤ) → (a ==ℤ b) ≡ false → a ≢ b
==ℤ_ne a b h e = cc (h, (==ℤ_iff a b).1 e)

-- A value that `int` of 32 bits holds.
abbrev pub IsCInt : ℤ → Type 0
IsCInt (pos n) = n < 2147483648
IsCInt (negsuc n) = n < 2147483648

-- `try_into` from an unsigned integer into `c_int` and `c_uint`.
unfoldable pub to_c_int : ℕ → Option ℤ
to_c_int n = if leb n 2147483647 then some (pos n) else none

unfoldable pub to_c_uint : ℕ → Option ℕ
to_c_uint n = if leb n 4294967295 then some n else none

-- `as u32` of a `c_int`.
unfoldable pub as_u32 : ℤ → ℕ
as_u32 (pos n) = n % 2 ^ 32
as_u32 (negsuc n) = 2 ^ 32 - 1 - n % 2 ^ 32

-- Decimal digits, the last in front of `rest`; a number has at most as many digits as its value
-- plus one.
digits : ℕ → ℕ → List ℕ → List ℕ
digits zero n rest = rest
digits (suc f) n rest =
    let more = digits f (n / 10) ((48 + n % 10) ∷ rest) in
    if n / 10 == 0 then (48 + n % 10) ∷ rest else more

-- `to_string` of a number.
unfoldable pub show_nat : ℕ → List ℕ
unfolding digits
show_nat n = digits (n + 1) n []

unfoldable pub show_int : ℤ → List ℕ
unfolding show_nat
show_int (pos n) = show_nat n
show_int (negsuc n) = b'-' ∷ show_nat (n + 1)
