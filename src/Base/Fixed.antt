-- ===== src/Base/Fixed.antt =====
-- Fixed-point numbers, in thousandths: values for which the laws of `Double` hold.
use rmol.Base.Tests.{if◌then◌else◌, leb}
use Prim.Native.Nat.{ℕ, zero, suc, ◌+◌, ◌*◌, ◌/◌, ◌^◌, ◌≤◌, ◌<◌}
use mathlib.Core.Path.{◌≡◌}
use mathlib.Core.Bool.{true}
use native.Mathlib.Nat.{mul-le-mul_left, div-mul-le_self, le-div_iff_mul-le}
use rmol.Base.Int.{ℤ, pos, negsuc, ltb_ℤ, leb_ℤ, eqb_ℤ, ◌+ℤ◌, ◌-ℤ◌, ◌*ℤ◌, ◌/ℤ◌}
use native.Mathlib.Omega.{arith}
use rmol.Base.Double.{Double, IsOrdered, IsRounded}

abbrev pub Fixed : Type 0
Fixed = ℤ

-- the largest r up to `bound` with r * r ≤ n
unfoldable pub root_below : ℕ → ℕ → ℕ
root_below zero n = 0
root_below (suc r) n = let rest = root_below r n in if leb (suc r * suc r) n then suc r else rest

abbrev square_root : ℤ → ℤ
square_root (pos n) = pos (root_below n (n * 1000))
square_root (negsuc n) = pos 0

abbrev round_down : ℤ → ℤ
round_down (pos n) = pos (n / 1000 * 1000)
round_down (negsuc n) = pos 0 -ℤ pos ((n / 1000 + 1) * 1000)

-- 1 + x, and 0 below -1: a rough but rising exponential
abbrev rough_exp : ℤ → ℤ
rough_exp x = if ltb_ℤ x (pos 0 -ℤ pos 1000) then pos 0 else x +ℤ pos 1000

instance abbrev pub fixed_double : Double Fixed
fixed_double = record {
  literal = λ m k. pos (m * 1000 / 10 ^ k);
  add = ◌+ℤ◌;
  sub = ◌-ℤ◌;
  mul = λ a b. (a *ℤ b) /ℤ pos 1000;
  div = λ a b. (a *ℤ pos 1000) /ℤ b;
  neg = λ a. pos 0 -ℤ a;
  lt = ltb_ℤ;
  le = leb_ℤ;
  eq = eqb_ℤ;
  floor = round_down;
  sqrt = square_root;
  exp = rough_exp;
  log = λ x. x -ℤ pos 1000;
  to_int = λ x. x /ℤ pos 1000;
}

pub Fixed-IsOrdered : IsOrdered Fixed
Fixed-IsOrdered = ground arith

scaled_mono : (n a b : ℕ) → a ≤ b → n * a / 1000 ≤ n * b / 1000
scaled_mono n a b h = grind (arith, mul-le-mul_left)

quotient_mono : (a b c : ℕ) → 0 < c → a ≤ b → a / c ≤ b / c
quotient_mono a b c p h =
    let below : a / c * c ≤ b = omega (arith, div-mul-le_self a c) in (le-div_iff_mul-le p).1 below

mul_mono :
    (y a b : ℤ)
    → leb_ℤ (pos 0) y ≡ true
    → leb_ℤ a b ≡ true
    → leb_ℤ ((y *ℤ a) /ℤ pos 1000) ((y *ℤ b) /ℤ pos 1000) ≡ true
unfolding ◌*ℤ◌ ◌/ℤ◌
mul_mono (pos n) (pos a) (pos b) p h = ground (arith, scaled_mono n a b)
mul_mono (pos n) (negsuc a) (pos b) p h = ground arith
mul_mono (pos n) (pos a) (negsuc b) p h = absurd (ground arith)
mul_mono (pos n) (negsuc a) (negsuc b) p h = ground (arith, scaled_mono n (suc b) (suc a))
mul_mono (negsuc n) a b p h = absurd (ground arith)

div_mono :
    (a b c : ℤ)
    → ltb_ℤ (pos 0) c ≡ true
    → leb_ℤ a b ≡ true
    → leb_ℤ ((a *ℤ pos 1000) /ℤ c) ((b *ℤ pos 1000) /ℤ c) ≡ true
unfolding ◌*ℤ◌ ◌/ℤ◌
div_mono (pos a) (pos b) (pos c) p h = ground (arith, quotient_mono (a * 1000) (b * 1000) c)
div_mono (negsuc a) (pos b) (pos c) p h = ground arith
div_mono (pos a) (negsuc b) (pos c) p h = absurd (ground arith)
div_mono (negsuc a) (negsuc b) (pos c) p h =
    ground (arith, quotient_mono (suc b * 1000) (suc a * 1000) c)
div_mono a b (negsuc c) p h = absurd (ground arith)

pub Fixed-IsRounded : IsRounded Fixed
unfolding ◌-ℤ◌
Fixed-IsRounded = record {
  sub_mono = λ x a b h _ _. ground arith;
  mul_mono = λ y a b p h _ _. mul_mono y a b p h;
  div_mono = λ a b c p h _ _. div_mono a b c p h;
}
