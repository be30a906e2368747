-- ===== src/Base/Double.antt =====
-- What the code does with a `double`: decimal literals, arithmetic, comparisons, the functions of
-- <cmath> that it calls, and the conversion to `int`. The values are a parameter of the model.
use Prim.Native.Nat.{ℕ, ◌≤◌, ◌<◌, ◌^◌}
use mathlib.Core.Path.{◌≡◌}
use mathlib.Core.Bool.{Bool, true, false}
use rmol.Base.Int.{ℤ}

pub record Double {ℓ} (D : Type ℓ) : Type ℓ where
  -- `literal m k` is the value of m / 10^k: `literal 625 3` is 0.625
  pub literal : ℕ → ℕ → D
  pub add : D → D → D
  pub sub : D → D → D
  pub mul : D → D → D
  pub div : D → D → D
  pub neg : D → D
  pub lt : D → D → Bool
  pub le : D → D → Bool
  pub eq : D → D → Bool
  pub floor : D → D
  pub sqrt : D → D
  pub exp : D → D
  pub log : D → D
  -- `static_cast<int>`
  pub to_int : D → ℤ

module _ {ℓ} {D : Type ℓ} ⦃d : Double D⦄ where
  infixl 65 ◌⊕◌ ◌⊖◌
  infixl 70 ◌⊗◌ ◌⊘◌
  infix 50 ◌≺◌ ◌≼◌
  abbrev pub ◌⊕◌ : D → D → D
  x ⊕ y = d.add x y

  abbrev pub ◌⊖◌ : D → D → D
  x ⊖ y = d.sub x y

  abbrev pub ◌⊗◌ : D → D → D
  x ⊗ y = d.mul x y

  abbrev pub ◌⊘◌ : D → D → D
  x ⊘ y = d.div x y

  -- an unsigned number as a `double`
  abbrev pub of_ℕ : ℕ → D
  of_ℕ n = d.literal n 0

  abbrev pub nought : D
  nought = d.literal 0 0

  abbrev pub ◌≺◌ : D → D → Type 0
  x ≺ y = d.lt x y ≡ true

  abbrev pub ◌≼◌ : D → D → Type 0
  x ≼ y = d.le x y ≡ true

  -- Every comparison with NaN is false, `x <= x` too.
  abbrev pub IsNumber : D → Type 0
  IsNumber x = x ≼ x

-- IEEE 754: the comparisons are those of a total order, away from NaN.
pub record IsOrdered {ℓ} (D : Type ℓ) ⦃d : Double D⦄ : Type ℓ where
  pub lt_irrefl : (x : D) → d.lt x x ≡ false
  pub lt_trans : (x y z : D) → x ≺ y → y ≺ z → x ≺ z
  pub le_trans : (x y z : D) → x ≼ y → y ≼ z → x ≼ z
  pub lt_of_lt_of_le : (x y z : D) → x ≺ y → y ≼ z → x ≺ z
  pub lt_of_le_of_lt : (x y z : D) → x ≼ y → y ≺ z → x ≺ z
  pub le_of_lt : (x y : D) → x ≺ y → x ≼ y
  pub number_of_le : (x y : D) → x ≼ y → IsNumber x × IsNumber y
  pub le_of_not_lt : (x y : D) → IsNumber x → IsNumber y → d.lt y x ≡ false → x ≼ y
  pub of_ℕ_number : (n : ℕ) → IsNumber (of_ℕ {D = D} n)
  -- whole numbers up to 2^53 are exact
  pub of_ℕ_strict : (m n : ℕ) → m < n → n ≤ 2 ^ 53 → of_ℕ {D = D} m ≺ of_ℕ n
  pub of_ℕ_mono : (m n : ℕ) → m ≤ n → of_ℕ {D = D} m ≼ of_ℕ n

-- IEEE 754: the operations round to a nearest value, so they keep the order of an operand (or turn
-- it round, for the second operand of a difference), as far as the results are numbers.
pub record IsRounded {ℓ} (D : Type ℓ) ⦃d : Double D⦄ : Type ℓ where
  pub sub_mono : (x a b : D) → a ≼ b → IsNumber (x ⊖ a) → IsNumber (x ⊖ b) → x ⊖ b ≼ x ⊖ a
  pub mul_mono :
      (y a b : D) → nought ≼ y → a ≼ b → IsNumber (y ⊗ a) → IsNumber (y ⊗ b) → y ⊗ a ≼ y ⊗ b
  pub div_mono :
      (a b c : D) → nought ≺ c → a ≼ b → IsNumber (a ⊘ c) → IsNumber (b ⊘ c) → a ⊘ c ≼ b ⊘ c
