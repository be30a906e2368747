-- ===== src/Base/Sorting.antt =====
-- `std::sort` and `std::lower_bound` of <algorithm>, over `double`.
pub mod Laws
pub mod Search
use Prim.Native.Nat.{ℕ, zero, suc, ◌+◌, ◌-◌}
use rmol.Base.Tests.{if◌then◌else◌}
use rmol.Base.Lists.{drop, All}
use mathlib.Core.Bool.{Bool, true, ◌&&◌, not}
use mathlib.Core.Option.{Option, none, some}
use mathlib.Core.List.{List, [], ◌∷◌}
use rmol.Base.Double.{Double, ◌≼◌}

module _ {ℓ} {D : Type ℓ} ⦃d : Double D⦄ where
  pub insert : D → List D → List D
  insert x [] = x ∷ []
  insert x (y ∷ ys) = if d.lt y x then y ∷ insert x ys else x ∷ y ∷ ys

  unfoldable pub sort : List D → List D
  unfolding insert
  sort [] = []
  sort (x ∷ xs) = insert x (sort xs)

  -- the elements before the first that is not less than `v`
  unfoldable pub count_below : List D → D → ℕ
  count_below [] v = 0
  count_below (x ∷ xs) v = if d.lt x v then suc (count_below xs v) else 0

  -- `std::lower_bound` asks that no element less than `v` stands behind one that is not.
  pub none_below : List D → D → Bool
  none_below [] v = true
  none_below (x ∷ xs) v = not (d.lt x v) && none_below xs v

  unfoldable pub is_partitioned : List D → D → Bool
  unfolding none_below
  is_partitioned [] v = true
  is_partitioned (x ∷ xs) v = if d.lt x v then is_partitioned xs v else none_below xs v

  -- `std::lower_bound (begin + from, end, v) - begin`; undefined behaviour is `none`.
  unfoldable pub lower_bound : ℕ → List D → D → Option ℕ
  unfolding is_partitioned
  lower_bound from xs v =
      let rest = drop from xs in
      if is_partitioned rest v then some (from + count_below rest v) else none

  -- no element is less than an earlier one
  abbrev pub IsSorted : List D → Type 0
  IsSorted [] = Unit
  IsSorted (x ∷ xs) = All (λ y. x ≼ y) xs × IsSorted xs
