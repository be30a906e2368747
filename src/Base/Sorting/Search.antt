-- ===== src/Base/Sorting/Search.antt =====
-- `lower_bound` on a sorted list, also when it goes on from an earlier place.
use Prim.Native.Nat.{ℕ, zero, suc, ◌+◌, ◌≤◌}
use mathlib.Core.Path.{◌≡◌, refl, ap, ◌∙◌}
use mathlib.Core.Logic.{inl, inr}
use mathlib.Core.Bool.{true, false}
use mathlib.Core.Option.{some, none}
use mathlib.Core.List.{List, [], ◌∷◌}
use native.Mathlib.Omega.{arith}
use rmol.Base.Tests.{Bool-cases}
use rmol.Base.Lists.{length, drop, All}
use rmol.Base.Double.{Double, IsOrdered, ◌≼◌}
use rmol.Base.Sorting.{count_below, none_below, is_partitioned, lower_bound, IsSorted}

drop-drop {ℓ} : {A : Type ℓ} (m n : ℕ) (xs : List A) → drop (m + n) xs ≡ drop n (drop m xs)
drop-drop zero n xs = ap (λ (k : ℕ). drop k xs) (omega arith)
drop-drop (suc m) zero [] =
    ap (λ (k : ℕ). drop k []) {x = suc m + 0} {y = suc (m + 0)} (omega arith)
drop-drop (suc m) (suc n) [] =
    ap (λ (k : ℕ). drop k []) {x = suc m + suc n} {y = suc (m + suc n)} (omega arith)
drop-drop (suc m) n (x ∷ xs) =
    ap (λ (k : ℕ). drop k (x ∷ xs)) {x = suc m + n} {y = suc (m + n)} (omega arith)
    ∙ drop-drop m n xs

module _ {ℓ} {D : Type ℓ} ⦃d : Double D⦄ where
  pub count_below-le : (xs : List D) (v : D) → count_below xs v ≤ length xs
  unfolding count_below
  count_below-le [] v = omega arith
  count_below-le (x ∷ xs) v = ground (arith, count_below-le xs v)

  count_below-drop :
      (from : ℕ) (xs : List D) (v : D)
      → from ≤ count_below xs v
      → from + count_below (drop from xs) v ≡ count_below xs v
  unfolding count_below
  count_below-drop zero xs v h = omega arith
  count_below-drop (suc n) [] v h = absurd (omega arith)
  count_below-drop (suc n) (x ∷ xs) v h = ground (arith, count_below-drop n xs v)

  drop-IsSorted : (n : ℕ) (xs : List D) → IsSorted xs → IsSorted (drop n xs)
  drop-IsSorted zero xs s = s
  drop-IsSorted (suc n) [] s = s
  drop-IsSorted (suc n) (x ∷ xs) s = drop-IsSorted n xs s.1

  pub lower_bound_unpartitioned :
      (from : ℕ) (xs : List D) (v : D)
      → is_partitioned (drop from xs) v ≡ false
      → lower_bound from xs v ≡ none
  unfolding lower_bound
  lower_bound_unpartitioned from xs v h = rw h

  lower_bound-value :
      (from at : ℕ) (xs : List D) (v : D)
      → lower_bound from xs v ≡ some at
      → at ≡ from + count_below (drop from xs) v
  unfolding lower_bound
  lower_bound-value from at xs v h = ground arith

  module _ (laws : IsOrdered D) where
    open laws use {lt_of_le_of_lt, lt_of_lt_of_le}

    is_partitioned-drop :
        (xs : List D) (v w : D)
        → v ≼ w
        → is_partitioned xs w ≡ false
        → is_partitioned (drop (count_below xs v) xs) w ≡ false
    unfolding is_partitioned count_below
    is_partitioned-drop [] v w h p = p
    is_partitioned-drop (x ∷ xs) v w h p = elim (Bool-cases (d.lt x v)) [
      | inl e ↦ rw e (is_partitioned-drop xs v w h (rw (lt_of_lt_of_le x v w e h) at p))
      | inr e ↦ rw e p
    ]

    -- A range that is not partitioned by a value is not so behind the place of a smaller one.
    pub unpartitioned_later :
        (from at : ℕ) (xs : List D) (v w : D)
        → v ≼ w
        → is_partitioned (drop from xs) w ≡ false
        → lower_bound from xs v ≡ some at
        → is_partitioned (drop at xs) w ≡ false
    unpartitioned_later from at xs v w h p found =
        rw (lower_bound-value from at xs v found, drop-drop from (count_below (drop from xs) v) xs)
          (is_partitioned-drop (drop from xs) v w h p)

    none_below-of_le :
        (x v : D) (xs : List D) → d.lt x v ≡ false → All (λ y. x ≼ y) xs → none_below xs v ≡ true
    unfolding none_below
    none_below-of_le x v [] h a = refl
    none_below-of_le x v (y ∷ ys) h (l, ls) =
        ground (arith, lt_of_le_of_lt x y v l, none_below-of_le x v ys h ls)

    pub is_partitioned_of_sorted : (xs : List D) (v : D) → IsSorted xs → is_partitioned xs v ≡ true
    unfolding is_partitioned
    is_partitioned_of_sorted [] v s = refl
    is_partitioned_of_sorted (x ∷ xs) v (a, s) = elim (Bool-cases (d.lt x v)) [
      | inl e ↦ rw e (is_partitioned_of_sorted xs v s)
      | inr e ↦ rw e (none_below-of_le x v xs e a)
    ]

    -- A search that starts at a place it would pass anyway finds what a search of the whole finds.
    pub lower_bound_resume :
        (from : ℕ) (xs : List D) (v : D)
        → IsSorted xs
        → from ≤ count_below xs v
        → lower_bound from xs v ≡ some (count_below xs v)
    unfolding lower_bound
    lower_bound_resume from xs v s h =
        rw (is_partitioned_of_sorted (drop from xs) v (drop-IsSorted from xs s))
          (ap some (count_below-drop from xs v h))

    pub count_below_mono : (xs : List D) (v w : D) → v ≼ w → count_below xs v ≤ count_below xs w
    unfolding count_below
    count_below_mono [] v w h = omega arith
    count_below_mono (x ∷ xs) v w h =
        ground (arith, lt_of_lt_of_le x v w, count_below_mono xs v w h)
