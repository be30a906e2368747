-- ===== src/Base/Sorting/Laws.antt =====
-- `sort` sorts, and keeps the elements.
use mathlib.Core.Path.{◌≡◌, refl}
use mathlib.Core.Logic.{inl, inr}
use mathlib.Core.List.{List, [], ◌∷◌, Perm}
use mathlib.Core.List.Perm
use native.Mathlib.Omega.{arith}
use Prim.Native.Nat.{suc}
use rmol.Base.Tests.{Bool-cases}
use rmol.Base.Lists.{length, All, All-map}
use rmol.Base.Double.{Double, IsOrdered, ◌≼◌, IsNumber}
use rmol.Base.Sorting.{insert, sort, IsSorted}

module _ {ℓ} {D : Type ℓ} ⦃d : Double D⦄ where
  insert-perm : (x : D) (xs : List D) → Perm (insert x xs) (x ∷ xs)
  unfolding insert
  insert-perm x [] = Perm.refl _
  insert-perm x (y ∷ ys) = elim (Bool-cases (d.lt y x)) [
    | inl e ↦ rw e (Perm.trans (Perm.cons y (insert-perm x ys)) (Perm.swap x y ys))
    | inr e ↦ rw e (Perm.refl _)
  ]

  pub sort-perm : (xs : List D) → Perm (sort xs) xs
  unfolding sort
  sort-perm [] = Perm.refl _
  sort-perm (x ∷ xs) = Perm.trans (insert-perm x (sort xs)) (Perm.cons x (sort-perm xs))

  length-insert : (x : D) (xs : List D) → length (insert x xs) ≡ suc (length xs)
  unfolding insert
  length-insert x [] = refl
  length-insert x (y ∷ ys) = ground (arith, length-insert x ys)

  pub length-sort : (xs : List D) → length (sort xs) ≡ length xs
  unfolding sort
  length-sort [] = refl
  length-sort (x ∷ xs) = omega (arith, length-insert x (sort xs), length-sort xs)

  All-insert : (P : D → Type 0) (x : D) (xs : List D) → P x → All P xs → All P (insert x xs)
  unfolding insert
  All-insert P x [] p ps = (p, tt)
  All-insert P x (y ∷ ys) p (q, qs) = elim (Bool-cases (d.lt y x)) [
    | inl e ↦ rw e (q, All-insert P x ys p qs)
    | inr e ↦ rw e (p, (q, qs))
  ]

  pub All-sort : (P : D → Type 0) (xs : List D) → All P xs → All P (sort xs)
  unfolding sort
  All-sort P [] _ = tt
  All-sort P (x ∷ xs) (p, ps) = All-insert P x (sort xs) p (All-sort P xs ps)

  module _ (laws : IsOrdered D) where
    open laws use {le_of_lt, le_of_not_lt, le_trans}

    insert-IsSorted :
        (x : D) (xs : List D)
        → IsNumber x
        → All (λ y. IsNumber y) xs
        → IsSorted xs
        → IsSorted (insert x xs)
    unfolding insert
    insert-IsSorted x [] n ns s = (tt, tt)
    insert-IsSorted x (y ∷ ys) n (m, ms) (below, s) = elim (Bool-cases (d.lt y x)) [
      | inl e ↦
          rw e (All-insert (λ z. y ≼ z) x ys (le_of_lt y x e) below, insert-IsSorted x ys n ms s)
      | inr e ↦
          let first : x ≼ y = le_of_not_lt x y n m e in
          rw e ((first, All-map _ _ ys (λ z h. le_trans x y z first h) below), (below, s))
    ]

    -- Without NaN among them, the elements come out in order.
    pub sort-IsSorted : (xs : List D) → All (λ y. IsNumber y) xs → IsSorted (sort xs)
    unfolding sort
    sort-IsSorted [] _ = tt
    sort-IsSorted (x ∷ xs) (n, ns) =
        insert-IsSorted x (sort xs) n (All-sort (λ y. IsNumber y) xs ns) (sort-IsSorted xs ns)
