-- ===== src/MonteCarlo/Holder.antt =====
-- `optimalOptimisationByMCIntegration` of rmol/bom/MCOptimiser.cpp: the partial sums, which each
-- round updates in place.
use rmol.Base.{
  ℕ, zero, suc, ◌+◌, ◌-◌, ◌≤◌, ◌<◌, ◌≡◌, refl, sym, ap, ◌∙◌, List, [], ◌∷◌, ◌++◌, some, arith,
  length, get_elem?, set, take, drop, length-set, get_elem?_of_lt,
}
use rmol.Base.Double.{Double, ◌⊕◌}
use rmol.MonteCarlo.{shift_sums, advance}
use mathlib.Core.List.{append_assoc, append-nil}
use native.Mathlib.Nat.{add-zero, zero-add}

module _ {ℓ} {A : Type ℓ} where
  take-set :
      (i : ℕ) (xs : List A) (v : A)
      → i < length xs
      → take (suc i) (set xs i v) ≡ take i xs ++ v ∷ []
  take-set i [] v h = absurd (omega arith)
  take-set zero (x ∷ xs) v h = refl
  take-set (suc i) (x ∷ xs) v h = ap (◌∷◌ x) (take-set i xs v (omega arith))

  drop-set : (n i : ℕ) (xs : List A) (v : A) → i < n → drop n (set xs i v) ≡ drop n xs
  drop-set zero i xs v h = absurd (omega arith)
  drop-set (suc n) i [] v h = refl
  drop-set (suc n) zero (x ∷ xs) v h = refl
  drop-set (suc n) (suc i) (x ∷ xs) v h = drop-set n i xs v (omega arith)

  drop-get_elem? :
      (n : ℕ) (xs : List A) (a : A) → get_elem? xs n ≡ some a → drop n xs ≡ a ∷ drop (suc n) xs
  drop-get_elem? n [] a h = cc
  drop-get_elem? zero (x ∷ xs) a h = ground arith
  drop-get_elem? (suc n) (x ∷ xs) a h = drop-get_elem? n xs a h

  take_all : (n : ℕ) (xs : List A) → length xs ≡ n → drop n xs ≡ []
  take_all zero [] h = refl
  take_all zero (x ∷ xs) h = absurd (omega arith)
  take_all (suc n) [] h = refl
  take_all (suc n) (x ∷ xs) h = take_all n xs (omega arith)

module _ {ℓ} {D : Type ℓ} ⦃d : Double D⦄ where
  -- element by element, as far as both lists go
  unfoldable pub add_lists : List D → List D → List D
  add_lists [] ys = []
  add_lists (x ∷ xs) [] = []
  add_lists (x ∷ xs) (y ∷ ys) = (x ⊕ y) ∷ add_lists xs ys

  shift_step :
      (n i lj : ℕ) (h next r : List D) (s x : D)
      → i + lj < length h
      → get_elem? h (i + lj) ≡ some s
      → get_elem? next i ≡ some x
      → take n r
        ≡ take (suc i) (set h i (s ⊕ x))
          ++ add_lists (drop (suc (i + lj)) (set h i (s ⊕ x))) (drop (suc i) next)
      → take n r ≡ take i h ++ add_lists (drop (i + lj) h) (drop i next)
  unfolding add_lists
  shift_step n i lj h next r s x b hs hx got =
      got
      ∙ rw
          (
            take-set i h (s ⊕ x) (omega arith),
            drop-set (suc (i + lj)) i h (s ⊕ x) (omega arith),
            drop-get_elem? (i + lj) h s hs,
            drop-get_elem? i next x hx,
          )
          (append_assoc (take i h) _ _)

  shift_sums_lem :
      (rounds i lj : ℕ) (h next : List D)
      → length h ≡ i + lj + rounds
      → i + rounds ≤ length next
      → (r : List D) × (shift_sums rounds i lj h next ≡ some r)
        × (take (i + rounds) r ≡ take i h ++ add_lists (drop (i + lj) h) (drop i next))
  unfolding shift_sums add_lists
  shift_sums_lem zero i lj h next e b =
      (h, refl, rw (add-zero, take_all (i + lj) h (omega arith)) (sym (append-nil (take i h))))
  shift_sums_lem (suc rounds) i lj h next e b =
      let (s, hs) = get_elem?_of_lt h (i + lj) (omega arith) in
      let (x, hx) = get_elem?_of_lt next i (omega arith) in
      let (r, run, got) =
        shift_sums_lem rounds (suc i) lj (set h i (s ⊕ x)) next
          (omega (arith, length-set h i (s ⊕ x))) (omega arith) in
      let one_more : suc i + rounds ≡ i + suc rounds = omega arith in
      let next_place : suc i + lj ≡ suc (i + lj) = omega arith in
      (
        r,
        rw (hs, hx) run,
        shift_step (i + suc rounds) i lj h next r s x (omega arith) hs hx
            (rw (one_more, next_place) at got),
      )

  -- The update in place computes each new partial sum from the old ones: when the demand vector of
  -- the next class is long enough, what is left is the old sums from `lj` on, each with the next
  -- class's sample at its place added, though the loop overwrites the vector that it reads.
  pub advance-add_lists :
      (lj : ℕ) (holder next : List D)
      → lj ≤ length holder
      → length holder - lj ≤ length next
      → advance lj holder next ≡ some (add_lists (drop lj holder) next)
  unfolding advance
  advance-add_lists lj holder next h b =
      let (r, run, got) =
        shift_sums_lem (length holder - lj) 0 lj holder next (omega arith) (omega arith) in
      rw run (ap some (simp zero-add at got))
