-- ===== src/Emsr/Values.antt =====
-- `heuristicOptimisationByEmsr` of rmol/bom/Emsr.cpp with a single virtual class: the bid price
-- vector.
use mathlib.Core.List.{
  reverse, reverse-reverse, Perm, append-nil, append_assoc, reverse-cons, reverse_perm,
}
use mathlib.Core.Option.{some-injective}
use mathlib.Core.List.Perm
use rmol.Base.{
  ℕ, zero, suc, ◌≡◌, refl, sym, ap, ◌∙◌, subst, true, List, [], ◌∷◌, ◌++◌, Option, some, arith, leb,
  length, length-append, take, >>=-eq-some, All, ◌>>=◌,
}
use rmol.Base.Int.{pos_part}
use rmol.Base.Double.{Double, IsOrdered, IsNumber, of_ℕ}
use rmol.Base.Sorting.{sort, IsSorted}
use rmol.Base.Sorting.Laws.{sort-IsSorted, sort-perm, length-sort}
use rmol.Cabin.{VirtualClass, LegCabin}
use rmol.Emsr.{
  Normal, compute_emsr_value, push_emsr_values, collect_emsr_values, heuristic_optimisation_by_emsr,
}

take_whole {ℓ} : {A : Type ℓ} (n : ℕ) (xs : List A) → length xs ≡ n → take n xs ≡ xs
take_whole zero [] h = refl
take_whole zero (x ∷ xs) h = absurd (omega arith)
take_whole (suc n) [] h = refl
take_whole (suc n) (x ∷ xs) h = ap (◌∷◌ x) (take_whole n xs (omega arith))

module _ {ℓ} {D : Type ℓ} ⦃d : Double D⦄ (normal : Normal D) where
  -- the EMSR values of a class for `n` units of capacity, from `k` on
  unfoldable pub emsr_values : (n k : ℕ) → VirtualClass D → Option (List D)
  emsr_values zero k class = some []
  emsr_values (suc n) k class = do
    value ← compute_emsr_value normal (of_ℕ k) class
    values ← emsr_values n (suc k) class
    some (value ∷ values)

  push_emsr_values-append :
      (n k : ℕ) (class : VirtualClass D) (values more : List D)
      → emsr_values n k class ≡ some more
      → (push_emsr_values normal n k class values ≡ some (values ++ more)) × (length more ≡ n)
  unfolding push_emsr_values emsr_values
  push_emsr_values-append zero k class values more h =
      let nothing : [] ≡ more = some-injective _ _ h in
      (ap some (sym (append-nil values) ∙ ap (λ xs. values ++ xs) nothing), ap length (sym nothing))
  push_emsr_values-append (suc n) k class values more h =
      let (value, found, e) = >>=-eq-some (compute_emsr_value normal (of_ℕ k) class) _ h in
      let (rest, others, e1) = >>=-eq-some (emsr_values n (suc k) class) _ e in
      let (run, size) =
        push_emsr_values-append n (suc k) class (values ++ value ∷ []) rest others in
      let all : value ∷ rest ≡ more = some-injective _ _ e1 in
      (
        rw found run
            ∙ ap some (append_assoc values (value ∷ []) rest ∙ ap (λ xs. values ++ xs) all),
        ap length (sym all) ∙ ap suc size,
      )

  length-reverse : (xs : List D) → length (reverse xs) ≡ length xs
  length-reverse [] = refl
  length-reverse (x ∷ xs) =
      ap length (reverse-cons x xs)
      ∙ length-append (reverse xs) (x ∷ [])
      ∙ omega (arith, length-reverse xs)

  collect_single :
      (capacity : ℕ) (only : VirtualClass D) (values : List D)
      → push_emsr_values normal capacity 1 only [] ≡ some values
      → collect_emsr_values normal capacity (only ∷ []) [] ≡ some values
  unfolding collect_emsr_values
  collect_single capacity only values h = rw h

  -- With a single virtual class whose EMSR values are defined and no NaN, the heuristic returns and
  -- sets the bid prices alone: one for each whole unit of the offered capacity, the EMSR values of
  -- the class from high to low.
  pub emsr_single_class :
      (laws : IsOrdered D) (cabin : LegCabin D) (only : VirtualClass D) (values : List D)
      → cabin.virtual_classes ≡ only ∷ []
      → emsr_values (pos_part (d.to_int cabin.offered_capacity)) 1 only ≡ some values
      → All (λ v. IsNumber v) values
      → (prices : List D) × (heuristic_optimisation_by_emsr normal cabin
          ≡ some (record cabin { bid_prices = prices }))
        × (length prices ≡ pos_part (d.to_int cabin.offered_capacity))
        × Perm prices values
        × IsSorted (reverse prices)
  unfolding heuristic_optimisation_by_emsr
  emsr_single_class laws cabin only values e h nums =
      let capacity = pos_part (d.to_int cabin.offered_capacity) in
      let (run, size) = push_emsr_values-append capacity 1 only [] values h in
      let prices = reverse (sort values) in
      let count : length prices ≡ capacity =
        length-reverse (sort values) ∙ length-sort values ∙ size in
      let collected = collect_single capacity only values run in
      let enough : leb capacity (length prices) ≡ true = ground (arith, count) in
      let whole : take capacity prices ≡ prices = take_whole capacity prices count in
      (
        prices,
        rw (e, collected, whole, enough),
        count,
        Perm.trans (reverse_perm (sort values)) (sort-perm values),
        subst IsSorted (sym (reverse-reverse (sort values))) (sort-IsSorted laws values nums),
      )
