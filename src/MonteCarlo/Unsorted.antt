-- ===== src/MonteCarlo/Unsorted.antt =====
-- `optimalOptimisationByMCIntegration` of rmol/bom/MCOptimiser.cpp: the prices of the last class
-- are searched for in partial sums that the method has not sorted since it added that class's
-- samples to them (or at all, when there is one class).
use rmol.Base.{
  ℕ, zero, suc, ◌+◌, ◌-◌, ◌≤◌, ◌<◌, ◌≡◌, refl, inl, inr, true, false, List, [], ◌∷◌, none, arith,
  leb, drop, Option-cases,
}
use rmol.Base.Double.{Double, IsOrdered, of_ℕ}
use rmol.Base.Sorting.{lower_bound, is_partitioned}
use rmol.Base.Sorting.Search.{lower_bound_unpartitioned, unpartitioned_later}
use native.Mathlib.Decide.{ℕ_discrete}
use rmol.Cabin.{BookingClass, VirtualClass, LegCabin}
use rmol.MonteCarlo.{
  optimal_optimisation_by_mc_integration, optimise_cabin, optimise_classes, push_prices,
  capacity_index,
}

module _ {ℓ} {D : Type ℓ} ⦃d : Double D⦄ (laws : IsOrdered D) where
  open laws use {of_ℕ_mono}

  push_prices_unpartitioned :
      (left idx last from i : ℕ) (y : D) (holder prices : List D)
      → is_partitioned (drop from holder) (of_ℕ i) ≡ false
      → idx ≤ i
      → i < idx + left
      → i ≤ last
      → push_prices left idx last from y holder prices ≡ none
  unfolding push_prices
  push_prices_unpartitioned zero idx last from i y holder prices p lo hi in_range =
      absurd (omega arith)
  push_prices_unpartitioned (suc left) idx last from i y holder prices p lo hi in_range =
      let go : leb idx last ≡ true = ground arith in
      elim (ℕ_discrete idx i) [
        | yes here ↦
            let fault = lower_bound_unpartitioned from holder (of_ℕ i) p in rw (go, here, fault)
        | no later ↦ elim (Option-cases (lower_bound from holder (of_ℕ idx))) [
          | inl fault ↦ rw (go, fault)
          | inr (at, found) ↦
              let p' = unpartitioned_later laws from at holder _ _ (of_ℕ_mono idx i lo) p found in
              rw (go, found)
                (push_prices_unpartitioned left (suc idx) last at i y holder _ p' (omega arith)
                  (omega arith) in_range)
        ]
      ]

  optimise_cabin_unpartitioned :
      (cabin : LegCabin D) (only : VirtualClass D) (segments : List (List (BookingClass D)))
      (classes : List (VirtualClass D)) (i : ℕ)
      → classes ≡ only ∷ []
      → 1 ≤ i
      → i ≤ capacity_index (d.to_int cabin.availability_pool)
      → is_partitioned only.demand (of_ℕ i) ≡ false
      → optimise_cabin cabin segments classes ≡ none
  unfolding optimise_cabin optimise_classes
  optimise_cabin_unpartitioned cabin only [] classes i e lo hi p = refl
  optimise_cabin_unpartitioned cabin only (segment ∷ others) classes i e lo hi p =
      let capacity = capacity_index (d.to_int cabin.availability_pool) in
      let fault =
        push_prices_unpartitioned (capacity + 1 - 1) 1 capacity 0 i only.yield only.demand [] p lo
          (omega arith) hi in
      rw (e, fault)

  -- With one virtual class the samples are not sorted at all: if they are out of order around an
  -- index up to the capacity (a sample not below the index stands before one below it), the method
  -- searches a range that is not partitioned, which <algorithm> leaves undefined.
  pub unsorted_samples :
      (cabin : LegCabin D) (only : VirtualClass D) (i : ℕ)
      → cabin.virtual_classes ≡ only ∷ []
      → 1 ≤ i
      → i ≤ capacity_index (d.to_int cabin.availability_pool)
      → is_partitioned only.demand (of_ℕ i) ≡ false
      → optimal_optimisation_by_mc_integration cabin ≡ none
  unfolding optimal_optimisation_by_mc_integration
  unsorted_samples cabin only i e lo hi p =
      optimise_cabin_unpartitioned cabin only cabin.segment_cabins cabin.virtual_classes i e lo hi p
