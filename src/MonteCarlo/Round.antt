-- ===== src/MonteCarlo/Round.antt =====
-- `optimalOptimisationByMCIntegration` of rmol/bom/MCOptimiser.cpp: one round of its loop over the
-- classes, on every input for which its assertions hold.
use rmol.Base.{
  ℕ, ◌+◌, ◌-◌, ◌≤◌, ◌<◌, ◌≡◌, min, ◌&&◌, true, List, ◌++◌, some, arith, leb, ltb, length, All, drop,
  get_elem?, get_elem?_of_lt,
}
use rmol.Base.Double.{Double, IsOrdered, IsNumber, ◌⊖◌, ◌⊕◌, ◌⊘◌, ◌≺◌, of_ℕ}
use rmol.Base.Sorting.{sort, IsSorted}
use rmol.Base.Sorting.Laws.{sort-IsSorted}
use rmol.Cabin.{VirtualClass}
use rmol.MonteCarlo.{Progress, optimise_class, optimal_index, protection_level, to_unsigned}
use rmol.MonteCarlo.Holder.{add_lists, advance-add_lists}
use rmol.MonteCarlo.Prices.{prices_from, push_prices-prices_from}

module _ {ℓ} {D : Type ℓ} ⦃d : Double D⦄ where
  protection_level_of_lt :
      (lj : ℕ) (xs : List D)
      → 1 ≤ lj
      → lj < length xs
      → (a b : D) × (get_elem? xs (lj - 1) ≡ some a)
        × (get_elem? xs lj ≡ some b)
        × (protection_level lj xs ≡ some ((a ⊕ b) ⊘ of_ℕ 2))
  unfolding protection_level
  protection_level_of_lt lj xs pos h =
      let (a, ha) = get_elem?_of_lt xs (lj - 1) (omega arith) in
      let (b, hb) = get_elem?_of_lt xs lj h in
      let same : lj + 1 - 1 ≡ lj = omega arith in (a, b, ha, hb, rw (same, ha, hb))

  -- A round succeeds if no sample is NaN, the next class's yield is lower, the optimal index lies
  -- in the samples and the next class has a sample for each of them. It then sets the protection of the class to
  -- the mean of the two sorted samples at the optimal index, the next class's booking limit to
  -- what that leaves of the capacity, drops the samples below the index, adds the next class's to
  -- the others and appends the prices up to the protection level or the capacity.
  pub optimise_class_lem :
      (laws : IsOrdered D) (remaining : D) (capacity : ℕ) (current next : VirtualClass D)
      (st : Progress D)
      → All (λ x. IsNumber x) st.holder
      → next.yield ≺ current.yield
      → 1 ≤ optimal_index (length (sort st.holder)) current.yield next.yield
      → optimal_index (length (sort st.holder)) current.yield next.yield < length (sort st.holder)
      → length (sort st.holder) ≤ length next.demand
      → let sorted = sort st.holder in
        let lj = optimal_index (length sorted) current.yield next.yield in
        (a b : D) × (get_elem? sorted (lj - 1) ≡ some a)
        × (get_elem? sorted lj ≡ some b)
        × (let pj = (a ⊕ b) ⊘ of_ℕ 2 in
            let n = min (capacity + 1 - st.idx) (to_unsigned (d.to_int pj) + 1 - st.idx) in
            optimise_class remaining capacity current next st
            ≡ some (
              record current { protection = pj },
              record next { booking_limit = remaining ⊖ pj },
              record {
                holder = add_lists (drop lj sorted) next.demand;
                idx = st.idx + n;
                prices = st.prices ++ prices_from current.yield sorted n st.idx;
              },
            ))
  unfolding optimise_class
  optimise_class_lem laws remaining capacity current next st nums fall low high long =
      let sorted = sort st.holder in
      let lj = optimal_index (length sorted) current.yield next.yield in
      let (a, b, ha, hb, level) = protection_level_of_lt lj sorted low high in
      let ordered : IsSorted sorted = sort-IsSorted laws st.holder nums in
      let pj = (a ⊕ b) ⊘ of_ℕ 2 in
      let bounds : (leb 1 lj && ltb lj (length sorted)) ≡ true = ground arith in
      let enough : leb (length sorted) (length next.demand) ≡ true = ground arith in
      (
        a,
        b,
        ha,
        hb,
        rw (
          fall,
          bounds,
          level,
          push_prices-prices_from laws (capacity + 1 - st.idx) st.idx (to_unsigned (d.to_int pj)) 0
              current.yield sorted st.prices ordered (omega arith),
          enough,
          advance-add_lists lj sorted next.demand (omega arith) (omega arith),
        ),
      )
