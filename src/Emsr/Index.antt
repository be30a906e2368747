-- ===== src/Emsr/Index.antt =====
-- `heuristicOptimisationByEmsr` of rmol/bom/Emsr.cpp: the loop that turns bid prices into
-- protections and booking limits.
use rmol.Base.{
  ℕ, zero, suc, ◌-◌, ◌≤◌, ◌<◌, ◌≡◌, refl, ◌⊎◌, inl, inr, true, false, List, [], ◌∷◌, none, some,
  arith, ltb, leb, length, get_elem?, take, get_elem?_of_lt, Bool-cases, Option-cases,
}
use native.Mathlib.Decide.{ℕ_discrete}
use mathlib.Core.List.{reverse}
use rmol.Base.Sorting.{sort}
use rmol.Base.Int.{pos_part}
use rmol.Base.Double.{Double, ◌≺◌}
use rmol.Cabin.{VirtualClass, LegCabin}
use rmol.Emsr.{
  Normal, advance_index, build_limits, collect_emsr_values, heuristic_optimisation_by_emsr,
}

module _ {ℓ} {D : Type ℓ} ⦃d : Double D⦄ where
  -- where the scan of the bid prices for `yield` stops
  pub record IsStop (capacity index : ℕ) (yield : D) (prices : List D) (k : ℕ) : Type ℓ where
    pub from : index ≤ k
    pub within : k ≤ capacity
    pub above : (j : ℕ) → index ≤ j → j < k → (p : D) × (get_elem? prices j ≡ some p) × (yield ≺ p)
    pub stopped :
        (k ≡ capacity) ⊎ ((p : D) × (get_elem? prices k ≡ some p) × (d.lt yield p ≡ false))

  -- If there is a bid price for each unit of capacity, the scan that starts within it returns; it
  -- passes exactly the prices above the yield, up to the first that is not or to the capacity.
  pub advance_index-IsStop :
      (rounds capacity index : ℕ) (yield : D) (prices : List D)
      → rounds ≡ capacity - index
      → index ≤ capacity
      → capacity ≤ length prices
      → (k : ℕ) × (advance_index rounds capacity index yield prices ≡ some k)
        × IsStop capacity index yield prices k
  unfolding advance_index
  advance_index-IsStop zero capacity index yield prices e i b = (
    index,
    refl,
    record {
      from = omega arith;
      within = i;
      above = λ j lo hi. absurd (omega arith);
      stopped = inl (omega arith);
    },
  )
  advance_index-IsStop (suc rounds) capacity index yield prices e i b =
      let go : ltb index capacity ≡ true = ground arith in
      let (p, at) = get_elem?_of_lt prices index (omega arith) in
      elim (Bool-cases (d.lt yield p)) [
        | inr stop ↦ (
          index,
          rw (go, at, stop),
          record {
            from = omega arith;
            within = i;
            above = λ j lo hi. absurd (omega arith);
            stopped = inr (p, at, stop);
          },
        )
        | inl more ↦
            let (k, run, s) =
              advance_index-IsStop rounds capacity (suc index) yield prices (omega arith)
                (omega arith) b in
            (
              k,
              rw (go, at, more) run,
              record {
                from = omega (arith, s.from);
                within = s.within;
                above = λ j lo hi. elim (ℕ_discrete j index) [
                  | yes same ↦ (p, rw same at, more)
                  | no later ↦ s.above j (omega arith) hi
                ];
                stopped = s.stopped;
              },
            )
      ]

  build_limits-cons :
      (offered : D) (capacity index : ℕ) (prices : List D) (current : VirtualClass D)
      (rest : List (VirtualClass D))
      → build_limits offered capacity index prices (current ∷ rest) ≡ none
  unfolding build_limits
  build_limits-cons offered capacity index prices current [] = refl
  build_limits-cons offered capacity index prices current (next ∷ rest) =
      elim (Option-cases (advance_index (capacity - index) capacity index next.yield prices)) [
        | inl fault ↦ rw fault
        | inr (k, found) ↦ rw (found, build_limits-cons offered capacity k prices _ rest)
      ]

  build_limits-none :
      (offered : D) (capacity index : ℕ) (prices : List D) (classes : List (VirtualClass D))
      → 1 < length classes
      → build_limits offered capacity index prices classes ≡ none
  build_limits-none offered capacity index prices [] h = absurd (omega arith)
  build_limits-none offered capacity index prices (c ∷ cs) h =
      build_limits-cons offered capacity index prices c cs

  -- With two virtual classes or more the EMSR heuristic has no defined result: the last round of
  -- its last loop reads a class behind the end of the list.
  pub emsr_reads_behind_end :
      (normal : Normal D) (cabin : LegCabin D)
      → 1 < length cabin.virtual_classes
      → heuristic_optimisation_by_emsr normal cabin ≡ none
  unfolding heuristic_optimisation_by_emsr
  emsr_reads_behind_end normal cabin h =
      let capacity = pos_part (d.to_int cabin.offered_capacity) in
      let classes = cabin.virtual_classes in
      let many : ltb 1 (length classes) ≡ true = ground arith in
      elim (Option-cases (collect_emsr_values normal capacity classes [])) [
        | inl fault ↦ rw fault
        | inr (values, found) ↦
            let sorted = reverse (sort values) in
            let fault =
              build_limits-none cabin.offered_capacity capacity 0 (take capacity sorted) classes
                h in
            elim (Bool-cases (leb capacity (length sorted))) [
              | inl enough ↦ rw (found, enough, many, fault)
              | inr few ↦ rw (found, few)
            ]
      ]
