-- ===== src/Emsr.antt =====
-- rmol/bom/Emsr.cpp and rmol/bom/EmsrUtils.cpp: the EMSR heuristics. The normal distribution of
-- Boost is a parameter: `none` is the exception that it throws outside its domain.
pub mod Linked
pub mod Index
pub mod Values
pub mod Samples
mod Tests
use mathlib.Core.List.{reverse}
use rmol.Base.{
  ℕ, zero, suc, ◌+◌, ◌-◌, ◌<◌, Bool, true, not, ◌&&◌, List, [], ◌∷◌, ◌++◌, Option, none, some, ltb,
  leb, if◌then◌else◌, length, get_elem?, take, ◌>>=◌, ◌>>◌, assert,
}
use rmol.Base.Int.{pos_part}
use rmol.Base.Double.{Double, ◌⊕◌, ◌⊖◌, ◌⊗◌, ◌⊘◌, of_ℕ, nought}
use rmol.Base.Sorting.{sort}
use rmol.Cabin.{VirtualClass, LegCabin}

-- `boost::math::normal (mean, sd)` with `quantile` and `cdf` of a complement
pub record Normal {ℓ} (D : Type ℓ) : Type ℓ where
  pub quantile : (mean sd p : D) → Option D
  pub survival : (mean sd x : D) → Option D

module _ {ℓ} {D : Type ℓ} ⦃d : Double D⦄ where
  unfoldable pub compute_aggregated_virtual_class : VirtualClass D → VirtualClass D → VirtualClass D
  compute_aggregated_virtual_class aggregated current =
      let new_mean = aggregated.mean ⊕ current.mean in
      let average =
        (aggregated.yield ⊗ aggregated.mean ⊕ current.yield ⊗ current.mean) ⊘ new_mean in
      record aggregated {
        yield = if d.lt nought new_mean then average else current.yield;
        mean = new_mean;
        std_dev =
            d.sqrt (aggregated.std_dev ⊗ aggregated.std_dev ⊕ current.std_dev ⊗ current.std_dev);
      }

  module _ (normal : Normal D) where
    unfoldable pub compute_protection_level : VirtualClass D → VirtualClass D → Option D
    compute_protection_level aggregated next = do
      assert (not (d.eq aggregated.yield nought))
      normal.quantile aggregated.mean aggregated.std_dev (next.yield ⊘ aggregated.yield)

    unfoldable pub compute_emsr_value : D → VirtualClass D → Option D
    compute_emsr_value capacity class = do
      share ← normal.survival class.mean class.std_dev capacity
      some (class.yield ⊗ share)

    -- the sum over the higher classes, from `acc` on
    unfoldable pub add_protections :
        (higher : List (VirtualClass D)) (next : VirtualClass D) (acc : D) → Option D
    unfolding compute_protection_level
    add_protections [] next acc = some acc
    add_protections (c ∷ cs) next acc = do
      partial ← compute_protection_level c next
      add_protections cs next (acc ⊕ partial)

    -- the loop of EMSR-a, with the classes before the current one
    unfoldable pub emsr_a_loop :
        (capacity : D) (higher : List (VirtualClass D)) (current : VirtualClass D)
        (rest : List (VirtualClass D))
        → Option (List (VirtualClass D))
    unfolding add_protections
    emsr_a_loop capacity higher current [] = some (higher ++ current ∷ [])
    emsr_a_loop capacity higher current (next ∷ rest) = do
      level ← add_protections (higher ++ current ∷ []) next nought
      emsr_a_loop capacity (higher ++ record current { protection = level } ∷ [])
          (record next { booking_limit = capacity ⊖ level }) rest

    unfoldable pub emsr_a_classes : D → List (VirtualClass D) → Option (List (VirtualClass D))
    unfolding emsr_a_loop
    emsr_a_classes capacity [] = none
    emsr_a_classes capacity (first ∷ rest) =
        emsr_a_loop capacity [] (record first { booking_limit = capacity }) rest

    unfoldable pub heuristic_optimisation_by_emsr_a : LegCabin D → Option (LegCabin D)
    unfolding emsr_a_classes
    heuristic_optimisation_by_emsr_a cabin = do
      classes ← emsr_a_classes cabin.offered_capacity cabin.virtual_classes
      some (record cabin { virtual_classes = classes })

    -- the loop of EMSR-b, with the class aggregated so far
    unfoldable pub emsr_b_loop :
        (capacity : D) (aggregated current : VirtualClass D) (rest : List (VirtualClass D))
        → Option (List (VirtualClass D))
    unfolding compute_protection_level compute_aggregated_virtual_class
    emsr_b_loop capacity aggregated current [] = some (current ∷ [])
    emsr_b_loop capacity aggregated current (next ∷ rest) = do
      level ← compute_protection_level aggregated next
      let next' = record next { booking_limit = capacity ⊖ level }
      classes ← emsr_b_loop capacity (compute_aggregated_virtual_class aggregated next') next' rest
      some (record current { protection = level } ∷ classes)

    unfoldable pub emsr_b_classes : D → List (VirtualClass D) → Option (List (VirtualClass D))
    unfolding emsr_b_loop
    emsr_b_classes capacity [] = none
    emsr_b_classes capacity (first ∷ rest) =
        let first' = record first { booking_limit = capacity } in
        emsr_b_loop capacity first' first' rest

    unfoldable pub heuristic_optimisation_by_emsr_b : LegCabin D → Option (LegCabin D)
    unfolding emsr_b_classes
    heuristic_optimisation_by_emsr_b cabin = do
      classes ← emsr_b_classes cabin.offered_capacity cabin.virtual_classes
      some (record cabin { virtual_classes = classes })

    -- `for (k = 1; k <= capacity; ++k)`, from `k` on, with the rounds left
    unfoldable pub push_emsr_values :
        (rounds k : ℕ) (class : VirtualClass D) (values : List D) → Option (List D)
    unfolding compute_emsr_value
    push_emsr_values zero k class values = some values
    push_emsr_values (suc rounds) k class values = do
      value ← compute_emsr_value (of_ℕ k) class
      push_emsr_values rounds (suc k) class (values ++ value ∷ [])

    unfoldable pub collect_emsr_values :
        (capacity : ℕ) → List (VirtualClass D) → List D → Option (List D)
    unfolding push_emsr_values
    collect_emsr_values capacity [] values = some values
    collect_emsr_values capacity (c ∷ cs) values = do
      values' ← push_emsr_values capacity 1 c values
      collect_emsr_values capacity cs values'

  -- `while (index < capacity && prices.at (index) > yield) ++index;`, with the rounds left
  unfoldable pub advance_index :
      (rounds capacity index : ℕ) (yield : D) (prices : List D) → Option ℕ
  advance_index zero capacity index yield prices = some index
  advance_index (suc rounds) capacity index yield prices =
      let round = do
        price ← get_elem? prices index
        let more = advance_index rounds capacity (suc index) yield prices
        if d.lt yield price then more else some index
      in if ltb index capacity then round else some index

  -- The loop that builds protections and booking limits. In each round it reads the class behind
  -- the current one, in the last round through the end of the list, which is `none`.
  unfoldable pub build_limits :
      (offered : D) (capacity index : ℕ) (prices : List D)
      → List (VirtualClass D)
      → Option (List (VirtualClass D))
  unfolding advance_index
  build_limits offered capacity index prices [] = some []
  build_limits offered capacity index prices (current ∷ []) = none
  build_limits offered capacity index prices (current ∷ next ∷ rest) = do
    index' ← advance_index (capacity - index) capacity index next.yield prices
    let next' = record next { booking_limit = offered ⊖ of_ℕ index' }
    classes ← build_limits offered capacity index' prices (next' ∷ rest)
    some (record current { protection = of_ℕ index' } ∷ classes)

  unfoldable pub heuristic_optimisation_by_emsr : Normal D → LegCabin D → Option (LegCabin D)
  unfolding collect_emsr_values build_limits
  heuristic_optimisation_by_emsr normal cabin = do
    let capacity = pos_part (d.to_int cabin.offered_capacity)
    values ← collect_emsr_values normal capacity cabin.virtual_classes []
    let sorted = reverse (sort values)
    assert (leb capacity (length sorted))
    let prices = take capacity sorted
    let limits = build_limits cabin.offered_capacity capacity 0 prices cabin.virtual_classes
    classes ← if ltb 1 (length cabin.virtual_classes) then limits else some cabin.virtual_classes
    some (record cabin { virtual_classes = classes; bid_prices = prices })
