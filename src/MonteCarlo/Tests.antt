-- ===== src/MonteCarlo/Tests.antt =====
-- The Monte Carlo optimisation on two classes with four samples each, in fixed-point numbers.
use rmol.Base.{length, ◌+◌, ◌-◌, ◌≡◌, refl, List, [], ◌∷◌, some, none, arith, get_elem?, map, min}
use rmol.Base.Int.{pos, ◌+ℤ◌, ◌-ℤ◌, ◌*ℤ◌, ◌/ℤ◌}
use rmol.Base.Double.{◌⊕◌, ◌⊖◌, ◌⊘◌, of_ℕ}
use rmol.Base.Fixed.{Fixed, fixed_double, Fixed-IsOrdered, Fixed-IsRounded}
use rmol.Base.Sorting.{sort, count_below, is_partitioned}
use rmol.Cabin.{VirtualClass}
use rmol.Cabin.Samples.{seats, class, cabin}
use rmol.MonteCarlo.{
  Progress, advance, bid_price, push_prices, optimise_class, optimal_index, to_unsigned,
  capacity_index, optimal_optimisation_by_mc_integration,
}
use rmol.MonteCarlo.Holder.{add_lists, advance-add_lists}
use rmol.MonteCarlo.Prices.{
  prices_from, price_at, IsFalling, push_prices-prices_from, push_prices-IsFalling,
}
use rmol.MonteCarlo.Round.{optimise_class_lem}
use rmol.MonteCarlo.Run.{optimal_optimisation_lem}
use rmol.Cabin.Chain.{IsChained, HasFallingYields, unset}
use rmol.MonteCarlo.Unsorted.{unsorted_samples}

abbrev high : VirtualClass Fixed
high = class 100 (seats 3 ∷ seats 1 ∷ seats 4 ∷ seats 2 ∷ [])

abbrev low : VirtualClass Fixed
low = class 70 (seats 5 ∷ seats 2 ∷ seats 1 ∷ seats 7 ∷ [])

abbrev optimised : List (VirtualClass Fixed)
optimised =
    record high { protection = pos 1500; booking_limit = seats 3 }
    ∷ record low { booking_limit = pos 1500 }
    ∷ []

two_classes :
    optimal_optimisation_by_mc_integration (cabin (high ∷ low ∷ []))
    ≡ some (record (cabin optimised) { bid_prices = pos 100000 ∷ pos 70000 ∷ pos 70000 ∷ [] })
unfolding optimal_optimisation_by_mc_integration optimise_class count_below ◌+ℤ◌ ◌-ℤ◌ ◌*ℤ◌ ◌/ℤ◌
two_classes = refl

abbrev samples : List Fixed
samples = seats 1 ∷ seats 2 ∷ seats 3 ∷ seats 4 ∷ []

advance-add_lists_example : advance 1 samples low.demand ≡ some (seats 7 ∷ seats 5 ∷ seats 5 ∷ [])
unfolding add_lists ◌+ℤ◌
advance-add_lists_example = advance-add_lists 1 samples low.demand (omega arith) (omega arith)

push_prices-prices_from_example :
    push_prices 3 1 2 0 (seats 100) samples [] ≡ some (3, pos 100000 ∷ pos 75000 ∷ [])
unfolding prices_from price_at bid_price count_below ◌*ℤ◌ ◌/ℤ◌
push_prices-prices_from_example =
    push_prices-prices_from Fixed-IsOrdered 3 1 2 0 (seats 100) samples [] (ground arith)
      (omega arith)

push_prices-IsFalling_example :
    (pushed : List Fixed) × (push_prices 3 1 2 0 (seats 100) samples [] ≡ some (3, pushed))
    × (length pushed ≡ 2)
    × IsFalling pushed
unfolding ◌*ℤ◌ ◌/ℤ◌
push_prices-IsFalling_example =
    push_prices-IsFalling Fixed-IsOrdered Fixed-IsRounded 3 1 2 0 (seats 100) samples []
      (ground arith) (omega arith) refl refl (ground arith)

abbrev start : Progress Fixed
start = record { holder = high.demand; idx = 1; prices = [] }

optimise_class_lem_example :
    (a b : Fixed) × (get_elem? samples 0 ≡ some a)
    × (get_elem? samples 1 ≡ some b)
    × (let pj = (a ⊕ b) ⊘ of_ℕ 2 in
        let n = min 3 (to_unsigned (fixed_double.to_int pj) + 1 - 1) in
        optimise_class (seats 3) 3 high low start
        ≡ some (
          record high { protection = pj },
          record low { booking_limit = seats 3 ⊖ pj },
          record {
            holder = seats 7 ∷ seats 5 ∷ seats 5 ∷ [];
            idx = 1 + n;
            prices = prices_from (seats 100) samples n 1;
          },
        ))
unfolding optimal_index sort add_lists bid_price ◌+ℤ◌ ◌-ℤ◌ ◌*ℤ◌ ◌/ℤ◌
optimise_class_lem_example =
    optimise_class_lem Fixed-IsOrdered (seats 3) 3 high low start (ground arith) refl (omega arith)
      (omega arith) (omega arith)

optimal_optimisation_lem_example :
    (3 ≡ capacity_index (pos 3))
    × IsChained (seats 3) (seats 3) optimised
    × HasFallingYields (high ∷ low ∷ [])
    × (map unset optimised ≡ map unset (high ∷ low ∷ []))
unfolding ◌/ℤ◌
optimal_optimisation_lem_example = optimal_optimisation_lem (cabin (high ∷ low ∷ [])) two_classes

unsorted_samples_example : optimal_optimisation_by_mc_integration (cabin (high ∷ [])) ≡ none
unfolding capacity_index is_partitioned ◌/ℤ◌ ◌+ℤ◌
unsorted_samples_example =
    unsorted_samples Fixed-IsOrdered (cabin (high ∷ [])) high 2 refl (omega arith) (omega arith)
      refl
