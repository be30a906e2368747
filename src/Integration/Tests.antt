-- ===== src/Integration/Tests.antt =====
-- The integration over two yield levels, in fixed-point numbers, with four draws that rise by one.
use rmol.Base.{
  ℕ, ◌+◌, ◌≡◌, ◌≢◌, ◌⊎◌, refl, true, false, List, [], ◌∷◌, ◌++◌, some, arith, All, get_elem?,
  replicate,
}
use rmol.Base.Int.{pos, ◌+ℤ◌, ◌-ℤ◌, ◌*ℤ◌, ◌/ℤ◌}
use rmol.Base.Double.{◌⊕◌, of_ℕ, nought}
use rmol.Base.Fixed.{Fixed, fixed_double, Fixed-IsOrdered}
use rmol.Base.Sorting.{count_below}
use rmol.Cabin.{LegCabin}
use rmol.Cabin.Samples.{seats, cabin}
use rmol.MonteCarlo.{bid_price, optimal_index}
use rmol.MonteCarlo.Prices.{price_at, prices_from}
use rmol.Integration.{back, push_final, optimisation_by_mc_integration, optimise_using_ond_forecast}
use rmol.Integration.Floor.{IsUpTo, IsEnough, push_final_lem}
use rmol.Integration.Vector.{HasFallingLevels, optimisation_by_mc_integration_lem}
use rmol.Integration.Variation.{IsVisited, concat, optimise_using_ond_forecast_lem}

abbrev rising : Fixed → Fixed → ℕ → Fixed
rising mean std_dev i = mean ⊕ of_ℕ i

abbrev two_levels : LegCabin Fixed
two_levels = record (cabin []) {
  yield_demands = (seats 70, seats 2, seats 1) ∷ (seats 100, seats 1, seats 1) ∷ [];
  current_bid_price = seats 50;
}

abbrev integrated : LegCabin Fixed
integrated = record two_levels {
  bid_prices = pos 100000 ∷ pos 70000 ∷ pos 70000 ∷ [];
  previous_bid_price = seats 50;
  current_bid_price = seats 70;
}

two_levels-integrated : optimisation_by_mc_integration rising 4 two_levels ≡ some integrated
unfolding optimisation_by_mc_integration optimal_index count_below ◌+ℤ◌ ◌-ℤ◌ ◌*ℤ◌ ◌/ℤ◌
two_levels-integrated = refl

optimisation_by_mc_integration_lem_example :
    HasFallingLevels ((seats 100, seats 1, seats 1) ∷ (seats 70, seats 2, seats 1) ∷ [])
    × (fixed_double.eq (seats 50) nought ≡ false)
    × (integrated.previous_bid_price ≡ seats 50)
    × (back integrated.bid_prices ≡ some (seats 70))
    × (record integrated {
      bid_prices = two_levels.bid_prices;
      previous_bid_price = two_levels.previous_bid_price;
      current_bid_price = two_levels.current_bid_price;
    }
        ≡ two_levels)
optimisation_by_mc_integration_lem_example =
    optimisation_by_mc_integration_lem rising 4 two_levels two_levels-integrated

-- four sorted samples and a yield at which the price falls below 1.0 after the first index
abbrev samples : List Fixed
samples = seats 1 ∷ seats 1 ∷ seats 2 ∷ seats 4 ∷ []

low_prices :
    push_final 4 1 0 false (seats 4) (seats 3) samples []
    ≡ some (seats 3 ∷ pos 1500 ∷ seats 1 ∷ seats 1 ∷ [])
unfolding push_final bid_price count_below ◌*ℤ◌ ◌/ℤ◌
low_prices = refl

IsEnough-rounds : IsEnough (seats 4) 1 4
IsEnough-rounds i h e = ground arith

push_final_lem_example :
    (m : ℕ) × (n : ℕ) × IsUpTo (seats 4) 1 (m + n)
    × (push_final 4 1 0 false (seats 4) (seats 3) samples []
        ≡ some (prices_from (seats 3) samples m 1 ++ replicate n (of_ℕ 1)))
    × All (λ p. fixed_double.lt p (of_ℕ 1) ≡ false) (prices_from (seats 3) samples m 1)
    × ((n ≡ 0) ⊎ (fixed_double.lt (price_at (seats 3) samples (1 + m)) (of_ℕ 1) ≡ true))
push_final_lem_example =
    push_final_lem Fixed-IsOrdered (seats 4) (seats 3) samples (ground arith) 4 1 0 [] (omega arith)
      IsEnough-rounds

optimised_flight :
    optimise_using_ond_forecast rising 4 ((0 ∷ []) ∷ []) (two_levels ∷ cabin [] ∷ []) nought
    ≡ some (integrated ∷ cabin [] ∷ [], pos 400)
unfolding optimise_using_ond_forecast optimal_index count_below ◌+ℤ◌ ◌-ℤ◌ ◌*ℤ◌ ◌/ℤ◌
optimised_flight = refl

optimise_using_ond_forecast_lem_example :
    (vs : List Fixed) × IsVisited rising 4
      (0 ∷ [])
      (two_levels ∷ cabin [] ∷ [])
      (integrated ∷ cabin [] ∷ [])
      vs
    × All (λ v. fixed_double.lt (pos 400) v ≡ false) (nought ∷ vs)
    × ((j : ℕ)
        → All (λ i. i ≢ j) (0 ∷ [])
        → get_elem? (integrated ∷ cabin [] ∷ []) j ≡ get_elem? (two_levels ∷ cabin [] ∷ []) j)
unfolding concat
optimise_using_ond_forecast_lem_example =
    optimise_using_ond_forecast_lem rising 4 Fixed-IsOrdered ((0 ∷ []) ∷ [])
      (two_levels ∷ cabin [] ∷ []) nought optimised_flight
