-- ===== src/Integration.antt =====
-- rmol/bom/MCOptimiser.cpp, `optimisationByMCIntegration` and `generateDemandVector`: the bid
-- prices of a leg-cabin from the demands of its yield levels; and `optimiseUsingOnDForecast` of
-- rmol/command/Optimiser.cpp, which calls it. The draws of StdAir's random generation are a
-- parameter: `sample` is the draw of a normal value at a place in the sequence of the default seed.
pub mod Floor
pub mod Vector
pub mod Variation
mod Tests
use mathlib.Core.List.{reverse}
use rmol.Base.{
  ℕ, zero, suc, ◌+◌, ◌-◌, Bool, true, false, not, ◌&&◌, List, [], ◌∷◌, ◌++◌, Option, none, some,
  ltb, leb, if◌then◌else◌, length, replicate, get_elem?, set, ◌>>=◌, ◌>>◌, assert,
}
use rmol.Base.Int.{pos_part}
use rmol.Base.Double.{Double, ◌⊖◌, ◌⊘◌, of_ℕ, nought}
use rmol.Base.Sorting.{sort, lower_bound}
use rmol.Cabin.{LegCabin}
use rmol.MonteCarlo.{Progress, to_unsigned, advance, bid_price, optimal_index, protection_level}

-- `lBidPriceVector.back()`
unfoldable pub back {ℓ} : {A : Type ℓ} → List A → Option A
back [] = none
back (x ∷ []) = some x
back (x ∷ y ∷ ys) = back (y ∷ ys)

module _ {ℓ} {D : Type ℓ} ⦃d : Double D⦄ (sample : (mean std_dev : D) → ℕ → D) where
  -- the draws from the place `i` on
  unfoldable pub draw_samples : (mean std_dev : D) (rounds i : ℕ) → List D
  draw_samples mean std_dev zero i = []
  draw_samples mean std_dev (suc rounds) i =
      sample mean std_dev i ∷ draw_samples mean std_dev rounds (suc i)

  unfoldable pub generate_demand_vector : (mean std_dev : D) → ℕ → List D
  unfolding draw_samples
  generate_demand_vector mean std_dev k =
      if d.lt nought std_dev then draw_samples mean std_dev k 0 else replicate k mean

module _ {ℓ} {D : Type ℓ} ⦃d : Double D⦄ where
  -- `for (; idx <= pjint && idx <= lAvailabilityPool; ++idx)`, for the indices left up to `last`
  unfoldable pub push_below_pool :
      (left idx last from : ℕ) (pool y : D) (holder prices : List D) → Option (ℕ × List D)
  unfolding lower_bound bid_price
  push_below_pool zero idx last from pool y holder prices = some (idx, prices)
  push_below_pool (suc left) idx last from pool y holder prices =
      let round = do
        at ← lower_bound from holder (of_ℕ idx)
        push_below_pool left (suc idx) last at pool y holder
            (prices ++ bid_price y (length holder) at ∷ [])
      in if leb idx last && d.le (of_ℕ idx) pool then round else some (idx, prices)

  -- the price to push, and whether the minimum of 1.0 has been reached by then
  unfoldable pub price_or_min : (reached : Bool) → D → D × Bool
  price_or_min true price = (of_ℕ 1, true)
  price_or_min false price = if d.lt price (of_ℕ 1) then (of_ℕ 1, true) else (price, false)

  -- `for (; idx <= lAvailabilityPool; ++idx)`, for a number of rounds; `none` if they run out
  unfoldable pub push_final :
      (rounds idx from : ℕ) (reached : Bool) (pool y : D) (holder prices : List D) → Option (List D)
  unfolding lower_bound bid_price price_or_min
  push_final zero idx from reached pool y holder prices =
      if d.le (of_ℕ idx) pool then none else some prices
  push_final (suc rounds) idx from reached pool y holder prices =
      let round = do
        at ← lower_bound from holder (of_ℕ idx)
        let (price, reached') = price_or_min reached (bid_price y (length holder) at)
        push_final rounds (suc idx) at reached' pool y holder (prices ++ price ∷ [])
      in if d.le (of_ℕ idx) pool then round else some prices

  module _ (sample : (mean std_dev : D) → ℕ → D) (pool : D) where
    -- One round of the loop over the yield levels, from the current yield to the next level.
    unfoldable pub integrate_level : (yj : D) (next : D × D × D) → Progress D → Option (Progress D)
    unfolding sort optimal_index protection_level push_below_pool generate_demand_vector advance
    integrate_level yj (yj1, mean, std_dev) st = do
      assert (d.lt yj1 yj)
      let sorted = sort st.holder
      let k = length sorted
      let lj = optimal_index k yj yj1
      assert (leb 1 lj && ltb lj k)
      pj ← protection_level lj sorted
      let last = to_unsigned (d.to_int pj)
      (idx, prices) ← push_below_pool (last + 1 - st.idx) st.idx last 0 pool yj sorted st.prices
      holder ← advance lj sorted (generate_demand_vector sample mean std_dev (k - lj))
      some (record { holder = holder; idx = idx; prices = prices })

    -- The loop over the levels and, at the last level, the prices that have a minimum.
    unfoldable pub integrate_levels : (yj : D) → List (D × D × D) → Progress D → Option (List D)
    unfolding integrate_level sort push_final
    integrate_levels yj [] st =
        push_final (suc (pos_part (d.to_int pool)) - st.idx) st.idx 0 false pool yj (sort st.holder)
          st.prices
    integrate_levels yj (next ∷ rest) st = do
      st' ← integrate_level yj next st
      integrate_levels next.0 rest st'

  -- `std::abs ((current - previous) / previous)`
  unfoldable pub bid_price_variation : LegCabin D → D
  bid_price_variation cabin =
      let change =
        (cabin.current_bid_price ⊖ cabin.previous_bid_price) ⊘ cabin.previous_bid_price in
      if d.lt change nought then d.neg change else change

  -- `std::max`
  unfoldable pub max_of : D → D → D
  max_of a b = if d.lt a b then b else a

  module _ (sample : (mean std_dev : D) → ℕ → D) (draws : ℕ) where
    -- The levels from the highest yield down; `draws` is the number of draws of the first level.
    unfoldable pub integrate_from_high : LegCabin D → List (D × D × D) → Option (List D)
    unfolding integrate_levels generate_demand_vector
    integrate_from_high cabin [] = none
    integrate_from_high cabin ((yield, mean, std_dev) ∷ rest) =
        integrate_levels sample cabin.availability_pool yield rest (record {
          holder = generate_demand_vector sample mean std_dev draws;
          idx = 1;
          prices = [];
        })

    -- The whole method. StdAir keeps the levels in rising order of the yields.
    unfoldable pub optimisation_by_mc_integration : LegCabin D → Option (LegCabin D)
    unfolding integrate_from_high back
    optimisation_by_mc_integration cabin = do
      prices ← integrate_from_high cabin (reverse cabin.yield_demands)
      last_price ← back prices
      assert (not (d.eq cabin.current_bid_price nought))
      some (record cabin {
        bid_prices = prices;
        previous_bid_price = cabin.current_bid_price;
        current_bid_price = last_price;
      })

    -- `optimiseUsingOnDForecast`: the leg-cabins of a leg-date, by their indices, and the leg-dates
    -- of a flight-date, with the greatest variation so far
    unfoldable pub optimise_leg_cabins_using_ond_forecast :
        List ℕ → List (LegCabin D) → (max_variation : D) → Option (List (LegCabin D) × D)
    unfolding optimisation_by_mc_integration bid_price_variation max_of
    optimise_leg_cabins_using_ond_forecast [] legs max_variation = some (legs, max_variation)
    optimise_leg_cabins_using_ond_forecast (i ∷ is) legs max_variation = do
      cabin ← get_elem? legs i
      cabin' ← optimisation_by_mc_integration cabin
      assert (not (d.eq cabin'.previous_bid_price nought))
      optimise_leg_cabins_using_ond_forecast is (set legs i cabin')
          (max_of max_variation (bid_price_variation cabin'))

    unfoldable pub optimise_using_ond_forecast :
        List (List ℕ) → List (LegCabin D) → (max_variation : D) → Option (List (LegCabin D) × D)
    unfolding optimise_leg_cabins_using_ond_forecast
    optimise_using_ond_forecast [] legs max_variation = some (legs, max_variation)
    optimise_using_ond_forecast (leg_date ∷ leg_dates) legs max_variation = do
      (legs', variation) ← optimise_leg_cabins_using_ond_forecast leg_date legs max_variation
      optimise_using_ond_forecast leg_dates legs' variation
