-- ===== src/Integration/Vector.antt =====
-- `optimisationByMCIntegration` of rmol/bom/MCOptimiser.cpp: what the method leaves behind.
use mathlib.Core.List.{reverse}
use mathlib.Core.Option.{some-injective}
use rmol.Base.{
  ℕ, ◌≡◌, refl, subst, false, not, List, [], ◌∷◌, some, arith, >>=-eq-some, assert-eq-some,
}
use rmol.Base.Double.{Double, ◌≺◌, nought}
use rmol.Cabin.{LegCabin}
use rmol.MonteCarlo.{Progress}
use rmol.Integration.{
  back, integrate_level, integrate_levels, integrate_from_high, optimisation_by_mc_integration,
}

module _ {ℓ} {D : Type ℓ} ⦃d : Double D⦄ where
  -- the yields of the levels fall strictly
  abbrev pub HasFallingLevels : List (D × D × D) → Type 0
  HasFallingLevels [] = Unit
  HasFallingLevels (l ∷ []) = Unit
  HasFallingLevels (l ∷ m ∷ ls) = (m.0 ≺ l.0) × HasFallingLevels (m ∷ ls)

  module _ (sample : (mean std_dev : D) → ℕ → D) where
    integrate_level-falls :
        (pool yj : D) (next : D × D × D) (st : Progress D) {st' : Progress D}
        → integrate_level sample pool yj next st ≡ some st'
        → next.0 ≺ yj
    unfolding integrate_level
    integrate_level-falls pool yj (yj1, mean, std_dev) st e = (assert-eq-some (d.lt yj1 yj) _ e).0

    integrate_levels-falls :
        (pool : D) (level : D × D × D) (rest : List (D × D × D)) (st : Progress D) {prices : List D}
        → integrate_levels sample pool level.0 rest st ≡ some prices
        → HasFallingLevels (level ∷ rest)
    unfolding integrate_levels
    integrate_levels-falls pool level [] st e = tt
    integrate_levels-falls pool level (next ∷ rest) st e =
        let (st', round, e1) = >>=-eq-some (integrate_level sample pool level.0 next st) _ e in
        (
          integrate_level-falls pool level.0 next st round,
          integrate_levels-falls pool next rest st' e1,
        )

    integrate_from_high-falls :
        (draws : ℕ) (cabin : LegCabin D) (levels : List (D × D × D)) {prices : List D}
        → integrate_from_high sample draws cabin levels ≡ some prices
        → HasFallingLevels levels
    unfolding integrate_from_high
    integrate_from_high-falls draws cabin [] e = tt
    integrate_from_high-falls draws cabin ((yield, mean, std_dev) ∷ rest) e =
        integrate_levels-falls cabin.availability_pool (yield, mean, std_dev) rest _ e

    -- If the method returns, the yields of the levels rise strictly in the map, the price that was
    -- the current one is not 0 and is the previous one now, the current one is the last of the new
    -- bid prices, and nothing else of the leg-cabin changes.
    pub optimisation_by_mc_integration_lem :
        (draws : ℕ) (cabin : LegCabin D) {cabin' : LegCabin D}
        → optimisation_by_mc_integration sample draws cabin ≡ some cabin'
        → HasFallingLevels (reverse cabin.yield_demands)
          × (d.eq cabin.current_bid_price nought ≡ false)
          × (cabin'.previous_bid_price ≡ cabin.current_bid_price)
          × (back cabin'.bid_prices ≡ some cabin'.current_bid_price)
          × (record cabin' {
            bid_prices = cabin.bid_prices;
            previous_bid_price = cabin.previous_bid_price;
            current_bid_price = cabin.current_bid_price;
          }
              ≡ cabin)
    unfolding optimisation_by_mc_integration
    optimisation_by_mc_integration_lem draws cabin e =
        let (prices, run, e1) =
          >>=-eq-some (integrate_from_high sample draws cabin (reverse cabin.yield_demands)) _ e in
        let (last_price, last, e2) = >>=-eq-some (back prices) _ e1 in
        let (some_price, e3) = assert-eq-some (not (d.eq cabin.current_bid_price nought)) _ e2 in
        subst
          (λ (c : LegCabin D).
            HasFallingLevels (reverse cabin.yield_demands)
            × (d.eq cabin.current_bid_price nought ≡ false)
            × (c.previous_bid_price ≡ cabin.current_bid_price)
            × (back c.bid_prices ≡ some c.current_bid_price)
            × (record c {
              bid_prices = cabin.bid_prices;
              previous_bid_price = cabin.previous_bid_price;
              current_bid_price = cabin.current_bid_price;
            }
                ≡ cabin))
          (some-injective _ _ e3)
          (
            integrate_from_high-falls draws cabin (reverse cabin.yield_demands) run,
            ground (arith, some_price),
            refl,
            last,
            refl,
          )
