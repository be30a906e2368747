-- ===== src/Service/Tests.antt =====
-- The O&D flows on a small network, and the flow of a flight-date with the fare adjustment.
use mathlib.Core.Option
use mathlib.Core.Option.{some-injective}
use rmol.Base.{
  ℕ, suc, ◌≤◌, ◌<◌, ◌≡◌, ◌≢◌, ◌⊎◌, refl, subst, arith, false, List, [], ◌∷◌, Option, none, some,
  All, ◌==◌, if◌then◌else◌, get_elem?,
}
use rmol.Base.Int.{pos, ◌+ℤ◌, ◌-ℤ◌, ◌*ℤ◌, ◌/ℤ◌}
use rmol.Base.Fixed.{Fixed, fixed_double, root_below}
use rmol.Base.Sorting.{count_below}
use rmol.Cabin.Samples.{seats, cabin}
use rmol.Curves.{find_factor}
use rmol.Policy.{Policy}
use rmol.Detruncation.{em, to_short}
use rmol.MonteCarlo.{optimal_index}
use rmol.Integration.{optimise_using_ond_forecast}
use rmol.Snapshots.{get_nb_of_segment_already_passed_this_dtd}
use rmol.Emsr.Samples.{uniform}
use rmol.Optimiser.{leg_based_mc}
use rmol.Forecasting.{nb_of_dtds}
use rmol.Forecasting.Samples.{input}
use rmol.Forecasting.Samples
use rmol.Flight.{FlightDate}
use rmol.Forecaster.{based_forecasting}
use rmol.PreOptimiser.{fa_method}
use rmol.Service.{OndCabin, Inventory, is_dcp}
use rmol.Service.Projection.{Legs, project, project_yp, project_dyp}
use rmol.Service.Cooperation.{while_varying}
use rmol.Service.OndForecast.{forecast_ond}
use rmol.Service.Flow.{
  PartnershipTechnique, Network, rmc, optimise_with_partners, optimise_without_partners,
}
use rmol.Service.Operated.{project-operated}
use rmol.Service.Kept.{IsNotServed}
use rmol.Service.Ways.{yield_proration, dynamic, project_by}
use rmol.Service.Additions.{Addition, additions, with_additions}
use rmol.Service.Projected.{project-additions}
use rmol.Service.Targets.{Runs}
use rmol.Service.Shared.{IsForecastIfDue, forecast_ond_lem}
use rmol.Service.Stopped.{AreMade, while_varying_lem}
use rmol.Service.Outcome.{has_cabin, optimise_with_partners_lem, optimise_with_fare_adjustment}
use rmol.Service.Samples.{ops, rising, whole, setup, network, inventory, demand, leg, on_leg}

cooperation_run :
    (network' : Network Fixed) × (optimise_with_partners ops rising 4 whole
        (pos 20)
        setup
        rmc
        network
      ≡ some (network', false))
unfolding optimise_with_partners optimal_index count_below find_factor optimise_using_ond_forecast
    ◌+ℤ◌ ◌-ℤ◌ ◌*ℤ◌ ◌/ℤ◌
cooperation_run = (_, refl)

optimise_with_partners_lem_example :
    (false ≡ false)
    × ((later : PartnershipTechnique)
        → optimise_with_partners ops rising 4 whole (pos 20) setup later cooperation_run.0
          ≡ some (cooperation_run.0, false))
optimise_with_partners_lem_example =
    optimise_with_partners_lem setup ops rising 4 whole (pos 20) rmc network cooperation_run.1

abbrev inventories : List (Inventory Fixed)
inventories = inventory (demand 1 120 ∷ demand 2 80 ∷ []) ∷ []

abbrev projected : Legs Fixed
projected =
    record leg { yield_demands = (seats 120, seats 1, seats 1) ∷ (seats 80, seats 1, seats 1) ∷ [] }
    ∷ cabin []
    ∷ []

projection_run :
    project whole (pos 20) (project_by ops yield_proration) inventories network.legs
    ≡ some projected
unfolding project project_yp is_dcp ◌-ℤ◌ ◌*ℤ◌ ◌/ℤ◌
projection_run = refl

elsewhere : (cabin : OndCabin Fixed) → on_leg 5 ≡ some cabin → All (λ i. i ≢ 1) cabin.leg_cabins
elsewhere cabin e =
    subst (λ (c : OndCabin Fixed). All (λ i. i ≢ 1) c.leg_cabins) (some-injective _ _ e)
      (omega arith, tt)

-- the second leg-cabin is not on the O&D date
IsNotServed-inventories : All (IsNotServed 1 whole (pos 20)) inventories
IsNotServed-inventories =
    (((λ on. (((λ c _ e. elsewhere c e), tt), (((λ c _ e. elsewhere c e), tt), tt))), tt), tt)

project-operated_example : get_elem? projected 1 ≡ get_elem? network.legs 1
project-operated_example =
    project-operated ops yield_proration whole (pos 20) inventories network.legs 1
      IsNotServed-inventories projection_run

proration_run :
    (legs' : Legs Fixed) × (project whole (pos 20) (project_by ops dynamic) inventories network.legs
      ≡ some legs')
unfolding project project_dyp is_dcp ◌+ℤ◌ ◌-ℤ◌ ◌*ℤ◌ ◌/ℤ◌
proration_run = (_, refl)

project-additions_example :
    (listed : List (Addition Fixed)) × (additions dynamic whole (pos 20) network.legs inventories
      ≡ some listed)
    × ((j : ℕ)
        → get_elem? proration_run.0 j
          ≡ Option.map (with_additions ops j listed) (get_elem? network.legs j))
project-additions_example =
    project-additions ops (λ _ _ _ _. refl) dynamic whole (pos 20) inventories network.legs
      proration_run.1

-- the variation falls to 0 in the second round
abbrev two_rounds : ℕ → Option (ℕ × Fixed)
two_rounds n = some (suc n, (if n == 1 then seats 0 else seats 1))

while_varying_lem_example :
    ((n : ℕ) × (s' : ℕ) × (variation' : Fixed) × AreMade two_rounds n (0, seats 1) (s', variation')
      × (n < 10)
      × (two_rounds s' ≡ none)
      × (while_varying two_rounds 10 (seats 1) 0 ≡ none))
    ⊎ ((n : ℕ) × (s' : ℕ) × (variation' : Fixed) × AreMade two_rounds n
          (0, seats 1)
          (s', variation')
        × (n ≤ 10)
        × (while_varying two_rounds 10 (seats 1) 0 ≡ some (s', variation', n))
        × ((fixed_double.lt (pos 10) variation' ≡ false) ⊎ (n ≡ 10)))
while_varying_lem_example = while_varying_lem two_rounds 10 (seats 1) 0

abbrev flight : FlightDate Fixed (Policy Fixed)
flight = record {
  segments = (record { input = input; demand = Samples.demand; nodes = [] } ∷ []) ∷ [];
  legs = [];
  segments_of = [];
}

fare_adjustment_run :
    (flight' : FlightDate Fixed (Policy Fixed)) × (optimise_without_partners Samples.ops em 5
        (seats 1)
        uniform
        (λ _. [])
        (pos 20)
        based_forecasting
        fa_method
        leg_based_mc
        flight
      ≡ some (flight', false))
unfolding optimise_without_partners nb_of_dtds ◌+ℤ◌ ◌-ℤ◌ ◌*ℤ◌ ◌/ℤ◌ root_below to_short
    get_nb_of_segment_already_passed_this_dtd
fare_adjustment_run = (_, refl)

optimise_with_fare_adjustment_example : (false ≡ false) × (fare_adjustment_run.0.legs ≡ [])
optimise_with_fare_adjustment_example =
    optimise_with_fare_adjustment Samples.ops em 5 (seats 1) uniform (λ _. []) (pos 20)
      based_forecasting leg_based_mc flight has_cabin fare_adjustment_run.1

forecast_ond_run :
    (inventories' : List (Inventory Fixed)) × (forecast_ond setup whole (pos 20) network.inventories
      ≡ some inventories')
unfolding forecast_ond find_factor ◌+ℤ◌ ◌-ℤ◌ ◌*ℤ◌ ◌/ℤ◌
forecast_ond_run = (_, refl)

forecast_ond_lem_example :
    Runs
      (λ (inventory : Inventory Fixed). Runs (IsForecastIfDue setup whole (pos 20)) inventory.onds)
      network.inventories
      network.inventories
      forecast_ond_run.0
forecast_ond_lem_example =
    forecast_ond_lem setup whole (pos 20) network.inventories forecast_ond_run.1
