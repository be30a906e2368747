-- ===== src/Service/Flow.antt =====
-- `RMOL_Service::optimise` of rmol/service/RMOL_Service.cpp: the flow of a flight-date without
-- partners, and the flows of the O&D techniques.
use rmol.Base.{ℕ, Bool, false, List, Option, some, if◌then◌else◌, ◌>>=◌}
use rmol.Base.Int.{ℤ, ltb_ℤ}
use rmol.Base.Double.{Double}
use rmol.Emsr.{Normal}
use rmol.Detruncation.{UnconstrainingMethod}
use rmol.Optimiser.{OptimisationMethod, optimise_flight_date}
use rmol.Forecasting.{PolicyOps}
use rmol.Flight.{FlightDate, attach}
use rmol.Forecaster.{ForecastingMethod, forecast}
use rmol.PreOptimiser.{PreOptimisationMethod, pre_optimise}
use rmol.Service.{Inventory, LegOps, reset_demand_information}
use rmol.Service.Projection.{
  Legs, project, project_aggregated, project_yp, project_dyp, update_bid_price,
}
use rmol.Service.OndForecast.{OndSetup, forecast_ond}
use rmol.Service.Cooperation.{
  optimise_ond, optimise_ond_using_rm_cooperation, optimise_ond_using_advanced_rm_cooperation,
}

-- The O&D techniques of `stdair::PartnershipTechnique`. Without partners `optimise` is
-- `optimise_without_partners`; any other value is an assertion that fails.
pub data PartnershipTechnique : Type 0 where
  rae_da ibp_da rae_yp ibp_yp ibp_yp_u rmc a_rmc : PartnershipTechnique

-- the state of the service
pub record Network {ℓ} (D : Type ℓ) : Type ℓ where
  pub previous_forecast_date : ℤ
  pub inventories : List (Inventory D)
  pub legs : Legs D

module _ {ℓ} {D P : Type ℓ} ⦃d : Double D⦄ (ops : PolicyOps D P)
    (unconstraining : UnconstrainingMethod) (rounds : ℕ) (default_yield : D) (normal : Normal D)
    (generated : List ℕ → List D) where
  -- the last step, on the booking classes as they are by then
  unfoldable pub optimise_legs :
      OptimisationMethod → FlightDate D P → Option (FlightDate D P × Bool)
  unfolding attach optimise_flight_date
  optimise_legs method flight = do
    legs ← attach flight.segments flight.segments_of flight.legs
    (legs', is_succeeded) ← optimise_flight_date normal generated method legs
    some (record flight { legs = legs' }, is_succeeded)

  unfoldable pub pre_optimise_and_optimise :
      PreOptimisationMethod → OptimisationMethod → FlightDate D P → Option (FlightDate D P × Bool)
  unfolding pre_optimise optimise_legs
  pre_optimise_and_optimise pre_method method flight = do
    (flight', is_pre_optimised) ← pre_optimise ops default_yield pre_method flight
    if is_pre_optimised then optimise_legs method flight' else some (flight', false)

  -- the case without partners
  unfoldable pub optimise_without_partners :
      (date : ℤ)
      → ForecastingMethod
      → PreOptimisationMethod
      → OptimisationMethod
      → FlightDate D P
      → Option (FlightDate D P × Bool)
  unfolding forecast pre_optimise_and_optimise
  optimise_without_partners date forecasting pre_method method flight = do
    (flight', is_forecasted) ← forecast ops unconstraining rounds date forecasting flight
    let more = pre_optimise_and_optimise pre_method method flight'
    if is_forecasted then more else some (flight', false)

module _ {ℓ} {D : Type ℓ} ⦃d : Double D⦄ (setup : OndSetup D) (whole : List ℤ) (today : ℤ) where
  -- `forecastOnD` and `resetDemandInformation`, which each technique starts with
  unfoldable pub forecast_and_reset : Network D → Option (Network D)
  unfolding forecast_ond reset_demand_information
  forecast_and_reset network = do
    inventories ← forecast_ond setup whole today network.inventories
    legs ← reset_demand_information whole today inventories network.legs
    some (record { previous_forecast_date = today; inventories = inventories; legs = legs })

module _ {ℓ} {D : Type ℓ} ⦃d : Double D⦄ (leg_ops : LegOps D) (sample : (mean std_dev : D) → ℕ → D)
    (draws : ℕ) (whole : List ℤ) (today : ℤ) where
  -- what each technique does to the leg-cabins then
  unfoldable pub project_and_optimise :
      PartnershipTechnique → List (Inventory D) → Legs D → Option (Legs D)
  unfolding project project_aggregated project_yp project_dyp update_bid_price optimise_ond
      optimise_ond_using_rm_cooperation optimise_ond_using_advanced_rm_cooperation
  project_and_optimise rae_da inventories legs =
      project whole today (project_aggregated leg_ops) inventories legs
      >>= optimise_ond sample draws whole today inventories
  project_and_optimise ibp_da inventories legs =
      project whole today (project_aggregated leg_ops) inventories legs
      >>= optimise_ond sample draws whole today inventories
  project_and_optimise rae_yp inventories legs =
      project whole today (project_yp leg_ops) inventories legs
      >>= optimise_ond sample draws whole today inventories
  project_and_optimise ibp_yp inventories legs =
      project whole today (project_yp leg_ops) inventories legs
      >>= optimise_ond sample draws whole today inventories
  project_and_optimise ibp_yp_u inventories legs =
      project whole today (project_yp leg_ops) inventories legs
      >>= optimise_ond sample draws whole today inventories
  project_and_optimise rmc inventories legs = do
    updated ← update_bid_price leg_ops whole today inventories legs
    projected ← project whole today (project_dyp leg_ops) inventories updated
    optimise_ond_using_rm_cooperation sample draws whole today leg_ops inventories projected
  project_and_optimise a_rmc inventories legs = do
    updated ← update_bid_price leg_ops whole today inventories legs
    projected ← project whole today (project_dyp leg_ops) inventories updated
    optimise_ond_using_advanced_rm_cooperation sample draws whole today leg_ops inventories
        projected

  -- The O&D cases: at most once a day. Their result is `false`.
  unfoldable pub optimise_with_partners :
      OndSetup D → PartnershipTechnique → Network D → Option (Network D × Bool)
  unfolding forecast_and_reset project_and_optimise
  optimise_with_partners setup technique network =
      let run = do
        started ← forecast_and_reset setup whole today network
        legs ← project_and_optimise technique started.inventories started.legs
        some (record started { legs = legs }, false)
      in if ltb_ℤ network.previous_forecast_date today then run else some (network, false)
