-- ===== src/Forecaster.antt =====
-- rmol/command/Forecaster.cpp: the forecast of a flight-date, by one of the forecasting methods.
pub mod Departed
mod Tests
use rmol.Base.{ℕ, Bool, true, false, List, Option, none, some, ltb, if◌then◌else◌, ◌>>=◌}
use rmol.Base.Int.{ℤ, ◌-ℤ◌}
use rmol.Base.Double.{Double}
use rmol.Demand.{set_demand_forecasts_to_zero}
use rmol.Detruncation.{UnconstrainingMethod}
use rmol.Snapshots.{get_nb_of_departed_similar_segments}
use rmol.Forecasting.{CabinInput, CabinDemand, PolicyOps}
use rmol.Forecasting.ByClass.{based_forecast}
use rmol.Forecasting.PriceOriented.{q_forecast, hybrid_forecast}
use rmol.Forecasting.ByFamily.{new_qff_forecast}
use rmol.Forecasting.ByPolicy.{old_qff_forecast}
use rmol.Flight.{SegmentCabin, FlightDate, with_demand, each_segment}

-- `stdair::ForecastingMethod`: the methods that the code handles, and the others
pub data ForecastingMethod : Type 0 where
  q_forecasting hybrid_forecasting new_qff old_qff based_forecasting other_method :
      ForecastingMethod

module _ {ℓ} {D P : Type ℓ} ⦃d : Double D⦄ (ops : PolicyOps D P)
    (unconstraining : UnconstrainingMethod) (rounds : ℕ) where
  -- the `switch`; the methods for fare families fall back on the hybrid one
  unfoldable pub forecast_by :
      ForecastingMethod
      → CabinInput D
      → (date dtd : ℤ) (departed : ℕ) → CabinDemand D P
      → Option (CabinDemand D P × Bool)
  unfolding based_forecast q_forecast hybrid_forecast new_qff_forecast old_qff_forecast
  forecast_by q_forecasting input date dtd departed demand =
      q_forecast unconstraining rounds input date dtd departed demand
  forecast_by hybrid_forecasting input date dtd departed demand =
      hybrid_forecast unconstraining rounds input date dtd departed demand
  forecast_by new_qff input date dtd departed demand =
      if input.has_fare_families
      then new_qff_forecast ops unconstraining rounds input date dtd departed demand
      else hybrid_forecast unconstraining rounds input date dtd departed demand
  forecast_by old_qff input date dtd departed demand =
      if input.has_fare_families
      then old_qff_forecast ops unconstraining rounds input date dtd departed demand
      else hybrid_forecast unconstraining rounds input date dtd departed demand
  forecast_by based_forecasting input date dtd departed demand =
      based_forecast unconstraining rounds input date dtd departed demand
  forecast_by other_method input date dtd departed demand = none

  -- a segment-cabin
  unfoldable pub forecast_cabin :
      (date : ℤ) → ForecastingMethod → SegmentCabin D P → Option (SegmentCabin D P × Bool)
  unfolding get_nb_of_departed_similar_segments set_demand_forecasts_to_zero forecast_by with_demand
  forecast_cabin date method cabin =
      let departed = get_nb_of_departed_similar_segments cabin.input.table.boardings date in
      let zeroed = record (cabin.demand) {
        families = set_demand_forecasts_to_zero cabin.demand.families;
      } in
      let run = do
        (demand, is_forecasted) ←
            forecast_by method cabin.input date (cabin.input.boarding -ℤ date) departed zeroed
        some (with_demand demand cabin, is_forecasted)
      in if ltb departed 2 then some (cabin, false) else run

  -- a flight-date
  unfoldable pub forecast :
      (date : ℤ) → ForecastingMethod → FlightDate D P → Option (FlightDate D P × Bool)
  unfolding each_segment forecast_cabin
  forecast date method flight = do
    (segments, is_succeeded) ← each_segment (forecast_cabin date method) flight.segments
    some (record flight { segments = segments }, is_succeeded)
