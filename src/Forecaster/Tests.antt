-- ===== src/Forecaster/Tests.antt =====
-- A flight-date with a segment-cabin of three departed similar segments and one of none.
use rmol.Base.{◌≡◌, refl, false, [], ◌∷◌, some}
use rmol.Base.Int.{pos, ◌+ℤ◌, ◌-ℤ◌, ◌*ℤ◌, ◌/ℤ◌}
use rmol.Base.Fixed.{Fixed, fixed_double, root_below}
use rmol.Policy.{Policy}
use rmol.Detruncation.{em, to_short}
use rmol.Snapshots.{get_nb_of_segment_already_passed_this_dtd}
use rmol.Forecasting.{nb_of_dtds}
use rmol.Forecasting.Samples.{input, table, demand, ops}
use rmol.Optimiser.Flight.{Each}
use rmol.Flight.{SegmentCabin, FlightDate}
use rmol.Forecaster.{based_forecasting, forecast}
use rmol.Forecaster.Departed.{IsForecast, all_segments_departed, forecast_lem}

abbrev started : SegmentCabin Fixed (Policy Fixed)
started = record { input = input; demand = demand; nodes = [] }

abbrev fresh : SegmentCabin Fixed (Policy Fixed)
fresh = record started { input = record input { table = record table { boardings = [] } } }

abbrev flight : FlightDate Fixed (Policy Fixed)
flight = record { segments = (fresh ∷ started ∷ []) ∷ []; legs = []; segments_of = [] }

forecast_run :
    (flight' : FlightDate Fixed (Policy Fixed)) × (forecast ops em 5
        (pos 20)
        based_forecasting
        flight
      ≡ some (flight', false))
unfolding forecast nb_of_dtds ◌+ℤ◌ ◌-ℤ◌ ◌*ℤ◌ ◌/ℤ◌ root_below to_short
    get_nb_of_segment_already_passed_this_dtd
forecast_run = (_, refl)

forecast_lem_example :
    (false ≡ all_segments_departed ops em 5 (pos 20) flight.segments)
    × Each (Each (IsForecast ops em 5 (pos 20))) flight.segments forecast_run.0.segments
    × (forecast_run.0.legs ≡ flight.legs)
forecast_lem_example = forecast_lem ops em 5 (pos 20) based_forecasting flight forecast_run.1
