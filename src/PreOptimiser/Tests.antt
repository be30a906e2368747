-- ===== src/PreOptimiser/Tests.antt =====
-- The pre-optimisation of a flight-date with one segment-cabin.
use rmol.Base.{◌≡◌, refl, true, false, [], ◌∷◌, some}
use rmol.Base.Int.{◌+ℤ◌, ◌*ℤ◌, ◌/ℤ◌}
use rmol.Base.Fixed.{Fixed, fixed_double, root_below}
use rmol.Cabin.Samples.{seats}
use rmol.Policy.{Policy}
use rmol.Forecasting.Samples.{input, demand, ops}
use rmol.Flight.{FlightDate}
use rmol.PreOptimiser.{fa_method, none_method, pre_optimise}

abbrev flight : FlightDate Fixed (Policy Fixed)
flight = record {
  segments = (record { input = input; demand = demand; nodes = [] } ∷ []) ∷ [];
  legs = [];
  segments_of = [];
}

-- the fare adjustment reports a failure and changes nothing
fare_adjustment : pre_optimise ops (seats 1) fa_method flight ≡ some (flight, false)
unfolding pre_optimise
fare_adjustment = refl

-- without demand the sum of the demands changes nothing
no_demand : pre_optimise ops (seats 1) none_method flight ≡ some (flight, true)
unfolding pre_optimise ◌+ℤ◌ ◌*ℤ◌ ◌/ℤ◌ root_below
no_demand = refl
