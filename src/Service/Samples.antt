-- ===== src/Service/Samples.antt =====
-- One airline with a flight-date of one leg-cabin and an O&D date on it, in fixed-point numbers,
-- for the tests.
use rmol.Base.{ℕ, true, List, [], ◌∷◌, ◌++◌, Option, none, some}
use rmol.Base.Int.{ℤ, pos}
use rmol.Base.Double.{◌⊕◌, of_ℕ}
use rmol.Base.Fixed.{Fixed, fixed_double}
use rmol.Cabin.{LegCabin}
use rmol.Cabin.Samples.{seats, cabin}
use rmol.Service.{OndCabin, OndSegment, OndDemand, OndDate, Inventory, LegOps}
use rmol.Service.OndForecast.{AirlineClassList, DatePeriod, OndSetup}
use rmol.Service.Flow.{Network}

abbrev pub ops : LegOps Fixed
ops = record {
  add_demand_information = λ yield mean std_dev c. record c {
    yield_demands = c.yield_demands ++ (yield, mean, std_dev) ∷ [];
  };
  update_current_bid_price = λ c. c;
}

abbrev pub rising : Fixed → Fixed → ℕ → Fixed
rising mean std_dev i = mean ⊕ of_ℕ i

abbrev pub on_leg : ℕ → Option (OndCabin Fixed)
on_leg code = some (record { yield_of_class = λ _. some (seats 120); leg_cabins = 0 ∷ [] })

abbrev pub operated : OndSegment Fixed
operated = record { cabins = on_leg; operating = none }

abbrev pub demand : ℕ → ℕ → OndDemand Fixed
demand class_code yield = record {
  cabin_classes = (5, class_code) ∷ [];
  yield = seats yield;
  mean = seats 1;
  std_dev = seats 1;
}

abbrev pub ond : OndDate Fixed
ond = record {
  airline = 1;
  origin = 1;
  destination = 2;
  date = pos 22;
  nb_of_segments = 1;
  segments = operated ∷ [];
  demands = [];
  total_forecasts = (5, seats 100, seats 10, seats 2) ∷ [];
}

abbrev pub inventory : List (OndDemand Fixed) → Inventory Fixed
inventory demands = record {
  code = 1;
  flights = record { departure = pos 22; leg_dates = (0 ∷ []) ∷ []; images = [] } ∷ [];
  onds = record ond { demands = demands } ∷ [];
}

abbrev pub leg : LegCabin Fixed
leg = record (cabin []) { current_bid_price = seats 50 }

abbrev pub whole : List ℤ
whole = pos 4 ∷ pos 2 ∷ pos 0 ∷ []

abbrev pub rule : ℕ → ℕ → AirlineClassList Fixed
rule class_code yield = record {
  airlines = 1 ∷ [];
  class_codes = (class_code ∷ []) ∷ [];
  rule_yield = seats yield;
}

abbrev pub period : DatePeriod Fixed
period = record {
  is_departure_date_valid = λ _. true;
  pos_channel = some ((λ _. some (rule 1 120 ∷ rule 2 80 ∷ [])) ∷ []);
}

abbrev pub setup : OndSetup Fixed
setup = record {
  airport_pairs = record { pair_origin = 1; pair_destination = 2; date_periods = period ∷ [] } ∷ [];
  remaining_proportion = λ _. pos 500;
  frat5_coefs = (pos 2, seats 2) ∷ [];
  set_demand_information = λ classes yield mean std_dev o. record o {
    demands =
        record { cabin_classes = classes; yield = yield; mean = mean; std_dev = std_dev }
        ∷ o.demands;
  };
}

abbrev pub network : Network Fixed
network = record {
  previous_forecast_date = pos 13;
  inventories = inventory [] ∷ [];
  legs = leg ∷ cabin [] ∷ [];
}
