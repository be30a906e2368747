-- ===== src/Forecasting/Samples.antt =====
-- A segment-cabin with two booking classes in one fare family, three departed similar segments and
-- one that has not departed, in fixed-point numbers, for the tests.
use rmol.Base.{ℕ, ◌%◌, true, List, [], ◌∷◌, Option, none, some, ◌==◌, if◌then◌else◌}
use rmol.Base.Int.{pos}
use rmol.Base.Double.{◌⊕◌, ◌⊗◌}
use rmol.Base.Fixed.{Fixed, fixed_double}
use rmol.Cabin.{BookingClass}
use rmol.Cabin.Samples.{seats}
use rmol.Curves.{Curve}
use rmol.Demand.{ClassDemand, FamilyDemand}
use rmol.Policy.{Policy}
use rmol.Forecasting.{View, SnapshotTable, CabinInput, CabinDemand, PolicyOps}

abbrev pub constant_view : Fixed → View Fixed
constant_view v segment_begin segment_end dcp_end dcp_begin row column = some v

-- one booking more a day with each class
abbrev pub rising_view : View Fixed
rising_view segment_begin segment_end dcp_end dcp_begin row column = some (seats (row % 3))

abbrev pub index_of_class : ℕ → Option ℕ
index_of_class code = if code == 1 then some 0 else if code == 2 then some 1 else none

abbrev pub table : SnapshotTable Fixed
table = record {
  boardings = pos 3 ∷ pos 10 ∷ pos 17 ∷ pos 24 ∷ [];
  greatest_nb = 65535;
  nb_of_classes = 3;
  class_index = index_of_class;
  cabin_index = some 2;
  price_bookings = rising_view;
  product_bookings = constant_view (seats 1);
  availability = constant_view (seats 1);
}

abbrev pub booking_class : ℕ → ℕ → BookingClass Fixed
booking_class code yield = record {
  code = code;
  yield = seats yield;
  adjusted_yield = seats yield;
  mean = seats 0;
  std_dev = seats 0;
}

abbrev pub frat5s : Curve Fixed
frat5s = (pos 4, seats 2) ∷ (pos 2, seats 2) ∷ (pos 0, seats 2) ∷ []

abbrev pub input : CabinInput Fixed
input = record {
  table = table;
  dcp_list = pos 4 ∷ pos 2 ∷ pos 0 ∷ [];
  boarding = pos 22;
  has_fare_families = true;
  booking_classes = booking_class 1 120 ∷ booking_class 2 100 ∷ [];
  fare_families = (frat5s, booking_class 1 120 ∷ booking_class 2 100 ∷ []) ∷ [];
  disutility_of = λ _. frat5s;
}

abbrev pub class_demand : ℕ → ClassDemand Fixed
class_demand code = record {
  code = code;
  mean = seats 0;
  std_dev = seats 0;
  price_mean = seats 0;
  price_std_dev = seats 0;
  product_mean = seats 0;
  product_std_dev = seats 0;
  cumu_price_mean = seats 0;
  cumu_price_std_dev = seats 0;
}

abbrev pub family : FamilyDemand Fixed
family = record {
  family_mean = seats 0;
  family_std_dev = seats 0;
  classes = class_demand 1 ∷ class_demand 2 ∷ [];
}

abbrev pub policy : Option (List ℕ) → Policy Fixed
policy codes = record {
  classes = codes;
  demand = seats 0;
  total_revenue = seats 0;
  std_dev = seats 0;
}

abbrev pub demand : CabinDemand Fixed (Policy Fixed)
demand = record { families = family ∷ []; policies = policy none ∷ policy (some (1 ∷ [])) ∷ [] }

abbrev pub ops : PolicyOps Fixed (Policy Fixed)
ops = record {
  held = λ p. p.classes;
  demand_of = λ p. p.demand;
  std_dev_of = λ p. p.std_dev;
  total_revenue_of = λ p. p.total_revenue;
  set_demand = λ x p. record p { demand = x };
  set_std_dev = λ x p. record p { std_dev = x };
  reset_demand_forecast =
      λ p. record p { demand = seats 0; total_revenue = seats 0; std_dev = seats 0 };
  add_yield_demand = λ yield x p. record p { total_revenue = p.total_revenue ⊕ yield ⊗ x };
}
