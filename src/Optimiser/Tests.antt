-- ===== src/Optimiser/Tests.antt =====
-- The optimisation of a small cabin, with EMSR-b and uniform demands.
use rmol.Base.{ℕ, ◌≡◌, refl, true, List, [], ◌∷◌, foldl, some, arith, ltb, length}
use rmol.Base.Int.{pos, ◌+ℤ◌, ◌-ℤ◌, ◌*ℤ◌, ◌/ℤ◌}
use rmol.Base.Fixed.{Fixed, fixed_double, Fixed-IsOrdered, root_below}
use rmol.Cabin.{BookingClass, VirtualClass, LegCabin}
use rmol.Cabin.Chain.{HasFallingYields}
use rmol.Cabin.Samples.{seats, class, cabin}
use rmol.Emsr.{emsr_b_classes, heuristic_optimisation_by_emsr_b}
use rmol.Emsr.Samples.{uniform}
use rmol.Optimiser.{
  leg_based_emsr_b, VirtualClassMap, yield_level, new_class, extend_class, build_map,
  from_high_to_low, build_virtual_class_list, optimise_flight_date,
}
use rmol.Optimiser.Levels.{find_level, join_if, IsRising, build_map-lem}
use rmol.Optimiser.Falling.{build_virtual_class_list_lem}
use rmol.Optimiser.Flight.{Each, IsOptimised, has_demand, any, optimise_flight_date_lem}

abbrev booking : (code yield mean sd : ℕ) → BookingClass Fixed
booking code yield mean sd = record {
  code = code;
  yield = pos yield;
  adjusted_yield = pos yield;
  mean = seats mean;
  std_dev = seats sd;
}

-- two classes of level 100, one of level 50, one of level 0 and one without demand
abbrev offered : List (BookingClass Fixed)
offered =
    booking 1 50300 4 1
    ∷ booking 2 100200 2 3
    ∷ booking 3 99500 3 4
    ∷ booking 4 300 5 1
    ∷ booking 5 70000 0 1
    ∷ []

abbrev upper : VirtualClass Fixed
upper = record (class 100 []) { booking_classes = 2 ∷ 3 ∷ []; mean = seats 5; std_dev = seats 5 }

abbrev lower : VirtualClass Fixed
lower = record (class 50 []) { booking_classes = 1 ∷ []; mean = seats 4; std_dev = seats 1 }

abbrev levels : VirtualClassMap Fixed
levels = (50, lower) ∷ (100, upper) ∷ []

built_map : build_map offered [] ≡ some levels
unfolding build_map new_class extend_class root_below ◌+ℤ◌ ◌-ℤ◌ ◌*ℤ◌ ◌/ℤ◌
built_map = refl

build_map-lem_example :
    IsRising 1 levels × (find_level 100 levels ≡ foldl (join_if 100) (find_level 100 []) offered)
build_map-lem_example = build_map-lem 100 offered [] tt built_map

abbrev before : LegCabin Fixed
before = record (cabin []) { segment_cabins = offered ∷ [] }

abbrev listed : LegCabin Fixed
listed = record before { virtual_classes = upper ∷ lower ∷ [] }

built_list : build_virtual_class_list before ≡ some (listed, true)
unfolding build_virtual_class_list from_high_to_low new_class extend_class root_below ◌+ℤ◌ ◌-ℤ◌ ◌*ℤ◌
    ◌/ℤ◌
built_list = refl

build_virtual_class_list_lem_example :
    (m : VirtualClassMap Fixed) × (build_map offered [] ≡ some m)
    × (listed ≡ record before { virtual_classes = from_high_to_low m })
    × HasFallingYields listed.virtual_classes
    × (true ≡ ltb 0 (length listed.virtual_classes))
unfolding yield_level ◌+ℤ◌ ◌-ℤ◌ ◌*ℤ◌ ◌/ℤ◌
build_virtual_class_list_lem_example =
    build_virtual_class_list_lem Fixed-IsOrdered before offered [] refl
      (omega arith, (omega arith, (omega arith, (omega arith, (omega arith, tt))))) built_list

abbrev idle : LegCabin Fixed
idle = record (cabin []) { segment_cabins = (booking 5 70000 0 1 ∷ []) ∷ [] }

-- the samples that no test reads
abbrev nothing : List ℕ → List Fixed
nothing codes = []

abbrev after : LegCabin Fixed
after = record listed {
  virtual_classes =
      record upper { booking_limit = seats 5; protection = seats 5 }
      ∷ record lower { booking_limit = seats 0 }
      ∷ [];
}

optimised :
    optimise_flight_date uniform nothing leg_based_emsr_b ((idle ∷ []) ∷ (before ∷ idle ∷ []) ∷ [])
    ≡ some ((idle ∷ []) ∷ (after ∷ idle ∷ []) ∷ [], true)
unfolding optimise_flight_date build_virtual_class_list emsr_b_classes
    heuristic_optimisation_by_emsr_b root_below from_high_to_low new_class extend_class ◌+ℤ◌ ◌-ℤ◌
    ◌*ℤ◌ ◌/ℤ◌
optimised = refl

optimise_flight_date_lem_example :
    Each
      (Each (IsOptimised uniform nothing leg_based_emsr_b))
      ((idle ∷ []) ∷ (before ∷ idle ∷ []) ∷ [])
      ((idle ∷ []) ∷ (after ∷ idle ∷ []) ∷ [])
    × (any uniform nothing
          (any uniform nothing (has_demand uniform nothing))
          ((idle ∷ []) ∷ (before ∷ idle ∷ []) ∷ [])
        ≡ true)
optimise_flight_date_lem_example =
    optimise_flight_date_lem uniform nothing leg_based_emsr_b
      ((idle ∷ []) ∷ (before ∷ idle ∷ []) ∷ []) optimised
