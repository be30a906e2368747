-- ===== src/Cabin/Samples.antt =====
-- Leg-cabins and virtual classes in fixed-point numbers, for the tests.
use rmol.Base.{ℕ, ◌*◌, List, [], ◌∷◌}
use rmol.Base.Int.{pos}
use rmol.Base.Fixed.{Fixed}
use rmol.Cabin.{VirtualClass, LegCabin}

abbrev pub seats : ℕ → Fixed
seats n = pos (n * 1000)

abbrev pub class : ℕ → List Fixed → VirtualClass Fixed
class y samples = record {
  booking_classes = [];
  yield = seats y;
  mean = seats 2;
  std_dev = seats 1;
  protection = seats 0;
  booking_limit = seats 0;
  demand = samples;
}

abbrev pub cabin : List (VirtualClass Fixed) → LegCabin Fixed
cabin classes = record {
  offered_capacity = seats 5;
  availability_pool = seats 3;
  segment_cabins = [] ∷ [];
  virtual_classes = classes;
  bid_prices = [];
  yield_demands = [];
  current_bid_price = seats 0;
  previous_bid_price = seats 0;
}
