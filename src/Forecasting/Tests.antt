-- ===== src/Forecasting/Tests.antt =====
-- The five forecasting methods on a small cabin.
use rmol.Base.{
  ℕ, ◌+◌, ◌<◌, ◌≡◌, refl, Bool, true, false, List, [], ◌∷◌, map, Option, none, some, arith, length,
}
use rmol.Base.Int.{pos, ◌+ℤ◌, ◌-ℤ◌, ◌*ℤ◌, ◌/ℤ◌}
use rmol.Base.Fixed.{Fixed, fixed_double, root_below}
use rmol.Cabin.Samples.{seats}
use rmol.Curves.{compute_sell_up_factor_curves, compute_dispatching_factor_curves}
use rmol.Demand.{ClassDemand, FamilyDemand, add_price_demand, add_cumu_price_demand}
use rmol.Policy.{Policy}
use rmol.Detruncation.{em, to_short, unconstrain}
use rmol.Snapshots.{get_nb_of_segment_already_passed_this_dtd, get_nb_of_departed_similar_segments}
use rmol.Forecasting.{
  Body, nb_of_dtds, forecast_interval, prepare_bookings, unconstrained_parameters,
}
use rmol.Forecasting.ByClass.{based_forecast}
use rmol.Forecasting.PriceOriented.{hybrid_forecast}
use rmol.Forecasting.ByFamily.{new_qff_forecast}
use rmol.Forecasting.ByPolicy.{old_qff_forecast}
use rmol.Forecasting.Samples.{input, demand, ops, policy, class_demand}
use rmol.Forecasting.History.{IsRead, bookings_of, prepare_bookings_lem}
use rmol.Forecasting.Ranges.{forecast_interval_range}

abbrev class_with : ℕ → (price price_dev product product_dev cumu cumu_dev : ℕ) → ClassDemand Fixed
class_with code price price_dev product product_dev cumu cumu_dev = record (class_demand code) {
  price_mean = pos price;
  price_std_dev = pos price_dev;
  product_mean = pos product;
  product_std_dev = pos product_dev;
  cumu_price_mean = pos cumu;
  cumu_price_std_dev = pos cumu_dev;
}

abbrev family_with : (mean std_dev : ℕ) → List (ClassDemand Fixed) → List (FamilyDemand Fixed)
family_with mean std_dev classes =
    record { family_mean = pos mean; family_std_dev = pos std_dev; classes = classes } ∷ []

abbrev policies_with : (demand revenue std_dev : ℕ) → List (Policy Fixed)
policies_with mean revenue std_dev =
    policy none
    ∷ record (policy (some (1 ∷ []))) {
      demand = pos mean;
      total_revenue = pos revenue;
      std_dev = pos std_dev;
    }
    ∷ []

based_run :
    based_forecast em 5 input (pos 20) (pos 2) 3 demand
    ≡ some (
      record demand {
        families =
            family_with 0 0 (class_with 1 0 0 3000 10 0 0 ∷ class_with 2 0 0 6000 10 0 0 ∷ []);
      },
      true,
    )
unfolding based_forecast nb_of_dtds ◌+ℤ◌ ◌-ℤ◌ ◌*ℤ◌ ◌/ℤ◌ root_below to_short
    get_nb_of_segment_already_passed_this_dtd
based_run = refl

hybrid_run :
    hybrid_forecast em 5 input (pos 20) (pos 2) 3 demand
    ≡ some (
      record demand {
        families =
            family_with 3000 10
              (class_with 1 2700 8 3000 10 2700 8 ∷ class_with 2 300 0 3000 10 300 0 ∷ []);
      },
      true,
    )
unfolding hybrid_forecast nb_of_dtds ◌+ℤ◌ ◌-ℤ◌ ◌*ℤ◌ ◌/ℤ◌ root_below to_short
    get_nb_of_segment_already_passed_this_dtd compute_sell_up_factor_curves
    compute_dispatching_factor_curves add_price_demand add_cumu_price_demand
hybrid_run = refl

new_qff_run :
    new_qff_forecast ops em 5 input (pos 20) (pos 2) 3 demand
    ≡ some (
      record {
        families =
            family_with 9333 10
              (class_with 1 8399 8 0 0 8399 8 ∷ class_with 2 933 0 0 0 9333 10 ∷ []);
        policies = policies_with 8399 1007880 0;
      },
      true,
    )
unfolding new_qff_forecast nb_of_dtds ◌+ℤ◌ ◌-ℤ◌ ◌*ℤ◌ ◌/ℤ◌ root_below to_short
    get_nb_of_segment_already_passed_this_dtd compute_sell_up_factor_curves
    compute_dispatching_factor_curves add_price_demand add_cumu_price_demand
new_qff_run = refl

old_qff_run :
    old_qff_forecast ops em 5 input (pos 20) (pos 2) 3 demand
    ≡ some (
      record {
        families = family_with 9000 10 (class_demand 1 ∷ class_demand 2 ∷ []);
        policies = policies_with 8100 972000 8;
      },
      true,
    )
unfolding old_qff_forecast nb_of_dtds ◌+ℤ◌ ◌-ℤ◌ ◌*ℤ◌ ◌/ℤ◌ root_below to_short
    get_nb_of_segment_already_passed_this_dtd compute_sell_up_factor_curves
old_qff_run = refl

abbrev note_range : Body (ℕ × ℕ)
note_range current next segment_begin segment_end noted = some (segment_begin, segment_end)

abbrev start : ℕ × ℕ
start = (0, 0)

forecast_interval_range_example :
    (segment_begin : ℕ) × (segment_end : ℕ) × (forecast_interval note_range input.table.boardings
        65535
        (pos 20)
        (pos 2)
        3
        (pos 2)
        (pos 0)
        start
      ≡ some (segment_begin, segment_end))
    × (segment_begin < segment_end)
    × (segment_end < 4)
    × (segment_begin + 3 ≡ 3)
    × (segment_end + 1 ≡ 3)
unfolding get_nb_of_segment_already_passed_this_dtd get_nb_of_departed_similar_segments ◌+ℤ◌ ◌-ℤ◌
forecast_interval_range_example =
    forecast_interval_range note_range input.table.boardings 65535 (pos 20) (pos 2) (pos 2) (pos 0)
      start (omega arith) (omega arith)

abbrev entry : ℕ → Option (Fixed × Bool)
entry i = some (seats i, false)

prepare_bookings_lem_example :
    (rs : List (Fixed × Bool)) × IsRead entry 0 rs
    × (length rs ≡ 3)
    × (prepare_bookings 65535 entry 4 6 ≡ some (map bookings_of rs))
    × ((rounds : ℕ)
        → (unconstrain rounds (map bookings_of rs)).1 ≡ true
        → (p : Fixed × Fixed) × (unconstrained_parameters em rounds (map bookings_of rs) ≡ some p))
prepare_bookings_lem_example =
    prepare_bookings_lem 65535 entry 4 6 (λ k h l. ((seats k, false), refl)) (omega arith)
      (omega arith)
