-- ===== src/Demand/Tests.antt =====
-- DCP lists and dispatching on small inputs.
use rmol.Base.{ℕ, ◌≡◌, ◌⊎◌, refl, true, List, [], ◌∷◌, ◌++◌, none, some, All}
use rmol.Base.Int.{ℤ, pos, ltb_ℤ, leb_ℤ, ◌+ℤ◌, ◌-ℤ◌, ◌*ℤ◌, ◌/ℤ◌}
use rmol.Base.Fixed.{Fixed, fixed_double, root_below}
use rmol.Cabin.Samples.{seats}
use rmol.Curves.{ClassCurves, find_factor}
use rmol.Demand.{
  ClassDemand, build_remaining_dcp_list, build_past_dcp_list, compute_distribution_parameters,
  add_price_demand, add_cumu_price_demand, dispatch_demand_forecast,
  dispatch_demand_forecast_for_fa,
}
use rmol.Demand.Dispatch.{find_class, share_of, with_share, dispatch_demand_forecast_lem}
use rmol.Demand.Dcp.{on_point, dcp_lists-split}

abbrev points : List ℤ
points = pos 63 ∷ pos 56 ∷ pos 49 ∷ pos 0 ∷ []

-- the point 56 is in neither list
between_points :
    (build_remaining_dcp_list (pos 60) points ≡ some (pos 60 ∷ pos 49 ∷ pos 0 ∷ []))
    × (build_past_dcp_list (pos 60) points ≡ pos 63 ∷ [])
unfolding build_remaining_dcp_list build_past_dcp_list
between_points = (refl, refl)

dcp_lists-split_example :
    (All (λ y. ltb_ℤ (pos 60) y ≡ true) points
      × (build_remaining_dcp_list (pos 60) points ≡ none)
      × (build_past_dcp_list (pos 60) points ≡ points))
    ⊎ ((above : List ℤ) × (dcp : ℤ) × (rest : List ℤ) × (points ≡ above ++ (dcp ∷ rest))
        × All (λ y. ltb_ℤ (pos 60) y ≡ true) above
        × (leb_ℤ dcp (pos 60) ≡ true)
        × (build_remaining_dcp_list (pos 60) points ≡ some (pos 60 ∷ rest))
        × (build_past_dcp_list (pos 60) points ≡ above ++ on_point (pos 60) dcp))
dcp_lists-split_example =
    dcp_lists-split (pos 60) points
      ((refl, (refl, (refl, tt))), ((refl, (refl, tt)), ((refl, tt), (tt, tt))))

parameters : compute_distribution_parameters (seats 2 ∷ seats 4 ∷ []) ≡ some (seats 3, pos 1414)
unfolding compute_distribution_parameters root_below ◌+ℤ◌ ◌-ℤ◌ ◌*ℤ◌ ◌/ℤ◌
parameters = refl

abbrev demand : ℕ → ClassDemand Fixed
demand code = record {
  code = code;
  mean = seats 0;
  std_dev = seats 0;
  price_mean = seats 1;
  price_std_dev = seats 3;
  product_mean = seats 0;
  product_std_dev = seats 0;
  cumu_price_mean = seats 2;
  cumu_price_std_dev = seats 0;
}

abbrev curves : ClassCurves Fixed
curves = (2, (pos 7, seats 1) ∷ []) ∷ (1, (pos 0, seats 5) ∷ (pos 7, seats 4) ∷ []) ∷ []

abbrev demands : List (ClassDemand Fixed)
demands = demand 1 ∷ demand 2 ∷ demand 3 ∷ []

dispatch_demand_forecast_lem_example :
    ((classes' : List (ClassDemand Fixed)) × (dispatch_demand_forecast curves
          (seats 10)
          (seats 2)
          (pos 7)
          demands
        ≡ some classes')
      × ((code : ℕ) (c : ClassDemand Fixed)
          → find_class code demands ≡ some c
          → find_class code classes'
            ≡ some (
                with_share
                  (add_price_demand (seats 10) (seats 2))
                  (share_of (pos 7) code curves)
                  c)))
    × ((classes' : List (ClassDemand Fixed)) × (dispatch_demand_forecast_for_fa curves
            (seats 10)
            (seats 2)
            (pos 7)
            demands
          ≡ some classes')
        × ((code : ℕ) (c : ClassDemand Fixed)
            → find_class code demands ≡ some c
            → find_class code classes'
              ≡ some (
                  with_share
                    (add_cumu_price_demand (seats 10) (seats 2))
                    (share_of (pos 7) code curves)
                    c)))
unfolding find_factor
dispatch_demand_forecast_lem_example =
    dispatch_demand_forecast_lem curves (seats 10) (seats 2) (pos 7) demands ((refl, tt), (tt, tt))
      ((seats 1, refl), ((seats 4, refl), tt))
