-- ===== src/PreOptimiser.antt =====
-- rmol/command/PreOptimiser.cpp, with rmol/command/FareAdjustment.cpp: what comes between the
-- forecast and the optimisation.
mod Tests
use rmol.Base.{
  ℕ, Bool, true, false, List, [], ◌∷◌, map, Option, none, some, ◌==◌, if◌then◌else◌, ◌>>=◌,
}
use rmol.Base.Double.{Double}
use rmol.Cabin.{BookingClass}
use rmol.Curves.{Curve}
use rmol.Demand.{FamilyDemand, prepare_demand_input}
use rmol.Policy.{Policy, is_in}
use rmol.Adjustment.{prepare_demand_by_hull}
use rmol.Forecasting.{CabinInput, CabinDemand, PolicyOps}
use rmol.Flight.{SegmentCabin, FlightDate, with_demand, with_classes, each_segment}

-- `stdair::PreOptimisationMethod`: the methods that the code handles, and the others
pub data PreOptimisationMethod : Type 0 where
  none_method fa_method mrt_method other_method : PreOptimisationMethod

-- `FareAdjustment::adjustYield`, which does nothing
unfoldable pub adjust_yield {ℓ} : {C : Type ℓ} → C → C × Bool
adjust_yield cabin = (cabin, false)

-- the codes of the classes of each family, and of the family of a class
unfoldable pub family_codes {ℓ} :
    {D : Type ℓ} → List (Curve D × List (BookingClass D)) → List (List ℕ)
family_codes [] = []
family_codes ((curve, classes) ∷ rest) =
    map (λ (c : BookingClass _). c.code) classes ∷ family_codes rest

unfoldable pub codes_around : List (List ℕ) → ℕ → List ℕ
codes_around [] code = []
codes_around (codes ∷ rest) code = if is_in code codes then codes else codes_around rest code

module _ {ℓ} {D P : Type ℓ} ⦃d : Double D⦄ (ops : PolicyOps D P) (default_yield : D) where
  -- a policy as the hull reads it
  unfoldable pub policy_of : P → Policy D
  policy_of p = record {
    classes = ops.held p;
    demand = ops.demand_of p;
    total_revenue = ops.total_revenue_of p;
    std_dev = ops.std_dev_of p;
  }

  -- `DemandInputPreparation::prepareDemandInput` of a segment-cabin
  unfoldable pub prepare_cabin : SegmentCabin D P → SegmentCabin D P × Bool
  unfolding prepare_demand_input with_demand
  prepare_cabin cabin =
      let families =
        map (λ (g : FamilyDemand D). record g { classes = (prepare_demand_input g.classes).0 })
          cabin.demand.families in
      (with_demand (record (cabin.demand) { families = families }) cabin, true)

  -- `MarginalRevenueTransformation::prepareDemandInput` of a segment-cabin
  unfoldable pub transform_cabin : SegmentCabin D P → Option (SegmentCabin D P × Bool)
  unfolding policy_of family_codes codes_around prepare_demand_by_hull with_classes
  transform_cabin cabin = do
    let families = family_codes cabin.input.fare_families
    (nodes, classes, is_succeeded) ←
        prepare_demand_by_hull (codes_around families) default_yield
          (map policy_of cabin.demand.policies) families cabin.nodes cabin.input.booking_classes
    some (with_classes nodes classes cabin, is_succeeded)

  -- a segment-cabin
  unfoldable pub pre_optimise_cabin :
      PreOptimisationMethod → SegmentCabin D P → Option (SegmentCabin D P × Bool)
  unfolding prepare_cabin adjust_yield transform_cabin
  pre_optimise_cabin none_method cabin = some (prepare_cabin cabin)
  pre_optimise_cabin fa_method cabin = some (adjust_yield cabin)
  pre_optimise_cabin mrt_method cabin =
      if cabin.input.has_fare_families then transform_cabin cabin else some (adjust_yield cabin)
  pre_optimise_cabin other_method cabin = none

  -- a flight-date
  unfoldable pub pre_optimise :
      PreOptimisationMethod → FlightDate D P → Option (FlightDate D P × Bool)
  unfolding each_segment pre_optimise_cabin
  pre_optimise method flight = do
    (segments, is_succeeded) ← each_segment (pre_optimise_cabin method) flight.segments
    some (record flight { segments = segments }, is_succeeded)
