-- ===== src/Forecasting/ByPolicy.antt =====
-- rmol/command/OldQFF.cpp: one forecast for the cabin, in bookings of its lowest class by the
-- lowest class that was available each day; and the demand of the policies from it.
use mathlib.Core.List.{reverse}
use rmol.Base.{
  ℕ, ◌+◌, ◌*◌, Bool, true, not, List, [], ◌∷◌, map, Option, none, some, ◌==◌, if◌then◌else◌, ◌>>=◌,
  ◌>>◌, assert,
}
use rmol.Base.Int.{ℤ}
use rmol.Base.Double.{Double, ◌⊕◌, ◌⊖◌, ◌⊗◌, ◌⊘◌, of_ℕ, nought}
use rmol.Cabin.{BookingClass}
use rmol.Curves.{Curve, ClassCurves, find_factor, compute_sell_up_factor_curves}
use rmol.Detruncation.{HistoricalBooking, UnconstrainingMethod}
use rmol.Forecasting.{
  CabinInput, CabinDemand, PolicyOps, nb_of_dtds, is_censored, for_days, prepare_bookings,
  unconstrained_parameters, add_family_demand, update_last, forecast_dcps,
}
use rmol.Forecasting.PriceOriented.{last_curve}
use rmol.Forecasting.ByFamily.{yield_of}

module _ {ℓ} {D : Type ℓ} where
  unfoldable pub find_class_curve : ℕ → ClassCurves D → Option (Curve D)
  find_class_curve code [] = none
  find_class_curve code ((k, curve) ∷ rest) =
      if k == code then some curve else find_class_curve code rest

  -- the sell-up factor of a class at a DCP
  unfoldable pub sell_up_of : (dcp : ℤ) → ClassCurves D → ℕ → Option D
  unfolding find_class_curve find_factor
  sell_up_of dcp curves code = do curve ← find_class_curve code curves; find_factor dcp curve

module _ {ℓ} {D : Type ℓ} ⦃d : Double D⦄ where
  -- The loop over the classes on a day: their bookings and the last that is available, by the
  -- bookings and the availability at an index.
  unfoldable pub bookings_of_day :
      (bookings_at availability_at : ℕ → Option D) (class_index : ℕ → Option ℕ)
      → List (BookingClass D)
      → (lowest : Option ℕ) (sum : D) → Option (Option ℕ × D)
  bookings_of_day bookings_at availability_at class_index [] lowest sum = some (lowest, sum)
  bookings_of_day bookings_at availability_at class_index (c ∷ cs) lowest sum = do
    index ← class_index c.code
    bookings ← bookings_at index
    a ← availability_at index
    bookings_of_day bookings_at availability_at class_index cs
        (if d.le (of_ℕ 1) a then some c.code else lowest) (sum ⊕ bookings)

  -- what a day adds: nothing without an available class
  unfoldable pub add_day : (dcp : ℤ) → ClassCurves D → (total : D) → Option ℕ × D → Option D
  unfolding sell_up_of
  add_day dcp curves total (none, sum) = some total
  add_day dcp curves total (some lowest, sum) = do
    sell_up ← sell_up_of dcp curves lowest
    assert (not (d.eq sell_up nought))
    some (total ⊕ sum ⊘ sell_up)

  unfoldable pub prepare_cabin_historical_booking :
      CabinInput D
      → ClassCurves D
      → (dcp_begin dcp_end : ℤ) (segment_begin segment_end : ℕ)
      → Option (List (HistoricalBooking D))
  unfolding prepare_bookings is_censored for_days bookings_of_day add_day
  prepare_cabin_historical_booking input curves dcp_begin dcp_end segment_begin segment_end = do
    cabin_index ← input.table.cabin_index
    let price = input.table.price_bookings segment_begin segment_end dcp_end dcp_begin
    let product = input.table.product_bookings segment_begin segment_end dcp_end dcp_begin
    let availability = input.table.availability segment_begin segment_end dcp_end dcp_begin
    let days = nb_of_dtds dcp_begin dcp_end
    prepare_bookings input.table.greatest_nb
        (λ i.
          is_censored availability (i * input.table.nb_of_classes + cabin_index) days >>= λ flag.
          for_days
            (λ j total.
              bookings_of_day
                (λ index. price (i * input.table.nb_of_classes + index) j >>= λ n.
                  product (i * input.table.nb_of_classes + index) j >>= λ m. some (n ⊕ m))
                (λ index. availability (i * input.table.nb_of_classes + index) j)
                input.table.class_index input.booking_classes none nought
              >>= add_day dcp_begin curves total)
            days 0 nought
          >>= λ sum. some (sum, flag))
        segment_begin segment_end

module _ {ℓ} {D P : Type ℓ} ⦃d : Double D⦄ (ops : PolicyOps D P) where
  -- the loop over the other classes of a policy, from low to high
  unfoldable pub buy_up :
      (dcp : ℤ)
      → ClassCurves D
      → (yield_of_class : ℕ → Option D) (disutility_of : ℕ → Curve D) (mean lowest_sell_up : D)
        (current : ℕ)
      → List ℕ
      → P
      → Option P
  unfolding sell_up_of find_factor
  buy_up dcp curves yield_of_class disutility_of mean lowest_sell_up current [] policy = some policy
  buy_up dcp curves yield_of_class disutility_of mean lowest_sell_up current (next ∷ rest) policy =
      do
        disutility ← find_factor dcp (disutility_of current)
        sell_up ← sell_up_of dcp curves next
        assert (d.lt nought sell_up)
        assert (d.lt sell_up lowest_sell_up)
        current_yield ← yield_of_class current
        next_yield ← yield_of_class next
        let demand = mean ⊗ sell_up ⊗ d.exp ((current_yield ⊖ next_yield) ⊗ disutility)
        buy_up dcp curves yield_of_class disutility_of mean lowest_sell_up next rest (
            ops.add_yield_demand current_yield (d.neg demand)
              (ops.add_yield_demand next_yield demand policy))

  -- the classes of a policy from low to high
  unfoldable pub dispatch_from_low :
      (dcp : ℤ)
      → ClassCurves D
      → (yield_of_class : ℕ → Option D) (disutility_of : ℕ → Curve D) (mean std_dev : D) → List ℕ
      → P
      → Option P
  unfolding buy_up
  dispatch_from_low dcp curves yield_of_class disutility_of mean std_dev [] policy = none
  dispatch_from_low dcp curves yield_of_class disutility_of mean std_dev (low ∷ others) policy = do
    lowest_yield ← yield_of_class low
    sell_up ← sell_up_of dcp curves low
    let more = mean ⊗ sell_up
    let deviation = std_dev ⊗ d.sqrt sell_up
    let new_demand = ops.demand_of policy ⊕ more
    let new_std_dev = d.sqrt (ops.std_dev_of policy ⊗ ops.std_dev_of policy ⊕ deviation ⊗ deviation)
    buy_up dcp curves yield_of_class disutility_of mean sell_up low others (
        ops.add_yield_demand lowest_yield more
          (ops.set_std_dev new_std_dev (ops.set_demand new_demand policy)))

  -- `dispatchDemandForecastToPolicy`
  unfoldable pub dispatch_forecast_to_policy :
      (dcp : ℤ)
      → ClassCurves D
      → (yield_of_class : ℕ → Option D) (disutility_of : ℕ → Curve D) (mean std_dev : D) → P
      → Option P
  unfolding dispatch_from_low
  dispatch_forecast_to_policy dcp curves yield_of_class disutility_of mean std_dev policy =
      elim (ops.held policy) [
        | none ↦ some policy
        | some codes ↦
            dispatch_from_low dcp curves yield_of_class disutility_of mean std_dev (reverse codes)
              policy
      ]

  -- `dispatchDemandForecastToPolicies`
  unfoldable pub dispatch_forecast_to_policies :
      (dcp : ℤ)
      → ClassCurves D
      → (yield_of_class : ℕ → Option D) (disutility_of : ℕ → Curve D) (mean std_dev : D) → List P
      → Option (List P)
  unfolding dispatch_forecast_to_policy
  dispatch_forecast_to_policies dcp curves yield_of_class disutility_of mean std_dev [] = some []
  dispatch_forecast_to_policies dcp curves yield_of_class disutility_of mean std_dev (p ∷ ps) = do
    p' ← dispatch_forecast_to_policy dcp curves yield_of_class disutility_of mean std_dev p
    ps' ← dispatch_forecast_to_policies dcp curves yield_of_class disutility_of mean std_dev ps
    some (p' ∷ ps')

  module _ (method : UnconstrainingMethod) (rounds : ℕ) (input : CabinInput D) where
    -- one interval: the last family, then the policies
    unfoldable pub old_qff_interval :
        (sell_up : ClassCurves D) (current next : ℤ) (segment_begin segment_end : ℕ)
        → CabinDemand D P
        → Option (CabinDemand D P)
    unfolding prepare_cabin_historical_booking unconstrained_parameters add_family_demand
        update_last dispatch_forecast_to_policies yield_of
    old_qff_interval sell_up current next segment_begin segment_end cabin = do
      holder ← prepare_cabin_historical_booking input sell_up current next segment_begin segment_end
      (mean, std_dev) ← unconstrained_parameters method rounds holder
      policies ←
          dispatch_forecast_to_policies current sell_up
            (λ code. yield_of code input.booking_classes) input.disutility_of mean std_dev
            cabin.policies
      some (record {
        families = update_last (add_family_demand mean std_dev) cabin.families;
        policies = policies;
      })

    -- `OldQFF::forecast`
    unfoldable pub old_qff_forecast :
        (date dtd : ℤ) (departed : ℕ) → CabinDemand D P → Option (CabinDemand D P × Bool)
    unfolding last_curve forecast_dcps old_qff_interval
    old_qff_forecast date dtd departed cabin = do
      frat5s ← last_curve input.fare_families
      sell_up ← compute_sell_up_factor_curves frat5s input.booking_classes
      let reset = record cabin { policies = map ops.reset_demand_forecast cabin.policies }
      cabin' ←
          forecast_dcps (old_qff_interval sell_up) input.table.boardings input.table.greatest_nb
            date dtd departed input.dcp_list reset
      some (cabin', true)
