-- ===== src/Forecasting/PriceOriented.antt =====
-- rmol/command/QForecasting.cpp: one forecast of the price-oriented demand of the cabin, from
-- bookings that are converted to those of the lowest class; and `HybridForecasting::forecast`.
use rmol.Base.{ℕ, ◌+◌, ◌*◌, Bool, true, not, List, [], ◌∷◌, Option, none, some, ◌>>=◌, ◌>>◌, assert}
use rmol.Base.Int.{ℤ}
use rmol.Base.Double.{Double, ◌⊕◌, ◌⊘◌, nought}
use rmol.Cabin.{BookingClass}
use rmol.Curves.{
  Curve, ClassCurves, find_factor, compute_sell_up_factor_curves, compute_dispatching_factor_curves,
}
use rmol.Demand.{add_price_demand, add_cumu_price_demand}
use rmol.Detruncation.{HistoricalBooking, UnconstrainingMethod}
use rmol.Forecasting.{
  CabinInput, CabinDemand, nb_of_dtds, is_censored, sum_days, prepare_bookings,
  unconstrained_parameters, add_family_demand, dispatch_in_families, update_last, forecast_dcps,
}
use rmol.Forecasting.ByClass.{product_forecast}

-- the FRAT5 curve of the last fare family
unfoldable pub last_curve {ℓ} :
    {D : Type ℓ} → List (Curve D × List (BookingClass D)) → Option (Curve D)
last_curve [] = none
last_curve ((curve, classes) ∷ []) = some curve
last_curve (family ∷ next ∷ rest) = last_curve (next ∷ rest)

module _ {ℓ} {D : Type ℓ} ⦃d : Double D⦄ where
  -- the bookings of a class as bookings of the lowest one, for a way to count them by index
  unfoldable pub q_equivalent :
      (dcp : ℤ) (count : ℕ → Option D) (class_index : ℕ → Option ℕ) (code : ℕ) → Curve D → Option D
  unfolding find_factor
  q_equivalent dcp count class_index code curve = do
    sell_up ← find_factor dcp curve
    assert (not (d.eq sell_up nought))
    index ← class_index code
    bookings ← count index
    some (bookings ⊘ sell_up)

  -- the loop over the map of the sell-up curves
  unfoldable pub q_equivalent_bookings :
      (dcp : ℤ) (count : ℕ → Option D) (class_index : ℕ → Option ℕ)
      → ClassCurves D
      → (sum : D) → Option D
  unfolding q_equivalent
  q_equivalent_bookings dcp count class_index [] sum = some sum
  q_equivalent_bookings dcp count class_index ((code, curve) ∷ rest) sum = do
    bookings ← q_equivalent dcp count class_index code curve
    q_equivalent_bookings dcp count class_index rest (sum ⊕ bookings)

  unfoldable pub prepare_price_oriented_historical_booking :
      CabinInput D
      → ClassCurves D
      → (dcp_begin dcp_end : ℤ) (segment_begin segment_end : ℕ)
      → Option (List (HistoricalBooking D))
  unfolding prepare_bookings is_censored sum_days q_equivalent_bookings
  prepare_price_oriented_historical_booking input curves dcp_begin dcp_end segment_begin
        segment_end =
      do
        cabin_index ← input.table.cabin_index
        let bookings = input.table.price_bookings segment_begin segment_end dcp_end dcp_begin
        let availability = input.table.availability segment_begin segment_end dcp_end dcp_begin
        let days = nb_of_dtds dcp_begin dcp_end
        prepare_bookings input.table.greatest_nb
            (λ i.
              is_censored availability (i * input.table.nb_of_classes + cabin_index) days
              >>= λ flag.
                  q_equivalent_bookings dcp_begin
                    (λ index. sum_days bookings (i * input.table.nb_of_classes + index) days)
                    input.table.class_index curves nought
                  >>= λ sum. some (sum, flag))
            segment_begin segment_end

module _ {ℓ} {D P : Type ℓ} ⦃d : Double D⦄ (method : UnconstrainingMethod) (rounds : ℕ)
    (input : CabinInput D) where
  -- one interval: the two dispatchings and the last family
  unfoldable pub q_forecast_interval :
      (sell_up dispatching : ClassCurves D) (current next : ℤ) (segment_begin segment_end : ℕ)
      → CabinDemand D P
      → Option (CabinDemand D P)
  unfolding prepare_price_oriented_historical_booking unconstrained_parameters dispatch_in_families
      add_family_demand update_last
  q_forecast_interval sell_up dispatching current next segment_begin segment_end cabin = do
    holder ←
        prepare_price_oriented_historical_booking input sell_up current next segment_begin
          segment_end
    (mean, std_dev) ← unconstrained_parameters method rounds holder
    dispatched ←
        dispatch_in_families (add_price_demand mean std_dev) current dispatching cabin.families
    dispatched_for_fa ←
        dispatch_in_families (add_cumu_price_demand mean std_dev) current dispatching dispatched
    some
        (record cabin { families = update_last (add_family_demand mean std_dev) dispatched_for_fa })

  module _ (date dtd : ℤ) (departed : ℕ) where
    -- `QForecasting::forecast`
    unfoldable pub q_forecast : CabinDemand D P → Option (CabinDemand D P × Bool)
    unfolding last_curve forecast_dcps q_forecast_interval
    q_forecast cabin = do
      frat5s ← last_curve input.fare_families
      sell_up ← compute_sell_up_factor_curves frat5s input.booking_classes
      dispatching ← compute_dispatching_factor_curves frat5s input.booking_classes
      cabin' ←
          forecast_dcps (q_forecast_interval sell_up dispatching) input.table.boardings
            input.table.greatest_nb date dtd departed input.dcp_list cabin
      some (cabin', true)

    -- `HybridForecasting::forecast` does not use the result of the Q-forecast.
    unfoldable pub hybrid_forecast : CabinDemand D P → Option (CabinDemand D P × Bool)
    unfolding q_forecast product_forecast
    hybrid_forecast cabin = do
      (cabin', is_forecasted) ← q_forecast cabin
      product_forecast method rounds input date dtd departed cabin'
