-- ===== src/Forecasting/ByClass.antt =====
-- rmol/command/BasedForecasting.cpp, and the product-oriented half of
-- rmol/command/HybridForecasting.cpp: a forecast for each booking class of the cabin.
use rmol.Base.{ℕ, ◌+◌, ◌*◌, Bool, true, List, [], ◌∷◌, Option, some, ◌>>=◌}
use rmol.Base.Int.{ℤ}
use rmol.Base.Double.{Double}
use rmol.Cabin.{BookingClass}
use rmol.Demand.{FamilyDemand}
use rmol.Detruncation.{HistoricalBooking, UnconstrainingMethod}
use rmol.Forecasting.{
  CabinInput, CabinDemand, nb_of_dtds, is_censored, sum_days, sum_days_of_both, prepare_bookings,
  unconstrained_parameters, add_product_demand, update_in_families, forecast_dcps,
}

module _ {ℓ} {D : Type ℓ} ⦃d : Double D⦄ (input : CabinInput D) where
  -- what a class has booked on the days from `dcp_begin` to `dcp_end`, in both views
  unfoldable pub prepare_historical_booking :
      (code : ℕ) (dcp_begin dcp_end : ℤ) (segment_begin segment_end : ℕ)
      → Option (List (HistoricalBooking D))
  unfolding prepare_bookings is_censored sum_days_of_both
  prepare_historical_booking code dcp_begin dcp_end segment_begin segment_end = do
    index ← input.table.class_index code
    let price = input.table.price_bookings segment_begin segment_end dcp_end dcp_begin
    let product = input.table.product_bookings segment_begin segment_end dcp_end dcp_begin
    let availability = input.table.availability segment_begin segment_end dcp_end dcp_begin
    let days = nb_of_dtds dcp_begin dcp_end
    prepare_bookings input.table.greatest_nb
        (λ i. is_censored availability (i * input.table.nb_of_classes + index) days >>= λ flag.
          sum_days_of_both price product (i * input.table.nb_of_classes + index) days
          >>= λ bookings. some (bookings, flag))
        segment_begin segment_end

  -- the same in the product-oriented view only
  unfoldable pub prepare_product_oriented_historical_booking :
      (code : ℕ) (dcp_begin dcp_end : ℤ) (segment_begin segment_end : ℕ)
      → Option (List (HistoricalBooking D))
  unfolding prepare_bookings is_censored sum_days
  prepare_product_oriented_historical_booking code dcp_begin dcp_end segment_begin segment_end = do
    index ← input.table.class_index code
    let bookings = input.table.product_bookings segment_begin segment_end dcp_end dcp_begin
    let availability = input.table.availability segment_begin segment_end dcp_end dcp_begin
    let days = nb_of_dtds dcp_begin dcp_end
    prepare_bookings input.table.greatest_nb
        (λ i. is_censored availability (i * input.table.nb_of_classes + index) days >>= λ flag.
          sum_days bookings (i * input.table.nb_of_classes + index) days >>= λ sum.
          some (sum, flag))
        segment_begin segment_end

module _ {ℓ} {D : Type ℓ} ⦃d : Double D⦄ (method : UnconstrainingMethod) (rounds : ℕ) where
  -- the loop over the booking classes, whose histories `prepare` gives
  unfoldable pub forecast_classes :
      (prepare : ℕ → Option (List (HistoricalBooking D)))
      → List (BookingClass D)
      → List (FamilyDemand D)
      → Option (List (FamilyDemand D))
  unfolding unconstrained_parameters add_product_demand update_in_families
  forecast_classes prepare [] families = some families
  forecast_classes prepare (c ∷ cs) families = do
    holder ← prepare c.code
    (mean, std_dev) ← unconstrained_parameters method rounds holder
    forecast_classes prepare cs
        (update_in_families c.code (add_product_demand mean std_dev) families)

module _ {ℓ} {D P : Type ℓ} ⦃d : Double D⦄ (method : UnconstrainingMethod) (rounds : ℕ)
    (input : CabinInput D) (date dtd : ℤ) (departed : ℕ) where
  -- one loop over the intervals and the classes, for either way to prepare a history
  unfoldable pub forecast_by_class :
      (prepare : (code : ℕ) (dcp_begin dcp_end : ℤ) (segment_begin segment_end : ℕ)
        → Option (List (HistoricalBooking D)))
      → CabinDemand D P
      → Option (CabinDemand D P)
  unfolding forecast_dcps forecast_classes
  forecast_by_class prepare cabin =
      forecast_dcps
        (λ current next segment_begin segment_end (c : CabinDemand D P).
          forecast_classes method rounds
            (λ code. prepare code current next segment_begin segment_end) input.booking_classes
            c.families
          >>= λ families. some (record c { families = families }))
        input.table.boardings input.table.greatest_nb date dtd departed input.dcp_list cabin

  -- `BasedForecasting::forecast`
  unfoldable pub based_forecast : CabinDemand D P → Option (CabinDemand D P × Bool)
  unfolding forecast_by_class prepare_historical_booking
  based_forecast cabin = do
    cabin' ← forecast_by_class (prepare_historical_booking input) cabin
    some (cabin', true)

  -- `HybridForecasting::forecast`, behind its call of the Q-forecast
  unfoldable pub product_forecast : CabinDemand D P → Option (CabinDemand D P × Bool)
  unfolding forecast_by_class prepare_product_oriented_historical_booking
  product_forecast cabin = do
    cabin' ← forecast_by_class (prepare_product_oriented_historical_booking input) cabin
    some (cabin', true)
