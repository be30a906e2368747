-- ===== src/Forecaster/Departed.antt =====
-- rmol/command/Forecaster.cpp: when the forecast of a flight-date is successful.
use mathlib.Core.Option.{some-injective}
use mathlib.Core.Path.{ap₂}
use rmol.Base.{
  ℕ, ◌≡◌, refl, sym, ap, ◌∙◌, subst, inl, inr, Bool, true, false, not, ◌&&◌, List, [], ◌∷◌, map,
  Option, some, ltb, arith, Bool-cases, >>=-eq-some,
}
use rmol.Base.Int.{ℤ, ◌-ℤ◌}
use rmol.Base.Double.{Double}
use rmol.Demand.{set_demand_forecasts_to_zero}
use rmol.Detruncation.{UnconstrainingMethod}
use rmol.Snapshots.{get_nb_of_departed_similar_segments}
use rmol.Curves.{compute_sell_up_factor_curves, compute_dispatching_factor_curves}
use rmol.Forecasting.{CabinInput, CabinDemand, PolicyOps, forecast_dcps}
use rmol.Forecasting.ByClass.{
  prepare_historical_booking, prepare_product_oriented_historical_booking, forecast_by_class,
  based_forecast, product_forecast,
}
use rmol.Forecasting.PriceOriented.{last_curve, q_forecast_interval, q_forecast, hybrid_forecast}
use rmol.Forecasting.ByFamily.{
  yield_of, find_in_classes, all_classes, families_forecast, dispatch_to_policies, new_qff_forecast,
}
use rmol.Forecasting.ByPolicy.{old_qff_interval, old_qff_forecast}
use rmol.Optimiser.Flight.{Each, nil, cons}
use rmol.Flight.{SegmentCabin, FlightDate, each_segment}
use rmol.Flight.Loop.{IsStepped, all_succeed, all_segments_succeed, each_segment_lem}
use rmol.Forecaster.{
  ForecastingMethod, q_forecasting, hybrid_forecasting, new_qff, old_qff, based_forecasting,
  other_method, forecast_by, forecast_cabin, forecast,
}

some-true {ℓ} :
    {A : Type ℓ} {a : A × Bool} {b : A} {flag : Bool}
    → a.1 ≡ true
    → some a ≡ some (b, flag)
    → flag ≡ true
some-true t e = sym (ap (λ p. p.1) (some-injective _ _ e)) ∙ t

module _ {ℓ} {D P : Type ℓ} ⦃d : Double D⦄ (ops : PolicyOps D P)
    (unconstraining : UnconstrainingMethod) (rounds : ℕ) where
  -- No method reports a failure.
  module _ (input : CabinInput D) (date dtd : ℤ) (departed : ℕ) (demand : CabinDemand D P)
      {demand' : CabinDemand D P} {flag : Bool} where
    product_forecast-true :
        product_forecast unconstraining rounds input date dtd departed demand ≡ some (demand', flag)
        → flag ≡ true
    unfolding product_forecast
    product_forecast-true e =
        let prepare = prepare_product_oriented_historical_booking input in
        let (after, run, e1) =
          >>=-eq-some
            (forecast_by_class unconstraining rounds input date dtd departed prepare demand) _ e in
        some-true refl e1

    based_forecast-true :
        based_forecast unconstraining rounds input date dtd departed demand ≡ some (demand', flag)
        → flag ≡ true
    unfolding based_forecast
    based_forecast-true e =
        let prepare = prepare_historical_booking input in
        let (after, run, e1) =
          >>=-eq-some
            (forecast_by_class unconstraining rounds input date dtd departed prepare demand) _ e in
        some-true refl e1

    q_forecast-true :
        q_forecast unconstraining rounds input date dtd departed demand ≡ some (demand', flag)
        → flag ≡ true
    unfolding q_forecast
    q_forecast-true e =
        let (frat5s, has, e1) = >>=-eq-some (last_curve input.fare_families) _ e in
        let (sell_up, has', e2) =
          >>=-eq-some (compute_sell_up_factor_curves frat5s input.booking_classes) _ e1 in
        let (dispatching, has'', e3) =
          >>=-eq-some (compute_dispatching_factor_curves frat5s input.booking_classes) _ e2 in
        let (after, run, e4) =
          >>=-eq-some
            (forecast_dcps (q_forecast_interval unconstraining rounds input sell_up dispatching)
              input.table.boardings input.table.greatest_nb date dtd departed input.dcp_list demand)
            _ e3 in
        some-true refl e4

    new_qff_forecast-true :
        new_qff_forecast ops unconstraining rounds input date dtd departed demand
          ≡ some (demand', flag)
        → flag ≡ true
    unfolding new_qff_forecast
    new_qff_forecast-true e =
        let (families, run, e1) =
          >>=-eq-some
            (families_forecast unconstraining rounds input date dtd departed 0 input.fare_families
              demand.families)
            _ e in
        let (policies, run', e2) =
          >>=-eq-some
            (dispatch_to_policies ops (λ code. yield_of code input.booking_classes)
              (λ code. find_in_classes code (all_classes families)) demand.policies)
            _ e1 in
        some-true refl e2

    old_qff_forecast-true :
        old_qff_forecast ops unconstraining rounds input date dtd departed demand
          ≡ some (demand', flag)
        → flag ≡ true
    unfolding old_qff_forecast
    old_qff_forecast-true e =
        let (frat5s, has, e1) = >>=-eq-some (last_curve input.fare_families) _ e in
        let (sell_up, has', e2) =
          >>=-eq-some (compute_sell_up_factor_curves frat5s input.booking_classes) _ e1 in
        let reset = record demand { policies = map ops.reset_demand_forecast demand.policies } in
        let (after, run, e3) =
          >>=-eq-some
            (forecast_dcps (old_qff_interval ops unconstraining rounds input sell_up)
              input.table.boardings input.table.greatest_nb date dtd departed input.dcp_list reset)
            _ e2 in
        some-true refl e3

  module _ (input : CabinInput D) (date dtd : ℤ) (departed : ℕ) (demand : CabinDemand D P)
      {demand' : CabinDemand D P} {flag : Bool} where
    hybrid_forecast-true :
        hybrid_forecast unconstraining rounds input date dtd departed demand ≡ some (demand', flag)
        → flag ≡ true
    unfolding hybrid_forecast
    hybrid_forecast-true e =
        let ((after, is_forecasted), run, e1) =
          >>=-eq-some (q_forecast unconstraining rounds input date dtd departed demand) _ e in
        product_forecast-true input date dtd departed after e1

    forecast_by-true :
        (method : ForecastingMethod)
        → forecast_by ops unconstraining rounds method input date dtd departed demand
          ≡ some (demand', flag)
        → flag ≡ true
    unfolding forecast_by
    forecast_by-true q_forecasting e = q_forecast-true input date dtd departed demand e
    forecast_by-true hybrid_forecasting e = hybrid_forecast-true e
    forecast_by-true new_qff e = elim (Bool-cases input.has_fare_families) [
      | inl has ↦ new_qff_forecast-true input date dtd departed demand (rw has at e)
      | inr without ↦ hybrid_forecast-true (rw without at e)
    ]
    forecast_by-true old_qff e = elim (Bool-cases input.has_fare_families) [
      | inl has ↦ old_qff_forecast-true input date dtd departed demand (rw has at e)
      | inr without ↦ hybrid_forecast-true (rw without at e)
    ]
    forecast_by-true based_forecasting e = based_forecast-true input date dtd departed demand e
    forecast_by-true other_method e = cc

  -- the cabin's number of departed similar segments is two or more
  abbrev pub has_departed : ℤ → SegmentCabin D P → Bool
  has_departed date cabin =
      not (ltb (get_nb_of_departed_similar_segments cabin.input.table.boardings date) 2)

  -- before and after a forecast
  abbrev pub IsForecast : ℤ → SegmentCabin D P → SegmentCabin D P → Type ℓ
  IsForecast date cabin cabin' = has_departed date cabin ≡ false → cabin' ≡ cabin

  forecast_cabin_lem :
      (date : ℤ) (method : ForecastingMethod) (cabin : SegmentCabin D P) {cabin' : SegmentCabin D P}
      {flag : Bool}
      → forecast_cabin ops unconstraining rounds date method cabin ≡ some (cabin', flag)
      → IsForecast date cabin cabin' × (has_departed date cabin ≡ flag)
  unfolding forecast_cabin
  forecast_cabin_lem date method cabin {cabin'} {flag} e =
      let departed = get_nb_of_departed_similar_segments cabin.input.table.boardings date in
      let dtd = cabin.input.boarding -ℤ date in
      let zeroed = record (cabin.demand) {
        families = set_demand_forecasts_to_zero cabin.demand.families;
      } in
      elim (Bool-cases (ltb departed 2)) [
        | inl few ↦
            let same = some-injective _ _ (rw few at e) in
            (λ _. ap (λ p. p.0) (sym same), rw few (ap (λ p. p.1) same))
        | inr enough ↦
            let ((demand, is_forecasted), run, e1) =
              >>=-eq-some
                (forecast_by ops unconstraining rounds method cabin.input date dtd departed zeroed)
                _ (rw enough at e) in
            let good : is_forecasted ≡ true =
              forecast_by-true cabin.input date dtd departed zeroed method run in
            (
              λ none_departed. absurd (ground (arith, enough, none_departed)),
              rw enough (sym good ∙ ap (λ p. p.1) (some-injective _ _ e1)),
            )
      ]

  abbrev pub all_departed : ℤ → List (SegmentCabin D P) → Bool
  all_departed date [] = true
  all_departed date (c ∷ cs) = has_departed date c && all_departed date cs

  abbrev pub all_segments_departed : ℤ → List (List (SegmentCabin D P)) → Bool
  all_segments_departed date [] = true
  all_segments_departed date (cs ∷ rest) = all_departed date cs && all_segments_departed date rest

  module _ (date : ℤ) (method : ForecastingMethod) where
    abbrev step : SegmentCabin D P → Option (SegmentCabin D P × Bool)
    step = forecast_cabin ops unconstraining rounds date method

    Each-departed :
        {cabins cabins' : List (SegmentCabin D P)}
        → Each (IsStepped step) cabins cabins'
        → Each (IsForecast date) cabins cabins'
          × (all_departed date cabins ≡ all_succeed step cabins)
    Each-departed nil = (nil, refl)
    Each-departed (cons {x} {y} run others) =
        let (here, flag) = forecast_cabin_lem date method x run in
        let (rest, flags) = Each-departed others in (cons here rest, ap₂ ◌&&◌ flag flags)

    Each-segment_departed :
        {segments segments' : List (List (SegmentCabin D P))}
        → Each (Each (IsStepped step)) segments segments'
        → Each (Each (IsForecast date)) segments segments'
          × (all_segments_departed date segments ≡ all_segments_succeed step segments)
    Each-segment_departed nil = (nil, refl)
    Each-segment_departed (cons run others) =
        let (here, flag) = Each-departed run in
        let (rest, flags) = Each-segment_departed others in (cons here rest, ap₂ ◌&&◌ flag flags)

  -- If the forecast of a flight-date returns, it is successful exactly if two similar segments or
  -- more have departed for each segment-cabin; a cabin with fewer is as it was, also where others
  -- have been forecast; and the leg-cabins are as they were.
  pub forecast_lem :
      (date : ℤ) (method : ForecastingMethod) (flight : FlightDate D P) {flight' : FlightDate D P}
      {flag : Bool}
      → forecast ops unconstraining rounds date method flight ≡ some (flight', flag)
      → (flag ≡ all_segments_departed date flight.segments)
        × Each (Each (IsForecast date)) flight.segments flight'.segments
        × (flight'.legs ≡ flight.legs)
  unfolding forecast
  forecast_lem date method flight e =
      let step = forecast_cabin ops unconstraining rounds date method in
      let ((segments, flag'), run, e1) = >>=-eq-some (each_segment step flight.segments) _ e in
      let (stepped, all) = each_segment_lem step flight.segments run in
      let (each, departed) = Each-segment_departed date method stepped in
      subst
        (λ p.
          (p.1 ≡ all_segments_departed date flight.segments)
          × Each (Each (IsForecast date)) flight.segments p.0.segments
          × (p.0.legs ≡ flight.legs))
        (some-injective _ _ e1) (sym (departed ∙ all), each, refl)
