-- ===== src/Service/Outcome.antt =====
-- `RMOL_Service::optimise` of rmol/service/RMOL_Service.cpp: what its result says.
use mathlib.Core.Option.{some-injective}
use rmol.Base.{
  ℕ, ◌≡◌, refl, sym, ap, ◌∙◌, subst, inl, inr, Bool, false, List, ◌∷◌, Option, some, arith,
  Bool-cases, >>=-eq-some,
}
use rmol.Base.Int.{ℤ, ltb_ℤ}
use rmol.Base.Double.{Double}
use rmol.Emsr.{Normal}
use rmol.Detruncation.{UnconstrainingMethod}
use rmol.Optimiser.{OptimisationMethod}
use rmol.Optimiser.Flight.{Each, nil, cons}
use rmol.Forecasting.{PolicyOps}
use rmol.Flight.{SegmentCabin, FlightDate, each_segment}
use rmol.Flight.Loop.{all_segments_succeed, each_segment_lem}
use rmol.Forecaster.{ForecastingMethod, forecast}
use rmol.Forecaster.Departed.{forecast_lem}
use rmol.PreOptimiser.{fa_method, pre_optimise_cabin, pre_optimise}
use rmol.Service.{LegOps, reset_demand_information}
use rmol.Service.OndForecast.{OndSetup, forecast_ond}
use rmol.Service.Flow.{
  PartnershipTechnique, Network, forecast_and_reset, project_and_optimise, optimise_with_partners,
  pre_optimise_and_optimise, optimise_without_partners,
}

module _ {ℓ} {D : Type ℓ} ⦃d : Double D⦄ (setup : OndSetup D) (ops : LegOps D)
    (sample : (mean std_dev : D) → ℕ → D) (draws : ℕ) (whole : List ℤ) (today : ℤ) where
  abbrev partners : PartnershipTechnique → Network D → Option (Network D × Bool)
  partners = optimise_with_partners ops sample draws whole today setup

  forecast_and_reset-today :
      (network : Network D) {started : Network D}
      → forecast_and_reset setup whole today network ≡ some started
      → started.previous_forecast_date ≡ today
  unfolding forecast_and_reset
  forecast_and_reset-today network e =
      let (inventories, run, e1) =
        >>=-eq-some (forecast_ond setup whole today network.inventories) _ e in
      let (legs, run', e2) =
        >>=-eq-some (reset_demand_information whole today inventories network.legs) _ e1 in
      ap (λ (n : Network D). n.previous_forecast_date) (sym (some-injective _ _ e2))

  -- a network that has been forecast on the day
  not_again :
      (technique : PartnershipTechnique) (network : Network D)
      → ltb_ℤ network.previous_forecast_date today ≡ false
      → partners technique network ≡ some (network, false)
  unfolding optimise_with_partners
  not_again technique network h = rw h refl

  -- If an O&D technique returns, its result is `false`, and for the rest of the day no technique
  -- changes anything.
  pub optimise_with_partners_lem :
      (technique : PartnershipTechnique) (network : Network D) {network' : Network D} {flag : Bool}
      → optimise_with_partners ops sample draws whole today setup technique network
        ≡ some (network', flag)
      → (flag ≡ false)
        × ((later : PartnershipTechnique)
            → optimise_with_partners ops sample draws whole today setup later network'
              ≡ some (network', false))
  unfolding optimise_with_partners
  optimise_with_partners_lem technique network e =
      elim (Bool-cases (ltb_ℤ network.previous_forecast_date today)) [
        | inr already ↦
            subst
              (λ p.
                (p.1 ≡ false)
                × ((later : PartnershipTechnique) → partners later p.0 ≡ some (p.0, false)))
              (some-injective _ _ (rw already at e))
              (refl, λ later. not_again later network already)
        | inl first ↦
            let (started, run, e1) =
              >>=-eq-some (forecast_and_reset setup whole today network) _ (rw first at e) in
            let (legs, run', e2) =
              >>=-eq-some
                (project_and_optimise ops sample draws whole today technique started.inventories
                  started.legs)
                _ e1 in
            let date = forecast_and_reset-today network run in
            subst
              (λ p.
                (p.1 ≡ false)
                × ((later : PartnershipTechnique) → partners later p.0 ≡ some (p.0, false)))
              (some-injective _ _ e2)
              (
                refl,
                λ later.
                    not_again later (record started { legs = legs })
                      (subst (λ t. ltb_ℤ t today ≡ false) (sym date) (ground arith)),
              )
      ]

module _ {ℓ} {D P : Type ℓ} ⦃d : Double D⦄ (ops : PolicyOps D P)
    (unconstraining : UnconstrainingMethod) (rounds : ℕ) (default_yield : D) (normal : Normal D)
    (generated : List ℕ → List D) where
  -- the first segment-date has a segment-cabin
  pub data HasCabin : List (List (SegmentCabin D P)) → Type ℓ where
    has_cabin :
        {cabin : SegmentCabin D P} {cabins : List (SegmentCabin D P)}
        {segments : List (List (SegmentCabin D P))}
        → HasCabin ((cabin ∷ cabins) ∷ segments)

  Each-HasCabin :
      {R : SegmentCabin D P → SegmentCabin D P → Type ℓ}
      {segments segments' : List (List (SegmentCabin D P))}
      → Each (Each R) segments segments'
      → HasCabin segments
      → HasCabin segments'
  Each-HasCabin nil has = elim has [ ]
  Each-HasCabin (cons nil others) has = elim has [ ]
  Each-HasCabin (cons (cons here more) others) has_cabin = has_cabin

  not_adjusted :
      (segments : List (List (SegmentCabin D P)))
      → HasCabin segments
      → all_segments_succeed (pre_optimise_cabin ops default_yield fa_method) segments ≡ false
  unfolding pre_optimise_cabin
  not_adjusted _ has_cabin = refl

  pre_optimise-fails :
      (flight : FlightDate D P) {flight' : FlightDate D P} {flag : Bool}
      → HasCabin flight.segments
      → pre_optimise ops default_yield fa_method flight ≡ some (flight', flag)
      → (flag ≡ false) × (flight'.legs ≡ flight.legs)
  unfolding pre_optimise
  pre_optimise-fails flight has e =
      let step = pre_optimise_cabin ops default_yield fa_method in
      let ((segments, flag'), run, e1) = >>=-eq-some (each_segment step flight.segments) _ e in
      let (stepped, all) = each_segment_lem step flight.segments run in
      subst (λ p. (p.1 ≡ false) × (p.0.legs ≡ flight.legs)) (some-injective _ _ e1)
        (sym all ∙ not_adjusted flight.segments has, refl)

  -- With the fare adjustment as the pre-optimisation, and a segment-cabin in the first
  -- segment-date, the flow of a flight-date never succeeds: if it returns its result is `false`,
  -- and the leg-cabins are as they were.
  pub optimise_with_fare_adjustment :
      (date : ℤ) (forecasting : ForecastingMethod) (method : OptimisationMethod)
      (flight : FlightDate D P) {flight' : FlightDate D P} {flag : Bool}
      → HasCabin flight.segments
      → optimise_without_partners ops unconstraining rounds default_yield normal generated date
          forecasting fa_method method flight
        ≡ some (flight', flag)
      → (flag ≡ false) × (flight'.legs ≡ flight.legs)
  unfolding optimise_without_partners pre_optimise_and_optimise
  optimise_with_fare_adjustment date forecasting method flight has e =
      let ((flight1, is_forecasted), run, e1) =
        >>=-eq-some (forecast ops unconstraining rounds date forecasting flight) _ e in
      let (departed, each, same) =
        forecast_lem ops unconstraining rounds date forecasting flight run in
      elim (Bool-cases is_forecasted) [
        | inr no_forecast ↦
            subst (λ p. (p.1 ≡ false) × (p.0.legs ≡ flight.legs))
              (some-injective _ _ (rw no_forecast at e1)) (refl, same)
        | inl go ↦
            let ((flight2, is_pre_optimised), run', e2) =
              >>=-eq-some (pre_optimise ops default_yield fa_method flight1) _ (rw go at e1) in
            let (failed, same') = pre_optimise-fails flight1 (Each-HasCabin each has) run' in
            subst (λ p. (p.1 ≡ false) × (p.0.legs ≡ flight.legs))
              (some-injective _ _ (rw failed at e2)) (refl, same' ∙ same)
      ]
