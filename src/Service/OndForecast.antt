-- ===== src/Service/OndForecast.antt =====
-- `forecastOnD`, `getYieldFeatures` and `setOnDForecast` of rmol/service/RMOL_Service.cpp: the
-- demand to come of the O&D dates, shared out over the yields. A string is a number, and the codes
-- of an airline's classes are a list of letters.
use rmol.Base.{
  ℕ, Bool, true, false, not, ◌&&◌, List, [], ◌∷◌, map, Option, none, some, ◌==◌, if◌then◌else◌,
  length, ◌>>=◌, ◌>>◌, assert,
}
use rmol.Base.Int.{ℤ, eqb_ℤ, ◌-ℤ◌}
use rmol.Base.Double.{Double, ◌⊖◌, ◌⊗◌, ◌⊘◌, of_ℕ, nought}
use rmol.Curves.{Curve, find_factor}
use rmol.Service.{OndSegment, OndDate, Inventory, for_each, is_empty, is_dcp, short_of}

-- a yield rule: the airlines, the class codes of each, and the yield
pub record AirlineClassList {ℓ} (D : Type ℓ) : Type ℓ where
  pub airlines : List ℕ
  pub class_codes : List (List ℕ)
  pub rule_yield : D

-- `pos_channel` has the rules of each time period by cabin, for the default point of sale.
pub record DatePeriod {ℓ} (D : Type ℓ) : Type ℓ where
  pub is_departure_date_valid : ℤ → Bool
  pub pos_channel : Option (List (ℕ → Option (List (AirlineClassList D))))

pub record AirportPair {ℓ} (D : Type ℓ) : Type ℓ where
  pub pair_origin : ℕ
  pub pair_destination : ℕ
  pub date_periods : List (DatePeriod D)

-- StdAir's tables, and `setDemandInformation` of its O&D dates
pub record OndSetup {ℓ} (D : Type ℓ) : Type ℓ where
  pub airport_pairs : List (AirportPair D)
  pub remaining_proportion : ℤ → D
  pub frat5_coefs : Curve D
  pub set_demand_information : List (ℕ × ℕ) → (yield mean std_dev : D) → OndDate D → OndDate D

-- `lFirstClass`, of each airline
unfoldable pub first_letters : List (List ℕ) → Option (List ℕ)
first_letters [] = some []
first_letters ([] ∷ rest) = none
first_letters ((letter ∷ letters) ∷ rest) = do others ← first_letters rest; some (letter ∷ others)

module _ {ℓ} {D : Type ℓ} where
  unfoldable pub find_airport_pair :
      (origin destination : ℕ) → List (AirportPair D) → Option (AirportPair D)
  find_airport_pair origin destination [] = none
  find_airport_pair origin destination (p ∷ ps) =
      if (p.pair_origin == origin) && (p.pair_destination == destination)
      then some p
      else find_airport_pair origin destination ps

  -- the first time period that has the cabin
  unfoldable pub find_in_periods :
      ℕ → List (ℕ → Option (List (AirlineClassList D))) → Option (List (AirlineClassList D))
  find_in_periods cabin_code [] = none
  find_in_periods cabin_code (period ∷ rest) = elim (period cabin_code) [
    | none ↦ find_in_periods cabin_code rest
    | some rules ↦ some rules
  ]

  -- The outer result is `none` where a valid date period has no point of sale, which is an
  -- assertion that fails; the inner one where no yield is found.
  unfoldable pub find_in_dates :
      (cabin_code : ℕ) (date : ℤ)
      → List (DatePeriod D)
      → Option (Option (List (AirlineClassList D)))
  unfolding find_in_periods
  find_in_dates cabin_code date [] = some none
  find_in_dates cabin_code date (p ∷ ps) =
      let rest = find_in_dates cabin_code date ps in
      let here = p.pos_channel >>= λ periods. elim (find_in_periods cabin_code periods) [
        | none ↦ rest
        | some rules ↦ some (some rules)
      ] in
      if p.is_departure_date_valid date then here else rest

  unfoldable pub get_yield_features :
      List (AirportPair D)
      → OndDate D
      → (cabin_code : ℕ) → Option (Option (List (AirlineClassList D)))
  unfolding find_airport_pair find_in_dates
  get_yield_features pairs ond cabin_code = do
    pair ← find_airport_pair ond.origin ond.destination pairs
    find_in_dates cabin_code ond.date pair.date_periods

  -- the loop over the O&D dates of an inventory up to the first that is right
  unfoldable pub update_first :
      (OndDate D → Bool) → (OndDate D → OndDate D) → List (OndDate D) → Option (List (OndDate D))
  unfolding is_empty
  update_first is_right change [] = none
  update_first is_right change (ond ∷ rest) = do
    let others = do rest' ← update_first is_right change rest; some (ond ∷ rest')
    assert (not (is_empty ond.segments))
    if is_right ond then some (change ond ∷ rest) else others

  -- the inventory of an airline, whose O&D dates must not be none
  unfoldable pub update_inventory :
      ℕ
      → (OndDate D → Bool)
      → (OndDate D → OndDate D)
      → List (Inventory D)
      → Option (List (Inventory D))
  unfolding update_first
  update_inventory airline is_right change [] = none
  update_inventory airline is_right change (inventory ∷ rest) =
      let others = do
        rest' ← update_inventory airline is_right change rest
        some (inventory ∷ rest')
      in let here = do
        onds ← update_first is_right change inventory.onds
        some (record inventory { onds = onds } ∷ rest)
        in if airline == inventory.code then here else others

  unfoldable pub is_same_trip : OndDate D → OndDate D → Bool
  is_same_trip ond other =
      eqb_ℤ other.date ond.date
      && ((other.origin == ond.origin) && (other.destination == ond.destination))

  -- the airline of each segment, which is the O&D date's own unless another one operates it
  unfoldable pub airlines_agree : (own : ℕ) → List ℕ → List (OndSegment D) → Bool
  airlines_agree own [] segments = true
  airlines_agree own (airline ∷ airlines) [] = false
  airlines_agree own (airline ∷ airlines) (segment ∷ segments) =
      let rest = airlines_agree own airlines segments in
      let operating : ℕ = elim segment.operating [ none ↦ own | some other ↦ other.0 ] in
      if operating == airline then rest else false

  module _ (setup : OndSetup D) (ond : OndDate D) (cabin_code : ℕ) (yield mean std_dev : D) where
    -- `setOnDForecast` of a single segment, and of several for one of the airlines
    unfoldable pub set_single_forecast :
        (airline class_code : ℕ) → List (Inventory D) → Option (List (Inventory D))
    unfolding update_inventory is_same_trip
    set_single_forecast airline class_code =
        update_inventory airline (λ other. is_same_trip ond other && (length other.segments == 1))
          (setup.set_demand_information ((cabin_code, class_code) ∷ []) yield mean std_dev)

    unfoldable pub set_multiple_forecast :
        (airlines class_codes : List ℕ) (airline : ℕ)
        → List (Inventory D)
        → Option (List (Inventory D))
    unfolding update_inventory is_same_trip airlines_agree
    set_multiple_forecast airlines class_codes airline =
        update_inventory airline
          (λ other.
            is_same_trip ond other
            && ((length other.segments == length airlines)
                && airlines_agree other.airline airlines other.segments))
          (setup.set_demand_information (map (λ code. (cabin_code, code)) class_codes) yield mean
            std_dev)

    -- `setOnDForecast` of a yield rule
    unfoldable pub set_for_airlines :
        (airlines class_codes : List ℕ) → List (Inventory D) → Option (List (Inventory D))
    unfolding set_single_forecast set_multiple_forecast for_each
    set_for_airlines (airline ∷ []) (class_code ∷ []) inventories =
        set_single_forecast airline class_code inventories
    set_for_airlines (airline ∷ next ∷ rest) class_codes inventories = do
      assert (length (airline ∷ next ∷ rest) == length class_codes)
      for_each (set_multiple_forecast (airline ∷ next ∷ rest) class_codes) (airline ∷ next ∷ rest)
          inventories
    set_for_airlines _ _ inventories = none

module _ {ℓ} {D : Type ℓ} ⦃d : Double D⦄ where
  unfoldable pub set_ond_forecast :
      OndSetup D
      → OndDate D
      → (cabin_code : ℕ) → (mean std_dev : D) → AirlineClassList D
      → List (Inventory D)
      → Option (List (Inventory D))
  unfolding first_letters set_for_airlines is_empty
  set_ond_forecast setup ond cabin_code mean std_dev rule inventories = do
    assert (not (is_empty rule.class_codes))
    class_codes ← first_letters rule.class_codes
    set_for_airlines setup ond cabin_code rule.rule_yield mean std_dev rule.airlines class_codes
        inventories

  -- the check that no yield is above the one before
  unfoldable pub has_descending_yields : (previous : D) → List (AirlineClassList D) → Bool
  has_descending_yields previous [] = true
  has_descending_yields previous (rule ∷ rules) =
      let rest = has_descending_yields rule.rule_yield rules in
      if d.le rule.rule_yield previous then rest else false

  unfoldable pub check_yields : List (AirlineClassList D) → Bool
  unfolding has_descending_yields
  check_yields [] = false
  check_yields (rule ∷ rules) = has_descending_yields rule.rule_yield rules

  -- `min (exp ((yield - wtp) * log (0.5) / (wtp * (frat5 - 1.0))), 1.0)`
  unfoldable pub share_from : (wtp frat5 yield : D) → D
  share_from wtp frat5 yield =
      let share = d.exp ((yield ⊖ wtp) ⊗ d.log (d.literal 5 1) ⊘ (wtp ⊗ (frat5 ⊖ of_ℕ 1))) in
      if d.lt (of_ℕ 1) share then of_ℕ 1 else share

  -- the loop over the rules: each one's share is the rise from the one before
  unfoldable pub proportion_factors : (wtp frat5 previous : D) → List (AirlineClassList D) → List D
  unfolding share_from
  proportion_factors wtp frat5 previous [] = []
  proportion_factors wtp frat5 previous (rule ∷ rules) =
      let share = share_from wtp frat5 rule.rule_yield in
      (share ⊖ previous) ∷ proportion_factors wtp frat5 share rules

  -- the last loop, along the rules and their factors
  unfoldable pub set_shares :
      OndSetup D
      → OndDate D
      → (cabin_code : ℕ) → (mean std_dev : D) → List (AirlineClassList D)
      → List D
      → List (Inventory D)
      → Option (List (Inventory D))
  unfolding set_ond_forecast
  set_shares setup ond cabin_code mean std_dev (rule ∷ rules) (factor ∷ factors) inventories = do
    inventories' ←
        set_ond_forecast setup ond cabin_code (factor ⊗ mean) (factor ⊗ std_dev) rule inventories
    set_shares setup ond cabin_code mean std_dev rules factors inventories'
  set_shares setup ond cabin_code mean std_dev _ _ inventories = some inventories

  -- `forecastOnD` of a cabin of an O&D date
  unfoldable pub forecast_ond_cabin :
      OndSetup D
      → (dtd : ℤ) → OndDate D
      → (ℕ × D × D × D)
      → List (Inventory D)
      → Option (List (Inventory D))
  unfolding get_yield_features check_yields proportion_factors set_shares
  forecast_ond_cabin setup dtd ond (cabin_code, wtp, mean, std_dev) inventories = do
    found ← get_yield_features setup.airport_pairs ond cabin_code
    rules ← found
    assert (check_yields rules)
    frat5 ← find_factor dtd setup.frat5_coefs
    let remaining = setup.remaining_proportion dtd
    set_shares setup ond cabin_code (remaining ⊗ mean) (remaining ⊗ std_dev) rules
        (proportion_factors wtp frat5 nought rules) inventories

  unfoldable pub forecast_ond_date :
      OndSetup D
      → (whole : List ℤ) (today : ℤ) → OndDate D
      → List (Inventory D)
      → Option (List (Inventory D))
  unfolding is_dcp for_each forecast_ond_cabin
  forecast_ond_date setup whole today ond inventories =
      if is_dcp whole ond.date today
      then for_each (forecast_ond_cabin setup (short_of (ond.date -ℤ today)) ond)
          ond.total_forecasts inventories
      else some inventories

  -- `forecastOnD`: what the loops go over does not change, but for the demand information
  unfoldable pub forecast_ond :
      OndSetup D → (whole : List ℤ) (today : ℤ) → List (Inventory D) → Option (List (Inventory D))
  unfolding is_empty for_each forecast_ond_date
  forecast_ond setup whole today inventories = do
    assert (not (is_empty inventories))
    for_each
        (λ (inventory : Inventory D). for_each (forecast_ond_date setup whole today) inventory.onds)
        inventories inventories
