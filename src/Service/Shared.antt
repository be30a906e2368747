-- ===== src/Service/Shared.antt =====
-- `forecastOnD` of rmol/service/RMOL_Service.cpp: how the demand to come of an O&D date is shared
-- out over the yield rules, and which O&D dates get the shares.
use mathlib.Core.Bool.{false≢true}
use mathlib.Core.Option.{some-injective}
use rmol.Base.{
  ℕ, ◌≡◌, ap, ◌∙◌, ◌>>◌, ◌>>=◌, assert, subst, ◌⊎◌, inl, inr, true, false, not, List, [], ◌∷◌, map,
  some, Bool-cases, >>=-eq-some, assert-eq-some,
}
use rmol.Base.Int.{ℤ, ◌-ℤ◌}
use rmol.Base.Double.{Double, ◌⊖◌, ◌⊗◌, nought}
use rmol.Curves.{find_factor}
use rmol.MonteCarlo.Prices.{IsFalling}
use rmol.Service.{OndDate, Inventory, is_empty, is_dcp, short_of}
use rmol.Service.Targets.{Runs, for_each-Runs, IsGiven, set_for_airlines_lem}
use rmol.Service.OndForecast.{
  AirlineClassList, OndSetup, get_yield_features, first_letters, set_ond_forecast,
  has_descending_yields, check_yields, share_from, proportion_factors, set_shares,
  forecast_ond_cabin, forecast_ond_date, forecast_ond,
}

module _ {ℓ} {D : Type ℓ} ⦃d : Double D⦄ (setup : OndSetup D) where
  -- Along the rules, the demand that goes to each is the rise of the share from the rule before.
  pub data AreShared (ond : OndDate D) (cabin_code : ℕ) (wtp frat5 mean std_dev : D)
      : (previous : D)
        → List (AirlineClassList D)
        → List (Inventory D)
        → List (Inventory D)
        → Type ℓ where
    end :
        {previous : D} {s : List (Inventory D)}
        → AreShared ond cabin_code wtp frat5 mean std_dev previous [] s s
    rule_by_rule :
        {previous : D} {rule : AirlineClassList D} {rules : List (AirlineClassList D)}
        {codes : List ℕ} {s s1 s2 : List (Inventory D)}
        → first_letters rule.class_codes ≡ some codes
        → (let share = share_from wtp frat5 rule.rule_yield ⊖ previous in
            IsGiven setup ond cabin_code rule.rule_yield
              (share ⊗ mean)
              (share ⊗ std_dev)
              rule.airlines
              codes
              s
              s1)
        → AreShared ond cabin_code wtp frat5 mean std_dev
            (share_from wtp frat5 rule.rule_yield)
            rules
            s1
            s2
        → AreShared ond cabin_code wtp frat5 mean std_dev previous (rule ∷ rules) s s2

  -- The forecast of a cabin: by the yield rules of the O&D date, whose yields never rise, and by
  -- the share of the demand that is still to come on the day.
  pub data IsForecast (dtd : ℤ) (ond : OndDate D)
      : ℕ × D × D × D → List (Inventory D) → List (Inventory D) → Type ℓ where
    forecast :
        {cabin_code : ℕ} {wtp mean std_dev frat5 : D} {rule : AirlineClassList D}
        {rules : List (AirlineClassList D)} {s s' : List (Inventory D)}
        → get_yield_features setup.airport_pairs ond cabin_code ≡ some (some (rule ∷ rules))
        → IsFalling (map (λ (r : AirlineClassList D). r.rule_yield) (rule ∷ rules))
        → find_factor dtd setup.frat5_coefs ≡ some frat5
        → AreShared ond cabin_code wtp frat5
            (setup.remaining_proportion dtd ⊗ mean)
            (setup.remaining_proportion dtd ⊗ std_dev)
            nought
            (rule ∷ rules)
            s
            s'
        → IsForecast dtd ond (cabin_code, wtp, mean, std_dev) s s'

  -- The cabins of an O&D date on a data collection point are forecast; any other is left alone.
  abbrev pub IsForecastIfDue :
      (whole : List ℤ) (today : ℤ) → OndDate D → List (Inventory D) → List (Inventory D) → Type ℓ
  IsForecastIfDue whole today ond s s' =
      ((is_dcp whole ond.date today ≡ true)
        × Runs (IsForecast (short_of (ond.date -ℤ today)) ond) ond.total_forecasts s s')
      ⊎ ((is_dcp whole ond.date today ≡ false) × (s ≡ s'))

  set_shares_lem :
      (ond : OndDate D) (cabin_code : ℕ) (wtp frat5 mean std_dev previous : D)
      (rules : List (AirlineClassList D)) (s : List (Inventory D)) {s' : List (Inventory D)}
      → set_shares setup ond cabin_code mean std_dev rules
          (proportion_factors wtp frat5 previous rules)
          s
        ≡ some s'
      → AreShared ond cabin_code wtp frat5 mean std_dev previous rules s s'
  unfolding set_shares proportion_factors set_ond_forecast
  set_shares_lem ond cabin_code wtp frat5 mean std_dev previous [] s e =
      subst (AreShared ond cabin_code wtp frat5 mean std_dev previous [] s) (some-injective _ _ e)
        end
  set_shares_lem ond cabin_code wtp frat5 mean std_dev previous (rule ∷ rules) s e =
      let share = share_from wtp frat5 rule.rule_yield in
      let part = share ⊖ previous in
      let (s1, run, more) =
        >>=-eq-some (set_ond_forecast setup ond cabin_code (part ⊗ mean) (part ⊗ std_dev) rule s) _
          e in
      let (has_codes, e1) = assert-eq-some (not (is_empty rule.class_codes)) _ run in
      let (codes, letters, e2) = >>=-eq-some (first_letters rule.class_codes) _ e1 in
      rule_by_rule letters
        (set_for_airlines_lem setup ond cabin_code rule.rule_yield (part ⊗ mean) (part ⊗ std_dev)
          rule.airlines codes s e2)
        (set_shares_lem ond cabin_code wtp frat5 mean std_dev share rules s1 more)

  has_descending_yields_lem :
      (rule : AirlineClassList D) (rules : List (AirlineClassList D))
      → has_descending_yields rule.rule_yield rules ≡ true
      → IsFalling (map (λ (r : AirlineClassList D). r.rule_yield) (rule ∷ rules))
  unfolding has_descending_yields
  has_descending_yields_lem rule [] e = tt
  has_descending_yields_lem rule (next ∷ rules) e =
      elim (Bool-cases (d.le next.rule_yield rule.rule_yield)) [
        | inl falls ↦ (falls, has_descending_yields_lem next rules (rw falls at e))
        | inr rises ↦ absurd (false≢true (rw rises at e))
      ]

  forecast_ond_cabin_lem :
      (dtd : ℤ) (ond : OndDate D) (total : ℕ × D × D × D) (s s' : List (Inventory D))
      → forecast_ond_cabin setup dtd ond total s ≡ some s'
      → IsForecast dtd ond total s s'
  unfolding forecast_ond_cabin check_yields
  forecast_ond_cabin_lem dtd ond (cabin_code, wtp, mean, std_dev) s s' e =
      let (found, run, e1) =
        >>=-eq-some (get_yield_features setup.airport_pairs ond cabin_code) _ e in
      let (rules, some_rules, e2) = >>=-eq-some found _ e1 in
      by_rules rules (run ∙ ap some some_rules) e2
    where
      by_rules :
          (rules : List (AirlineClassList D))
          → get_yield_features setup.airport_pairs ond cabin_code ≡ some (some rules)
          → (assert (check_yields rules)
              >> (find_factor dtd setup.frat5_coefs >>= λ frat5.
                  set_shares setup ond cabin_code
                    (setup.remaining_proportion dtd ⊗ mean)
                    (setup.remaining_proportion dtd ⊗ std_dev)
                    rules
                    (proportion_factors wtp frat5 nought rules)
                    s))
            ≡ some s'
          → IsForecast dtd ond (cabin_code, wtp, mean, std_dev) s s'
      by_rules [] found e = cc
      by_rules (rule ∷ rules) found e =
          let (falling, e3) = assert-eq-some (check_yields (rule ∷ rules)) _ e in
          let (frat5, has, e4) = >>=-eq-some (find_factor dtd setup.frat5_coefs) _ e3 in
          forecast found (has_descending_yields_lem rule rules falling) has
            (set_shares_lem ond cabin_code wtp frat5 _ _ nought (rule ∷ rules) s e4)

  forecast_ond_date_lem :
      (whole : List ℤ) (today : ℤ) (ond : OndDate D) (s s' : List (Inventory D))
      → forecast_ond_date setup whole today ond s ≡ some s'
      → IsForecastIfDue whole today ond s s'
  unfolding forecast_ond_date
  forecast_ond_date_lem whole today ond s s' e = elim (Bool-cases (is_dcp whole ond.date today)) [
    | inl on ↦ inl (
      on,
      for_each-Runs _ _ (forecast_ond_cabin_lem (short_of (ond.date -ℤ today)) ond)
          ond.total_forecasts s (rw on at e),
    )
    | inr off ↦ inr (off, some-injective _ _ (rw off at e))
  ]

  -- If the O&D forecast returns, the O&D dates on a data collection point have been forecast, one
  -- after the other, and no other: for each cabin with a total forecast the yield rules of the trip
  -- are found, their yields never rise, and along the rules the rise of the share at the rule's
  -- yield, times the remaining part of the mean and of the deviation, is set with that yield at the
  -- targets of the rule. These are the first O&D date of a single segment, or for each of several
  -- airlines the first that the airlines operate segment by segment, of the same day, origin and
  -- destination in the inventory of that airline; nothing else changes.
  pub forecast_ond_lem :
      (whole : List ℤ) (today : ℤ) (inventories : List (Inventory D))
      {inventories' : List (Inventory D)}
      → forecast_ond setup whole today inventories ≡ some inventories'
      → Runs
          (λ (inventory : Inventory D). Runs (IsForecastIfDue whole today) inventory.onds)
          inventories
          inventories
          inventories'
  unfolding forecast_ond
  forecast_ond_lem whole today inventories e =
      let (some_inventories, e1) = assert-eq-some (not (is_empty inventories)) _ e in
      for_each-Runs _ _
        (λ (inventory : Inventory D) s s' run.
          for_each-Runs _ _ (forecast_ond_date_lem whole today) inventory.onds s run)
        inventories inventories e1
