-- ===== src/Demand.antt =====
-- The demand forecasts of the booking classes: the dispatching methods, the DCP lists and the
-- distribution parameters of rmol/bom/Utilities.cpp, the sum of rmol/command/
-- DemandInputPreparation.cpp and the reset of rmol/command/Forecaster.cpp.
pub mod Dispatch
pub mod Dcp
mod Tests
use rmol.Base.{
  ℕ, ◌-◌, ◌<◌, Bool, true, false, not, List, [], ◌∷◌, ◌++◌, map, foldl, Option, none, some, ◌==◌,
  ltb, if◌then◌else◌, length, ◌>>=◌, ◌>>◌, assert,
}
use rmol.Base.Int.{ℤ, ltb_ℤ, leb_ℤ}
use rmol.Base.Double.{Double, ◌⊕◌, ◌⊖◌, ◌⊗◌, ◌⊘◌, of_ℕ, nought}
use rmol.Curves.{Curve, ClassCurves, find_factor}

-- the forecasts of a booking class, which its code stands for
pub record ClassDemand {ℓ} (D : Type ℓ) : Type ℓ where
  pub code : ℕ
  pub mean : D
  pub std_dev : D
  pub price_mean : D
  pub price_std_dev : D
  pub product_mean : D
  pub product_std_dev : D
  pub cumu_price_mean : D
  pub cumu_price_std_dev : D

-- the forecasts of a fare family and of its classes
pub record FamilyDemand {ℓ} (D : Type ℓ) : Type ℓ where
  pub family_mean : D
  pub family_std_dev : D
  pub classes : List (ClassDemand D)

-- the list from the current day on; `whole` is the DCP list of StdAir
unfoldable pub build_remaining_dcp_list : ℤ → (whole : List ℤ) → Option (List ℤ)
build_remaining_dcp_list dtd [] = none
build_remaining_dcp_list dtd (dcp ∷ rest) =
    let later = build_remaining_dcp_list dtd rest in
    if leb_ℤ dcp dtd then some (dtd ∷ rest) else later

unfoldable pub build_past_dcp_list : ℤ → (whole : List ℤ) → List ℤ
build_past_dcp_list dtd [] = []
build_past_dcp_list dtd (dcp ∷ rest) =
    let later = build_past_dcp_list dtd rest in if leb_ℤ dtd dcp then dcp ∷ later else []

module _ {ℓ} {D : Type ℓ} ⦃d : Double D⦄ where
  unfoldable pub compute_distribution_parameters : List D → Option (D × D)
  compute_distribution_parameters samples = do
    assert (ltb 1 (length samples))
    let n = length samples
    let mean = foldl ◌⊕◌ nought samples ⊘ of_ℕ n
    let squares = foldl (λ sum x. sum ⊕ (x ⊖ mean) ⊗ (x ⊖ mean)) nought samples
    let std_dev = d.sqrt (squares ⊘ of_ℕ (n - 1))
    some (mean, (if d.eq std_dev nought then d.literal 1 1 else std_dev))

  unfoldable pub add_price_demand : (mean std_dev factor : D) → ClassDemand D → ClassDemand D
  add_price_demand mean std_dev factor c =
      let more = std_dev ⊗ d.sqrt factor in
      record c {
        price_mean = c.price_mean ⊕ mean ⊗ factor;
        price_std_dev = d.sqrt (c.price_std_dev ⊗ c.price_std_dev ⊕ more ⊗ more);
      }

  unfoldable pub add_cumu_price_demand : (mean std_dev factor : D) → ClassDemand D → ClassDemand D
  add_cumu_price_demand mean std_dev factor c =
      let more = std_dev ⊗ d.sqrt factor in
      record c {
        cumu_price_mean = c.cumu_price_mean ⊕ mean ⊗ factor;
        cumu_price_std_dev = d.sqrt (c.cumu_price_std_dev ⊗ c.cumu_price_std_dev ⊕ more ⊗ more);
      }

  -- the class that a pointer of the map leads to
  unfoldable pub update_class :
      ℕ → (ClassDemand D → ClassDemand D) → List (ClassDemand D) → List (ClassDemand D)
  update_class code f [] = []
  update_class code f (c ∷ cs) =
      let rest = update_class code f cs in if code == c.code then f c ∷ cs else c ∷ rest

  -- The loop over the map: each class gets its share by the factor of the DCP.
  unfoldable pub dispatch :
      (add : D → ClassDemand D → ClassDemand D) (dcp : ℤ)
      → ClassCurves D
      → List (ClassDemand D)
      → Option (List (ClassDemand D))
  unfolding update_class find_factor
  dispatch add dcp [] classes = some classes
  dispatch add dcp ((code, curve) ∷ rest) classes = do
    factor ← find_factor dcp curve
    dispatch add dcp rest (update_class code (add factor) classes)

  unfoldable pub dispatch_demand_forecast :
      ClassCurves D → (mean std_dev : D) → ℤ → List (ClassDemand D) → Option (List (ClassDemand D))
  unfolding dispatch add_price_demand
  dispatch_demand_forecast curves mean std_dev dcp classes =
      dispatch (add_price_demand mean std_dev) dcp curves classes

  unfoldable pub dispatch_demand_forecast_for_fa :
      ClassCurves D → (mean std_dev : D) → ℤ → List (ClassDemand D) → Option (List (ClassDemand D))
  unfolding dispatch add_cumu_price_demand
  dispatch_demand_forecast_for_fa curves mean std_dev dcp classes =
      dispatch (add_cumu_price_demand mean std_dev) dcp curves classes

  -- the price-oriented and the product-oriented forecast together
  unfoldable pub prepare_class : ClassDemand D → ClassDemand D
  prepare_class c = record c {
    mean = c.price_mean ⊕ c.product_mean;
    std_dev = d.sqrt (c.price_std_dev ⊗ c.price_std_dev ⊕ c.product_std_dev ⊗ c.product_std_dev);
  }

  unfoldable pub prepare_demand_input : List (ClassDemand D) → List (ClassDemand D) × Bool
  unfolding prepare_class
  prepare_demand_input classes = (map prepare_class classes, true)

  unfoldable pub clear_class : ClassDemand D → ClassDemand D
  clear_class c = record c {
    mean = nought;
    std_dev = nought;
    price_mean = nought;
    price_std_dev = nought;
    product_mean = nought;
    product_std_dev = nought;
    cumu_price_mean = nought;
    cumu_price_std_dev = nought;
  }

  unfoldable pub set_demand_forecasts_to_zero : List (FamilyDemand D) → List (FamilyDemand D)
  unfolding clear_class
  set_demand_forecasts_to_zero [] = []
  set_demand_forecasts_to_zero (f ∷ fs) =
      record { family_mean = nought; family_std_dev = nought; classes = map clear_class f.classes }
      ∷ set_demand_forecasts_to_zero fs
