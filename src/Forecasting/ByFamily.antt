-- ===== src/Forecasting/ByFamily.antt =====
-- rmol/command/NewQFF.cpp: a forecast for each fare family, in bookings of its lowest class, and
-- the demand of the policies from the cumulated demand of the classes.
use rmol.Base.{
  ℕ, zero, suc, ◌+◌, ◌*◌, Bool, true, false, List, [], ◌∷◌, ◌++◌, Option, none, some, ◌==◌,
  if◌then◌else◌, ◌>>=◌,
}
use rmol.Base.Int.{ℤ}
use rmol.Base.Double.{Double, ◌⊕◌, ◌⊗◌, of_ℕ, nought}
use rmol.Cabin.{BookingClass}
use rmol.Curves.{
  Curve, ClassCurves, compute_sell_up_factor_curves, compute_dispatching_factor_curves,
}
use rmol.Demand.{ClassDemand, FamilyDemand, add_price_demand, add_cumu_price_demand}
use rmol.Detruncation.{HistoricalBooking, UnconstrainingMethod}
use rmol.Forecasting.{
  SnapshotTable, CabinInput, CabinDemand, PolicyOps, nb_of_dtds, find_day, sum_days_of_both,
  prepare_bookings, unconstrained_parameters, add_family_demand, dispatch_in_families,
  forecast_dcps,
}
use rmol.Forecasting.PriceOriented.{q_equivalent_bookings}

-- a change of the family at an index
unfoldable pub update_at {ℓ} : {A : Type ℓ} → ℕ → (A → A) → List A → List A
update_at i f [] = []
update_at zero f (x ∷ xs) = f x ∷ xs
update_at (suc i) f (x ∷ xs) = x ∷ update_at i f xs

-- the demand of a class, in whichever family it is
unfoldable pub find_in_classes {ℓ} :
    {D : Type ℓ} → ℕ → List (ClassDemand D) → Option (ClassDemand D)
find_in_classes code [] = none
find_in_classes code (c ∷ cs) = if code == c.code then some c else find_in_classes code cs

unfoldable pub all_classes {ℓ} : {D : Type ℓ} → List (FamilyDemand D) → List (ClassDemand D)
all_classes [] = []
all_classes (g ∷ gs) = g.classes ++ all_classes gs

unfoldable pub yield_of {ℓ} : {D : Type ℓ} → ℕ → List (BookingClass D) → Option D
yield_of code [] = none
yield_of code (c ∷ cs) = if code == c.code then some c.yield else yield_of code cs

module _ {ℓ} {D : Type ℓ} ⦃d : Double D⦄ where
  -- `tempCensorship` for a day: whether no class of the map is available
  unfoldable pub all_unavailable :
      (availability_of : ℕ → Option D) (class_index : ℕ → Option ℕ) → ClassCurves D → Option Bool
  all_unavailable availability_of class_index [] = some true
  all_unavailable availability_of class_index ((code, curve) ∷ rest) = do
    let others = all_unavailable availability_of class_index rest
    index ← class_index code
    a ← availability_of index
    if d.le (of_ℕ 1) a then some false else others

  unfoldable pub prepare_family_historical_booking :
      SnapshotTable D
      → ClassCurves D
      → (dcp_begin dcp_end : ℤ) (segment_begin segment_end : ℕ)
      → Option (List (HistoricalBooking D))
  unfolding prepare_bookings find_day all_unavailable sum_days_of_both q_equivalent_bookings
  prepare_family_historical_booking table curves dcp_begin dcp_end segment_begin segment_end =
      let price = table.price_bookings segment_begin segment_end dcp_end dcp_begin in
      let product = table.product_bookings segment_begin segment_end dcp_end dcp_begin in
      let availability = table.availability segment_begin segment_end dcp_end dcp_begin in
      let days = nb_of_dtds dcp_begin dcp_end in
      prepare_bookings table.greatest_nb
        (λ i.
          find_day
            (λ j.
              all_unavailable (λ index. availability (i * table.nb_of_classes + index) j)
                table.class_index curves)
            days 0
          >>= λ flag.
              q_equivalent_bookings dcp_begin
                (λ index. sum_days_of_both price product (i * table.nb_of_classes + index) days)
                table.class_index curves nought
              >>= λ sum. some (sum, flag))
        segment_begin segment_end

  -- one interval for the family at an index, whose own demand is changed last
  unfoldable pub family_forecast_interval :
      UnconstrainingMethod
      → (rounds : ℕ) → SnapshotTable D
      → (sell_up dispatching : ClassCurves D) (family : ℕ)
      → (current next : ℤ) (segment_begin segment_end : ℕ) → List (FamilyDemand D)
      → Option (List (FamilyDemand D))
  unfolding prepare_family_historical_booking unconstrained_parameters dispatch_in_families
      add_family_demand update_at
  family_forecast_interval method rounds table sell_up dispatching family current next segment_begin
        segment_end families =
      do
        holder ←
            prepare_family_historical_booking table sell_up current next segment_begin segment_end
        (mean, std_dev) ← unconstrained_parameters method rounds holder
        dispatched ←
            dispatch_in_families (add_price_demand mean std_dev) current dispatching families
        dispatched_for_fa ←
            dispatch_in_families (add_cumu_price_demand mean std_dev) current sell_up dispatched
        some (update_at family (add_family_demand mean std_dev) dispatched_for_fa)

module _ {ℓ} {D : Type ℓ} ⦃d : Double D⦄ (method : UnconstrainingMethod) (rounds : ℕ)
    (input : CabinInput D) (date dtd : ℤ) (departed : ℕ) where
  -- `NewQFF::forecast` of a fare family
  unfoldable pub family_forecast :
      (family : ℕ)
      → Curve D
      → List (BookingClass D)
      → List (FamilyDemand D)
      → Option (List (FamilyDemand D))
  unfolding family_forecast_interval forecast_dcps
  family_forecast family frat5s classes families = do
    sell_up ← compute_sell_up_factor_curves frat5s classes
    dispatching ← compute_dispatching_factor_curves frat5s classes
    forecast_dcps (family_forecast_interval method rounds input.table sell_up dispatching family)
        input.table.boardings input.table.greatest_nb date dtd departed input.dcp_list families

  -- the loop over the fare families
  unfoldable pub families_forecast :
      (family : ℕ)
      → List (Curve D × List (BookingClass D))
      → List (FamilyDemand D)
      → Option (List (FamilyDemand D))
  unfolding family_forecast
  families_forecast family [] families = some families
  families_forecast family ((frat5s, classes) ∷ rest) families = do
    families' ← family_forecast family frat5s classes families
    families_forecast (suc family) rest families'

module _ {ℓ} {D P : Type ℓ} ⦃d : Double D⦄ (ops : PolicyOps D P) where
  -- the classes of a policy one by one, with the demand and the deviation so far
  unfoldable pub add_class_demands :
      (yield_of_class : ℕ → Option D) (demand_of_class : ℕ → Option (ClassDemand D))
      → List ℕ
      → (demand std_dev : D) → P
      → Option (D × D × P)
  add_class_demands yield_of_class demand_of_class [] demand std_dev policy =
      some (demand, std_dev, policy)
  add_class_demands yield_of_class demand_of_class (code ∷ rest) demand std_dev policy = do
    yield ← yield_of_class code
    c ← demand_of_class code
    add_class_demands yield_of_class demand_of_class rest (demand ⊕ c.cumu_price_mean)
        (d.sqrt (std_dev ⊗ std_dev ⊕ c.cumu_price_std_dev ⊗ c.cumu_price_std_dev))
        (ops.add_yield_demand yield c.cumu_price_mean policy)

  -- `dispatchDemandForecastToPolicy`
  unfoldable pub dispatch_to_policy :
      (yield_of_class : ℕ → Option D) (demand_of_class : ℕ → Option (ClassDemand D)) → P → Option P
  unfolding add_class_demands
  dispatch_to_policy yield_of_class demand_of_class policy =
      let reset = ops.reset_demand_forecast policy in
      elim (ops.held reset) [
        | none ↦ some reset
        | some codes ↦
            add_class_demands yield_of_class demand_of_class codes (ops.demand_of reset)
              (ops.std_dev_of reset) reset
            >>= λ (r : D × D × P). some (ops.set_std_dev r.1 (ops.set_demand r.0 r.2))
      ]

  -- `dispatchDemandForecastToPolicies`
  unfoldable pub dispatch_to_policies :
      (yield_of_class : ℕ → Option D) (demand_of_class : ℕ → Option (ClassDemand D))
      → List P
      → Option (List P)
  unfolding dispatch_to_policy
  dispatch_to_policies yield_of_class demand_of_class [] = some []
  dispatch_to_policies yield_of_class demand_of_class (p ∷ ps) = do
    p' ← dispatch_to_policy yield_of_class demand_of_class p
    ps' ← dispatch_to_policies yield_of_class demand_of_class ps
    some (p' ∷ ps')

  -- `NewQFF::forecast` of a segment-cabin
  unfoldable pub new_qff_forecast :
      UnconstrainingMethod
      → (rounds : ℕ) → CabinInput D
      → (date dtd : ℤ) (departed : ℕ) → CabinDemand D P
      → Option (CabinDemand D P × Bool)
  unfolding families_forecast dispatch_to_policies yield_of find_in_classes all_classes
  new_qff_forecast method rounds input date dtd departed cabin = do
    families ←
        families_forecast method rounds input date dtd departed 0 input.fare_families cabin.families
    policies ←
        dispatch_to_policies (λ code. yield_of code input.booking_classes)
          (λ code. find_in_classes code (all_classes families)) cabin.policies
    some (record { families = families; policies = policies }, true)
