-- ===== src/Forecasting.antt =====
-- What the forecasting methods of rmol/command (BasedForecasting.cpp, HybridForecasting.cpp,
-- QForecasting.cpp, NewQFF.cpp and OldQFF.cpp) have in common: the loop over the DCP intervals, the
-- historical bookings from the snapshot tables, their unconstraining and the forecast from them.
-- `none` is an assertion that fails or what has no defined result.
pub mod ByClass
pub mod PriceOriented
pub mod ByFamily
pub mod ByPolicy
pub mod Ranges
pub mod History
pub mod Samples
mod Tests
use rmol.Base.{
  ℕ, zero, suc, ◌+◌, ◌-◌, ◌*◌, ◌^◌, Bool, true, false, List, [], ◌∷◌, map, Option, none, some, ltb,
  leb, ◌==◌, if◌then◌else◌, ◌>>=◌, ◌>>◌, assert,
}
use rmol.Base.Int.{ℤ, pos, pos_part, ◌+ℤ◌, ◌-ℤ◌, ltb_ℤ}
use rmol.Base.Double.{Double, ◌⊕◌, ◌⊗◌, of_ℕ, nought}
use rmol.Curves.{Curve, ClassCurves, find_factor}
use rmol.Cabin.{BookingClass}
use rmol.Demand.{ClassDemand, FamilyDemand, compute_distribution_parameters, update_class}
use rmol.Detruncation.{
  HistoricalBooking, UnconstrainingMethod, to_short, visited, historical_booking,
  add_historical_booking, detruncate,
}
use rmol.Snapshots.{get_nb_of_segment_already_passed_this_dtd}

-- A view on the days of some segments: what it holds at a row and a column, if it is in its range.
abbrev pub View {ℓ} : Type ℓ → Type ℓ
View D = (segment_begin segment_end : ℕ) (dcp_end dcp_begin : ℤ) (row column : ℕ) → Option D

-- `stdair::SegmentSnapshotTable`, by what its accessors return: the boarding dates of its segments,
-- the rows of a segment and of a class or the cabin among them, and the three views; with the
-- greatest number of StdAir's unsigned type `NbOfSegments_T`
pub record SnapshotTable {ℓ} (D : Type ℓ) : Type ℓ where
  pub boardings : List ℤ
  pub greatest_nb : ℕ
  pub nb_of_classes : ℕ
  pub class_index : ℕ → Option ℕ
  pub cabin_index : Option ℕ
  pub price_bookings : View D
  pub product_bookings : View D
  pub availability : View D

-- what a forecast reads of a segment-cabin, with the DCP list of StdAir
pub record CabinInput {ℓ} (D : Type ℓ) : Type ℓ where
  pub table : SnapshotTable D
  pub dcp_list : List ℤ
  pub boarding : ℤ
  pub has_fare_families : Bool
  pub booking_classes : List (BookingClass D)
  -- the FRAT5 curve and the booking classes of each fare family
  pub fare_families : List (Curve D × List (BookingClass D))
  pub disutility_of : ℕ → Curve D

-- what a forecast writes: the demand of the families and of the policies, which are StdAir's
pub record CabinDemand {ℓ} (D P : Type ℓ) : Type ℓ where
  pub families : List (FamilyDemand D)
  pub policies : List P

-- `stdair::Policy`, by its accessors: `held` is `none` without a list of booking classes.
pub record PolicyOps {ℓ} (D P : Type ℓ) : Type ℓ where
  pub held : P → Option (List ℕ)
  pub demand_of : P → D
  pub std_dev_of : P → D
  pub total_revenue_of : P → D
  pub set_demand : D → P → P
  pub set_std_dev : D → P → P
  pub reset_demand_forecast : P → P
  pub add_yield_demand : (yield demand : D) → P → P

-- The segments used: from the last 52 that have departed on, or from the first if fewer have, up to
-- the last one that has passed the day. With none its index wraps around to the greatest number.
unfoldable pub segment_range : (greatest departed usable : ℕ) → ℕ × ℕ
segment_range greatest departed usable =
    ((if ltb 52 departed then departed - 52 else 0), (if usable == 0 then greatest else usable - 1))

-- One interval, from `current` to `next`, at the segments used.
abbrev pub Body {ℓ} : Type ℓ → Type ℓ
Body S = (current next : ℤ) (segment_begin segment_end : ℕ) → S → Option S

module _ {ℓ} {S : Type ℓ} (body : Body S) (boardings : List ℤ) (greatest : ℕ) (date dtd : ℤ)
    (departed : ℕ) where
  unfoldable pub forecast_interval : (current next : ℤ) → S → Option S
  unfolding segment_range
  forecast_interval current next s =
      let usable = get_nb_of_segment_already_passed_this_dtd boardings (next +ℤ pos 1) date in
      let (segment_begin, segment_end) = segment_range greatest departed usable in
      body current next segment_begin segment_end s

  -- the loop over pairs of neighbours; an interval is used if its end is after the current day
  unfoldable pub forecast_intervals : (current : ℤ) → List ℤ → S → Option S
  unfolding forecast_interval
  forecast_intervals current [] s = some s
  forecast_intervals current (next ∷ rest) s = do
    let used = forecast_interval current next s
    s' ← if ltb_ℤ next dtd then used else some s
    forecast_intervals next rest s'

  -- The loop starts with the second point, so that the list must not be empty.
  unfoldable pub forecast_dcps : List ℤ → S → Option S
  unfolding forecast_intervals
  forecast_dcps [] s = none
  forecast_dcps (first ∷ rest) s = forecast_intervals first rest s

-- `const short lNbOfDTDs = iDCPBegin - iDCPEnd + 1`, as the number of rounds of the loops
unfoldable pub nb_of_dtds : (dcp_begin dcp_end : ℤ) → ℕ
unfolding to_short ◌+ℤ◌ ◌-ℤ◌
nb_of_dtds dcp_begin dcp_end = pos_part (to_short (pos_part (dcp_begin -ℤ dcp_end +ℤ pos 1)))

-- a `for` loop over days from `j` on
unfoldable pub for_days {ℓ} : {A : Type ℓ} → (ℕ → A → Option A) → (days j : ℕ) → A → Option A
for_days f zero j a = some a
for_days f (suc days) j a = f j a >>= for_days f days (suc j)

-- the loop that looks for a censored day from `j` on
unfoldable pub find_day : (ℕ → Option Bool) → (days j : ℕ) → Option Bool
find_day test zero j = some false
find_day test (suc days) j = do
  let rest = find_day test days (suc j)
  censored ← test j
  if censored then some true else rest

-- The number of `i` from 0 on that are not above `iSegmentEnd - iSegmentBegin`. Numbers of a type
-- whose values all are values of `int`, of 32 bits, are subtracted as integers; those of a wider
-- type wrap around.
unfoldable pub nb_of_rounds : (greatest segment_begin segment_end : ℕ) → ℕ
nb_of_rounds greatest segment_begin segment_end =
    if leb segment_begin segment_end
    then suc (segment_end - segment_begin)
    else (if ltb greatest (2 ^ 31) then 0 else greatest + 2 - (segment_begin - segment_end))

module _ {ℓ} {D : Type ℓ} ⦃d : Double D⦄ where
  -- whether the availability at a row is below 1 on some day
  unfoldable pub is_censored : (ℕ → ℕ → Option D) → (row days : ℕ) → Option Bool
  unfolding find_day
  is_censored availability row days =
      find_day (λ j. availability row j >>= λ a. some (d.lt a (of_ℕ 1))) days 0

  -- the bookings at a row, from one view and from two
  unfoldable pub sum_days : (ℕ → ℕ → Option D) → (row days : ℕ) → Option D
  unfolding for_days
  sum_days view row days = for_days (λ j sum. view row j >>= λ n. some (sum ⊕ n)) days 0 nought

  unfoldable pub sum_days_of_both : (price product : ℕ → ℕ → Option D) → (row days : ℕ) → Option D
  unfolding for_days
  sum_days_of_both price product row days =
      for_days (λ j sum. price row j >>= λ n. product row j >>= λ m. some (sum ⊕ (n ⊕ m))) days 0
        nought

  -- The loop over the segments: `entry` gives the bookings and the flag of one.
  unfoldable pub build_history :
      (entry : ℕ → Option (D × Bool)) (rounds i : ℕ)
      → List (HistoricalBooking D)
      → Option (List (HistoricalBooking D))
  unfolding historical_booking add_historical_booking
  build_history entry zero i holder = some holder
  build_history entry (suc rounds) i holder = do
    (bookings, flag) ← entry i
    build_history entry rounds (suc i)
        (add_historical_booking holder (historical_booking bookings flag))

  -- `for (short i = 0; i <= iSegmentEnd - iSegmentBegin; ++i)`: a `short` counts that far only.
  unfoldable pub prepare_bookings :
      (greatest : ℕ) (entry : ℕ → Option (D × Bool)) (segment_begin segment_end : ℕ)
      → Option (List (HistoricalBooking D))
  unfolding nb_of_rounds build_history
  prepare_bookings greatest entry segment_begin segment_end = do
    let rounds = nb_of_rounds greatest segment_begin segment_end
    assert (ltb rounds (2 ^ 15))
    build_history entry rounds 0 []

  -- The unconstraining, within a number of rounds, and the parameters of the demand.
  unfoldable pub unconstrained_parameters :
      UnconstrainingMethod → ℕ → List (HistoricalBooking D) → Option (D × D)
  unfolding detruncate compute_distribution_parameters
  unconstrained_parameters method rounds holder = do
    (holder', has_stopped) ← detruncate method rounds holder
    assert has_stopped
    compute_distribution_parameters
        (map (λ (h : HistoricalBooking D). h.unconstrained_demand) (visited holder'))

  -- a mean and a deviation with those of an independent demand
  unfoldable pub add_deviation : D → D → D
  add_deviation old new = d.sqrt (old ⊗ old ⊕ new ⊗ new)

  unfoldable pub add_product_demand : (mean std_dev : D) → ClassDemand D → ClassDemand D
  unfolding add_deviation
  add_product_demand mean std_dev c = record c {
    product_mean = c.product_mean ⊕ mean;
    product_std_dev = add_deviation c.product_std_dev std_dev;
  }

  unfoldable pub add_family_demand : (mean std_dev : D) → FamilyDemand D → FamilyDemand D
  unfolding add_deviation
  add_family_demand mean std_dev f = record f {
    family_mean = f.family_mean ⊕ mean;
    family_std_dev = add_deviation f.family_std_dev std_dev;
  }

  -- a change of the class that a pointer leads to, in whichever family it is
  unfoldable pub update_in_families :
      ℕ → (ClassDemand D → ClassDemand D) → List (FamilyDemand D) → List (FamilyDemand D)
  unfolding update_class
  update_in_families code f families =
      map (λ (g : FamilyDemand D). record g { classes = update_class code f g.classes }) families

  -- the loop over the map of a dispatching method, at the classes of the families
  unfoldable pub dispatch_in_families :
      (add : D → ClassDemand D → ClassDemand D) (dcp : ℤ)
      → ClassCurves D
      → List (FamilyDemand D)
      → Option (List (FamilyDemand D))
  unfolding update_in_families find_factor
  dispatch_in_families add dcp [] families = some families
  dispatch_in_families add dcp ((code, curve) ∷ rest) families = do
    factor ← find_factor dcp curve
    dispatch_in_families add dcp rest (update_in_families code (add factor) families)

  -- a change of the last family
  unfoldable pub update_last :
      (FamilyDemand D → FamilyDemand D) → List (FamilyDemand D) → List (FamilyDemand D)
  update_last f [] = []
  update_last f (g ∷ []) = f g ∷ []
  update_last f (g ∷ h ∷ rest) = g ∷ update_last f (h ∷ rest)
