-- ===== src/Detruncation.antt =====
-- rmol/bom/HistoricalBooking.cpp, rmol/bom/HistoricalBookingHolder.cpp and
-- rmol/bom/EMDetruncator.cpp, called from rmol/command/Detruncator.cpp: the history of a class's bookings, and the estimation of the demand
-- behind the censored ones by expectation maximisation.
pub mod Keep
pub mod Idle
mod Tests
use rmol.Base.{
  ℕ, zero, suc, ◌-◌, ◌%◌, ◌^◌, Bool, true, false, not, ◌&&◌, List, [], ◌∷◌, ◌++◌, map, foldl,
  Option, none, some, ltb, if◌then◌else◌, length, get_elem?, take, ◌>>=◌,
}
use rmol.Base.Int.{ℤ, pos, negsuc, pos_part, ◌-ℤ◌, ltb_ℤ}
use rmol.Base.Double.{Double, ◌⊕◌, ◌⊖◌, ◌⊗◌, ◌⊘◌, of_ℕ, nought}

pub record HistoricalBooking {ℓ} (D : Type ℓ) : Type ℓ where
  pub number_of_bookings : D
  pub unconstrained_demand : D
  pub flag : Bool

-- a vector's size as a `short`, of 16 bits
unfoldable pub to_short : ℕ → ℤ
to_short n = let low = n % 2 ^ 16 in if ltb low (2 ^ 15) then pos low else negsuc (2 ^ 16 - suc low)

-- The entries that `for (short ite = 0; ite < lSize; ++ite)` visits: none if the size is negative
-- as a `short`.
abbrev pub visited {ℓ} : {A : Type ℓ} → List A → List A
visited xs = take (pos_part (to_short (length xs))) xs

-- `stdair::UnconstrainingMethod`: the method that the code handles, and the others
pub data UnconstrainingMethod : Type 0 where
  em other_method : UnconstrainingMethod

module _ {ℓ} {D : Type ℓ} ⦃d : Double D⦄ where
  -- an `int` as a `double`
  of_int : ℤ → D
  of_int (pos n) = of_ℕ n
  of_int (negsuc n) = d.neg (of_ℕ (suc n))

  -- the constructor
  unfoldable pub historical_booking : D → Bool → HistoricalBooking D
  historical_booking bookings flag = record {
    number_of_bookings = bookings;
    unconstrained_demand = bookings;
    flag = flag;
  }

  unfoldable pub set_parameters : HistoricalBooking D → D → Bool → HistoricalBooking D
  set_parameters h bookings flag = record h {
    number_of_bookings = bookings;
    unconstrained_demand = bookings;
    flag = flag;
  }

  unfoldable pub count_uncensored : List (HistoricalBooking D) → ℕ
  count_uncensored [] = 0
  count_uncensored (h ∷ hs) =
      let others = count_uncensored hs in if h.flag then others else suc others

  unfoldable pub get_nb_of_uncensored_data : List (HistoricalBooking D) → ℕ
  unfolding count_uncensored
  get_nb_of_uncensored_data holder = count_uncensored (visited holder)

  unfoldable pub get_nb_of_uncensored_bookings : List (HistoricalBooking D) → D
  get_nb_of_uncensored_bookings holder =
      foldl (λ sum (h : HistoricalBooking D). if h.flag then sum else sum ⊕ h.number_of_bookings)
        nought (visited holder)

  unfoldable pub get_uncensored_standard_deviation : List (HistoricalBooking D) → D → ℕ → D
  unfolding of_int
  get_uncensored_standard_deviation holder mean count =
      let sum =
        foldl
          (λ acc (h : HistoricalBooking D).
            if h.flag
            then acc
            else acc ⊕ (h.number_of_bookings ⊖ mean) ⊗ (h.number_of_bookings ⊖ mean))
          nought (visited holder) in
      d.sqrt (sum ⊘ of_int (pos count -ℤ pos 1))

  unfoldable pub get_demand_mean : List (HistoricalBooking D) → D
  unfolding of_int
  get_demand_mean holder =
      foldl (λ sum (h : HistoricalBooking D). sum ⊕ h.unconstrained_demand) nought (visited holder)
      ⊘ of_int (to_short (length holder))

  unfoldable pub get_standard_deviation : List (HistoricalBooking D) → D → D
  unfolding of_int
  get_standard_deviation holder mean =
      let sum =
        foldl
          (λ acc (h : HistoricalBooking D).
            acc ⊕ (h.unconstrained_demand ⊖ mean) ⊗ (h.unconstrained_demand ⊖ mean))
          nought (visited holder) in
      d.sqrt (sum ⊘ of_int (to_short (length holder) -ℤ pos 1))

  unfoldable pub get_list_of_to_be_unconstrained_flags : List (HistoricalBooking D) → List Bool
  get_list_of_to_be_unconstrained_flags holder =
      map (λ (h : HistoricalBooking D). if h.flag then true else false) (visited holder)

  -- `at` throws outside the vector.
  unfoldable pub get_historical_booking : List (HistoricalBooking D) → ℕ → Option D
  get_historical_booking holder i = do h ← get_elem? holder i; some h.number_of_bookings

  unfoldable pub add_historical_booking :
      List (HistoricalBooking D) → HistoricalBooking D → List (HistoricalBooking D)
  add_historical_booking holder h = holder ++ h ∷ []

  -- The expectation, for the entry itself in place of its index.
  unfoldable pub calculate_expected_demand : (mean sd : D) → HistoricalBooking D → (demand : D) → D
  calculate_expected_demand mean sd h demand =
      let gap = h.number_of_bookings ⊖ mean in
      let e = d.exp (d.neg gap ⊗ gap ⊗ d.literal 625 3 ⊘ (sd ⊗ sd)) in
      let s = d.sqrt (of_ℕ 1 ⊖ e) in
      let above = d.le mean h.number_of_bookings in
      let half = d.literal 5 1 in
      let d1 = if above then half ⊗ (of_ℕ 1 ⊖ s) else half ⊗ (of_ℕ 1 ⊕ s) in
      let e' = d.exp (d.neg gap ⊗ gap ⊗ half ⊘ (sd ⊗ sd)) in
      let d2 = e' ⊗ sd ⊘ d.sqrt (of_ℕ 2 ⊗ d.literal 314159265 8) in
      let estimate = if d.eq d1 nought then demand else mean ⊕ d2 ⊘ d1 in
      if above && d.lt e (d.literal 1 2) then demand else estimate

  -- one entry and its flag in one round: whether it has moved, too
  unfoldable pub expectation :
      (mean sd : D) → HistoricalBooking D → HistoricalBooking D × Bool × Bool
  unfolding calculate_expected_demand
  expectation mean sd h =
      let demand = h.unconstrained_demand in
      let expected = calculate_expected_demand mean sd h demand in
      let diff = expected ⊖ demand in
      let size = if d.lt diff nought then d.neg diff else diff in
      let close = d.lt size (d.literal 1 3) in
      (record h { unconstrained_demand = expected }, not close, not close)

  -- One round of the `for` loop, along the entries and their flags: the result also says whether
  -- the variable `stopUnconstraining` is still true.
  unfoldable pub expectation_step :
      (mean sd : D)
      → List (HistoricalBooking D)
      → List Bool
      → List (HistoricalBooking D) × List Bool × Bool
  unfolding expectation
  expectation_step mean sd holder [] = (holder, [], true)
  expectation_step mean sd [] (b ∷ bs) = ([], b ∷ bs, true)
  expectation_step mean sd (h ∷ hs) (b ∷ bs) =
      let (hs', bs', stop) = expectation_step mean sd hs bs in
      let (h', b', moved) = expectation mean sd h in
      if b then (h' ∷ hs', b' ∷ bs', not moved && stop) else (h ∷ hs', false ∷ bs', stop)

  -- The `while` loop, for a number of rounds: whether it has stopped by then, too.
  unfoldable pub unconstrain_loop :
      (rounds : ℕ) (mean sd : D)
      → List (HistoricalBooking D)
      → List Bool
      → List (HistoricalBooking D) × Bool
  unfolding expectation_step get_demand_mean get_standard_deviation
  unconstrain_loop zero mean sd holder flags = (holder, false)
  unconstrain_loop (suc rounds) mean sd holder flags =
      let (holder', flags', stop) = expectation_step mean sd holder flags in
      let mean' = get_demand_mean holder' in
      let more =
        unconstrain_loop rounds mean' (get_standard_deviation holder' mean') holder' flags' in
      if stop then (holder', true) else more

  -- The holder after at most so many rounds, and whether the method has returned by then.
  unfoldable pub unconstrain : ℕ → List (HistoricalBooking D) → List (HistoricalBooking D) × Bool
  unfolding get_nb_of_uncensored_data get_nb_of_uncensored_bookings
      get_uncensored_standard_deviation get_list_of_to_be_unconstrained_flags unconstrain_loop
  unconstrain rounds holder =
      let count = get_nb_of_uncensored_data holder in
      let mean = get_nb_of_uncensored_bookings holder ⊘ of_int (pos count) in
      let sd = get_uncensored_standard_deviation holder mean count in
      let flags = get_list_of_to_be_unconstrained_flags holder in
      let run = unconstrain_loop rounds mean sd holder flags in
      let checked = if d.eq sd nought then (holder, true) else run in
      if ltb 1 count then checked else (holder, true)

  -- `Detruncator`, which asserts that the method is EM
  unfoldable pub detruncate :
      UnconstrainingMethod
      → ℕ
      → List (HistoricalBooking D)
      → Option (List (HistoricalBooking D) × Bool)
  unfolding unconstrain
  detruncate em rounds holder = some (unconstrain rounds holder)
  detruncate other_method rounds holder = none
