-- ===== src/Optimiser.antt =====
-- rmol/command/Optimiser.cpp: the virtual classes of a leg-cabin, and the optimisation of cabins,
-- leg-dates and flight-dates. The samples that StdAir generates for the booking classes of a
-- virtual class are a parameter.
pub mod Levels
pub mod Falling
pub mod Flight
mod Tests
use mathlib.Core.List.{reverse}
use rmol.Base.{
  ℕ, zero, suc, Bool, true, false, ◌||◌, List, [], ◌∷◌, ◌++◌, map, Option, none, some, ltb, ◌==◌,
  if◌then◌else◌, ◌>>=◌, ◌>>◌, assert,
}
use rmol.Base.Int.{ℤ, pos, negsuc, pos_part}
use rmol.Base.Double.{Double, ◌⊕◌, ◌⊗◌, of_ℕ, nought}
use rmol.Cabin.{BookingClass, VirtualClass, LegCabin}
use rmol.MonteCarlo.{optimal_optimisation_by_mc_integration}
use rmol.Emsr.{Normal, heuristic_optimisation_by_emsr_b}

-- `stdair::OptimisationMethod`: the two methods that the code handles, and the others
pub data OptimisationMethod : Type 0 where
  leg_based_mc leg_based_emsr_b other_method : OptimisationMethod

-- `stdair::VirtualClassMap_T`, in the order of its keys
abbrev pub VirtualClassMap {ℓ} : Type ℓ → Type ℓ
VirtualClassMap D = List (ℕ × VirtualClass D)

module _ {ℓ} {D : Type ℓ} ⦃d : Double D⦄ where
  -- `static_cast<YieldLevel_T> (floor (yield + 0.5))`; what is not positive makes no class
  unfoldable pub yield_level : BookingClass D → ℕ
  yield_level c = pos_part (d.to_int (d.floor (c.adjusted_yield ⊕ d.literal 5 1)))

  -- a new virtual class for one booking class
  unfoldable pub new_class : ℕ → BookingClass D → VirtualClass D
  new_class level c = record {
    booking_classes = c.code ∷ [];
    yield = of_ℕ level;
    mean = c.mean;
    std_dev = c.std_dev;
    protection = nought;
    booking_limit = nought;
    demand = [];
  }

  -- a virtual class with one more booking class
  unfoldable pub extend_class : VirtualClass D → BookingClass D → VirtualClass D
  extend_class v c = record v {
    booking_classes = v.booking_classes ++ c.code ∷ [];
    mean = v.mean ⊕ c.mean;
    std_dev = d.sqrt (v.std_dev ⊗ v.std_dev ⊕ c.std_dev ⊗ c.std_dev);
  }

  -- `find` of the level in the map, and the update or the insertion
  unfoldable pub add_to_map : ℕ → BookingClass D → VirtualClassMap D → VirtualClassMap D
  add_to_map level c [] = (level, new_class level c) ∷ []
  add_to_map level c ((k, v) ∷ rest) =
      if level == k
      then (k, extend_class v c) ∷ rest
      else if ltb level k
      then (level, new_class level c) ∷ (k, v) ∷ rest
      else (k, v) ∷ add_to_map level c rest

  -- the body of the loop over the booking classes
  unfoldable pub add_booking_class : BookingClass D → VirtualClassMap D → Option (VirtualClassMap D)
  unfolding yield_level add_to_map
  add_booking_class c m =
      let level = yield_level c in
      let added = if ltb 0 level then add_to_map level c m else m in
      let checked = assert (d.le nought c.adjusted_yield) >> some added in
      if d.lt nought c.mean then checked else some m

  unfoldable pub build_map : List (BookingClass D) → VirtualClassMap D → Option (VirtualClassMap D)
  unfolding add_booking_class
  build_map [] m = some m
  build_map (c ∷ cs) m = add_booking_class c m >>= build_map cs

  -- the classes of the map, from the highest level down
  unfoldable pub from_high_to_low : VirtualClassMap D → List (VirtualClass D)
  from_high_to_low m = reverse (map (λ e. e.1) m)

  unfoldable pub is_not_empty : List (VirtualClass D) → Bool
  is_not_empty [] = false
  is_not_empty (c ∷ cs) = true

  unfoldable pub build_for_segments :
      LegCabin D → List (List (BookingClass D)) → Option (LegCabin D × Bool)
  unfolding build_map from_high_to_low is_not_empty
  build_for_segments cabin [] = none
  build_for_segments cabin (booking_classes ∷ others) = do
    m ← build_map booking_classes []
    let classes = from_high_to_low m
    some (record cabin { virtual_classes = classes }, is_not_empty classes)

  unfoldable pub build_virtual_class_list : LegCabin D → Option (LegCabin D × Bool)
  unfolding build_for_segments
  build_virtual_class_list cabin = build_for_segments cabin cabin.segment_cabins

  module _ (normal : Normal D) (generated : List ℕ → List D) where
    -- The samples are drawn for the booking classes; a virtual class reads those of its own.
    unfoldable pub with_samples : LegCabin D → LegCabin D
    with_samples cabin = record cabin {
      virtual_classes =
          map (λ (v : VirtualClass D). record v { demand = generated v.booking_classes })
            cabin.virtual_classes;
    }

    unfoldable pub optimise_by : OptimisationMethod → LegCabin D → Option (LegCabin D)
    unfolding with_samples
    optimise_by leg_based_mc cabin = optimal_optimisation_by_mc_integration (with_samples cabin)
    optimise_by leg_based_emsr_b cabin = heuristic_optimisation_by_emsr_b normal cabin
    optimise_by other_method cabin = none

    -- a leg-cabin
    unfoldable pub optimise_leg_cabin : OptimisationMethod → LegCabin D → Option (LegCabin D × Bool)
    unfolding build_virtual_class_list optimise_by
    optimise_leg_cabin method cabin = do
      (cabin', has_virtual_class) ← build_virtual_class_list cabin
      let run = do optimised ← optimise_by method cabin'; some (optimised, true)
      if has_virtual_class then run else some (cabin', false)

    -- the leg-cabins of a leg-date
    unfoldable pub optimise_leg_date :
        OptimisationMethod → List (LegCabin D) → Option (List (LegCabin D) × Bool)
    unfolding optimise_leg_cabin
    optimise_leg_date method [] = some ([], false)
    optimise_leg_date method (cabin ∷ cabins) = do
      (cabin', one) ← optimise_leg_cabin method cabin
      (cabins', more) ← optimise_leg_date method cabins
      some (cabin' ∷ cabins', one || more)

    -- the leg-dates of a flight-date
    unfoldable pub optimise_flight_date :
        OptimisationMethod → List (List (LegCabin D)) → Option (List (List (LegCabin D)) × Bool)
    unfolding optimise_leg_date
    optimise_flight_date method [] = some ([], false)
    optimise_flight_date method (leg ∷ legs) = do
      (leg', one) ← optimise_leg_date method leg
      (legs', more) ← optimise_flight_date method legs
      some (leg' ∷ legs', one || more)
