-- ===== src/Flight.antt =====
-- A flight-date of StdAir with its segment-cabins and leg-cabins, and the loops over the
-- segment-cabins in rmol/command/Forecaster.cpp and rmol/command/PreOptimiser.cpp.
pub mod Loop
use rmol.Base.{
  ℕ, Bool, true, ◌&&◌, List, [], ◌∷◌, ◌++◌, map, Option, none, some, ◌==◌, if◌then◌else◌, get_elem?,
  ◌>>=◌,
}
use rmol.Cabin.{BookingClass, LegCabin}
use rmol.Demand.{ClassDemand, FamilyDemand}
use rmol.Policy.{NestingNode}
use rmol.Forecasting.{CabinInput, CabinDemand}
use rmol.Forecasting.ByFamily.{find_in_classes, all_classes}

-- `input.booking_classes` and `demand.families` are two views on the same booking classes, which
-- agree in the mean and the deviation.
pub record SegmentCabin {ℓ} (D P : Type ℓ) : Type ℓ where
  pub input : CabinInput D
  pub demand : CabinDemand D P
  pub nodes : List (NestingNode D)

-- `segments_of` has, for each leg-cabin, its segment-cabins by segment and cabin.
pub record FlightDate {ℓ} (D P : Type ℓ) : Type ℓ where
  pub segments : List (List (SegmentCabin D P))
  pub legs : List (List (LegCabin D))
  pub segments_of : List (List (List (ℕ × ℕ)))

module _ {ℓ} {C : Type ℓ} (step : C → Option (C × Bool)) where
  -- the segment-cabins of a segment-date, and the segment-dates: no failure ends the loop
  unfoldable pub each_cabin : List C → Option (List C × Bool)
  each_cabin [] = some ([], true)
  each_cabin (cabin ∷ cabins) = do
    (cabin', one) ← step cabin
    (cabins', more) ← each_cabin cabins
    some (cabin' ∷ cabins', one && more)

  unfoldable pub each_segment : List (List C) → Option (List (List C) × Bool)
  unfolding each_cabin
  each_segment [] = some ([], true)
  each_segment (cabins ∷ segments) = do
    (cabins', one) ← each_cabin cabins
    (segments', more) ← each_segment segments
    some (cabins' ∷ segments', one && more)

module _ {ℓ} {D : Type ℓ} where
  -- the booking classes with what the demand says of them, and the other way round
  unfoldable pub show_demand : List (FamilyDemand D) → BookingClass D → BookingClass D
  unfolding find_in_classes all_classes
  show_demand families c = elim (find_in_classes c.code (all_classes families)) [
    | none ↦ c
    | some e ↦ record c { mean = e.mean; std_dev = e.std_dev }
  ]

  unfoldable pub find_booking_class : ℕ → List (BookingClass D) → Option (BookingClass D)
  find_booking_class code [] = none
  find_booking_class code (c ∷ cs) = if code == c.code then some c else find_booking_class code cs

  unfoldable pub show_class : List (BookingClass D) → ClassDemand D → ClassDemand D
  unfolding find_booking_class
  show_class classes c = elim (find_booking_class c.code classes) [
    | none ↦ c
    | some e ↦ record c { mean = e.mean; std_dev = e.std_dev }
  ]

module _ {ℓ} {D P : Type ℓ} where
  -- a segment-cabin with another demand, and one with other booking classes
  unfoldable pub with_demand : CabinDemand D P → SegmentCabin D P → SegmentCabin D P
  unfolding show_demand
  with_demand demand cabin = record cabin {
    input = record (cabin.input) {
      booking_classes = map (show_demand demand.families) cabin.input.booking_classes;
    };
    demand = demand;
  }

  unfoldable pub with_classes :
      List (NestingNode D) → List (BookingClass D) → SegmentCabin D P → SegmentCabin D P
  unfolding show_class
  with_classes nodes classes cabin = record cabin {
    input = record (cabin.input) { booking_classes = classes };
    demand = record (cabin.demand) {
      families =
          map (λ (g : FamilyDemand D). record g { classes = map (show_class classes) g.classes })
            cabin.demand.families;
    };
    nodes = nodes;
  }

  -- A leg-cabin of StdAir has pointers to its segment-cabins. Here it holds their booking classes,
  -- which these functions put in place as they are by then.
  unfoldable pub classes_at :
      List (List (SegmentCabin D P)) → ℕ × ℕ → Option (List (BookingClass D))
  classes_at segments (i, j) = do
    cabins ← get_elem? segments i
    cabin ← get_elem? cabins j
    some cabin.input.booking_classes

  unfoldable pub all_classes_at :
      List (List (SegmentCabin D P)) → List (ℕ × ℕ) → Option (List (List (BookingClass D)))
  unfolding classes_at
  all_classes_at segments [] = some []
  all_classes_at segments (at ∷ rest) = do
    classes ← classes_at segments at
    others ← all_classes_at segments rest
    some (classes ∷ others)

  unfoldable pub attach_leg_date :
      List (List (SegmentCabin D P))
      → List (List (ℕ × ℕ))
      → List (LegCabin D)
      → Option (List (LegCabin D))
  unfolding all_classes_at
  attach_leg_date segments (at ∷ rest) (cabin ∷ cabins) = do
    classes ← all_classes_at segments at
    others ← attach_leg_date segments rest cabins
    some (record cabin { segment_cabins = classes } ∷ others)
  attach_leg_date segments [] [] = some []
  attach_leg_date segments _ _ = none

  unfoldable pub attach :
      List (List (SegmentCabin D P))
      → List (List (List (ℕ × ℕ)))
      → List (List (LegCabin D))
      → Option (List (List (LegCabin D)))
  unfolding attach_leg_date
  attach segments (at ∷ rest) (leg ∷ legs) = do
    leg' ← attach_leg_date segments at leg
    legs' ← attach segments rest legs
    some (leg' ∷ legs')
  attach segments [] [] = some []
  attach segments _ _ = none
