-- ===== src/Service.antt =====
-- rmol/service/RMOL_Service.cpp: the flows over the inventories of the BOM root. Objects that the
-- code reaches through pointers from several places are in stores: a leg-cabin is its index, and an
-- inventory is found by its airline code. What a method of StdAir does is a parameter (`LegOps`).
pub mod OndForecast
pub mod Projection
pub mod Cooperation
pub mod Flow
pub mod Targets
pub mod Shared
pub mod Ways
pub mod Kept
pub mod Operated
pub mod Stopped
pub mod Outcome
pub mod Additions
pub mod Added
pub mod Projected
mod Samples
mod Tests
use rmol.Base.{
  ℕ, zero, suc, ◌-◌, ◌^◌, ◌%◌, Bool, true, false, not, List, [], ◌∷◌, Option, none, some,
  if◌then◌else◌, get_elem?, set, ◌>>=◌, ◌>>◌, assert,
}
use rmol.Base.Int.{ℤ, pos, negsuc, ◌-ℤ◌, eqb_ℤ}
use rmol.Cabin.{LegCabin}
use rmol.Detruncation.{to_short}

-- a segment-cabin of an O&D date: the yields of its classes and its leg-cabins
pub record OndCabin {ℓ} (D : Type ℓ) : Type ℓ where
  pub yield_of_class : ℕ → Option D
  pub leg_cabins : List ℕ

-- a segment-date, with the airline and the cabins of its operating segment-date if there is another
pub record OndSegment {ℓ} (D : Type ℓ) : Type ℓ where
  pub cabins : ℕ → Option (OndCabin D)
  pub operating : Option (ℕ × (ℕ → Option (OndCabin D)))

-- an entry of the demand info map: the cabin and the class at each segment, and the demand
pub record OndDemand {ℓ} (D : Type ℓ) : Type ℓ where
  pub cabin_classes : List (ℕ × ℕ)
  pub yield : D
  pub mean : D
  pub std_dev : D

-- `total_forecasts` maps cabins to the least willingness to pay, the mean and the deviation.
pub record OndDate {ℓ} (D : Type ℓ) : Type ℓ where
  pub airline : ℕ
  pub origin : ℕ
  pub destination : ℕ
  pub date : ℤ
  pub nb_of_segments : ℕ
  pub segments : List (OndSegment D)
  pub demands : List (OndDemand D)
  pub total_forecasts : List (ℕ × D × D × D)

-- `images` has, for each marketing partner, the leg-cabins with their images at the partner.
pub record Flight : Type 0 where
  pub departure : ℤ
  pub leg_dates : List (List ℕ)
  pub images : List (List (ℕ × ℕ))

pub record Inventory {ℓ} (D : Type ℓ) : Type ℓ where
  pub code : ℕ
  pub flights : List Flight
  pub onds : List (OndDate D)

-- `addDemandInformation` and `updateCurrentBidPrice` of StdAir's leg-cabins
pub record LegOps {ℓ} (D : Type ℓ) : Type ℓ where
  pub add_demand_information : (yield mean std_dev : D) → LegCabin D → LegCabin D
  pub update_current_bid_price : LegCabin D → LegCabin D

-- a loop whose body may fail
unfoldable pub for_each {ℓ κ} :
    {A : Type ℓ} {S : Type κ} → (A → S → Option S) → List A → S → Option S
for_each step [] s = some s
for_each step (x ∷ xs) s = step x s >>= for_each step xs

unfoldable pub is_empty {ℓ} : {A : Type ℓ} → List A → Bool
is_empty [] = true
is_empty (x ∷ xs) = false

-- `short (lDateOffset.days())`
unfoldable pub short_of : ℤ → ℤ
unfolding to_short
short_of (pos n) = to_short n
short_of (negsuc n) = to_short (2 ^ 16 - 1 - n % 2 ^ 16)

-- whether the day is a data collection point of the departure
unfoldable pub find_dcp : ℤ → List ℤ → Bool
find_dcp dtd [] = false
find_dcp dtd (dcp ∷ rest) = if eqb_ℤ dcp dtd then true else find_dcp dtd rest

unfoldable pub is_dcp : (whole : List ℤ) (departure today : ℤ) → Bool
unfolding short_of find_dcp
is_dcp whole departure today = find_dcp (short_of (departure -ℤ today)) whole

module _ {ℓ} {D : Type ℓ} where
  -- a change of the leg-cabin that a pointer leads to
  unfoldable pub update_leg :
      (LegCabin D → LegCabin D) → ℕ → List (LegCabin D) → Option (List (LegCabin D))
  update_leg f i legs = do cabin ← get_elem? legs i; some (set legs i (f cabin))

  -- `emptyYieldLevelDemandMap`
  unfoldable pub clear_demands : LegCabin D → LegCabin D
  clear_demands cabin = record cabin { yield_demands = [] }

  unfoldable pub reset_leg_date : List ℕ → List (LegCabin D) → Option (List (LegCabin D))
  unfolding for_each is_empty update_leg clear_demands
  reset_leg_date leg_cabins legs = do
    assert (not (is_empty leg_cabins))
    for_each (update_leg clear_demands) leg_cabins legs

  module _ (whole : List ℤ) (today : ℤ) where
    unfoldable pub reset_flight : Flight → List (LegCabin D) → Option (List (LegCabin D))
    unfolding is_dcp for_each reset_leg_date
    reset_flight flight legs =
        if is_dcp whole flight.departure today
        then for_each reset_leg_date flight.leg_dates legs
        else some legs

    -- `resetDemandInformation` of an inventory, and of all
    unfoldable pub reset_inventory : Inventory D → List (LegCabin D) → Option (List (LegCabin D))
    unfolding is_empty for_each reset_flight
    reset_inventory inventory legs = do
      assert (not (is_empty inventory.flights))
      for_each reset_flight inventory.flights legs

    unfoldable pub reset_demand_information :
        List (Inventory D) → List (LegCabin D) → Option (List (LegCabin D))
    unfolding is_empty for_each reset_inventory
    reset_demand_information inventories legs = do
      assert (not (is_empty inventories))
      for_each reset_inventory inventories legs
