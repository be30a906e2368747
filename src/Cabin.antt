-- ===== src/Cabin.antt =====
-- The objects of StdAir that the code works on, with the fields that it reads and writes.
-- StdAir is another library: its objects are taken as data, with what its accessors return.
pub mod Chain
pub mod Samples
use rmol.Base.{ℕ, List}

-- A booking class is known by its code, which its `describeKey()` and its pointer stand for too.
pub record BookingClass {ℓ} (D : Type ℓ) : Type ℓ where
  pub code : ℕ
  pub yield : D
  pub adjusted_yield : D
  pub mean : D
  pub std_dev : D

-- `booking_classes` holds the codes, and `demand` is what `getGeneratedDemandVector()` returns.
pub record VirtualClass {ℓ} (D : Type ℓ) : Type ℓ where
  pub booking_classes : List ℕ
  pub yield : D
  pub mean : D
  pub std_dev : D
  pub protection : D
  pub booking_limit : D
  pub demand : List D

-- `segment_cabins` holds the booking classes of each segment-cabin.
pub record LegCabin {ℓ} (D : Type ℓ) : Type ℓ where
  pub offered_capacity : D
  pub availability_pool : D
  pub segment_cabins : List (List (BookingClass D))
  pub virtual_classes : List (VirtualClass D)
  pub bid_prices : List D
  pub yield_demands : List (D × D × D)
  pub current_bid_price : D
  pub previous_bid_price : D
