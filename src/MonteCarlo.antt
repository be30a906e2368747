-- ===== src/MonteCarlo.antt =====
-- rmol/bom/MCOptimiser.cpp, `optimalOptimisationByMCIntegration`: protection levels, booking limits
-- and bid prices of a leg-cabin from samples of the demand.
pub mod Holder
pub mod Prices
pub mod Round
pub mod Run
pub mod Unsorted
mod Tests
use rmol.Base.{
  ℕ, zero, suc, ◌+◌, ◌-◌, ◌/◌, ◌%◌, ◌^◌, Bool, true, ◌&&◌, List, [], ◌∷◌, ◌++◌, Option, none, some,
  ltb, leb, if◌then◌else◌, length, get_elem?, set, take, drop, ◌>>=◌, ◌>>◌, assert,
}
use rmol.Base.Int.{ℤ, pos, negsuc, ◌+ℤ◌, pos_part, abs}
use rmol.Base.Double.{Double, ◌⊕◌, ◌⊖◌, ◌⊗◌, ◌⊘◌, of_ℕ}
use rmol.Base.Sorting.{sort, lower_bound}
use rmol.Cabin.{BookingClass, VirtualClass, LegCabin}

-- what the loop over the classes carries along
pub record Progress {ℓ} (D : Type ℓ) : Type ℓ where
  pub holder : List D
  pub idx : ℕ
  pub prices : List D

-- `int` to `UnsignedIndex_T`, an `unsigned int` of 32 bits
unfoldable pub to_unsigned : ℤ → ℕ
to_unsigned (pos n) = n % 2 ^ 32
to_unsigned (negsuc n) = 2 ^ 32 - 1 - n % 2 ^ 32

-- `(lCapacity + abs (lCapacity)) / 2`
unfoldable pub capacity_index : ℤ → ℕ
unfolding ◌+ℤ◌ abs
capacity_index c = pos_part (c +ℤ abs c) / 2

module _ {ℓ} {D : Type ℓ} ⦃d : Double D⦄ where
  -- `for (i = 0; i < K - lj; ++i) holder.at (i) = holder.at (i + lj) + next.at (i);`, with the
  -- rounds left, from index `i` on
  unfoldable pub shift_sums : (rounds i lj : ℕ) (holder next : List D) → Option (List D)
  shift_sums zero i lj holder next = some holder
  shift_sums (suc rounds) i lj holder next = do
    s ← get_elem? holder (i + lj)
    x ← get_elem? next i
    shift_sums rounds (suc i) lj (set holder i (s ⊕ x)) next

  -- The update of the partial sums, with `resize (K - lj)`.
  unfoldable pub advance : (lj : ℕ) (holder next : List D) → Option (List D)
  unfolding shift_sums
  advance lj holder next = do
    let rounds = length holder - lj
    moved ← shift_sums rounds 0 lj holder next
    some (take rounds moved)

  -- `yj * (K - pos) / K`
  unfoldable pub bid_price : D → ℕ → ℕ → D
  bid_price y k at = y ⊗ of_ℕ (k - at) ⊘ of_ℕ k

  -- `for (; idx <= last && idx <= lCapacityIndex; ++idx)`: `left` is the number of indices from
  -- `idx` to the capacity, and `from` the place of the iterator. What is returned is the next index
  -- and the bid price vector.
  unfoldable pub push_prices : (left idx last from : ℕ) → D → List D → List D → Option (ℕ × List D)
  unfolding lower_bound bid_price
  push_prices zero idx last from y holder prices = some (idx, prices)
  push_prices (suc left) idx last from y holder prices =
      let round = do
        at ← lower_bound from holder (of_ℕ idx)
        push_prices left (suc idx) last at y holder (prices ++ bid_price y (length holder) at ∷ [])
      in if leb idx last then round else some (idx, prices)

  -- `floor (K * (yj - yj1) / yj)`
  unfoldable pub optimal_index : ℕ → D → D → ℕ
  unfolding to_unsigned
  optimal_index k yj yj1 = to_unsigned (d.to_int (d.floor (of_ℕ k ⊗ (yj ⊖ yj1) ⊘ yj)))

  -- `(sjl + sjlp1) / 2`, for the samples at `lj - 1` and `lj`
  unfoldable pub protection_level : ℕ → List D → Option D
  protection_level lj holder = do
    sjl ← get_elem? holder (lj - 1)
    sjlp1 ← get_elem? holder (lj + 1 - 1)
    some ((sjl ⊕ sjlp1) ⊘ of_ℕ 2)

  -- One round of the loop, with the prices up to the index `capacity` and the booking limit from
  -- the remaining capacity.
  unfoldable pub optimise_class :
      (remaining : D) (capacity : ℕ) (current next : VirtualClass D)
      → Progress D
      → Option (VirtualClass D × VirtualClass D × Progress D)
  unfolding sort optimal_index protection_level push_prices advance
  optimise_class remaining capacity current next st = do
    let yj = current.yield
    let yj1 = next.yield
    assert (d.lt yj1 yj)
    let sorted = sort st.holder
    let k = length sorted
    let lj = optimal_index k yj yj1
    assert (leb 1 lj && ltb lj k)
    pj ← protection_level lj sorted
    let last = to_unsigned (d.to_int pj)
    (idx, prices) ← push_prices (capacity + 1 - st.idx) st.idx last 0 yj sorted st.prices
    assert (leb k (length next.demand))
    holder ← advance lj sorted next.demand
    some (
      record current { protection = pj },
      record next { booking_limit = remaining ⊖ pj },
      record { holder = holder; idx = idx; prices = prices },
    )

  -- The loop over the classes and, at the last class, the prices up to the capacity.
  unfoldable pub optimise_classes :
      (remaining : D) (capacity : ℕ) (current : VirtualClass D) (rest : List (VirtualClass D))
      → Progress D
      → Option (List (VirtualClass D) × List D)
  unfolding push_prices
  optimise_classes remaining capacity current [] st = do
    (idx, prices) ←
        push_prices (capacity + 1 - st.idx) st.idx capacity 0 current.yield st.holder st.prices
    some (current ∷ [], prices)
  optimise_classes remaining capacity current (next ∷ rest) st = do
    (current', next', st') ← optimise_class remaining capacity current next st
    (classes, prices) ← optimise_classes remaining capacity next' rest st'
    some (current' ∷ classes, prices)

  -- the method, at the lists of segment-cabins and of virtual classes
  unfoldable pub optimise_cabin :
      LegCabin D → List (List (BookingClass D)) → List (VirtualClass D) → Option (LegCabin D)
  unfolding optimise_classes capacity_index
  optimise_cabin cabin (segment ∷ others) (first ∷ rest) = do
    let remaining = cabin.availability_pool
    (classes, prices) ←
        optimise_classes remaining (capacity_index (d.to_int remaining))
          (record first { booking_limit = remaining }) rest
          (record { holder = first.demand; idx = 1; prices = [] })
    some (record cabin { virtual_classes = classes; bid_prices = prices })
  optimise_cabin cabin _ _ = none

  -- The whole method. `none` is an assertion that fails, a container read outside its bounds, or
  -- `std::lower_bound` called on a range that is not partitioned.
  unfoldable pub optimal_optimisation_by_mc_integration : LegCabin D → Option (LegCabin D)
  unfolding optimise_cabin
  optimal_optimisation_by_mc_integration cabin =
      optimise_cabin cabin cabin.segment_cabins cabin.virtual_classes
