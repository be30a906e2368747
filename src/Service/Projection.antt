-- ===== src/Service/Projection.antt =====
-- The projections of the O&D demand on leg-cabins in rmol/service/RMOL_Service.cpp, and
-- `updateBidPrice`.
use rmol.Base.{
  ℕ, ◌*◌, not, List, [], ◌∷◌, Option, none, some, ◌==◌, if◌then◌else◌, length, get_elem?, ◌>>=◌,
  ◌>>◌, assert,
}
use rmol.Base.Int.{ℤ}
use rmol.Base.Double.{Double, ◌⊕◌, ◌⊖◌, ◌⊗◌, ◌⊘◌, of_ℕ, nought}
use rmol.Cabin.{LegCabin}
use rmol.Service.{
  OndCabin, OndSegment, OndDemand, OndDate, Flight, Inventory, LegOps, for_each, is_empty, is_dcp,
  update_leg,
}

-- the legs of all
abbrev pub Legs {ℓ} : Type ℓ → Type ℓ
Legs D = List (LegCabin D)

-- the loop over the segments and the cabins and classes at them
unfoldable pub for_segments {ℓ κ} :
    {D : Type ℓ} {S : Type κ}
    → (ℕ × ℕ → OndSegment D → S → Option S)
    → List (ℕ × ℕ)
    → List (OndSegment D)
    → S
    → Option S
for_segments step (at ∷ ats) (segment ∷ segments) s =
    step at segment s >>= for_segments step ats segments
for_segments step ats [] s = some s
for_segments step [] (segment ∷ segments) s = none

module _ {ℓ} {D : Type ℓ} (whole : List ℤ) (today : ℤ)
    (project_demand : OndDate D → OndDemand D → Legs D → Option (Legs D)) where
  -- the demands of an O&D date, in one of the four ways
  unfoldable pub project_ond : OndDate D → Legs D → Option (Legs D)
  unfolding is_dcp for_each
  project_ond ond legs =
      let run =
        for_each
          (λ (demand : OndDemand D) legs.
            assert (length demand.cabin_classes == ond.nb_of_segments)
            >> (assert (length ond.segments == ond.nb_of_segments)
                >> project_demand ond demand legs))
          ond.demands legs in
      if is_dcp whole ond.date today then run else some legs

  unfoldable pub project_inventory : Inventory D → Legs D → Option (Legs D)
  unfolding is_empty for_each project_ond
  project_inventory inventory legs = do
    assert (not (is_empty inventory.onds))
    for_each project_ond inventory.onds legs

  unfoldable pub project : List (Inventory D) → Legs D → Option (Legs D)
  unfolding is_empty for_each project_inventory
  project inventories legs = do
    assert (not (is_empty inventories))
    for_each project_inventory inventories legs

module _ {ℓ} {D : Type ℓ} where
  -- Only operated legs receive the demand: `step` is for a segment that is not operated elsewhere.
  unfoldable pub if_operated :
      (OndCabin D → Legs D → Option (Legs D)) → ℕ → OndSegment D → Legs D → Option (Legs D)
  if_operated step cabin_code segment legs = elim segment.operating [
    | some operating ↦ some legs
    | none ↦ do cabin ← segment.cabins cabin_code; step cabin legs
  ]

  -- the cabin that holds the bid prices: the operating one's, if there is another
  unfoldable pub pricing_cabin : ℕ → OndSegment D → Option (OndCabin D)
  pricing_cabin cabin_code segment = elim segment.operating [
    | some operating ↦ operating.1 cabin_code
    | none ↦ segment.cabins cabin_code
  ]

module _ {ℓ} {D : Type ℓ} ⦃d : Double D⦄ where
  unfoldable pub add_bid_prices : Legs D → List ℕ → (sum : D) → Option D
  unfolding for_each
  add_bid_prices legs =
      for_each (λ i sum. get_elem? legs i >>= λ (c : LegCabin D). some (sum ⊕ c.current_bid_price))

  -- the bid price of each segment, and the sum of these
  unfoldable pub segment_bid_prices : Legs D → List (ℕ × ℕ) → List (OndSegment D) → Option (List D)
  unfolding pricing_cabin add_bid_prices
  segment_bid_prices legs (at ∷ ats) (segment ∷ segments) = do
    cabin ← pricing_cabin at.0 segment
    price ← add_bid_prices legs cabin.leg_cabins nought
    prices ← segment_bid_prices legs ats segments
    some (price ∷ prices)
  segment_bid_prices legs ats [] = some []
  segment_bid_prices legs [] (segment ∷ segments) = none

  unfoldable pub sum_of : List D → (sum : D) → D
  sum_of [] sum = sum
  sum_of (x ∷ xs) sum = sum_of xs (sum ⊕ x)

  -- `std::max (100., yield - complementary bid price)`
  unfoldable pub displacement_adjusted_yield : (yield complementary : D) → D
  displacement_adjusted_yield yield complementary =
      let adjusted = yield ⊖ complementary in
      if d.lt (of_ℕ 100) adjusted then adjusted else of_ℕ 100

  -- the sum of the bid prices, leg-cabin by leg-cabin
  unfoldable pub total_bid_price :
      Legs D → List (ℕ × ℕ) → List (OndSegment D) → (sum : D) → Option D
  unfolding for_segments pricing_cabin add_bid_prices
  total_bid_price legs = for_segments (λ at segment sum.
      pricing_cabin at.0 segment >>= λ cabin. add_bid_prices legs cabin.leg_cabins sum)

module _ {ℓ} {D : Type ℓ} ⦃d : Double D⦄ (ops : LegOps D) where
  -- the same demand at each of some leg-cabins
  unfoldable pub add_to_legs : (yield mean std_dev : D) → List ℕ → Legs D → Option (Legs D)
  unfolding for_each update_leg
  add_to_legs yield mean std_dev =
      for_each (update_leg (ops.add_demand_information yield mean std_dev))

  -- the class's yield over the legs
  unfoldable pub project_aggregated : OndDate D → OndDemand D → Legs D → Option (Legs D)
  unfolding for_segments if_operated add_to_legs is_empty
  project_aggregated ond demand =
      for_segments
        (λ at.
          if_operated
            (λ cabin legs. cabin.yield_of_class at.1 >>= λ yield.
              (assert (not (is_empty cabin.leg_cabins))
                >> add_to_legs (yield ⊘ of_ℕ (length cabin.leg_cabins)) demand.mean demand.std_dev
                    cabin.leg_cabins legs))
            at.0)
        demand.cabin_classes ond.segments

  -- the demand's yield over the segments and the legs
  unfoldable pub project_yp : OndDate D → OndDemand D → Legs D → Option (Legs D)
  unfolding for_segments if_operated add_to_legs is_empty
  project_yp ond demand =
      for_segments
        (λ at.
          if_operated
            (λ cabin legs.
              assert (not (is_empty cabin.leg_cabins))
              >> add_to_legs (demand.yield ⊘ of_ℕ (length cabin.leg_cabins * ond.nb_of_segments))
                  demand.mean demand.std_dev cabin.leg_cabins legs)
            at.0)
        demand.cabin_classes ond.segments

  -- the leg-cabins of a segment get the adjusted yield
  unfoldable pub add_adjusted :
      OndDemand D → (complementary : D) → OndCabin D → Legs D → Option (Legs D)
  unfolding add_to_legs is_empty displacement_adjusted_yield
  add_adjusted demand complementary cabin legs = do
    assert (not (is_empty cabin.leg_cabins))
    add_to_legs (displacement_adjusted_yield demand.yield complementary) demand.mean demand.std_dev
        cabin.leg_cabins legs

  -- the second loop of the displacement adjustment, along the prices of the segments
  unfoldable pub project_with_prices :
      OndDemand D
      → (total : D) → List D
      → List (ℕ × ℕ)
      → List (OndSegment D)
      → Legs D
      → Option (Legs D)
  unfolding if_operated add_adjusted
  project_with_prices demand total prices ats [] legs = some legs
  project_with_prices demand total (price ∷ prices) (at ∷ ats) (segment ∷ segments) legs = do
    legs' ← if_operated (add_adjusted demand (total ⊖ price)) at.0 segment legs
    project_with_prices demand total prices ats segments legs'
  project_with_prices demand total _ _ (segment ∷ segments) legs = none

  unfoldable pub project_da : OndDate D → OndDemand D → Legs D → Option (Legs D)
  unfolding segment_bid_prices sum_of project_with_prices
  project_da ond demand legs = do
    prices ← segment_bid_prices legs demand.cabin_classes ond.segments
    project_with_prices demand (sum_of prices nought) prices demand.cabin_classes ond.segments legs

  -- one leg-cabin gets the yield in proportion to its bid price
  unfoldable pub add_prorated : OndDemand D → (total : D) → ℕ → Legs D → Option (Legs D)
  unfolding update_leg
  add_prorated demand total i legs = do
    leg ← get_elem? legs i
    update_leg
        (ops.add_demand_information (leg.current_bid_price ⊘ total ⊗ demand.yield) demand.mean
          demand.std_dev)
        i legs

  unfoldable pub project_dyp : OndDate D → OndDemand D → Legs D → Option (Legs D)
  unfolding total_bid_price for_segments if_operated for_each add_prorated is_empty
  project_dyp ond demand legs = do
    total ← total_bid_price legs demand.cabin_classes ond.segments nought
    for_segments
        (λ at.
          if_operated
            (λ cabin legs.
              assert (not (is_empty cabin.leg_cabins))
              >> for_each (add_prorated demand total) cabin.leg_cabins legs)
            at.0)
        demand.cabin_classes ond.segments legs

  -- `updateBidPrice` of a leg-cabin and its image, of a flight-date and of all
  unfoldable pub update_image : ℕ × ℕ → Legs D → Option (Legs D)
  unfolding update_leg
  update_image (i, image) legs = do
    legs' ← update_leg ops.update_current_bid_price i legs
    leg ← get_elem? legs' i
    update_leg
        (λ c. record c {
          previous_bid_price = c.current_bid_price;
          current_bid_price = leg.current_bid_price;
        })
        image legs'

  unfoldable pub update_flight : (whole : List ℤ) (today : ℤ) → Flight → Legs D → Option (Legs D)
  unfolding is_dcp for_each update_image
  update_flight whole today flight legs =
      if is_dcp whole flight.departure today
      then for_each (for_each update_image) flight.images legs
      else some legs

  unfoldable pub update_bid_price :
      (whole : List ℤ) (today : ℤ) → List (Inventory D) → Legs D → Option (Legs D)
  unfolding for_each update_flight
  update_bid_price whole today =
      for_each (λ (inventory : Inventory D). for_each (update_flight whole today) inventory.flights)
