-- ===== src/Service/Additions.antt =====
-- The projections of rmol/service/RMOL_Service.cpp without a state: which demands they add to which
-- leg-cabins, computed from the leg-cabins at the start.
use rmol.Base.{
  ℕ, ◌*◌, List, [], ◌∷◌, ◌++◌, foldl, Option, none, some, ◌==◌, if◌then◌else◌, length, get_elem?,
  ◌>>=◌,
}
use rmol.Base.Int.{ℤ}
use rmol.Base.Double.{Double, ◌⊖◌, ◌⊗◌, ◌⊘◌, of_ℕ, nought}
use rmol.Cabin.{LegCabin}
use rmol.Service.{OndCabin, OndSegment, OndDemand, OndDate, Inventory, LegOps, is_dcp}
use rmol.Service.Projection.{
  Legs, segment_bid_prices, sum_of, displacement_adjusted_yield, total_bid_price,
}
use rmol.Service.Ways.{Way, aggregated, yield_proration, displacement, dynamic}

-- a demand that a leg-cabin gets
pub record Addition {ℓ} (D : Type ℓ) : Type ℓ where
  pub leg : ℕ
  pub yield : D
  pub mean : D
  pub std_dev : D

-- what the elements of a list add, one after the other
unfoldable pub collect {ℓ κ} :
    {A : Type ℓ} {B : Type κ} → (A → Option (List B)) → List A → Option (List B)
collect f [] = some []
collect f (x ∷ xs) = do here ← f x; others ← collect f xs; some (here ++ others)

module _ {ℓ} {D : Type ℓ} where
  -- the additions at the segments and the cabins at them; a segment of another airline has none
  unfoldable pub of_segments :
      (ℕ × ℕ → OndSegment D → Option (List (Addition D)))
      → List (ℕ × ℕ)
      → List (OndSegment D)
      → Option (List (Addition D))
  of_segments f (at ∷ ats) (segment ∷ segments) = do
    here ← f at segment
    others ← of_segments f ats segments
    some (here ++ others)
  of_segments f ats [] = some []
  of_segments f [] (segment ∷ segments) = none

  unfoldable pub of_operated :
      (OndCabin D → Option (List (Addition D))) → ℕ → OndSegment D → Option (List (Addition D))
  of_operated f cabin_code segment = elim segment.operating [
    | some operating ↦ some []
    | none ↦ do cabin ← segment.cabins cabin_code; f cabin
  ]

module _ {ℓ} {D : Type ℓ} ⦃d : Double D⦄ (start : Legs D) (demand : OndDemand D) where
  abbrev pub addition : (yield : D) → ℕ → Addition D
  addition yield i = record { leg = i; yield = yield; mean = demand.mean; std_dev = demand.std_dev }

  -- the same yield at each leg-cabin, and the yield in proportion to the bid price at the start
  unfoldable pub equally : (yield : D) → OndCabin D → Option (List (Addition D))
  unfolding collect
  equally yield cabin = collect (λ i. some (addition yield i ∷ [])) cabin.leg_cabins

  unfoldable pub in_proportion : (total : D) → OndCabin D → Option (List (Addition D))
  unfolding collect
  in_proportion total cabin =
      collect
        (λ i. get_elem? start i >>= λ (leg : LegCabin D).
          some (addition (leg.current_bid_price ⊘ total ⊗ demand.yield) i ∷ []))
        cabin.leg_cabins

  -- the yields less the bid prices of the other segments
  unfoldable pub adjusted :
      (total : D) → List D → List (ℕ × ℕ) → List (OndSegment D) → Option (List (Addition D))
  unfolding of_operated equally
  adjusted total prices ats [] = some []
  adjusted total (price ∷ prices) (at ∷ ats) (segment ∷ segments) = do
    here ←
        of_operated (equally (displacement_adjusted_yield demand.yield (total ⊖ price))) at.0
          segment
    others ← adjusted total prices ats segments
    some (here ++ others)
  adjusted total _ _ (segment ∷ segments) = none

  unfoldable pub additions_of_demand : Way → OndDate D → Option (List (Addition D))
  unfolding of_segments of_operated equally in_proportion adjusted
  additions_of_demand aggregated ond =
      of_segments
        (λ at.
          of_operated
            (λ cabin. cabin.yield_of_class at.1 >>= λ yield.
              equally (yield ⊘ of_ℕ (length cabin.leg_cabins)) cabin)
            at.0)
        demand.cabin_classes ond.segments
  additions_of_demand yield_proration ond =
      of_segments
        (λ at.
          of_operated
            (λ cabin.
              equally (demand.yield ⊘ of_ℕ (length cabin.leg_cabins * ond.nb_of_segments)) cabin)
            at.0)
        demand.cabin_classes ond.segments
  additions_of_demand displacement ond = do
    prices ← segment_bid_prices start demand.cabin_classes ond.segments
    adjusted (sum_of prices nought) prices demand.cabin_classes ond.segments
  additions_of_demand dynamic ond = do
    total ← total_bid_price start demand.cabin_classes ond.segments nought
    of_segments (λ at. of_operated (in_proportion total) at.0) demand.cabin_classes ond.segments

module _ {ℓ} {D : Type ℓ} ⦃d : Double D⦄ (way : Way) (whole : List ℤ) (today : ℤ)
    (start : Legs D) where
  unfoldable pub additions_of_ond : OndDate D → Option (List (Addition D))
  unfolding collect additions_of_demand
  additions_of_ond ond =
      let here = collect (λ demand. additions_of_demand start demand way ond) ond.demands in
      if is_dcp whole ond.date today then here else some []

  -- those of all inventories
  unfoldable pub additions : List (Inventory D) → Option (List (Addition D))
  unfolding collect additions_of_ond
  additions = collect (λ (inventory : Inventory D). collect additions_of_ond inventory.onds)

module _ {ℓ} {D : Type ℓ} (ops : LegOps D) (j : ℕ) where
  -- a leg-cabin after an addition, and after some in their order
  unfoldable pub with_addition : LegCabin D → Addition D → LegCabin D
  with_addition cabin a =
      if a.leg == j then ops.add_demand_information a.yield a.mean a.std_dev cabin else cabin

  abbrev pub with_additions : List (Addition D) → LegCabin D → LegCabin D
  with_additions added cabin = foldl with_addition cabin added
