-- ===== src/Service/Operated.antt =====
-- The projections of rmol/service/RMOL_Service.cpp: only operated legs receive the demand.
use mathlib.Core.Option.{some-injective}
use rmol.Base.{
  ℕ, ◌≡◌, ◌≢◌, refl, subst, inl, inr, true, not, List, [], ◌∷◌, Option, some, All, ◌==◌, length,
  get_elem?, Bool-cases, >>=-eq-some, assert-eq-some,
}
use rmol.Base.Int.{ℤ}
use rmol.Base.Double.{Double, ◌⊖◌, nought}
use rmol.Cabin.{LegCabin}
use rmol.Service.{
  OndCabin, OndSegment, OndDemand, OndDate, Inventory, LegOps, is_empty, is_dcp, update_leg,
}
use rmol.Service.Projection.{
  Legs, project_ond, project_inventory, project, add_to_legs, if_operated, project_aggregated,
  project_yp, segment_bid_prices, add_adjusted, project_with_prices, project_da, total_bid_price,
  add_prorated, project_dyp,
}
use rmol.Service.Kept.{
  for_each-keeps, IsNotAmong, IsNotOperated, IsNotServed, IsKept, update_leg-IsKept,
  for_segments-IsKept, if_operated-IsKept,
}
use rmol.Service.Ways.{Way, aggregated, yield_proration, displacement, dynamic, project_by}

module _ {ℓ} {D : Type ℓ} ⦃d : Double D⦄ (ops : LegOps D) (j : ℕ)
    (before : Option (LegCabin D)) where
  add_to_legs-IsKept :
      (yield mean std_dev : D) (is : List ℕ) (legs : Legs D) {legs' : Legs D}
      → All (λ i. i ≢ j) is
      → add_to_legs ops yield mean std_dev is legs ≡ some legs'
      → IsKept j before legs
      → IsKept j before legs'
  unfolding add_to_legs
  add_to_legs-IsKept yield mean std_dev is legs n e k =
      for_each-keeps (update_leg (ops.add_demand_information yield mean std_dev)) (λ i. i ≢ j)
        (IsKept j before) (λ i s s' ne run p. update_leg-IsKept j before _ i s s' ne run p) is legs
        n e k

  add_prorated-IsKept :
      (demand : OndDemand D) (total : D) (i : ℕ) (legs legs' : Legs D)
      → i ≢ j
      → add_prorated ops demand total i legs ≡ some legs'
      → IsKept j before legs
      → IsKept j before legs'
  unfolding add_prorated
  add_prorated-IsKept demand total i legs legs' ne e k =
      let (leg, at, e1) = >>=-eq-some (get_elem? legs i) _ e in
      update_leg-IsKept j before _ i legs legs' ne e1 k

  -- a way to project a demand that leaves the leg-cabin as it is
  abbrev Keeps : (OndDate D → OndDemand D → Legs D → Option (Legs D)) → Type ℓ
  Keeps way =
      (ond : OndDate D) (demand : OndDemand D) (legs legs' : Legs D)
      → IsNotAmong j demand.cabin_classes ond.segments
      → way ond demand legs ≡ some legs'
      → IsKept j before legs
      → IsKept j before legs'

  project_aggregated-IsKept : Keeps (project_aggregated ops)
  unfolding project_aggregated
  project_aggregated-IsKept ond demand legs legs' n e k =
      for_segments-IsKept j before _
        (λ at.
          if_operated-IsKept j before _
            (λ cabin s s' ne run p.
              let (yield, has, e1) = >>=-eq-some (cabin.yield_of_class at.1) _ run in
              let (some_legs, e2) = assert-eq-some (not (is_empty cabin.leg_cabins)) _ e1 in
              add_to_legs-IsKept _ _ _ cabin.leg_cabins s ne e2 p)
            at)
        demand.cabin_classes ond.segments legs n e k

  project_yp-IsKept : Keeps (project_yp ops)
  unfolding project_yp
  project_yp-IsKept ond demand legs legs' n e k =
      for_segments-IsKept j before _
        (λ at.
          if_operated-IsKept j before _
            (λ cabin s s' ne run p.
              let (some_legs, e1) = assert-eq-some (not (is_empty cabin.leg_cabins)) _ run in
              add_to_legs-IsKept _ _ _ cabin.leg_cabins s ne e1 p)
            at)
        demand.cabin_classes ond.segments legs n e k

  project_dyp-IsKept : Keeps (project_dyp ops)
  unfolding project_dyp
  project_dyp-IsKept ond demand legs legs' n e k =
      let (total, sum, e1) =
        >>=-eq-some (total_bid_price legs demand.cabin_classes ond.segments nought) _ e in
      for_segments-IsKept j before _
        (λ at.
          if_operated-IsKept j before _
            (λ cabin s s' ne run p.
              let (some_legs, e2) = assert-eq-some (not (is_empty cabin.leg_cabins)) _ run in
              for_each-keeps (add_prorated ops demand total) (λ i. i ≢ j) (IsKept j before)
                (add_prorated-IsKept demand total) cabin.leg_cabins s ne e2 p)
            at)
        demand.cabin_classes ond.segments legs n e1 k

  add_adjusted-IsKept :
      (demand : OndDemand D) (complementary : D) (cabin : OndCabin D) (legs legs' : Legs D)
      → All (λ i. i ≢ j) cabin.leg_cabins
      → add_adjusted ops demand complementary cabin legs ≡ some legs'
      → IsKept j before legs
      → IsKept j before legs'
  unfolding add_adjusted
  add_adjusted-IsKept demand complementary cabin legs legs' ne e k =
      let (some_legs, e1) = assert-eq-some (not (is_empty cabin.leg_cabins)) _ e in
      add_to_legs-IsKept _ _ _ cabin.leg_cabins legs ne e1 k

  project_with_prices-IsKept :
      (demand : OndDemand D) (total : D) (prices : List D) (ats : List (ℕ × ℕ))
      (segments : List (OndSegment D)) (legs : Legs D) {legs' : Legs D}
      → IsNotAmong j ats segments
      → project_with_prices ops demand total prices ats segments legs ≡ some legs'
      → IsKept j before legs
      → IsKept j before legs'
  unfolding project_with_prices
  project_with_prices-IsKept demand total prices ats [] legs n e k =
      subst (IsKept j before) (some-injective _ _ e) k
  project_with_prices-IsKept demand total [] ats (segment ∷ segments) legs n e k = cc
  project_with_prices-IsKept demand total (price ∷ prices) [] (segment ∷ segments) legs n e k = cc
  project_with_prices-IsKept demand total (price ∷ prices) (at ∷ ats) (segment ∷ segments) legs
        (here, others) e k =
      let step = add_adjusted ops demand (total ⊖ price) in
      let (legs1, one, more) = >>=-eq-some (if_operated step at.0 segment legs) _ e in
      project_with_prices-IsKept demand total prices ats segments legs1 others more (
        if_operated-IsKept j before step (add_adjusted-IsKept demand (total ⊖ price)) at segment
          legs legs1 here one k)

  project_da-IsKept : Keeps (project_da ops)
  unfolding project_da
  project_da-IsKept ond demand legs legs' n e k =
      let (prices, has, e1) =
        >>=-eq-some (segment_bid_prices legs demand.cabin_classes ond.segments) _ e in
      project_with_prices-IsKept demand _ prices demand.cabin_classes ond.segments legs n e1 k

module _ {ℓ} {D : Type ℓ} (whole : List ℤ) (today : ℤ) (j : ℕ) (before : Option (LegCabin D))
    (way : OndDate D → OndDemand D → Legs D → Option (Legs D))
    (keeps : (ond : OndDate D) (demand : OndDemand D) (legs legs' : Legs D)
      → IsNotAmong j demand.cabin_classes ond.segments
      → way ond demand legs ≡ some legs'
      → IsKept j before legs
      → IsKept j before legs') where
  project_ond-IsKept :
      (ond : OndDate D) (legs legs' : Legs D)
      → (is_dcp whole ond.date today ≡ true → IsNotOperated j ond)
      → project_ond whole today way ond legs ≡ some legs'
      → IsKept j before legs
      → IsKept j before legs'
  unfolding project_ond
  project_ond-IsKept ond legs legs' n e k = elim (Bool-cases (is_dcp whole ond.date today)) [
    | inr off ↦ subst (IsKept j before) (some-injective _ _ (rw off at e)) k
    | inl on ↦
        for_each-keeps _ (λ (demand : OndDemand D). IsNotAmong j demand.cabin_classes ond.segments)
          (IsKept j before)
          (λ demand s s' q run p.
            let (classes, e1) =
              assert-eq-some (length demand.cabin_classes == ond.nb_of_segments) _ run in
            let (segments, e2) = assert-eq-some (length ond.segments == ond.nb_of_segments) _ e1 in
            keeps ond demand s s' q e2 p)
          ond.demands legs (n on) (rw on at e) k
  ]

  project_inventory-IsKept :
      (inventory : Inventory D) (legs legs' : Legs D)
      → IsNotServed j whole today inventory
      → project_inventory whole today way inventory legs ≡ some legs'
      → IsKept j before legs
      → IsKept j before legs'
  unfolding project_inventory
  project_inventory-IsKept inventory legs legs' n e k =
      let (some_onds, e1) = assert-eq-some (not (is_empty inventory.onds)) _ e in
      for_each-keeps (project_ond whole today way) _ (IsKept j before)
        (λ ond s s' q run p. project_ond-IsKept ond s s' q run p) inventory.onds legs n e1 k

  project-IsKept :
      (inventories : List (Inventory D)) (legs legs' : Legs D)
      → All (IsNotServed j whole today) inventories
      → project whole today way inventories legs ≡ some legs'
      → IsKept j before legs
      → IsKept j before legs'
  unfolding project
  project-IsKept inventories legs legs' n e k =
      let (some_inventories, e1) = assert-eq-some (not (is_empty inventories)) _ e in
      for_each-keeps (project_inventory whole today way) _ (IsKept j before)
        (λ inventory s s' q run p. project_inventory-IsKept inventory s s' q run p) inventories legs
        n e1 k

module _ {ℓ} {D : Type ℓ} ⦃d : Double D⦄ (ops : LegOps D) where
  project_by-IsKept :
      (j : ℕ) (before : Option (LegCabin D)) (way : Way) → Keeps ops j before (project_by ops way)
  project_by-IsKept j before aggregated = project_aggregated-IsKept ops j before
  project_by-IsKept j before yield_proration = project_yp-IsKept ops j before
  project_by-IsKept j before displacement = project_da-IsKept ops j before
  project_by-IsKept j before dynamic = project_dyp-IsKept ops j before

  -- If a projection of the O&D demand returns, in any of the four ways, it has changed only
  -- leg-cabins of segments that no other airline operates, at the cabins of the demands of the O&D
  -- dates whose departure is a data collection point away.
  pub project-operated :
      (way : Way) (whole : List ℤ) (today : ℤ) (inventories : List (Inventory D)) (legs : Legs D)
      {legs' : Legs D} (j : ℕ)
      → All (IsNotServed j whole today) inventories
      → project whole today (project_by ops way) inventories legs ≡ some legs'
      → get_elem? legs' j ≡ get_elem? legs j
  project-operated way whole today inventories legs {legs'} j n e =
      project-IsKept whole today j (get_elem? legs j) (project_by ops way)
        (project_by-IsKept j (get_elem? legs j) way) inventories legs legs' n e refl
