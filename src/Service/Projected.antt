-- ===== src/Service/Projected.antt =====
-- The projections of rmol/service/RMOL_Service.cpp: they add what the bid prices at the start say.
use mathlib.Core.Option
use mathlib.Core.Option.{some-injective}
use mathlib.Core.Path.{fun_ext}
use rmol.Base.{
  ℕ, ◌≡◌, refl, sym, ap, ◌∙◌, subst, inl, inr, List, [], ◌∷◌, Option, none, some, ◌==◌, get_elem?,
  ◌>>=◌, Bool-cases, >>=-eq-some,
}
use rmol.Base.Int.{ℤ}
use rmol.Base.Double.{Double, ◌⊕◌, ◌⊗◌, ◌⊘◌, nought}
use rmol.Cabin.{LegCabin}
use rmol.Service.{
  OndCabin, OndSegment, OndDemand, OndDate, Inventory, LegOps, for_each, is_dcp, update_leg,
}
use rmol.Service.Projection.{
  Legs, for_segments, project_ond, project_inventory, project, add_to_legs, project_aggregated,
  project_yp, add_bid_prices, segment_bid_prices, pricing_cabin, add_adjusted, project_with_prices,
  project_da, total_bid_price, add_prorated, project_dyp,
}
use rmol.Service.Ways.{Way, aggregated, yield_proration, displacement, dynamic, project_by}
use rmol.Service.Additions.{
  Addition, equally, in_proportion, adjusted, additions_of_demand, additions_of_ond, additions,
  addition, with_addition, with_additions,
}
use rmol.Service.Added.{
  unchanged, IsAdded, Adds, no_more, one_more, Adds-then, Adds-assert, Adds-for_each,
  Adds-for_segments, Adds-if_operated,
}

module _ {ℓ} {D : Type ℓ} ⦃d : Double D⦄ (ops : LegOps D)
    (keeps : (yield mean std_dev : D) (cabin : LegCabin D)
      → (ops.add_demand_information yield mean std_dev cabin).current_bid_price
        ≡ cabin.current_bid_price) where
  with_addition-price :
      (j : ℕ) (a : Addition D) (cabin : LegCabin D)
      → (with_addition ops j cabin a).current_bid_price ≡ cabin.current_bid_price
  unfolding with_addition
  with_addition-price j a cabin = elim (Bool-cases (a.leg == j)) [
    | inl here ↦ rw here (keeps a.yield a.mean a.std_dev cabin)
    | inr elsewhere ↦ rw elsewhere refl
  ]

  with_additions-price :
      (j : ℕ) (added : List (Addition D)) (cabin : LegCabin D)
      → (with_additions ops j added cabin).current_bid_price ≡ cabin.current_bid_price
  with_additions-price j [] cabin = refl
  with_additions-price j (a ∷ added) cabin =
      with_additions-price j added (with_addition ops j cabin a) ∙ with_addition-price j a cabin

  module _ (start : Legs D) where
    -- a leg-cabin that is there has its price of the start
    price_of :
        (added : List (Addition D)) (legs : Legs D) (i : ℕ) {leg : LegCabin D}
        → IsAdded ops start added legs
        → get_elem? legs i ≡ some leg
        → (first : LegCabin D) × (get_elem? start i ≡ some first)
          × (leg.current_bid_price ≡ first.current_bid_price)
    price_of added legs i h e =
        let (first, has, same) =
          (Option.map-eq-some_iff (with_additions ops i added) (get_elem? start i)).0
            (sym (h i) ∙ e) in
        (
          first,
          has,
          ap (λ (c : LegCabin D). c.current_bid_price) (sym same)
              ∙ with_additions-price i added first,
        )

    -- the leg-cabins of a cabin
    Adds-equally :
        (demand : OndDemand D) (yield : D) (cabin : OndCabin D)
        → Adds ops start
            (add_to_legs ops yield demand.mean demand.std_dev cabin.leg_cabins)
            (equally start demand yield cabin)
    unfolding add_to_legs equally
    Adds-equally demand yield cabin =
        Adds-for_each ops start _ _
          (λ i added legs legs' h e. (
            addition start demand yield i ∷ [],
            refl,
            one_more ops start added (addition start demand yield i) legs legs' h e,
          ))
          cabin.leg_cabins

    Adds-in_proportion :
        (demand : OndDemand D) (total : D) (cabin : OndCabin D)
        → Adds ops start
            (for_each (add_prorated ops demand total) cabin.leg_cabins)
            (in_proportion start demand total cabin)
    unfolding add_prorated in_proportion
    Adds-in_proportion demand total cabin =
        Adds-for_each ops start _ _
          (λ i added legs legs' h e.
            let (leg, at, e1) = >>=-eq-some (get_elem? legs i) _ e in
            let (first, has, same) = price_of added legs i h at in
            let share = first.current_bid_price ⊘ total ⊗ demand.yield in
            (
              addition start demand share i ∷ [],
              rw has refl,
              one_more ops start added (addition start demand share i) legs legs' h (
                  subst
                    (λ p.
                      update_leg
                        (ops.add_demand_information (p ⊘ total ⊗ demand.yield) demand.mean
                          demand.std_dev)
                        i legs
                      ≡ some legs')
                    same e1),
            ))
          cabin.leg_cabins

    -- the bid prices are those of the start
    add_price-start :
        (j : ℕ) (added : List (Addition D)) (sum : D) (o : Option (LegCabin D))
        → (Option.map (with_additions ops j added) o >>= λ (c : LegCabin D).
            some (sum ⊕ c.current_bid_price))
          ≡ (o >>= λ (c : LegCabin D). some (sum ⊕ c.current_bid_price))
    add_price-start j added sum none = refl
    add_price-start j added sum (some c) = ap (λ p. some (sum ⊕ p)) (with_additions-price j added c)

    add_bid_prices-start :
        (added : List (Addition D)) (legs : Legs D)
        → IsAdded ops start added legs
        → add_bid_prices legs ≡ add_bid_prices start
    unfolding add_bid_prices
    add_bid_prices-start added legs h =
        ap for_each
          (fun_ext λ i. fun_ext λ sum. rw (h i) (add_price-start i added sum (get_elem? start i)))

    total_bid_price-start :
        (added : List (Addition D)) (legs : Legs D) (ats : List (ℕ × ℕ))
        (segments : List (OndSegment D)) (sum : D)
        → IsAdded ops start added legs
        → total_bid_price legs ats segments sum ≡ total_bid_price start ats segments sum
    unfolding total_bid_price
    total_bid_price-start added legs ats segments sum h =
        ap
          (λ (prices : List ℕ → D → Option D).
            for_segments
              (λ at segment sum.
                pricing_cabin at.0 segment >>= λ (cabin : OndCabin D). prices cabin.leg_cabins sum)
              ats segments sum)
          (add_bid_prices-start added legs h)

    segment_bid_prices-start :
        (added : List (Addition D)) (legs : Legs D) (ats : List (ℕ × ℕ))
        (segments : List (OndSegment D))
        → IsAdded ops start added legs
        → segment_bid_prices legs ats segments ≡ segment_bid_prices start ats segments
    unfolding segment_bid_prices
    segment_bid_prices-start added legs (at ∷ ats) (segment ∷ segments) h =
        rw (add_bid_prices-start added legs h, segment_bid_prices-start added legs ats segments h)
          refl
    segment_bid_prices-start added legs ats [] h = refl
    segment_bid_prices-start added legs [] (segment ∷ segments) h = refl

    Adds-adjusted :
        (demand : OndDemand D) (total : D) (prices : List D) (ats : List (ℕ × ℕ))
        (segments : List (OndSegment D))
        → Adds ops start
            (project_with_prices ops demand total prices ats segments)
            (adjusted start demand total prices ats segments)
    unfolding project_with_prices adjusted add_adjusted
    Adds-adjusted demand total prices ats [] = no_more ops start
    Adds-adjusted demand total [] ats (segment ∷ segments) = λ added legs legs' h e. cc
    Adds-adjusted demand total (price ∷ prices) [] (segment ∷ segments) = λ added legs legs' h e. cc
    Adds-adjusted demand total (price ∷ prices) (at ∷ ats) (segment ∷ segments) =
        Adds-then ops start _ _ _ _
          (Adds-if_operated ops start _ _
            (λ cabin. Adds-assert ops start _ _ _ (Adds-equally demand _ cabin)) at.0 segment)
          (Adds-adjusted demand total prices ats segments)

    Adds-way :
        (way : Way) (ond : OndDate D) (demand : OndDemand D)
        → Adds ops start (project_by ops way ond demand) (additions_of_demand start demand way ond)
    unfolding additions_of_demand project_aggregated project_yp project_da project_dyp
    Adds-way aggregated ond demand =
        Adds-for_segments ops start _ _
          (λ at.
            Adds-if_operated ops start _ _
              (λ cabin added legs legs' h e.
                let (yield, has, e1) = >>=-eq-some (cabin.yield_of_class at.1) _ e in
                rw has
                  (Adds-assert ops start _ _ _ (Adds-equally demand _ cabin) added legs legs' h e1))
              at.0)
          demand.cabin_classes ond.segments
    Adds-way yield_proration ond demand =
        Adds-for_segments ops start _ _
          (λ at.
            Adds-if_operated ops start _ _
              (λ cabin. Adds-assert ops start _ _ _ (Adds-equally demand _ cabin)) at.0)
          demand.cabin_classes ond.segments
    Adds-way displacement ond demand = λ added legs legs' h e.
        let (prices, run, e1) =
          >>=-eq-some (segment_bid_prices legs demand.cabin_classes ond.segments) _ e in
        rw (sym (segment_bid_prices-start added legs demand.cabin_classes ond.segments h), run)
          (Adds-adjusted demand _ prices demand.cabin_classes ond.segments added legs legs' h e1)
    Adds-way dynamic ond demand = λ added legs legs' h e.
        let (total, run, e1) =
          >>=-eq-some (total_bid_price legs demand.cabin_classes ond.segments nought) _ e in
        rw (sym (total_bid_price-start added legs demand.cabin_classes ond.segments nought h), run)
          (Adds-for_segments ops start _ _
            (λ at.
              Adds-if_operated ops start _ _
                (λ cabin. Adds-assert ops start _ _ _ (Adds-in_proportion demand total cabin)) at.0)
            demand.cabin_classes ond.segments added legs legs' h e1)

    module _ (way : Way) (whole : List ℤ) (today : ℤ) where
      Adds-project_ond :
          (ond : OndDate D)
          → Adds ops start
              (project_ond whole today (project_by ops way) ond)
              (additions_of_ond way whole today start ond)
      unfolding project_ond additions_of_ond
      Adds-project_ond ond added legs legs' h e = elim (Bool-cases (is_dcp whole ond.date today)) [
        | inr off ↦ rw off (no_more ops start added legs legs' h (rw off at e))
        | inl on ↦ rw on (
            Adds-for_each ops start _ _
              (λ demand.
                Adds-assert ops start _ _ _ (Adds-assert ops start _ _ _ (Adds-way way ond demand)))
              ond.demands added legs legs' h (rw on at e))
      ]

      Adds-project :
          (inventories : List (Inventory D))
          → Adds ops start
              (project whole today (project_by ops way) inventories)
              (additions way whole today start inventories)
      unfolding project project_inventory additions
      Adds-project inventories = Adds-assert ops start _ _ _ (
          Adds-for_each ops start _ _
            (λ inventory.
              Adds-assert ops start _ _ _
                (Adds-for_each ops start _ _ Adds-project_ond inventory.onds))
            inventories)

  -- If StdAir's method keeps the bid price of a leg-cabin, a projection that returns, in any of the
  -- four ways, adds to each leg-cabin, in their order, the demands that are listed for it from the
  -- bid prices at the start alone, and changes nothing else.
  pub project-additions :
      (way : Way) (whole : List ℤ) (today : ℤ) (inventories : List (Inventory D)) (legs : Legs D)
      {legs' : Legs D}
      → project whole today (project_by ops way) inventories legs ≡ some legs'
      → (listed : List (Addition D)) × (additions way whole today legs inventories ≡ some listed)
        × ((j : ℕ)
            → get_elem? legs' j ≡ Option.map (with_additions ops j listed) (get_elem? legs j))
  project-additions way whole today inventories legs {legs'} e =
      Adds-project legs way whole today inventories [] legs legs'
        (λ j. sym (unchanged (get_elem? legs j))) e
