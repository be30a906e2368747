-- ===== src/MonteCarlo/Run.antt =====
-- `optimalOptimisationByMCIntegration` of rmol/bom/MCOptimiser.cpp: the whole method.
use rmol.Base.{
  ℕ, ◌+◌, ◌-◌, ◌≤◌, ◌≡◌, refl, sym, ap, ◌∙◌, ◌&&◌, List, [], ◌∷◌, some, arith, leb, ltb, length,
  map, >>=-eq-some, assert-eq-some, subst,
}
use mathlib.Core.Option.{some-injective}
use rmol.Base.Double.{Double, ◌⊖◌, ◌≺◌}
use rmol.Base.Sorting.{sort}
use rmol.Cabin.Chain.{IsChained, unset, FallsBelow, HasFallingYields}
use rmol.Cabin.{BookingClass, VirtualClass, LegCabin}
use rmol.MonteCarlo.{
  Progress, optimise_class, optimise_classes, optimal_optimisation_by_mc_integration,
  optimise_cabin, capacity_index, push_prices, optimal_index, protection_level, to_unsigned,
  advance,
}
use rmol.MonteCarlo.Prices.{push_prices-idx, push_prices_all}

module _ {ℓ} {D : Type ℓ} ⦃d : Double D⦄ where
  -- the next index is one more than the prices so far, and at most one beyond the capacity
  abbrev IsCounted : ℕ → ℕ → List D → Type 0
  IsCounted capacity idx prices = (idx ≡ length prices + 1) × (idx ≤ capacity + 1)

  push_prices-IsCounted :
      (capacity idx last from : ℕ) (y : D) (holder prices : List D) {idx' : ℕ} {prices' : List D}
      → IsCounted capacity idx prices
      → push_prices (capacity + 1 - idx) idx last from y holder prices ≡ some (idx', prices')
      → IsCounted capacity idx' prices'
  push_prices-IsCounted capacity idx last from y holder prices c e =
      let counts = push_prices-idx (capacity + 1 - idx) idx last from y holder prices e in
      omega arith

  -- what a round that succeeds does, whatever it computes
  record IsRound (remaining : D) (capacity : ℕ) (current next current' next' : VirtualClass D)
      (st' : Progress D) : Type ℓ where
    pj : D
    protected : current' ≡ record current { protection = pj }
    limited : next' ≡ record next { booking_limit = remaining ⊖ pj }
    falling : next.yield ≺ current.yield
    counted : IsCounted capacity st'.idx st'.prices

  optimise_class-IsRound :
      (remaining : D) (capacity : ℕ) (current next : VirtualClass D) (st : Progress D)
      {current' next' : VirtualClass D} {st' : Progress D}
      → IsCounted capacity st.idx st.prices
      → optimise_class remaining capacity current next st ≡ some (current', next', st')
      → IsRound remaining capacity current next current' next' st'
  unfolding optimise_class
  optimise_class-IsRound remaining capacity current next st c e =
      let sorted = sort st.holder in
      let k = length sorted in
      let lj = optimal_index k current.yield next.yield in
      let (fall, e1) = assert-eq-some (d.lt next.yield current.yield) _ e in
      let (inside, e2) = assert-eq-some (leb 1 lj && ltb lj k) _ e1 in
      let (pj, level, e3) = >>=-eq-some (protection_level lj sorted) _ e2 in
      let last = to_unsigned (d.to_int pj) in
      let left = capacity + 1 - st.idx in
      let (pushed, pushes, e4) =
        >>=-eq-some (push_prices left st.idx last 0 current.yield sorted st.prices) _ e3 in
      let (enough, e5) = assert-eq-some (leb k (length next.demand)) _ e4 in
      let (holder, moved, e6) = >>=-eq-some (advance lj sorted next.demand) _ e5 in
      subst (λ r. IsRound remaining capacity current next r.0 r.1 r.2) (some-injective _ _ e6)
        (record {
          pj = pj;
          protected = refl;
          limited = refl;
          falling = fall;
          counted =
              push_prices-IsCounted capacity st.idx last 0 current.yield sorted st.prices c pushes;
        })

  -- what the loop leaves behind
  record IsOutcome (remaining : D) (capacity : ℕ) (limit : D) (before after : List (VirtualClass D))
      (prices : List D) : Type ℓ where
    chained : IsChained remaining limit after
    same : map unset after ≡ map unset before
    falling : HasFallingYields before
    full : length prices ≡ capacity

  IsOutcome-cons :
      (remaining : D) (capacity : ℕ) (current next current' next' : VirtualClass D)
      (rest : List (VirtualClass D)) (st' : Progress D) (classes : List (VirtualClass D))
      (prices : List D)
      → IsRound remaining capacity current next current' next' st'
      → IsOutcome remaining capacity next'.booking_limit (next' ∷ rest) classes prices
      → IsOutcome remaining capacity current.booking_limit
          (current ∷ next ∷ rest)
          (current' ∷ classes)
          prices
  unfolding IsChained
  IsOutcome-cons remaining capacity current next current' next' rest st' classes prices r o =
      let limits =
        ap (λ (c : VirtualClass D). c.booking_limit) r.limited
        ∙ sym (ap (λ (c : VirtualClass D). remaining ⊖ c.protection) r.protected) in
      record {
        chained = (
          ap (λ (c : VirtualClass D). c.booking_limit) r.protected,
          subst (λ x. IsChained remaining x classes) limits o.chained,
        );
        same =
            ap (λ (c : VirtualClass D). unset c ∷ map unset classes) r.protected
            ∙ ap (◌∷◌ (unset current))
                (o.same ∙ ap (λ (c : VirtualClass D). unset c ∷ map unset rest) r.limited);
        falling = (
          r.falling,
          subst (λ (c : VirtualClass D). FallsBelow c.yield rest) r.limited o.falling,
        );
        full = o.full;
      }

  optimise_classes-IsOutcome :
      (remaining : D) (capacity : ℕ) (current : VirtualClass D) (rest : List (VirtualClass D))
      (st : Progress D) {after : List (VirtualClass D)} {prices : List D}
      → IsCounted capacity st.idx st.prices
      → optimise_classes remaining capacity current rest st ≡ some (after, prices)
      → IsOutcome remaining capacity current.booking_limit (current ∷ rest) after prices
  unfolding optimise_classes IsChained
  optimise_classes-IsOutcome remaining capacity current [] st c e =
      let left = capacity + 1 - st.idx in
      let (pushed, pushes, e1) =
        >>=-eq-some (push_prices left st.idx capacity 0 current.yield st.holder st.prices) _ e in
      let counted =
        push_prices-idx left st.idx capacity 0 current.yield st.holder st.prices pushes in
      let all =
        push_prices_all left st.idx capacity 0 current.yield st.holder st.prices (omega arith)
          pushes in
      subst (λ r. IsOutcome remaining capacity current.booking_limit (current ∷ []) r.0 r.1)
        (some-injective _ _ e1)
        (record { chained = (refl, tt); same = refl; falling = tt; full = omega (arith, all) })
  optimise_classes-IsOutcome remaining capacity current (next ∷ rest) st c e =
      let ((current', next', st'), round, e1) =
        >>=-eq-some (optimise_class remaining capacity current next st) _ e in
      let r = optimise_class-IsRound remaining capacity current next st c round in
      let ((classes, prices), others, e2) =
        >>=-eq-some (optimise_classes remaining capacity next' rest st') _ e1 in
      let o = optimise_classes-IsOutcome remaining capacity next' rest st' r.counted others in
      subst
        (λ r. IsOutcome remaining capacity current.booking_limit (current ∷ next ∷ rest) r.0 r.1)
        (some-injective _ _ e2)
        (IsOutcome-cons remaining capacity current next current' next' rest st' classes prices r o)

  optimise_cabin_lem :
      (cabin : LegCabin D) (segments : List (List (BookingClass D)))
      (classes : List (VirtualClass D)) {cabin' : LegCabin D}
      → optimise_cabin cabin segments classes ≡ some cabin'
      → IsOutcome cabin.availability_pool
          (capacity_index (d.to_int cabin.availability_pool))
          cabin.availability_pool
          classes
          cabin'.virtual_classes
          cabin'.bid_prices
  unfolding optimise_cabin
  optimise_cabin_lem cabin (segment ∷ others) (first ∷ rest) e =
      let remaining = cabin.availability_pool in
      let capacity = capacity_index (d.to_int remaining) in
      let limited = record first { booking_limit = remaining } in
      let start : Progress D = record { holder = first.demand; idx = 1; prices = [] } in
      let ((after, prices), run, e1) =
        >>=-eq-some (optimise_classes remaining capacity limited rest start) _ e in
      let o = optimise_classes-IsOutcome remaining capacity limited rest start (omega arith) run in
      subst
        (λ (c : LegCabin D).
          IsOutcome remaining capacity remaining (first ∷ rest) c.virtual_classes c.bid_prices)
        (some-injective _ _ e1)
        (record { chained = o.chained; same = o.same; falling = o.falling; full = o.full })
  optimise_cabin_lem cabin _ _ e = cc

  -- If the method returns, every index up to the remaining capacity has its bid price (a negative
  -- capacity counts as none); the first class's booking limit is the remaining capacity, and that
  -- of each other class is what the protection of the class before it leaves; the yields fall
  -- strictly along the classes, and of a class only the protection and the booking limit change.
  pub optimal_optimisation_lem :
      (cabin : LegCabin D) {cabin' : LegCabin D}
      → optimal_optimisation_by_mc_integration cabin ≡ some cabin'
      → (length cabin'.bid_prices ≡ capacity_index (d.to_int cabin.availability_pool))
        × IsChained cabin.availability_pool cabin.availability_pool cabin'.virtual_classes
        × HasFallingYields cabin.virtual_classes
        × (map unset cabin'.virtual_classes ≡ map unset cabin.virtual_classes)
  unfolding optimal_optimisation_by_mc_integration
  optimal_optimisation_lem cabin e =
      let o = optimise_cabin_lem cabin cabin.segment_cabins cabin.virtual_classes e in
      (o.full, o.chained, o.falling, o.same)
