-- ===== src/Demand/Dispatch.antt =====
-- The dispatching methods of rmol/bom/Utilities.cpp: what each class gets.
use mathlib.Core.Option.{some-injective}
use rmol.Base.{
  ℕ, ◌≡◌, refl, sym, ap, subst, ◌∙◌, inl, inr, true, false, List, [], ◌∷◌, Option, none, some,
  arith, All, ◌==◌, if◌then◌else◌, Bool-cases,
}
use rmol.Base.Int.{ℤ}
use rmol.Base.Double.{Double}
use rmol.Curves.{Curve, ClassCurves, find_factor}
use rmol.Demand.{
  ClassDemand, update_class, dispatch, add_price_demand, add_cumu_price_demand,
  dispatch_demand_forecast, dispatch_demand_forecast_for_fa,
}

module _ {ℓ} {D : Type ℓ} where
  -- the class of a code
  unfoldable pub find_class : ℕ → List (ClassDemand D) → Option (ClassDemand D)
  find_class code [] = none
  find_class code (c ∷ cs) = if code == c.code then some c else find_class code cs

  -- the factor that the map has for a class
  unfoldable pub share_of : ℤ → ℕ → ClassCurves D → Option D
  share_of dcp code [] = none
  share_of dcp code ((k, curve) ∷ rest) =
      if code == k then find_factor dcp curve else share_of dcp code rest

  -- no code is twice in the map
  abbrev pub HasDistinctCodes : ClassCurves D → Type 0
  HasDistinctCodes [] = Unit
  HasDistinctCodes ((k, curve) ∷ rest) =
      All (λ (e : ℕ × Curve D). (k == e.0) ≡ false) rest × HasDistinctCodes rest

  -- the class after a share, if there is one
  abbrev pub with_share :
      (D → ClassDemand D → ClassDemand D) → Option D → ClassDemand D → ClassDemand D
  with_share add none c = c
  with_share add (some factor) c = add factor c

  share_of-none :
      (dcp : ℤ) (code : ℕ) (curves : ClassCurves D)
      → All (λ (e : ℕ × Curve D). (code == e.0) ≡ false) curves
      → share_of dcp code curves ≡ none
  unfolding share_of
  share_of-none dcp code [] a = refl
  share_of-none dcp code ((k, curve) ∷ rest) (b, a) = rw b (share_of-none dcp code rest a)

  -- a change of a class that keeps its code
  abbrev pub KeepsCode : (ClassDemand D → ClassDemand D) → Type ℓ
  KeepsCode f = (c : ClassDemand D) → (f c).code ≡ c.code

module _ {ℓ} {D : Type ℓ} ⦃d : Double D⦄ where
  update_class_self :
      (f : ClassDemand D → ClassDemand D) (code : ℕ) (cs : List (ClassDemand D)) {c : ClassDemand D}
      → KeepsCode f
      → find_class code cs ≡ some c
      → find_class code (update_class code f cs) ≡ some (f c)
  unfolding find_class update_class
  update_class_self f code [] keeps h = cc
  update_class_self f code (x ∷ xs) keeps h = elim (Bool-cases (code == x.code)) [
    | inl same ↦
        let after : (code == (f x).code) ≡ true = ap (λ n. code == n) (keeps x) ∙ same in
        rw (same, after) (ap (λ y. some (f y)) (some-injective _ _ (rw same at h)))
    | inr other ↦ rw (other, other) (update_class_self f code xs keeps (rw other at h))
  ]

  update_class_other :
      (f : ClassDemand D → ClassDemand D) (code k : ℕ) (cs : List (ClassDemand D))
      → KeepsCode f
      → (code == k) ≡ false
      → find_class code (update_class k f cs) ≡ find_class code cs
  unfolding find_class update_class
  update_class_other f code k [] keeps h = refl
  update_class_other f code k (x ∷ xs) keeps h = elim (Bool-cases (k == x.code)) [
    | inl same ↦
        let differ : (code == x.code) ≡ false = ground (arith, same, h) in
        let after : (code == (f x).code) ≡ false = ap (λ n. code == n) (keeps x) ∙ differ in
        rw (same, after, differ) refl
    | inr other ↦ rw (other, update_class_other f code k xs keeps h) refl
  ]

  dispatch-find_class :
      (add : D → ClassDemand D → ClassDemand D) (dcp : ℤ) (curves : ClassCurves D)
      (classes : List (ClassDemand D))
      → ((factor : D) → KeepsCode (add factor))
      → HasDistinctCodes curves
      → All (λ (e : ℕ × Curve D). (factor : D) × (find_factor dcp e.1 ≡ some factor)) curves
      → (classes' : List (ClassDemand D)) × (dispatch add dcp curves classes ≡ some classes')
        × ((code : ℕ) (c : ClassDemand D)
            → find_class code classes ≡ some c
            → find_class code classes' ≡ some (with_share add (share_of dcp code curves) c))
  unfolding dispatch share_of
  dispatch-find_class add dcp [] classes keeps distinct has = (classes, refl, λ code c h. h)
  dispatch-find_class add dcp ((k, curve) ∷ rest) classes keeps (new, distinct)
        ((factor, at), has) =
      let (classes', run, got) =
        dispatch-find_class add dcp rest (update_class k (add factor) classes) keeps distinct has in
      (
        classes',
        rw at run,
        λ code c h. elim (Bool-cases (code == k)) [
          | inl same ↦
              let own : k ≡ code = ground (arith, same) in
              let none_left : share_of dcp code rest ≡ none =
                share_of-none dcp code rest
                  (subst (λ n. All (λ (e : ℕ × Curve D). (n == e.0) ≡ false) rest) own new) in
              let changed =
                subst
                  (λ n. find_class code (update_class n (add factor) classes) ≡ some (add factor c))
                  (sym own) (update_class_self (add factor) code classes (keeps factor) h) in
              rw (same, at)
                (got code (add factor c) changed
                  ∙ ap (λ o. some (with_share add o (add factor c))) none_left)
          | inr other ↦
              rw other (
                got code c
                  (update_class_other (add factor) code k classes (keeps factor) other ∙ h))
        ],
      )

  -- If each curve of the map has the DCP and no class is twice in the map, both methods return, and
  -- each class has its share of the forecast added once, by the factor of its own curve, to the
  -- price-oriented or to the cumulated demand; a class that is not in the map is unchanged.
  pub dispatch_demand_forecast_lem :
      (curves : ClassCurves D) (mean std_dev : D) (dcp : ℤ) (classes : List (ClassDemand D))
      → HasDistinctCodes curves
      → All (λ (e : ℕ × Curve D). (factor : D) × (find_factor dcp e.1 ≡ some factor)) curves
      → ((classes' : List (ClassDemand D)) × (dispatch_demand_forecast curves mean std_dev dcp
              classes
            ≡ some classes')
          × ((code : ℕ) (c : ClassDemand D)
              → find_class code classes ≡ some c
              → find_class code classes'
                ≡ some (with_share (add_price_demand mean std_dev) (share_of dcp code curves) c)))
        × ((classes' : List (ClassDemand D)) × (dispatch_demand_forecast_for_fa curves mean std_dev
                dcp classes
              ≡ some classes')
            × ((code : ℕ) (c : ClassDemand D)
                → find_class code classes ≡ some c
                → find_class code classes'
                  ≡ some (
                      with_share
                        (add_cumu_price_demand mean std_dev)
                        (share_of dcp code curves)
                        c)))
  unfolding dispatch_demand_forecast dispatch_demand_forecast_for_fa add_price_demand
      add_cumu_price_demand
  dispatch_demand_forecast_lem curves mean std_dev dcp classes distinct has = (
    dispatch-find_class (add_price_demand mean std_dev) dcp curves classes (λ _ _. refl) distinct
        has,
    dispatch-find_class (add_cumu_price_demand mean std_dev) dcp curves classes (λ _ _. refl)
        distinct has,
  )
