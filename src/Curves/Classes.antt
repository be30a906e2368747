-- ===== src/Curves/Classes.antt =====
-- `computeSellUpFactorCurves` and `computeDispatchingFactorCurves` of rmol/bom/Utilities.cpp: the
-- curves of all classes in closed form.
use mathlib.Core.List.{append_assoc, append-nil, reverse}
use rmol.Base.{ℕ, ◌≡◌, refl, sym, ap, ◌∙◌, subst, false, List, [], ◌∷◌, ◌++◌, map, some, All, ◌==◌}
use rmol.Base.Double.{Double, ◌⊖◌, of_ℕ}
use rmol.Cabin.{BookingClass}
use rmol.Curves.{
  Curve, ClassCurves, insert_class, sell_up_factor, sell_up_classes, sell_up_from_low, based_curve,
  compute_sell_up_factor_curves, dispatching_classes, dispatching_from_low,
  compute_dispatching_factor_curves,
}
use rmol.Curves.Factors.{
  HasNewKeys, map_factors, sell_up_curve-map_factors, dispatching_curve-map_factors,
}

module _ {ℓ} {D : Type ℓ} where
  -- each class behind the codes done has a new code
  abbrev pub HasNewCodes : List ℕ → List (BookingClass D) → Type 0
  HasNewCodes done [] = Unit
  HasNewCodes done (c ∷ cs) =
      All (λ k. (k == c.code) ≡ false) done × HasNewCodes (done ++ c.code ∷ []) cs

  abbrev codes : ClassCurves D → List ℕ
  codes = map (λ (e : ℕ × Curve D). e.0)

  insert_class-new :
      (code : ℕ) (curve : Curve D) (curves : ClassCurves D)
      → All (λ k. (k == code) ≡ false) (codes curves)
      → insert_class code curve curves ≡ some (curves ++ (code, curve) ∷ [])
  unfolding insert_class
  insert_class-new code curve [] h = refl
  insert_class-new code curve ((k, v) ∷ rest) (a, h) =
      rw (a, insert_class-new code curve rest h) refl

  codes-snoc :
      (curves : ClassCurves D) (code : ℕ) (curve : Curve D)
      → codes curves ++ code ∷ [] ≡ codes (curves ++ (code, curve) ∷ [])
  codes-snoc [] code curve = refl
  codes-snoc ((k, v) ∷ rest) code curve = ap (◌∷◌ k) (codes-snoc rest code curve)

module _ {ℓ} {D : Type ℓ} ⦃d : Double D⦄ (frat5s : Curve D) where
  -- the sell-up curves of the classes above the lowest
  unfoldable pub sell_up_curves : D → List (BookingClass D) → ClassCurves D
  sell_up_curves lowest [] = []
  sell_up_curves lowest (c ∷ cs) =
      (c.code, map_factors (sell_up_factor lowest c.yield) frat5s) ∷ sell_up_curves lowest cs

  -- the dispatching curves, from a class with the factors `g` on: the drops to the next class's
  -- sell-up factors, and the last class's own factors
  unfoldable pub dispatching_curves :
      D → (D → D) → BookingClass D → List (BookingClass D) → ClassCurves D
  dispatching_curves lowest g current [] = (current.code, map_factors g frat5s) ∷ []
  dispatching_curves lowest g current (next ∷ rest) =
      (current.code, map_factors (λ v. g v ⊖ sell_up_factor lowest next.yield v) frat5s)
      ∷ dispatching_curves lowest (sell_up_factor lowest next.yield) next rest

module _ {ℓ} {D : Type ℓ} ⦃d : Double D⦄ (frat5s : Curve D) (keys : HasNewKeys [] frat5s) where
  sell_up_classes-append :
      (lowest : D) (cs : List (BookingClass D)) (curves : ClassCurves D)
      → HasNewCodes (codes curves) cs
      → sell_up_classes frat5s lowest cs curves ≡ some (curves ++ sell_up_curves frat5s lowest cs)
  unfolding sell_up_classes sell_up_curves
  sell_up_classes-append lowest [] curves h = ap some (sym (append-nil curves))
  sell_up_classes-append lowest (c ∷ cs) curves (a, h) =
      let curve = map_factors (sell_up_factor lowest c.yield) frat5s in
      let new = subst (λ ks. HasNewCodes ks cs) (codes-snoc curves c.code curve) h in
      rw
        (
          sell_up_curve-map_factors lowest c.yield frat5s keys,
          insert_class-new c.code curve curves a,
        )
        (sell_up_classes-append lowest cs (curves ++ (c.code, curve) ∷ []) new)
      ∙ ap some (append_assoc curves ((c.code, curve) ∷ []) (sell_up_curves frat5s lowest cs))

  dispatching_classes-append :
      (lowest : D) (g : D → D) (current : BookingClass D) (cs : List (BookingClass D))
      (curves : ClassCurves D)
      → HasNewCodes (codes curves) (current ∷ cs)
      → dispatching_classes frat5s lowest current cs (map_factors g frat5s) curves
        ≡ some (curves ++ dispatching_curves frat5s lowest g current cs)
  unfolding dispatching_classes dispatching_curves
  dispatching_classes-append lowest g current [] curves (a, h) =
      insert_class-new current.code (map_factors g frat5s) curves a
  dispatching_classes-append lowest g current (next ∷ rest) curves (a, h) =
      let factor = sell_up_factor lowest next.yield in
      let curve = map_factors (λ v. g v ⊖ factor v) frat5s in
      let new =
        subst (λ ks. HasNewCodes ks (next ∷ rest)) (codes-snoc curves current.code curve) h in
      rw
        (
          dispatching_curve-map_factors lowest next.yield g frat5s keys,
          insert_class-new current.code curve curves a,
        )
        (dispatching_classes-append lowest factor next rest (curves ++ (current.code, curve) ∷ [])
          new)
      ∙ ap some (
          append_assoc curves ((current.code, curve) ∷ [])
            (dispatching_curves frat5s lowest factor next rest))

  -- On a FRAT5 curve with different keys, and classes with different codes that are `low` and
  -- `others` from low to high, both methods return. The lowest class has the sell-up factors 1, and
  -- each other one the factors of its yield; the dispatching factors are the drops from each class's
  -- sell-up factors to those of the class above it, and the highest class keeps its own.
  pub compute_curves_lem :
      (classes : List (BookingClass D)) (low : BookingClass D) (others : List (BookingClass D))
      → reverse classes ≡ low ∷ others
      → HasNewCodes [] (low ∷ others)
      → (compute_sell_up_factor_curves frat5s classes
          ≡ some (
              (low.code, map_factors (λ _. of_ℕ 1) frat5s)
              ∷ sell_up_curves frat5s low.yield others))
        × (compute_dispatching_factor_curves frat5s classes
            ≡ some (dispatching_curves frat5s low.yield (λ _. of_ℕ 1) low others))
  unfolding compute_sell_up_factor_curves sell_up_from_low based_curve
      compute_dispatching_factor_curves dispatching_from_low insert_class
  compute_curves_lem classes low others e (a, h) =
      let based = map_factors (λ _. of_ℕ 1) frat5s in
      (
        rw e (sell_up_classes-append low.yield others ((low.code, based) ∷ []) h),
        rw e (dispatching_classes-append low.yield (λ _. of_ℕ 1) low others [] (tt, h)),
      )
