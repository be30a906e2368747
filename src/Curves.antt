-- ===== src/Curves.antt =====
-- `computeSellUpFactorCurves` and `computeDispatchingFactorCurves` of rmol/bom/Utilities.cpp. A
-- curve maps the days to departure to factors, in the order of its keys. The maps from booking
-- classes are in the order of insertion here, in that of the pointers there. `none` is an assertion
-- that fails.
pub mod Factors
pub mod Classes
mod Tests
use mathlib.Core.List.{reverse}
use rmol.Base.{
  ℕ, Bool, true, false, List, [], ◌∷◌, ◌++◌, map, Option, none, some, ◌==◌, if◌then◌else◌, ◌>>=◌,
}
use rmol.Base.Int.{ℤ, eqb_ℤ}
use rmol.Base.Double.{Double, ◌⊖◌, ◌⊗◌, ◌⊘◌, of_ℕ}
use rmol.Cabin.{BookingClass}

abbrev pub Curve {ℓ} : Type ℓ → Type ℓ
Curve D = List (ℤ × D)

abbrev pub ClassCurves {ℓ} : Type ℓ → Type ℓ
ClassCurves D = List (ℕ × Curve D)

module _ {ℓ} {D : Type ℓ} where
  -- `insert` of a key behind the others, with the assertion that it was not there
  unfoldable pub insert_factor : ℤ → D → Curve D → Option (Curve D)
  insert_factor dtd factor [] = some ((dtd, factor) ∷ [])
  insert_factor dtd factor ((k, v) ∷ rest) =
      let more = insert_factor dtd factor rest >>= λ rest'. some ((k, v) ∷ rest') in
      if eqb_ℤ k dtd then none else more

  unfoldable pub find_factor : ℤ → Curve D → Option D
  find_factor dtd [] = none
  find_factor dtd ((k, v) ∷ rest) = if eqb_ℤ k dtd then some v else find_factor dtd rest

  -- the assignment through the iterator that `find` returns
  unfoldable pub set_factor : ℤ → D → Curve D → Curve D
  set_factor dtd factor [] = []
  set_factor dtd factor ((k, v) ∷ rest) =
      let rest' = set_factor dtd factor rest in
      if eqb_ℤ k dtd then (k, factor) ∷ rest else (k, v) ∷ rest'

  unfoldable pub insert_class : ℕ → Curve D → ClassCurves D → Option (ClassCurves D)
  insert_class code curve [] = some ((code, curve) ∷ [])
  insert_class code curve ((k, v) ∷ rest) =
      let more = insert_class code curve rest >>= λ rest'. some ((k, v) ∷ rest') in
      if k == code then none else more

module _ {ℓ} {D : Type ℓ} ⦃d : Double D⦄ where
  -- `exp ((yield / lowest - 1.0) * (log (0.5) / (frat5 - 1)))`
  unfoldable pub sell_up_factor : (lowest yield frat5 : D) → D
  sell_up_factor lowest yield frat5 =
      d.exp ((yield ⊘ lowest ⊖ of_ℕ 1) ⊗ (d.log (d.literal 5 1) ⊘ (frat5 ⊖ of_ℕ 1)))

  -- a curve of factors 1.0
  unfoldable pub based_curve : Curve D → Curve D
  based_curve frat5s = map (λ (e : ℤ × D). (e.0, of_ℕ {D = D} 1)) frat5s

  -- the curve of one class, on what is inserted so far
  unfoldable pub sell_up_curve : (lowest yield : D) → Curve D → Curve D → Option (Curve D)
  unfolding sell_up_factor insert_factor
  sell_up_curve lowest yield [] curve = some curve
  sell_up_curve lowest yield ((dtd, frat5) ∷ rest) curve = do
    curve' ← insert_factor dtd (sell_up_factor lowest yield frat5) curve
    sell_up_curve lowest yield rest curve'

  unfoldable pub sell_up_classes :
      Curve D → (lowest : D) → List (BookingClass D) → ClassCurves D → Option (ClassCurves D)
  unfolding sell_up_curve insert_class
  sell_up_classes frat5s lowest [] curves = some curves
  sell_up_classes frat5s lowest (c ∷ cs) curves = do
    curve ← sell_up_curve lowest c.yield frat5s []
    curves' ← insert_class c.code curve curves
    sell_up_classes frat5s lowest cs curves'

  -- at the classes from low to high
  unfoldable pub sell_up_from_low : Curve D → List (BookingClass D) → Option (ClassCurves D)
  unfolding sell_up_classes based_curve
  sell_up_from_low frat5s [] = none
  sell_up_from_low frat5s (low ∷ others) = do
    curves ← insert_class low.code (based_curve frat5s) []
    sell_up_classes frat5s low.yield others curves

  unfoldable pub compute_sell_up_factor_curves :
      Curve D → List (BookingClass D) → Option (ClassCurves D)
  unfolding sell_up_from_low
  compute_sell_up_factor_curves frat5s classes = sell_up_from_low frat5s (reverse classes)

  -- the curve of one class, and the based factors, which become those of the next class
  unfoldable pub dispatching_curve :
      (lowest next : D) → Curve D → (curve based : Curve D) → Option (Curve D × Curve D)
  unfolding sell_up_factor insert_factor find_factor set_factor
  dispatching_curve lowest next [] curve based = some (curve, based)
  dispatching_curve lowest next ((dtd, frat5) ∷ rest) curve based = do
    let factor = sell_up_factor lowest next frat5
    based_factor ← find_factor dtd based
    curve' ← insert_factor dtd (based_factor ⊖ factor) curve
    dispatching_curve lowest next rest curve' (set_factor dtd factor based)

  unfoldable pub dispatching_classes :
      Curve D
      → (lowest : D) → BookingClass D
      → List (BookingClass D)
      → (based : Curve D) → ClassCurves D
      → Option (ClassCurves D)
  unfolding dispatching_curve insert_class
  dispatching_classes frat5s lowest current [] based curves = insert_class current.code based curves
  dispatching_classes frat5s lowest current (next ∷ rest) based curves = do
    (curve, based') ← dispatching_curve lowest next.yield frat5s [] based
    curves' ← insert_class current.code curve curves
    dispatching_classes frat5s lowest next rest based' curves'

  unfoldable pub dispatching_from_low : Curve D → List (BookingClass D) → Option (ClassCurves D)
  unfolding dispatching_classes based_curve
  dispatching_from_low frat5s [] = none
  dispatching_from_low frat5s (low ∷ others) =
      dispatching_classes frat5s low.yield low others (based_curve frat5s) []

  unfoldable pub compute_dispatching_factor_curves :
      Curve D → List (BookingClass D) → Option (ClassCurves D)
  unfolding dispatching_from_low
  compute_dispatching_factor_curves frat5s classes = dispatching_from_low frat5s (reverse classes)
