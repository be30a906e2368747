-- ===== src/Curves/Tests.antt =====
-- The curves of three classes over two days to departure.
use rmol.Base.{ℕ, ◌≡◌, refl, List, [], ◌∷◌, some}
use rmol.Base.Int.{pos}
use rmol.Base.Double.{of_ℕ}
use rmol.Base.Fixed.{Fixed, fixed_double}
use rmol.Cabin.{BookingClass}
use rmol.Cabin.Samples.{seats}
use rmol.Curves.{Curve, compute_sell_up_factor_curves, compute_dispatching_factor_curves}
use rmol.Curves.Factors.{map_factors}
use rmol.Curves.Classes.{sell_up_curves, dispatching_curves, compute_curves_lem}

abbrev frat5s : Curve Fixed
frat5s = (pos 0, seats 3) ∷ (pos 7, seats 2) ∷ []

abbrev booking : (code yield : ℕ) → BookingClass Fixed
booking code yield = record {
  code = code;
  yield = seats yield;
  adjusted_yield = seats yield;
  mean = seats 1;
  std_dev = seats 1;
}

abbrev classes : List (BookingClass Fixed)
classes = booking 1 300 ∷ booking 2 200 ∷ booking 3 100 ∷ []

compute_curves_lem_example :
    (compute_sell_up_factor_curves frat5s classes
      ≡ some (
          (3, map_factors (λ _. of_ℕ 1) frat5s)
          ∷ sell_up_curves frat5s (seats 100) (booking 2 200 ∷ booking 1 300 ∷ [])))
    × (compute_dispatching_factor_curves frat5s classes
        ≡ some (
            dispatching_curves frat5s
              (seats 100)
              (λ _. of_ℕ 1)
              (booking 3 100)
              (booking 2 200 ∷ booking 1 300 ∷ [])))
compute_curves_lem_example =
    compute_curves_lem frat5s (tt, ((refl, tt), tt)) classes (booking 3 100)
      (booking 2 200 ∷ booking 1 300 ∷ []) refl (tt, ((refl, tt), ((refl, (refl, tt)), tt)))
