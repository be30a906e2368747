-- ===== src/Adjustment/Tests.antt =====
-- The adjustment on a hull of three policies over two fare families.
use rmol.Base.{ℕ, ◌≤◌, ◌≡◌, refl, true, List, [], ◌∷◌, ◌++◌, Option, none, some, if◌then◌else◌, ltb}
use rmol.Base.Int.{◌+ℤ◌, ◌-ℤ◌, ◌*ℤ◌, ◌/ℤ◌}
use rmol.Base.Fixed.{Fixed, fixed_double, root_below}
use rmol.Cabin.{BookingClass}
use rmol.Cabin.Samples.{seats}
use rmol.Policy.{Policy, NestingNode, diff_between_two_policies}
use rmol.Adjustment.{adjust_yield_and_demand}
use rmol.Adjustment.Slopes.{HasSlopes, adjust_yield_and_demand_lem}

abbrev family_of : ℕ → List ℕ
family_of code = if ltb code 10 then 1 ∷ 2 ∷ 3 ∷ [] else 11 ∷ 12 ∷ 13 ∷ []

abbrev policy : Option (List ℕ) → (demand revenue deviation : ℕ) → Policy Fixed
policy classes demand revenue deviation = record {
  classes = classes;
  demand = seats demand;
  total_revenue = seats revenue;
  std_dev = seats deviation;
}

abbrev closed : Policy Fixed
closed = policy none 0 0 0

abbrev one : Policy Fixed
one = policy (some (2 ∷ [])) 2 400 3

abbrev both : Policy Fixed
both = policy (some (3 ∷ 13 ∷ [])) 4 500 5

abbrev booking : ℕ → BookingClass Fixed
booking code = record {
  code = code;
  yield = seats 0;
  adjusted_yield = seats 0;
  mean = seats 0;
  std_dev = seats 0;
}

abbrev adjusted : (code yield : ℕ) → BookingClass Fixed
adjusted code yield = record (booking code) { adjusted_yield = seats yield }

abbrev node : ℕ → List ℕ → NestingNode Fixed
node yield classes = record { yield = seats yield; classes = classes }

abbrev before : List (BookingClass Fixed)
before = booking 1 ∷ booking 2 ∷ booking 3 ∷ booking 11 ∷ booking 12 ∷ booking 13 ∷ []

abbrev after : List (BookingClass Fixed)
after =
    adjusted 1 200
    ∷ record (adjusted 2 200) { mean = seats 2; std_dev = seats 3 }
    ∷ record (adjusted 3 50) { mean = seats 2; std_dev = seats 4 }
    ∷ adjusted 11 50
    ∷ adjusted 12 50
    ∷ adjusted 13 50
    ∷ []

adjusted_hull :
    adjust_yield_and_demand family_of
      (seats 0)
      (closed ∷ one ∷ both ∷ [])
      (family_of 1 ∷ family_of 11 ∷ [])
      (node 0 [] ∷ node 0 [] ∷ [])
      before
    ≡ some (node 200 (2 ∷ 1 ∷ []) ∷ node 50 (3 ∷ 13 ∷ 12 ∷ 11 ∷ []) ∷ [], after, true)
unfolding adjust_yield_and_demand diff_between_two_policies root_below ◌+ℤ◌ ◌-ℤ◌ ◌*ℤ◌ ◌/ℤ◌
adjusted_hull = refl

adjust_yield_and_demand_lem_example :
    (true ≡ true)
    × (2 ≤ 2)
    × ((done left : List (NestingNode Fixed)) × (last : Policy Fixed) × (node 200 (2 ∷ 1 ∷ [])
            ∷ node 50 (3 ∷ 13 ∷ 12 ∷ 11 ∷ [])
            ∷ []
          ≡ done ++ left)
        × HasSlopes closed (one ∷ both ∷ []) done last)
adjust_yield_and_demand_lem_example =
    adjust_yield_and_demand_lem family_of (seats 0) closed one (both ∷ [])
      (family_of 1 ∷ family_of 11 ∷ []) (node 0 [] ∷ node 0 [] ∷ []) before adjusted_hull
