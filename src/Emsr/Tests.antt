-- ===== src/Emsr/Tests.antt =====
-- The EMSR heuristics on small cabins, with uniform demands in place of normal ones.
use mathlib.Core.List.{Perm, reverse}
use rmol.Base.{ℕ, ◌≡◌, refl, List, [], ◌∷◌, none, some, map, arith, length}
use rmol.Base.Int.{pos, ◌+ℤ◌, ◌-ℤ◌, ◌*ℤ◌, ◌/ℤ◌, pos_part}
use rmol.Base.Fixed.{Fixed, fixed_double, Fixed-IsOrdered, root_below}
use rmol.Base.Sorting.{IsSorted}
use rmol.Cabin.{VirtualClass, LegCabin}
use rmol.Cabin.Chain.{IsChained, unset}
use rmol.Cabin.Samples.{seats, class, cabin}
use rmol.Emsr.{
  advance_index, emsr_a_classes, emsr_b_classes, heuristic_optimisation_by_emsr, compute_emsr_value,
}
use rmol.Emsr.Samples.{uniform}
use rmol.Emsr.Linked.{levels_a, levels_b, emsr_a_classes_lem, emsr_b_classes_lem}
use rmol.Emsr.Index.{IsStop, advance_index-IsStop, emsr_reads_behind_end}
use rmol.Emsr.Values.{emsr_values, emsr_single_class}

abbrev three : List (VirtualClass Fixed)
three = class 100 [] ∷ class 50 [] ∷ class 25 [] ∷ []

abbrev with_limits : Fixed → Fixed → List (VirtualClass Fixed)
with_limits p q =
    record (class 100 []) { booking_limit = seats 9; protection = p }
    ∷ record (class 50 []) { booking_limit = seats 9 -ℤ p; protection = q }
    ∷ record (class 25 []) { booking_limit = seats 9 -ℤ q }
    ∷ []

run_a : emsr_a_classes uniform (seats 9) three ≡ some (with_limits (pos 2000) (pos 4500))
unfolding emsr_a_classes ◌+ℤ◌ ◌-ℤ◌ ◌*ℤ◌ ◌/ℤ◌
run_a = refl

run_b : emsr_b_classes uniform (seats 9) three ≡ some (with_limits (pos 2000) (pos 4473))
unfolding emsr_b_classes root_below ◌+ℤ◌ ◌-ℤ◌ ◌*ℤ◌ ◌/ℤ◌
run_b = refl

emsr_b_classes_lem_example :
    (levels_b uniform (class 100 []) (class 100 []) (class 50 [] ∷ class 25 [] ∷ [])
      ≡ some (pos 2000 ∷ pos 4473 ∷ seats 0 ∷ []))
    × IsChained (seats 9) (seats 9) (with_limits (pos 2000) (pos 4473))
    × (map unset (with_limits (pos 2000) (pos 4473)) ≡ map unset three)
emsr_b_classes_lem_example =
    emsr_b_classes_lem uniform (seats 9) (class 100 []) (class 50 [] ∷ class 25 [] ∷ []) run_b

emsr_a_classes_lem_example :
    (levels_a uniform [] (class 100 []) (class 50 [] ∷ class 25 [] ∷ [])
      ≡ some (pos 2000 ∷ pos 4500 ∷ seats 0 ∷ []))
    × IsChained (seats 9) (seats 9) (with_limits (pos 2000) (pos 4500))
    × (map unset (with_limits (pos 2000) (pos 4500)) ≡ map unset three)
emsr_a_classes_lem_example =
    emsr_a_classes_lem uniform (seats 9) (class 100 []) (class 50 [] ∷ class 25 [] ∷ []) run_a

abbrev falling : List Fixed
falling = seats 90 ∷ seats 70 ∷ seats 40 ∷ seats 10 ∷ []

advance_index-IsStop_example :
    (k : ℕ) × (advance_index 3 4 1 (seats 40) falling ≡ some k) × IsStop 4 1 (seats 40) falling k
advance_index-IsStop_example =
    advance_index-IsStop 3 4 1 (seats 40) falling (omega arith) (omega arith) (omega arith)

emsr_reads_behind_end_example : heuristic_optimisation_by_emsr uniform (cabin three) ≡ none
emsr_reads_behind_end_example = emsr_reads_behind_end uniform (cabin three) (omega arith)

abbrev single : LegCabin Fixed
single = record (cabin (class 100 [] ∷ [])) { offered_capacity = seats 2 }

emsr_single_class_example :
    (prices : List Fixed) × (heuristic_optimisation_by_emsr uniform single
      ≡ some (record single { bid_prices = prices }))
    × (length prices ≡ pos_part (pos 2))
    × Perm prices (seats 100 ∷ seats 50 ∷ [])
    × IsSorted (reverse prices)
unfolding emsr_values compute_emsr_value ◌+ℤ◌ ◌-ℤ◌ ◌*ℤ◌ ◌/ℤ◌
emsr_single_class_example =
    emsr_single_class uniform Fixed-IsOrdered single (class 100 []) (seats 100 ∷ seats 50 ∷ []) refl
      refl (refl, (refl, tt))
