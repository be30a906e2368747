-- ===== src/Snapshots/Tests.antt =====
-- Five boarding dates.
use rmol.Base.{◌<◌, ◌↔◌, refl, List, [], ◌∷◌, arith}
use rmol.Base.Int.{ℤ, pos, negsuc, ◌+ℤ◌, ◌≤ℤ◌}
use rmol.Snapshots.{get_nb_of_segment_already_passed_this_dtd}
use rmol.Snapshots.Count.{passed_count-first}

abbrev boardings : List ℤ
boardings = negsuc 3 ∷ pos 3 ∷ pos 10 ∷ pos 17 ∷ pos 24 ∷ []

passed_count-first_example :
    (2 < get_nb_of_segment_already_passed_this_dtd boardings (pos 7) (pos 4))
    ↔ (pos 10 +ℤ pos 1 ≤ℤ pos 4 +ℤ pos 7)
passed_count-first_example =
    passed_count-first boardings (pos 7) (pos 4) 2
      (omega arith, (omega arith, (omega arith, (omega arith, tt)))) refl
