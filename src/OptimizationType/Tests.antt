-- ===== src/OptimizationType/Tests.antt =====
-- The laws of the codes and labels at single kinds.
use rmol.Base.{◌≡◌, refl, ◌↔◌, some, none}
use rmol.OptimizationType.{of_char, of_string, get_label, get_type_label, heur_emsrb}
use rmol.OptimizationType.Laws.{constructors_iff}

unknown_code : of_char b'Z' ≡ none
unfolding of_char
unknown_code = refl

unknown_label : of_string "OptimalBy" ≡ none
unfolding of_string
unknown_label = refl

constructors_iff_example :
    ((of_char b'B' ≡ some heur_emsrb) ↔ (get_type_label heur_emsrb ≡ some b'B'))
    × ((of_string "HeuristicByEMSRb" ≡ some heur_emsrb)
        ↔ (get_label heur_emsrb ≡ some "HeuristicByEMSRb"))
constructors_iff_example = constructors_iff b'B' "HeuristicByEMSRb" heur_emsrb
