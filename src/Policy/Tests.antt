-- ===== src/Policy/Tests.antt =====
-- Policies over two fare families: 1 to 3 and 11 to 13, from high to low.
use rmol.Base.{ℕ, ◌≡◌, ◌↔◌, refl, Bool, true, false, List, [], ◌∷◌, some, if◌then◌else◌, ltb, arith}
use rmol.Base.Int.{pos}
use rmol.Base.Fixed.{Fixed}
use rmol.Policy.{
  Policy, NestingNode, is_in, is_nested, diff_between_booking_class_and_policy,
  diff_between_two_policies, compute_last_node,
}
use rmol.Policy.Nested.{IsNestedIn, is_nested-total}
use rmol.Policy.Between.{diff_between_classes, diff_from_class}

abbrev family_of : ℕ → List ℕ
family_of code = if ltb code 10 then 1 ∷ 2 ∷ 3 ∷ [] else 11 ∷ 12 ∷ 13 ∷ []

abbrev policy : List ℕ → Policy Fixed
policy classes = record {
  classes = some classes;
  demand = pos 0;
  total_revenue = pos 0;
  std_dev = pos 0;
}

in_order : is_nested family_of (policy (1 ∷ [])) (policy (2 ∷ 13 ∷ [])) ≡ some true
unfolding is_nested
in_order = refl

out_of_order : is_nested family_of (policy (3 ∷ [])) (policy (2 ∷ [])) ≡ some false
unfolding is_nested
out_of_order = refl

-- the second pairs are not in order, but the first pair is equal
stopped_early : is_nested family_of (policy (1 ∷ 13 ∷ [])) (policy (1 ∷ 12 ∷ [])) ≡ some true
unfolding is_nested
stopped_early = refl

is_nested-total_example :
    (b : Bool) × (is_nested family_of (policy (3 ∷ [])) (policy (2 ∷ [])) ≡ some b)
    × ((b ≡ true) ↔ IsNestedIn family_of (some (3 ∷ [])) (some (2 ∷ [])))
is_nested-total_example = is_nested-total family_of (policy (3 ∷ [])) (policy (2 ∷ []))

two_policies :
    diff_between_two_policies family_of [] (policy (3 ∷ 12 ∷ [])) (policy (1 ∷ []))
    ≡ some (3 ∷ 2 ∷ 12 ∷ 11 ∷ [])
unfolding diff_between_two_policies
two_policies = refl

abbrev node : List ℕ → NestingNode Fixed
node classes = record { yield = pos 0; classes = classes }

last_node :
    compute_last_node family_of
      (pos 0)
      (node [])
      (policy (2 ∷ []))
      (family_of 1 ∷ family_of 11 ∷ [])
    ≡ some (node (13 ∷ 12 ∷ 11 ∷ 3 ∷ []))
unfolding compute_last_node
last_node = refl

diff_between_classes_example :
    diff_between_booking_class_and_policy (20 ∷ []) (1 ∷ 2 ∷ 3 ∷ 4 ∷ 5 ∷ []) 4 (some (2 ∷ 11 ∷ []))
    ≡ some (20 ∷ 4 ∷ 3 ∷ [])
unfolding is_in
diff_between_classes_example =
    diff_between_classes (20 ∷ []) (1 ∷ []) (3 ∷ []) (5 ∷ []) (2 ∷ 11 ∷ []) 4 2
      ((λ e. absurd (omega (arith, e))), tt)
      ((λ e. absurd (omega (arith, e))), ((λ e. absurd (omega (arith, e))), tt)) (refl, tt) refl

diff_from_class_example :
    diff_between_booking_class_and_policy (20 ∷ []) (1 ∷ 2 ∷ 3 ∷ []) 2 (some (11 ∷ []))
    ≡ some (20 ∷ 2 ∷ 1 ∷ [])
unfolding is_in
diff_from_class_example =
    diff_from_class (20 ∷ []) (1 ∷ []) (3 ∷ []) (11 ∷ []) 2 ((λ e. absurd (omega (arith, e))), tt)
      (refl, (refl, (refl, tt)))
