-- ===== src/Hull/Tests.antt =====
-- The hulls of a few policies over two fare families.
use rmol.Base.{ℕ, ◌*◌, ◌≡◌, refl, true, List, [], ◌∷◌, Option, none, some, if◌then◌else◌, ltb}
use rmol.Base.Int.{pos, ◌+ℤ◌, ◌-ℤ◌, ◌*ℤ◌, ◌/ℤ◌}
use rmol.Base.Fixed.{Fixed, fixed_double, Fixed-IsOrdered}
use rmol.Policy.{Policy, is_nested}
use rmol.Hull.{build_convex_hull, build_nested_convex_hull}
use rmol.Hull.Complete.{
  IsHull, always_answers, build_convex_hull-IsHull, build_nested_convex_hull-IsHull,
}

abbrev family_of : ℕ → List ℕ
family_of code = if ltb code 10 then 1 ∷ 2 ∷ 3 ∷ [] else 11 ∷ 12 ∷ 13 ∷ []

abbrev policy : Option (List ℕ) → (demand revenue : ℕ) → Policy Fixed
policy classes demand revenue = record {
  classes = classes;
  demand = pos (demand * 1000);
  total_revenue = pos (revenue * 1000);
  std_dev = pos 1000;
}

abbrev closed : Policy Fixed
closed = policy none 0 0

abbrev one : Policy Fixed
one = policy (some (2 ∷ [])) 2 400

abbrev higher : Policy Fixed
higher = policy (some (1 ∷ 13 ∷ [])) 3 450

abbrev lower : Policy Fixed
lower = policy (some (3 ∷ 13 ∷ [])) 5 500

abbrev others : List (Policy Fixed)
others = lower ∷ higher ∷ policy (some (1 ∷ [])) 1 100 ∷ one ∷ []

hull : build_convex_hull (closed ∷ others) ≡ some (closed ∷ one ∷ higher ∷ lower ∷ [])
unfolding build_convex_hull ◌+ℤ◌ ◌-ℤ◌ ◌*ℤ◌ ◌/ℤ◌
hull = refl

nested_hull :
    build_nested_convex_hull family_of (closed ∷ others) ≡ some (closed ∷ one ∷ lower ∷ [])
unfolding build_nested_convex_hull is_nested ◌+ℤ◌ ◌-ℤ◌ ◌*ℤ◌ ◌/ℤ◌
nested_hull = refl

build_convex_hull-IsHull_example :
    (rest : List (Policy Fixed)) × (build_convex_hull (closed ∷ others) ≡ some (closed ∷ rest))
    × IsHull Fixed-IsOrdered (λ _ _. some true) (λ _ _. (true, refl)) (closed ∷ others) closed rest
build_convex_hull-IsHull_example = build_convex_hull-IsHull Fixed-IsOrdered closed others

build_nested_convex_hull-IsHull_example :
    (rest : List (Policy Fixed)) × (build_nested_convex_hull family_of (closed ∷ others)
      ≡ some (closed ∷ rest))
    × IsHull Fixed-IsOrdered
        (is_nested family_of)
        (always_answers Fixed-IsOrdered family_of)
        (closed ∷ others)
        closed
        rest
build_nested_convex_hull-IsHull_example =
    build_nested_convex_hull-IsHull Fixed-IsOrdered family_of closed others
