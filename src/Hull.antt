-- ===== src/Hull.antt =====
-- `buildConvexHull` and `buildNestedConvexHull` of rmol/command/MarginalRevenueTransformation.cpp.
-- The hull of a segment-cabin is the list of its policies from left to right.
pub mod Next
pub mod Complete
mod Tests
use rmol.Base.{
  ℕ, zero, suc, Bool, true, false, ◌&&◌, List, [], ◌∷◌, ◌++◌, Option, none, some, if◌then◌else◌,
  length, ◌>>=◌,
}
use rmol.Base.Double.{Double, ◌⊖◌, ◌⊘◌, nought}
use rmol.Policy.{Policy, is_nested}

module _ {ℓ} {D : Type ℓ} ⦃d : Double D⦄ where
  -- a greater demand and a greater total revenue
  unfoldable pub is_better : Policy D → Policy D → Bool
  is_better current p = d.lt current.demand p.demand && d.lt current.total_revenue p.total_revenue

  unfoldable pub gradient : Policy D → Policy D → D
  gradient current p = (p.total_revenue ⊖ current.total_revenue) ⊘ (p.demand ⊖ current.demand)

  module _ (eligible : Policy D → Policy D → Option Bool) where
    -- The loop over the policies, from the gradient and the policy found so far. `eligible` is
    -- asked for a better policy only.
    unfoldable pub find_next :
        Policy D → List (Policy D) → D → Option (Policy D) → Option (Option (Policy D))
    unfolding is_better gradient
    find_next current [] steepest next = some next
    find_next current (p ∷ ps) steepest next = do
      is_candidate ← if is_better current p then eligible current p else some false
      let taken = is_candidate && d.lt steepest (gradient current p)
      find_next current ps (if taken then gradient current p else steepest)
          (if taken then some p else next)

    -- The `while` loop on the hull built so far, for a number of rounds; `none` if they run out.
    unfoldable pub extend_hull :
        ℕ → List (Policy D) → Policy D → List (Policy D) → Option (List (Policy D))
    unfolding find_next
    extend_hull zero policies current hull = none
    extend_hull (suc rounds) policies current hull = do
      next ← find_next current policies nought none
      let more : Policy D → Option (List (Policy D)) =
          λ p. extend_hull rounds policies p (hull ++ p ∷ [])
      elim next [ none ↦ some hull | some p ↦ more p ]

    -- The hull starts with the first policy.
    unfoldable pub build_hull : List (Policy D) → Option (List (Policy D))
    unfolding extend_hull
    build_hull [] = none
    build_hull (first ∷ rest) =
        extend_hull (length (first ∷ rest)) (first ∷ rest) first (first ∷ [])

  unfoldable pub build_convex_hull : List (Policy D) → Option (List (Policy D))
  unfolding build_hull
  build_convex_hull = build_hull (λ _ _. some true)

  unfoldable pub build_nested_convex_hull :
      (ℕ → List ℕ) → List (Policy D) → Option (List (Policy D))
  unfolding build_hull
  build_nested_convex_hull family_of = build_hull (is_nested family_of)
