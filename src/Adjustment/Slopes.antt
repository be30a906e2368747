-- ===== src/Adjustment/Slopes.antt =====
-- `adjustYieldAndDemand` of rmol/command/MarginalRevenueTransformation.cpp: the yields of the
-- nodes, and the case that there are too few of them.
use mathlib.Core.Option.{some-injective}
use rmol.Base.{
  ℕ, suc, ◌+◌, ◌≤◌, ◌≡◌, refl, sym, ap, subst, Bool, true, List, [], ◌∷◌, ◌++◌, some, arith, ltb,
  leb, length, if◌then◌else◌, >>=-eq-some, assert-eq-some,
}
use rmol.Base.Double.{Double, ◌⊖◌, ◌⊗◌, ◌≺◌, nought}
use rmol.Cabin.{BookingClass}
use rmol.Policy.{Policy, NestingNode, diff_between_two_policies}
use rmol.Hull.{gradient}
use rmol.Adjustment.{
  Adjusted, set_node_classes, adjust_step, adjust_steps, with_last_node, adjust_yield_and_demand,
}

module _ {ℓ} {D : Type ℓ} ⦃d : Double D⦄ where
  -- the yield of the node for a step of the hull, whose demand, deviation and yield are positive
  abbrev pub IsStep : Policy D → Policy D → NestingNode D → Type ℓ
  IsStep current next node =
      (node.yield ≡ gradient current next)
      × (nought ≺ node.yield)
      × (nought ≺ next.demand ⊖ current.demand)
      × (current.std_dev ≺ next.std_dev)

  -- one node for each step of the hull from a policy on, and the last policy
  pub data HasSlopes : Policy D → List (Policy D) → List (NestingNode D) → Policy D → Type ℓ where
    end_of_hull : {current : Policy D} → HasSlopes current [] [] current
    step :
        {current next last : Policy D} {rest : List (Policy D)} {node : NestingNode D}
        {nodes : List (NestingNode D)}
        → IsStep current next node
        → HasSlopes next rest nodes last
        → HasSlopes current (next ∷ rest) (node ∷ nodes) last

module _ {ℓ} {D : Type ℓ} ⦃d : Double D⦄ (family_of : ℕ → List ℕ) where
  adjust_step-yield :
      (current next : Policy D) (node : NestingNode D) (classes : List (BookingClass D))
      {node' : NestingNode D} {classes' : List (BookingClass D)}
      → adjust_step family_of current next node classes ≡ some (node', classes')
      → IsStep current next node'
  unfolding adjust_step gradient
  adjust_step-yield current next node classes e =
      let (codes, _, e1) =
        >>=-eq-some (diff_between_two_policies family_of node.classes next current) _ e in
      let (up, e2) = assert-eq-some _ _ e1 in
      let (wide, e3) = assert-eq-some _ _ e2 in
      let (rich, e4) = assert-eq-some _ _ e3 in
      let mean = next.demand ⊖ current.demand in
      let std_dev = d.sqrt (next.std_dev ⊗ next.std_dev ⊖ current.std_dev ⊗ current.std_dev) in
      let (_, _, e5) =
        >>=-eq-some (set_node_classes (gradient current next) mean std_dev codes classes) _ e4 in
      subst (λ (p : NestingNode D × List (BookingClass D)). IsStep current next p.0)
        (some-injective _ _ e5) (refl, rich, up, wide)

  adjust_steps-HasSlopes :
      (current : Policy D) (rest : List (Policy D)) (nodes : List (NestingNode D))
      (classes : List (BookingClass D)) {r : Adjusted D}
      → adjust_steps family_of current rest nodes classes ≡ some r
      → HasSlopes current rest r.nodes_done r.last
        × (length r.nodes_done + length r.nodes_left ≡ length nodes)
  unfolding adjust_steps
  adjust_steps-HasSlopes current [] nodes classes e =
      subst
        (λ (r : Adjusted D).
          HasSlopes current [] r.nodes_done r.last
          × (length r.nodes_done + length r.nodes_left ≡ length nodes))
        (some-injective _ _ e) (end_of_hull, omega arith)
  adjust_steps-HasSlopes current (next ∷ rest) [] classes e = cc
  adjust_steps-HasSlopes current (next ∷ rest) (node ∷ nodes) classes e =
      let ((node', classes'), one, e1) =
        >>=-eq-some (adjust_step family_of current next node classes) _ e in
      let (r, others, e2) = >>=-eq-some (adjust_steps family_of next rest nodes classes') _ e1 in
      let (slopes, count) = adjust_steps-HasSlopes next rest nodes classes' others in
      subst
        (λ (r : Adjusted D).
          HasSlopes current (next ∷ rest) r.nodes_done r.last
          × (length r.nodes_done + length r.nodes_left ≡ suc (length nodes)))
        (some-injective _ _ e2)
        (step (adjust_step-yield current next node classes one) slopes, omega (arith, count))

  HasSlopes-length :
      {current last : Policy D} {rest : List (Policy D)} {nodes : List (NestingNode D)}
      → HasSlopes current rest nodes last
      → length nodes ≡ length rest
  HasSlopes-length end_of_hull = refl
  HasSlopes-length (step s slopes) = ap suc (HasSlopes-length slopes)

  -- On a hull with a step, if the method returns, its result is true, there was a node for each
  -- step before, and the first nodes have the slopes of the steps as their yields, in their order;
  -- the slopes, the demands of the steps and the rises of the deviation are positive.
  pub adjust_yield_and_demand_lem :
      (default_yield : D) (empty next : Policy D) (rest : List (Policy D))
      (families : List (List ℕ)) (nodes : List (NestingNode D)) (classes : List (BookingClass D))
      {nodes' : List (NestingNode D)} {classes' : List (BookingClass D)} {flag : Bool}
      → adjust_yield_and_demand family_of default_yield (empty ∷ next ∷ rest) families nodes classes
        ≡ some (nodes', classes', flag)
      → (flag ≡ true)
        × (length (next ∷ rest) ≤ length nodes)
        × ((done left : List (NestingNode D)) × (last : Policy D) × (nodes' ≡ done ++ left)
            × HasSlopes empty (next ∷ rest) done last)
  unfolding adjust_yield_and_demand
  adjust_yield_and_demand_lem default_yield empty next rest families nodes classes e =
      let (r, steps, e1) =
        >>=-eq-some (adjust_steps family_of empty (next ∷ rest) nodes classes) _ e in
      let n = length classes in
      let (_, e2) = assert-eq-some (leb r.counter n) _ e1 in
      let completed = with_last_node family_of default_yield families r.last r.nodes_left in
      let (left, _, e3) =
        >>=-eq-some (if ltb r.counter n then completed else some r.nodes_left) _ e2 in
      let (slopes, count) = adjust_steps-HasSlopes empty (next ∷ rest) nodes classes steps in
      let size = HasSlopes-length slopes in
      let result = some-injective _ _ e3 in
      (
        ap (λ p. p.2) (sym result),
        omega (arith, count, size),
        (r.nodes_done, left, r.last, ap (λ p. p.0) (sym result), slopes),
      )
