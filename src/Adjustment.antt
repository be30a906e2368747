-- ===== src/Adjustment.antt =====
-- `adjustYieldAndDemand` and `prepareDemandInput` of rmol/command/
-- MarginalRevenueTransformation.cpp. The nodes are those of the yield-based nesting structure after
-- its reset, which StdAir does, and the classes are those of the segment-cabin.
pub mod Slopes
mod Tests
use rmol.Base.{
  ℕ, zero, suc, ◌+◌, Bool, true, false, List, [], ◌∷◌, ◌++◌, Option, none, some, ◌==◌, ltb, leb,
  if◌then◌else◌, length, ◌>>=◌, ◌>>◌, assert,
}
use rmol.Base.Double.{Double, ◌⊖◌, ◌⊗◌, ◌⊘◌, nought}
use rmol.Cabin.{BookingClass}
use rmol.Policy.{Policy, NestingNode, diff_between_two_policies, compute_last_node}
use rmol.Hull.{build_nested_convex_hull}

module _ {ℓ} {D : Type ℓ} where
  -- the change of the class that a pointer of a node leads to
  unfoldable pub change_class :
      ℕ → (BookingClass D → BookingClass D) → List (BookingClass D) → List (BookingClass D)
  change_class code f [] = []
  change_class code f (c ∷ cs) =
      let rest = change_class code f cs in if code == c.code then f c ∷ cs else c ∷ rest

  -- the loop over the classes of a node
  unfoldable pub set_adjusted_yields : D → List ℕ → List (BookingClass D) → List (BookingClass D)
  unfolding change_class
  set_adjusted_yields yield [] classes = classes
  set_adjusted_yields yield (code ∷ codes) classes =
      set_adjusted_yields yield codes
        (change_class code (λ c. record c { adjusted_yield = yield }) classes)

  -- the demand goes to the first class of the node
  unfoldable pub set_node_classes :
      (yield mean std_dev : D) → List ℕ → List (BookingClass D) → Option (List (BookingClass D))
  unfolding set_adjusted_yields
  set_node_classes yield mean std_dev [] classes = none
  set_node_classes yield mean std_dev (first ∷ codes) classes = some (
      set_adjusted_yields yield (first ∷ codes)
        (change_class first (λ c. record c { mean = mean; std_dev = std_dev }) classes))

-- what the loop leaves: the nodes done and those left, the classes, the count of those in the nodes
-- done, and the last policy
pub record Adjusted {ℓ} (D : Type ℓ) : Type ℓ where
  pub nodes_done : List (NestingNode D)
  pub nodes_left : List (NestingNode D)
  pub booking_classes : List (BookingClass D)
  pub counter : ℕ
  pub last : Policy D

module _ {ℓ} {D : Type ℓ} ⦃d : Double D⦄ (family_of : ℕ → List ℕ) where
  -- one round: from one policy of the hull to the next, at a node
  unfoldable pub adjust_step :
      (current next : Policy D)
      → NestingNode D
      → List (BookingClass D)
      → Option (NestingNode D × List (BookingClass D))
  unfolding set_node_classes
  adjust_step current next node classes = do
    codes ← diff_between_two_policies family_of node.classes next current
    let mean = next.demand ⊖ current.demand
    assert (d.lt nought mean)
    assert (d.lt current.std_dev next.std_dev)
    let std_dev = d.sqrt (next.std_dev ⊗ next.std_dev ⊖ current.std_dev ⊗ current.std_dev)
    let yield = (next.total_revenue ⊖ current.total_revenue) ⊘ mean
    assert (d.lt nought yield)
    classes' ← set_node_classes yield mean std_dev codes classes
    some (record { yield = yield; classes = codes }, classes')

  -- The loop over the hull. Where no node is left a new one is added, but then `++itNode` goes
  -- beyond the end of the list.
  unfoldable pub adjust_steps :
      Policy D
      → List (Policy D)
      → List (NestingNode D)
      → List (BookingClass D)
      → Option (Adjusted D)
  unfolding adjust_step
  adjust_steps current [] nodes classes = some (record {
    nodes_done = [];
    nodes_left = nodes;
    booking_classes = classes;
    counter = 0;
    last = current;
  })
  adjust_steps current (next ∷ rest) [] classes = none
  adjust_steps current (next ∷ rest) (node ∷ nodes) classes = do
    (node', classes') ← adjust_step current next node classes
    r ← adjust_steps next rest nodes classes'
    some (record {
      nodes_done = node' ∷ r.nodes_done;
      nodes_left = r.nodes_left;
      booking_classes = r.booking_classes;
      counter = length node'.classes + r.counter;
      last = r.last;
    })

  -- The node for the classes that no node has yet: the next one, or a new one.
  unfoldable pub with_last_node :
      (default_yield : D)
      → List (List ℕ)
      → Policy D
      → List (NestingNode D)
      → Option (List (NestingNode D))
  unfolding compute_last_node
  with_last_node default_yield families last [] = do
    node ←
        compute_last_node family_of default_yield (record { yield = default_yield; classes = [] })
          last families
    some (node ∷ [])
  with_last_node default_yield families last (node ∷ nodes) = do
    node' ← compute_last_node family_of default_yield node last families
    some (node' ∷ nodes)

  -- At the hull and the segment-cabin's fare families, nodes and classes; what is returned is the
  -- nodes and classes after it, and the method's result.
  unfoldable pub adjust_yield_and_demand :
      (default_yield : D)
      → (hull : List (Policy D)) → (families : List (List ℕ)) → List (NestingNode D)
      → List (BookingClass D)
      → Option (List (NestingNode D) × List (BookingClass D) × Bool)
  unfolding adjust_steps with_last_node
  adjust_yield_and_demand default_yield [] families nodes classes = none
  adjust_yield_and_demand default_yield (empty ∷ []) families nodes classes =
      some (nodes, classes, false)
  adjust_yield_and_demand default_yield (empty ∷ next ∷ rest) families nodes classes = do
    r ← adjust_steps empty (next ∷ rest) nodes classes
    let n = length classes
    assert (leb r.counter n)
    let completed = with_last_node default_yield families r.last r.nodes_left
    left ← if ltb r.counter n then completed else some r.nodes_left
    some (r.nodes_done ++ left, r.booking_classes, true)

  -- the hull and the adjustment
  unfoldable pub prepare_demand_by_hull :
      (default_yield : D)
      → (policies : List (Policy D)) → (families : List (List ℕ)) → List (NestingNode D)
      → List (BookingClass D)
      → Option (List (NestingNode D) × List (BookingClass D) × Bool)
  unfolding build_nested_convex_hull adjust_yield_and_demand
  prepare_demand_by_hull default_yield policies families nodes classes = do
    hull ← build_nested_convex_hull family_of policies
    adjust_yield_and_demand default_yield hull families nodes classes
