-- ===== src/Hull/Complete.antt =====
-- The loops of rmol/command/MarginalRevenueTransformation.cpp that build a convex hull: they end,
-- and what the hull is.
use mathlib.Core.List.{Memᴰ, append-nil, append_assoc}
use rmol.Base.{
  ℕ, zero, suc, ◌≤◌, ◌<◌, ◌≡◌, refl, sym, ap, ◌∙◌, subst, inl, inr, Bool, true, false, List, [],
  ◌∷◌, ◌++◌, Option, none, some, arith, if◌then◌else◌, length,
}
use rmol.Base.Double.{Double, IsOrdered, ◌≺◌, nought}
use rmol.Policy.{Policy, is_nested}
use rmol.Policy.Nested.{is_nested-total}
use rmol.Hull.{is_better, extend_hull, build_hull, build_convex_hull, build_nested_convex_hull}
use rmol.Hull.Next.{is_candidate, IsSteepest, IsNext, find_next-IsOutcome}

module _ {ℓ} {D : Type ℓ} ⦃d : Double D⦄ (laws : IsOrdered D) where
  -- the number of policies with a greater demand
  unfoldable count_above : D → List (Policy D) → ℕ
  count_above y [] = 0
  count_above y (p ∷ ps) = let rest = count_above y ps in if d.lt y p.demand then suc rest else rest

  count_above-length : (y : D) (ps : List (Policy D)) → count_above y ps ≤ length ps
  unfolding count_above
  count_above-length y [] = omega arith
  count_above-length y (p ∷ ps) = ground (arith, count_above-length y ps)

  count_above-le : (a b : D) (ps : List (Policy D)) → a ≺ b → count_above b ps ≤ count_above a ps
  unfolding count_above
  count_above-le a b [] h = omega arith
  count_above-le a b (p ∷ ps) h =
      ground (arith, count_above-le a b ps h, laws.lt_trans a b p.demand h)

  count_above-lt :
      (a : D) (q : Policy D) (ps : List (Policy D))
      → a ≺ q.demand
      → Memᴰ q ps
      → count_above q.demand ps < count_above a ps
  unfolding count_above
  count_above-lt a q [] h m = elim m [ ]
  count_above-lt a q (p ∷ ps) h (Memᴰ.head e) =
      let own : d.lt q.demand p.demand ≡ false =
        subst (λ (r : Policy D). d.lt q.demand r.demand ≡ false) e (laws.lt_irrefl q.demand) in
      let up : d.lt a p.demand ≡ true = subst (λ (r : Policy D). d.lt a r.demand ≡ true) e h in
      let others = count_above-le a q.demand ps h in rw (own, up) (omega (arith, others))
  count_above-lt a q (p ∷ ps) h (Memᴰ.tail m) =
      ground (arith, count_above-lt a q ps h m, laws.lt_trans a q.demand p.demand h)

  module _ (eligible : Policy D → Policy D → Option Bool)
      (total : (p q : Policy D) → (b : Bool) × (eligible p q ≡ some b)) where
    -- Each policy of the tail is the steepest candidate after the one before, and there is none
    -- after the last.
    unfoldable pub IsHull : List (Policy D) → Policy D → List (Policy D) → Type ℓ
    IsHull policies current [] = Unit {ℓ} × IsSteepest laws eligible total current nought policies
    IsHull policies current (q ∷ qs) =
        IsNext laws eligible total current nought policies q × IsHull policies q qs

    candidate-demand :
        (current q : Policy D)
        → is_candidate laws eligible total current q ≡ true
        → current.demand ≺ q.demand
    unfolding is_better
    candidate-demand current q h = ground (arith, h)

    extend_hull-IsHull :
        (rounds : ℕ) (policies : List (Policy D)) (current : Policy D) (hull : List (Policy D))
        → count_above current.demand policies < rounds
        → (rest : List (Policy D)) × (extend_hull eligible rounds policies current hull
            ≡ some (hull ++ rest))
          × IsHull policies current rest
    unfolding extend_hull IsHull
    extend_hull-IsHull zero policies current hull h = absurd (omega arith)
    extend_hull-IsHull (suc rounds) policies current hull h =
        let (result, run, outcome) =
          find_next-IsOutcome laws eligible total current policies nought none in
        elim outcome [
          | inl (e, s) ↦ ([], rw (run, e) (ap some (sym (append-nil hull))), (tt, s))
          | inr (q, e, n) ↦
              let less =
                count_above-lt current.demand q policies (candidate-demand current q n.candidate)
                  n.member in
              let (rest, more, chain) =
                extend_hull-IsHull rounds policies q (hull ++ q ∷ []) (omega (arith, less)) in
              (q ∷ rest, rw (run, e) more ∙ ap some (append_assoc hull (q ∷ []) rest), (n, chain))
        ]

    build_hull-IsHull :
        (first : Policy D) (others : List (Policy D))
        → (rest : List (Policy D)) × (build_hull eligible (first ∷ others) ≡ some (first ∷ rest))
          × IsHull (first ∷ others) first rest
    unfolding build_hull count_above
    build_hull-IsHull first others =
        let own = laws.lt_irrefl first.demand in
        let few : count_above first.demand (first ∷ others) ≤ length others =
          rw own (count_above-length first.demand others) in
        extend_hull-IsHull (suc (length others)) (first ∷ others) first (first ∷ [])
          (omega (arith, few))

  -- The convex hull is built: it starts with the first policy; each further one has the steepest
  -- rise of the total revenue, a positive one, among the policies with a greater demand and a
  -- greater total revenue than the one before; and after the last no policy has such a rise.
  pub build_convex_hull-IsHull :
      (first : Policy D) (others : List (Policy D))
      → (rest : List (Policy D)) × (build_convex_hull (first ∷ others) ≡ some (first ∷ rest))
        × IsHull (λ _ _. some true) (λ _ _. (true, refl)) (first ∷ others) first rest
  unfolding build_convex_hull
  build_convex_hull-IsHull first others =
      build_hull-IsHull (λ _ _. some true) (λ _ _. (true, refl)) first others

  abbrev pub always_answers :
      (family_of : ℕ → List ℕ) (p q : Policy D) → (b : Bool) × (is_nested family_of p q ≡ some b)
  always_answers family_of p q = let t = is_nested-total family_of p q in (t.0, t.1)

  -- So is the nested one, among the policies that the one before is nested in.
  pub build_nested_convex_hull-IsHull :
      (family_of : ℕ → List ℕ) (first : Policy D) (others : List (Policy D))
      → (rest : List (Policy D)) × (build_nested_convex_hull family_of (first ∷ others)
          ≡ some (first ∷ rest))
        × IsHull (is_nested family_of) (always_answers family_of) (first ∷ others) first rest
  unfolding build_nested_convex_hull
  build_nested_convex_hull-IsHull family_of first others =
      build_hull-IsHull (is_nested family_of) (always_answers family_of) first others
