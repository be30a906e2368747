-- ===== src/Hull/Next.antt =====
-- One round of the loops of rmol/command/MarginalRevenueTransformation.cpp: the policy found.
use mathlib.Core.List.{Memᴰ}
use rmol.Base.{
  ◌≡◌, ◌⊎◌, refl, inl, inr, Bool, true, false, ◌&&◌, List, [], ◌∷◌, Option, some, arith,
  if◌then◌else◌, All, Bool-cases,
}
use rmol.Base.Double.{Double, IsOrdered, ◌≺◌}
use rmol.Policy.{Policy}
use rmol.Hull.{is_better, gradient, find_next}

module _ {ℓ} {D : Type ℓ} ⦃d : Double D⦄ (laws : IsOrdered D)
    (eligible : Policy D → Policy D → Option Bool)
    (total : (p q : Policy D) → (b : Bool) × (eligible p q ≡ some b)) where
  abbrev pub is_eligible : Policy D → Policy D → Bool
  is_eligible p q = (total p q).0

  -- the policies that a round considers
  abbrev pub is_candidate : Policy D → Policy D → Bool
  is_candidate current p = is_better current p && is_eligible current p

  -- no candidate is steeper
  abbrev pub IsSteepest : Policy D → D → List (Policy D) → Type 0
  IsSteepest current slope ps =
      All
        (λ (p : Policy D). is_candidate current p ≡ true → d.lt slope (gradient current p) ≡ false)
        ps

  -- `found` is a candidate among the policies, with a slope above `least`, and none is steeper
  pub record IsNext (current : Policy D) (least : D) (ps : List (Policy D)) (found : Policy D)
      : Type ℓ where
    pub member : Memᴰ found ps
    pub candidate : is_candidate current found ≡ true
    pub above : least ≺ gradient current found
    pub steepest : IsSteepest current (gradient current found) ps

  -- what a round ends with, from the slope and the policy found so far
  abbrev pub IsOutcome :
      Policy D → List (Policy D) → D → Option (Policy D) → Option (Policy D) → Type ℓ
  IsOutcome current ps slope next result =
      ((result ≡ next) × IsSteepest current slope ps)
      ⊎ ((q : Policy D) × (result ≡ some q) × IsNext current slope ps q)

  asked :
      (current p : Policy D)
      → (if is_better current p then eligible current p else some false)
        ≡ some (is_candidate current p)
  asked current p = elim (Bool-cases (is_better current p)) [
    | inl better ↦ rw better ((total current p).1)
    | inr not_better ↦ rw not_better refl
  ]

  lt_asym : (a b : D) → a ≺ b → d.lt b a ≡ false
  lt_asym a b h = elim (Bool-cases (d.lt b a)) [
    | inl back ↦ absurd (ground (arith, laws.lt_trans a b a h back, laws.lt_irrefl a))
    | inr no_way ↦ no_way
  ]

  -- a slope that is not above the least one is not above a greater one
  not_above : (least a b : D) → d.lt least b ≡ false → least ≺ a → d.lt a b ≡ false
  not_above least a b h g = elim (Bool-cases (d.lt a b)) [
    | inl up ↦ absurd (ground (arith, laws.lt_trans least a b g up, h))
    | inr no_way ↦ no_way
  ]

  IsOutcome-taken :
      (current p : Policy D) (ps : List (Policy D)) (slope : D) (next result : Option (Policy D))
      → is_candidate current p ≡ true
      → slope ≺ gradient current p
      → IsOutcome current ps (gradient current p) (some p) result
      → IsOutcome current (p ∷ ps) slope next result
  IsOutcome-taken current p ps slope next result c h (inl (e, s)) = inr (
    p,
    e,
    record {
      member = Memᴰ.head refl;
      candidate = c;
      above = h;
      steepest = ((λ _. laws.lt_irrefl (gradient current p)), s);
    },
  )
  IsOutcome-taken current p ps slope next result c h (inr (q, e, n)) = inr (
    q,
    e,
    record {
      member = Memᴰ.tail n.member;
      candidate = n.candidate;
      above = laws.lt_trans _ _ _ h n.above;
      steepest = ((λ _. lt_asym _ _ n.above), n.steepest);
    },
  )

  IsOutcome-passed :
      (current p : Policy D) (ps : List (Policy D)) (slope : D) (next result : Option (Policy D))
      → (is_candidate current p ≡ true → d.lt slope (gradient current p) ≡ false)
      → IsOutcome current ps slope next result
      → IsOutcome current (p ∷ ps) slope next result
  IsOutcome-passed current p ps slope next result h (inl (e, s)) = inl (e, (h, s))
  IsOutcome-passed current p ps slope next result h (inr (q, e, n)) = inr (
    q,
    e,
    record {
      member = Memᴰ.tail n.member;
      candidate = n.candidate;
      above = n.above;
      steepest = ((λ c. not_above _ _ _ (h c) n.above), n.steepest);
    },
  )

  -- A round returns. It finds the steepest candidate, if one is steeper than the slope so far.
  pub find_next-IsOutcome :
      (current : Policy D) (ps : List (Policy D)) (slope : D) (next : Option (Policy D))
      → (result : Option (Policy D)) × (find_next eligible current ps slope next ≡ some result)
        × IsOutcome current ps slope next result
  unfolding find_next
  find_next-IsOutcome current [] slope next = (next, refl, inl (refl, tt))
  find_next-IsOutcome current (p ∷ ps) slope next =
      elim (Bool-cases (is_candidate current p && d.lt slope (gradient current p))) [
        | inl taken ↦
            let (result, run, o) = find_next-IsOutcome current ps (gradient current p) (some p) in
            let own : is_candidate current p ≡ true = ground (arith, taken) in
            (
              result,
              rw (asked current p, taken) run,
              IsOutcome-taken current p ps slope next result own (ground (arith, taken)) o,
            )
        | inr passed ↦
            let (result, run, o) = find_next-IsOutcome current ps slope next in
            (
              result,
              rw (asked current p, passed) run,
              IsOutcome-passed current p ps slope next result (λ c. ground (arith, rw c at passed))
                  o,
            )
      ]
