-- ===== src/Policy/Nested.antt =====
-- `isNested` of rmol/bom/PolicyHelper.cpp: it reads no list behind its end, and what it says.
use rmol.Base.{
  ℕ, ◌≤◌, ◌≡◌, ◌⊎◌, ◌↔◌, refl, inl, inr, Bool, true, false, List, [], ◌∷◌, Option, none, some,
  arith, length, Bool-cases, ◌==◌, ltb,
}
use rmol.Policy.{Policy, precedes, pairs_in_order, classes_nested, is_nested}

module _ (family_of : ℕ → List ℕ) where
  -- The pairs of the two lists are in order up to the first equal pair: no second class comes
  -- before the first one in its family.
  unfoldable pub AreInOrder : List ℕ → List ℕ → Type 0
  AreInOrder [] seconds = Unit
  AreInOrder (f ∷ fs) [] = Unit
  AreInOrder (f ∷ fs) (s ∷ ss) = (f ≡ s) ⊎ ((precedes f s (family_of f) ≡ false) × AreInOrder fs ss)

  pairs_in_order-total :
      (firsts seconds : List ℕ)
      → length firsts ≤ length seconds
      → (b : Bool) × (pairs_in_order family_of firsts seconds ≡ some b)
        × ((b ≡ true) ↔ AreInOrder firsts seconds)
  unfolding pairs_in_order AreInOrder
  pairs_in_order-total [] seconds h = (true, refl, ((λ _. tt), (λ _. refl)))
  pairs_in_order-total (f ∷ fs) [] h = absurd (omega arith)
  pairs_in_order-total (f ∷ fs) (s ∷ ss) h = elim (Bool-cases (f == s)) [
    | inl same ↦ (true, rw same refl, ((λ _. inl (ground (arith, same))), (λ _. refl)))
    | inr differ ↦ elim (Bool-cases (precedes f s (family_of f))) [
      | inl before ↦ (
        false,
        rw (differ, before) refl,
        (
          (λ e. absurd (ground (arith, e))),
          (λ o. elim o [
            | inl e ↦ ground (arith, e, differ)
            | inr (p, _) ↦ ground (arith, p, before)
          ]),
        ),
      )
      | inr behind ↦
          let (b, run, (to, from)) = pairs_in_order-total fs ss (omega arith) in
          (
            b,
            rw (differ, behind) run,
            (
              (λ e. inr (behind, to e)),
              (λ o. elim o [ inl e ↦ absurd (ground (arith, e, differ)) | inr (_, q) ↦ from q ]),
            ),
          )
    ]
  ]

  -- a policy without a list is nested in each; else the sizes and the pairs decide
  unfoldable pub IsNestedIn : Option (List ℕ) → Option (List ℕ) → Type 0
  IsNestedIn none second = Unit
  IsNestedIn (some firsts) none = ⊥
  IsNestedIn (some firsts) (some seconds) =
      (length firsts ≤ length seconds) × AreInOrder firsts seconds

  classes_nested-total :
      (first second : Option (List ℕ))
      → (b : Bool) × (classes_nested family_of first second ≡ some b)
        × ((b ≡ true) ↔ IsNestedIn first second)
  unfolding classes_nested IsNestedIn
  classes_nested-total none second = (true, refl, ((λ _. tt), (λ _. refl)))
  classes_nested-total (some firsts) none =
      (false, refl, ((λ e. absurd (ground (arith, e))), (λ o. absurd o)))
  classes_nested-total (some firsts) (some seconds) =
      elim (Bool-cases (ltb (length seconds) (length firsts))) [
        | inl more ↦ (
          false,
          rw more refl,
          (
            (λ e. absurd (ground (arith, e))),
            (λ (o : (length firsts ≤ length seconds) × AreInOrder firsts seconds).
                absurd (ground (arith, o.0, more))),
          ),
        )
        | inr enough ↦
            let fits : length firsts ≤ length seconds = ground (arith, enough) in
            let (b, run, (to, from)) = pairs_in_order-total firsts seconds fits in
            (
              b,
              rw enough run,
              (
                (λ e. (fits, to e)),
                (λ (o : (length firsts ≤ length seconds) × AreInOrder firsts seconds). from o.1),
              ),
            )
      ]

  -- The test never reads behind the end of a list; it is true exactly if the first policy has no
  -- list, or both have one, the first is not longer, and the pairs are in order up to the first
  -- equal pair, which ends the comparison.
  pub is_nested-total {ℓ} :
      {D : Type ℓ}
      → (first second : Policy D)
      → (b : Bool) × (is_nested family_of first second ≡ some b)
        × ((b ≡ true) ↔ IsNestedIn first.classes second.classes)
  unfolding is_nested
  is_nested-total first second = classes_nested-total first.classes second.classes
