-- ===== src/Service/Kept.antt =====
-- The projections of rmol/service/RMOL_Service.cpp: leg-cabins that a loop keeps as they were.
use mathlib.Core.Option.{some-injective}
use rmol.Base.{
  ℕ, ◌≡◌, ◌≢◌, sym, ap, ◌∙◌, subst, inl, inr, true, List, [], ◌∷◌, Option, none, some, All,
  get_elem?, Option-cases, >>=-eq-some, get_elem?-set_ne,
}
use rmol.Base.Int.{ℤ}
use rmol.Cabin.{LegCabin}
use rmol.Service.{OndCabin, OndSegment, OndDemand, OndDate, Inventory, for_each, is_dcp, update_leg}
use rmol.Service.Projection.{Legs, for_segments, if_operated}

-- A loop keeps what each of its steps keeps at elements with some property.
pub for_each-keeps {ℓ κ ι λ'} :
    {A : Type ℓ} {S : Type κ} (step : A → S → Option S) (Q : A → Type ι) (P : S → Type λ')
    → ((a : A) (s s' : S) → Q a → step a s ≡ some s' → P s → P s')
    → (xs : List A) (s : S) {s' : S} → All Q xs
    → for_each step xs s ≡ some s'
    → P s
    → P s'
unfolding for_each
for_each-keeps step Q P keeps [] s q e p = subst P (some-injective _ _ e) p
for_each-keeps step Q P keeps (x ∷ xs) s (q, qs) e p =
    let (s1, one, more) = >>=-eq-some (step x s) _ e in
    for_each-keeps step Q P keeps xs s1 qs more (keeps x s s1 q one p)

module _ {ℓ} {D : Type ℓ} (j : ℕ) where
  -- A leg-cabin is not of the cabin at a segment, if that is operated: nor at any of some segments,
  -- in any demand of an O&D date, in any O&D date of an
  -- inventory that is on a data collection point.
  abbrev pub IsNotOf : ℕ × ℕ → OndSegment D → Type ℓ
  IsNotOf at segment =
      (cabin : OndCabin D)
      → segment.operating ≡ none
      → segment.cabins at.0 ≡ some cabin
      → All (λ i. i ≢ j) cabin.leg_cabins

  abbrev pub IsNotAmong : List (ℕ × ℕ) → List (OndSegment D) → Type ℓ
  IsNotAmong (at ∷ ats) (segment ∷ segments) = IsNotOf at segment × IsNotAmong ats segments
  IsNotAmong ats [] = Unit
  IsNotAmong [] (segment ∷ segments) = Unit

  abbrev pub IsNotOperated : OndDate D → Type ℓ
  IsNotOperated ond =
      All (λ (demand : OndDemand D). IsNotAmong demand.cabin_classes ond.segments) ond.demands

  abbrev pub IsNotServed : (whole : List ℤ) (today : ℤ) → Inventory D → Type ℓ
  IsNotServed whole today inventory =
      All (λ (ond : OndDate D). is_dcp whole ond.date today ≡ true → IsNotOperated ond)
        inventory.onds

module _ {ℓ} {D : Type ℓ} (j : ℕ) (before : Option (LegCabin D)) where
  -- the leg-cabin is as before
  abbrev pub IsKept : Legs D → Type ℓ
  IsKept legs = get_elem? legs j ≡ before

  pub update_leg-IsKept :
      (f : LegCabin D → LegCabin D) (i : ℕ) (legs legs' : Legs D)
      → i ≢ j
      → update_leg f i legs ≡ some legs'
      → IsKept legs
      → IsKept legs'
  unfolding update_leg
  update_leg-IsKept f i legs legs' ne e k =
      let (cabin, at, e1) = >>=-eq-some (get_elem? legs i) _ e in
      ap (λ ls. get_elem? ls j) (sym (some-injective _ _ e1))
      ∙ get_elem?-set_ne legs i j (f cabin) ne
      ∙ k

  pub for_segments-IsKept :
      (step : ℕ × ℕ → OndSegment D → Legs D → Option (Legs D))
      → ((at : ℕ × ℕ) (segment : OndSegment D) (legs legs' : Legs D)
          → IsNotOf j at segment
          → step at segment legs ≡ some legs'
          → IsKept legs
          → IsKept legs')
      → (ats : List (ℕ × ℕ)) (segments : List (OndSegment D)) (legs : Legs D) {legs' : Legs D}
      → IsNotAmong j ats segments
      → for_segments step ats segments legs ≡ some legs'
      → IsKept legs
      → IsKept legs'
  unfolding for_segments
  for_segments-IsKept step keeps (at ∷ ats) (segment ∷ segments) legs (here, others) e k =
      let (legs1, one, more) = >>=-eq-some (step at segment legs) _ e in
      for_segments-IsKept step keeps ats segments legs1 others more
        (keeps at segment legs legs1 here one k)
  for_segments-IsKept step keeps [] [] legs n e k = subst IsKept (some-injective _ _ e) k
  for_segments-IsKept step keeps (at ∷ ats) [] legs n e k = subst IsKept (some-injective _ _ e) k
  for_segments-IsKept step keeps [] (segment ∷ segments) legs n e k = cc

  pub if_operated-IsKept :
      (step : OndCabin D → Legs D → Option (Legs D))
      → ((cabin : OndCabin D) (legs legs' : Legs D)
          → All (λ i. i ≢ j) cabin.leg_cabins
          → step cabin legs ≡ some legs'
          → IsKept legs
          → IsKept legs')
      → (at : ℕ × ℕ) (segment : OndSegment D) (legs legs' : Legs D) → IsNotOf j at segment
      → if_operated step at.0 segment legs ≡ some legs'
      → IsKept legs
      → IsKept legs'
  unfolding if_operated
  if_operated-IsKept step keeps at segment legs legs' n e k =
      elim (Option-cases segment.operating) [
        | inr (operating, o) ↦ subst IsKept (some-injective _ _ (rw o at e)) k
        | inl o ↦
            let (cabin, has, e1) = >>=-eq-some (segment.cabins at.0) _ (rw o at e) in
            keeps cabin legs legs' (n cabin o has) e1 k
      ]
