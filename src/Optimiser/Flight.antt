-- ===== src/Optimiser/Flight.antt =====
-- The optimisation of leg-cabins, leg-dates and flight-dates of rmol/command/Optimiser.cpp: what
-- the result flag says, and what a leg-cabin looks like afterwards.
use mathlib.Core.Path.{ap₂}
use mathlib.Core.Option.{some-injective}
use rmol.Base.{
  ℕ, ◌≡◌, refl, sym, ap, ◌∙◌, subst, inl, inr, Bool, false, ◌||◌, List, [], ◌∷◌, Option, some, none,
  if◌then◌else◌, Bool-cases, >>=-eq-some,
}
use rmol.Base.Double.{Double}
use rmol.Cabin.{LegCabin}
use rmol.Emsr.{Normal}
use rmol.Optimiser.{
  OptimisationMethod, build_virtual_class_list, optimise_by, optimise_leg_cabin, optimise_leg_date,
  optimise_flight_date,
}

-- two lists of the same length, related in each place
pub data Each {ℓ κ} {A : Type ℓ} (R : A → A → Type κ) : List A → List A → Type (ℓ ⊔ κ) where
  nil : Each R [] []
  cons : {x y : A} {xs ys : List A} → R x y → Each R xs ys → Each R (x ∷ xs) (y ∷ ys)

module _ {ℓ} {D : Type ℓ} ⦃d : Double D⦄ (normal : Normal D) (generated : List ℕ → List D) where
  abbrev flag_of : Option (LegCabin D × Bool) → Bool
  flag_of none = false
  flag_of (some (cabin, flag)) = flag

  -- a leg-cabin for which a virtual class can be built
  abbrev pub has_demand : LegCabin D → Bool
  has_demand cabin = flag_of (build_virtual_class_list cabin)

  abbrev pub any {κ} : {A : Type κ} → (A → Bool) → List A → Bool
  any p [] = false
  any p (x ∷ xs) = p x || any p xs

  abbrev pub outcome : OptimisationMethod → LegCabin D → Bool → Option (LegCabin D)
  outcome method built has = if has then optimise_by normal generated method built else some built

  -- before and after: the virtual classes are built anew, and if there is one the method has run
  abbrev pub IsOptimised : OptimisationMethod → LegCabin D → LegCabin D → Type ℓ
  IsOptimised method cabin cabin' =
      (built : LegCabin D) × (build_virtual_class_list cabin ≡ some (built, has_demand cabin))
      × (outcome method built (has_demand cabin) ≡ some cabin')

  optimise_leg_cabin_lem :
      (method : OptimisationMethod) (cabin : LegCabin D) {cabin' : LegCabin D} {flag : Bool}
      → optimise_leg_cabin normal generated method cabin ≡ some (cabin', flag)
      → IsOptimised method cabin cabin' × (has_demand cabin ≡ flag)
  unfolding optimise_leg_cabin
  optimise_leg_cabin_lem method cabin {cabin'} {flag} e =
      let ((built, has), list, e1) = >>=-eq-some (build_virtual_class_list cabin) _ e in
      let demand : has_demand cabin ≡ has = ap flag_of list in
      let first = list ∙ ap (λ h. some (built, h)) (sym demand) in
      elim (Bool-cases has) [
        | inl with_class ↦
            let (after, run, e2) =
              >>=-eq-some (optimise_by normal generated method built) _ (rw with_class at e1) in
            let pair = some-injective _ _ e2 in
            let known = demand ∙ with_class in
            (
              (built, first, ap (outcome method built) known ∙ run ∙ ap (λ p. some p.0) pair),
              known ∙ ap (λ p. p.1) pair,
            )
        | inr without ↦
            let pair = some-injective _ _ (rw without at e1) in
            let known = demand ∙ without in
            (
              (built, first, ap (outcome method built) known ∙ ap (λ p. some p.0) pair),
              known ∙ ap (λ p. p.1) pair,
            )
      ]

  optimise_leg_date_lem :
      (method : OptimisationMethod) (cabins : List (LegCabin D)) {cabins' : List (LegCabin D)}
      {flag : Bool}
      → optimise_leg_date normal generated method cabins ≡ some (cabins', flag)
      → Each (IsOptimised method) cabins cabins' × (any has_demand cabins ≡ flag)
  unfolding optimise_leg_date
  optimise_leg_date_lem method [] e =
      subst (λ p. Each (IsOptimised method) [] p.0 × (false ≡ p.1)) (some-injective _ _ e)
        (nil, refl)
  optimise_leg_date_lem method (cabin ∷ cabins) e =
      let ((c', one), run, e1) =
        >>=-eq-some (optimise_leg_cabin normal generated method cabin) _ e in
      let ((cs', more), others, e2) =
        >>=-eq-some (optimise_leg_date normal generated method cabins) _ e1 in
      let (here, flag) = optimise_leg_cabin_lem method cabin run in
      let (rest, flags) = optimise_leg_date_lem method cabins others in
      subst
        (λ p.
          Each (IsOptimised method) (cabin ∷ cabins) p.0 × (any has_demand (cabin ∷ cabins) ≡ p.1))
        (some-injective _ _ e2) (cons here rest, ap₂ ◌||◌ flag flags)

  -- If the optimisation of a flight-date returns, every leg-cabin of every leg-date has been
  -- handled, also after one that failed: its virtual classes are built anew, and if there is one
  -- the method has run on it; and the result is true exactly if some leg-cabin has a virtual class.
  pub optimise_flight_date_lem :
      (method : OptimisationMethod) (legs : List (List (LegCabin D)))
      {legs' : List (List (LegCabin D))} {flag : Bool}
      → optimise_flight_date normal generated method legs ≡ some (legs', flag)
      → Each (Each (IsOptimised method)) legs legs' × (any (any has_demand) legs ≡ flag)
  unfolding optimise_flight_date
  optimise_flight_date_lem method [] e =
      subst (λ p. Each (Each (IsOptimised method)) [] p.0 × (false ≡ p.1)) (some-injective _ _ e)
        (nil, refl)
  optimise_flight_date_lem method (leg ∷ legs) e =
      let ((c', one), run, e1) = >>=-eq-some (optimise_leg_date normal generated method leg) _ e in
      let ((cs', more), others, e2) =
        >>=-eq-some (optimise_flight_date normal generated method legs) _ e1 in
      let (here, flag) = optimise_leg_date_lem method leg run in
      let (rest, flags) = optimise_flight_date_lem method legs others in
      subst
        (λ p.
          Each (Each (IsOptimised method)) (leg ∷ legs) p.0
          × (any (any has_demand) (leg ∷ legs) ≡ p.1))
        (some-injective _ _ e2) (cons here rest, ap₂ ◌||◌ flag flags)
