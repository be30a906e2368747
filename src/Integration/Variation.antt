-- ===== src/Integration/Variation.antt =====
-- `optimiseUsingOnDForecast` of rmol/command/Optimiser.cpp: which leg-cabins it changes, and the
-- variation that it returns.
use mathlib.Core.Option.{some-injective}
use mathlib.Core.List.{foldl-append}
use rmol.Base.{
  ℕ, ◌≡◌, ◌≢◌, refl, ap, ◌∙◌, subst, inl, inr, false, not, List, [], ◌∷◌, ◌++◌, foldl, some, arith,
  get_elem?, set, All, Bool-cases, >>=-eq-some, assert-eq-some, get_elem?-set_ne,
}
use rmol.Base.Double.{Double, IsOrdered, nought}
use rmol.Cabin.{LegCabin}
use rmol.Integration.{
  bid_price_variation, max_of, optimisation_by_mc_integration,
  optimise_leg_cabins_using_ond_forecast, optimise_using_ond_forecast,
}

unfoldable pub concat {ℓ} : {A : Type ℓ} → List (List A) → List A
concat [] = []
concat (xs ∷ xss) = xs ++ concat xss

module _ {ℓ} {D : Type ℓ} ⦃d : Double D⦄ (sample : (mean std_dev : D) → ℕ → D) (draws : ℕ) where
  -- the leg-cabins of some indices optimised one after the other, with the variation of each
  pub data IsVisited : List ℕ → List (LegCabin D) → List (LegCabin D) → List D → Type ℓ where
    done : {legs : List (LegCabin D)} → IsVisited [] legs legs []
    visit :
        {i : ℕ} {is : List ℕ} {legs legs' : List (LegCabin D)} {cabin cabin' : LegCabin D}
        {variations : List D}
        → get_elem? legs i ≡ some cabin
        → optimisation_by_mc_integration sample draws cabin ≡ some cabin'
        → IsVisited is (set legs i cabin') legs' variations
        → IsVisited (i ∷ is) legs legs' (bid_price_variation cabin' ∷ variations)

  IsVisited-append :
      {is js : List ℕ} {legs legs' legs'' : List (LegCabin D)} {vs ws : List D}
      → IsVisited is legs legs' vs
      → IsVisited js legs' legs'' ws
      → IsVisited (is ++ js) legs legs'' (vs ++ ws)
  IsVisited-append done w = w
  IsVisited-append (visit at run v) w = visit at run (IsVisited-append v w)

  IsVisited-other :
      {is : List ℕ} {legs legs' : List (LegCabin D)} {vs : List D} (j : ℕ)
      → IsVisited is legs legs' vs
      → All (λ i. i ≢ j) is
      → get_elem? legs' j ≡ get_elem? legs j
  IsVisited-other j done a = refl
  IsVisited-other {legs = legs} j (visit {i} {cabin' = cabin'} at run v) (ne, a) =
      IsVisited-other j v a ∙ get_elem?-set_ne legs i j cabin' ne

  optimise_leg_cabins-IsVisited :
      (is : List ℕ) (legs : List (LegCabin D)) (most : D) {legs' : List (LegCabin D)} {most' : D}
      → optimise_leg_cabins_using_ond_forecast sample draws is legs most ≡ some (legs', most')
      → (vs : List D) × IsVisited is legs legs' vs × (foldl max_of most vs ≡ most')
  unfolding optimise_leg_cabins_using_ond_forecast
  optimise_leg_cabins-IsVisited [] legs most e =
      let same = some-injective _ _ e in
      ([], subst (λ p. IsVisited [] legs p.0 []) same done, ap (λ p. p.1) same)
  optimise_leg_cabins-IsVisited (i ∷ is) legs most e =
      let (cabin, at, e1) = >>=-eq-some (get_elem? legs i) _ e in
      let (cabin', run, e2) =
        >>=-eq-some (optimisation_by_mc_integration sample draws cabin) _ e1 in
      let (some_price, e3) = assert-eq-some (not (d.eq cabin'.previous_bid_price nought)) _ e2 in
      let (vs, visited, most_of) =
        optimise_leg_cabins-IsVisited is (set legs i cabin')
          (max_of most (bid_price_variation cabin')) e3 in
      (bid_price_variation cabin' ∷ vs, visit at run visited, most_of)

  optimise_leg_dates-IsVisited :
      (leg_dates : List (List ℕ)) (legs : List (LegCabin D)) (most : D) {legs' : List (LegCabin D)}
      {most' : D}
      → optimise_using_ond_forecast sample draws leg_dates legs most ≡ some (legs', most')
      → (vs : List D) × IsVisited (concat leg_dates) legs legs' vs × (foldl max_of most vs ≡ most')
  unfolding optimise_using_ond_forecast concat
  optimise_leg_dates-IsVisited [] legs most e =
      let same = some-injective _ _ e in
      ([], subst (λ p. IsVisited [] legs p.0 []) same done, ap (λ p. p.1) same)
  optimise_leg_dates-IsVisited (is ∷ rest) legs most {most' = most'} e =
      let ((legs1, most1), run, e1) =
        >>=-eq-some (optimise_leg_cabins_using_ond_forecast sample draws is legs most) _ e in
      let (vs, visited, most_of) = optimise_leg_cabins-IsVisited is legs most run in
      let (ws, others, most_of') = optimise_leg_dates-IsVisited rest legs1 most1 e1 in
      (
        vs ++ ws,
        IsVisited-append visited others,
        foldl-append max_of most vs ws ∙ ap (λ m. foldl max_of m ws) most_of ∙ most_of',
      )

  module _ (laws : IsOrdered D) where
    open laws use {lt_trans, lt_irrefl}

    max_of-above : (m v x : D) → d.lt m x ≡ false → d.lt (max_of m v) x ≡ false
    unfolding max_of
    max_of-above m v x h = elim (Bool-cases (d.lt m v)) [
      | inr e ↦ rw e h
      | inl e ↦ rw e (elim (Bool-cases (d.lt v x)) [
        | inr not_below ↦ not_below
        | inl below ↦ absurd (ground (arith, h, lt_trans m v x e below))
      ])
    ]

    max_of_self : (m v : D) → d.lt (max_of m v) v ≡ false
    unfolding max_of
    max_of_self m v = elim (Bool-cases (d.lt m v)) [ inr e ↦ rw e e | inl e ↦ rw e (lt_irrefl v) ]

    foldl-above : (m x : D) (vs : List D) → d.lt m x ≡ false → d.lt (foldl max_of m vs) x ≡ false
    foldl-above m x [] h = h
    foldl-above m x (v ∷ vs) h = foldl-above (max_of m v) x vs (max_of-above m v x h)

    foldl_above_each : (m : D) (vs : List D) → All (λ v. d.lt (foldl max_of m vs) v ≡ false) vs
    foldl_above_each m [] = tt
    foldl_above_each m (v ∷ vs) =
        (foldl-above (max_of m v) v vs (max_of_self m v), foldl_above_each (max_of m v) vs)

    -- If the optimisation of a flight-date returns, the leg-cabins of its leg-dates have been
    -- optimised one after the other, every other leg-cabin is unchanged, and the variation that is
    -- returned is not below that of any of them nor below the one at the start.
    pub optimise_using_ond_forecast_lem :
        (leg_dates : List (List ℕ)) (legs : List (LegCabin D)) (most : D)
        {legs' : List (LegCabin D)} {most' : D}
        → optimise_using_ond_forecast sample draws leg_dates legs most ≡ some (legs', most')
        → (vs : List D) × IsVisited (concat leg_dates) legs legs' vs
          × All (λ v. d.lt most' v ≡ false) (most ∷ vs)
          × ((j : ℕ) → All (λ i. i ≢ j) (concat leg_dates) → get_elem? legs' j ≡ get_elem? legs j)
    optimise_using_ond_forecast_lem leg_dates legs most e =
        let (vs, visited, most_of) = optimise_leg_dates-IsVisited leg_dates legs most e in
        (
          vs,
          visited,
          subst (λ m. All (λ v. d.lt m v ≡ false) (most ∷ vs)) most_of
              (foldl-above most most vs (lt_irrefl most), foldl_above_each most vs),
          λ j a. IsVisited-other j visited a,
        )
