-- ===== src/Flight/Loop.antt =====
-- The loops over the segment-cabins of a flight-date: every cabin is handled, and the result is
-- true if every one is.
use mathlib.Core.Option.{some-injective}
use mathlib.Core.Path.{ap₂}
use rmol.Base.{
  ◌≡◌, refl, sym, ap, ◌∙◌, subst, Bool, true, false, ◌&&◌, List, [], ◌∷◌, Option, none, some,
  >>=-eq-some,
}
use rmol.Optimiser.Flight.{Each, nil, cons}
use rmol.Flight.{each_cabin, each_segment}

module _ {ℓ} {C : Type ℓ} (step : C → Option (C × Bool)) where
  abbrev flag_of : Option (C × Bool) → Bool
  flag_of none = false
  flag_of (some (cabin, flag)) = flag

  -- whether the step succeeds on a cabin
  abbrev pub succeeds : C → Bool
  succeeds cabin = flag_of (step cabin)

  abbrev pub all_succeed : List C → Bool
  all_succeed [] = true
  all_succeed (c ∷ cs) = succeeds c && all_succeed cs

  abbrev pub all_segments_succeed : List (List C) → Bool
  all_segments_succeed [] = true
  all_segments_succeed (cs ∷ rest) = all_succeed cs && all_segments_succeed rest

  -- before and after the step
  abbrev pub IsStepped : C → C → Type ℓ
  IsStepped cabin cabin' = step cabin ≡ some (cabin', succeeds cabin)

  each_cabin_lem :
      (cabins : List C) {cabins' : List C} {flag : Bool}
      → each_cabin step cabins ≡ some (cabins', flag)
      → Each IsStepped cabins cabins' × (all_succeed cabins ≡ flag)
  unfolding each_cabin
  each_cabin_lem [] e =
      subst (λ p. Each IsStepped [] p.0 × (true ≡ p.1)) (some-injective _ _ e) (nil, refl)
  each_cabin_lem (cabin ∷ cabins) e =
      let ((cabin', one), run, e1) = >>=-eq-some (step cabin) _ e in
      let ((cabins', more), others, e2) = >>=-eq-some (each_cabin step cabins) _ e1 in
      let (rest, flags) = each_cabin_lem cabins others in
      let flag : succeeds cabin ≡ one = ap flag_of run in
      let here : step cabin ≡ some (cabin', succeeds cabin) =
        run ∙ ap (λ f. some (cabin', f)) (sym flag) in
      subst (λ p. Each IsStepped (cabin ∷ cabins) p.0 × (all_succeed (cabin ∷ cabins) ≡ p.1))
        (some-injective _ _ e2) (cons here rest, ap₂ ◌&&◌ flag flags)

  -- If the loops return, the step has been taken at every segment-cabin, also after one at which it
  -- was without success, and the result is true exactly if it was successful at every one.
  pub each_segment_lem :
      (segments : List (List C)) {segments' : List (List C)} {flag : Bool}
      → each_segment step segments ≡ some (segments', flag)
      → Each (Each IsStepped) segments segments' × (all_segments_succeed segments ≡ flag)
  unfolding each_segment
  each_segment_lem [] e =
      subst (λ p. Each (Each IsStepped) [] p.0 × (true ≡ p.1)) (some-injective _ _ e) (nil, refl)
  each_segment_lem (cabins ∷ segments) e =
      let ((cabins', one), run, e1) = >>=-eq-some (each_cabin step cabins) _ e in
      let ((segments', more), others, e2) = >>=-eq-some (each_segment step segments) _ e1 in
      let (here, flag) = each_cabin_lem cabins run in
      let (rest, flags) = each_segment_lem segments others in
      subst
        (λ p.
          Each (Each IsStepped) (cabins ∷ segments) p.0
          × (all_segments_succeed (cabins ∷ segments) ≡ p.1))
        (some-injective _ _ e2) (cons here rest, ap₂ ◌&&◌ flag flags)
