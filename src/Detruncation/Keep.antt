-- ===== src/Detruncation/Keep.antt =====
-- rmol/bom/EMDetruncator.cpp: what the estimation leaves alone.
use mathlib.Core.Path.{ap₂}
use rmol.Base.{
  ℕ, zero, suc, ◌≡◌, refl, ap, ◌∙◌, inl, inr, Bool, true, false, List, [], ◌∷◌, map, arith,
  if◌then◌else◌, length, take, Bool-cases,
}
use rmol.Base.Int.{pos_part}
use rmol.Base.Double.{Double, nought}
use rmol.Detruncation.{
  HistoricalBooking, to_short, get_demand_mean, get_standard_deviation,
  get_list_of_to_be_unconstrained_flags, expectation, expectation_step, unconstrain_loop,
  unconstrain,
}

module _ {ℓ} {D : Type ℓ} ⦃d : Double D⦄ where
  -- an entry without the demand that the method estimates, which is that of a censored one
  abbrev pub settled : HistoricalBooking D → HistoricalBooking D
  settled h = record h { unconstrained_demand = if h.flag then nought else h.unconstrained_demand }

  -- only censored entries are to be unconstrained
  abbrev pub Covers : List (HistoricalBooking D) → List Bool → Type 0
  Covers hs [] = Unit
  Covers [] (b ∷ bs) = Unit
  Covers (h ∷ hs) (b ∷ bs) = (b ≡ true → h.flag ≡ true) × Covers hs bs

  expectation-settled :
      (mean sd : D) (h : HistoricalBooking D)
      → h.flag ≡ true
      → settled (expectation mean sd h).0 ≡ settled h
  unfolding expectation
  expectation-settled mean sd h e = rw e refl

  expectation-flag :
      (mean sd : D) (h : HistoricalBooking D) → (expectation mean sd h).0.flag ≡ h.flag
  unfolding expectation
  expectation-flag mean sd h = refl

  expectation_step-Covers :
      (mean sd : D) (hs : List (HistoricalBooking D)) (bs : List Bool)
      → Covers hs bs
      → (map settled (expectation_step mean sd hs bs).0 ≡ map settled hs)
        × Covers (expectation_step mean sd hs bs).0 (expectation_step mean sd hs bs).1
  unfolding expectation_step
  expectation_step-Covers mean sd hs [] c = (refl, tt)
  expectation_step-Covers mean sd [] (b ∷ bs) c = (refl, tt)
  expectation_step-Covers mean sd (h ∷ hs) (true ∷ bs) (own, c) =
      let (same, covers) = expectation_step-Covers mean sd hs bs c in
      (
        ap₂ ◌∷◌ (expectation-settled mean sd h (own refl)) same,
        ((λ _. expectation-flag mean sd h ∙ own refl), covers),
      )
  expectation_step-Covers mean sd (h ∷ hs) (false ∷ bs) (own, c) =
      let (same, covers) = expectation_step-Covers mean sd hs bs c in
      (ap (◌∷◌ (settled h)) same, (own, covers))

  unconstrain_loop-settled :
      (rounds : ℕ) (mean sd : D) (hs : List (HistoricalBooking D)) (bs : List Bool)
      → Covers hs bs
      → map settled (unconstrain_loop rounds mean sd hs bs).0 ≡ map settled hs
  unfolding unconstrain_loop
  unconstrain_loop-settled zero mean sd hs bs c = refl
  unconstrain_loop-settled (suc rounds) mean sd hs bs c =
      let (same, covers) = expectation_step-Covers mean sd hs bs c in
      let (hs', bs', stop) = expectation_step mean sd hs bs in
      let mean' = get_demand_mean hs' in
      elim (Bool-cases stop) [
        | inl stopped ↦ rw stopped same
        | inr on ↦ rw on (
            unconstrain_loop-settled rounds mean' (get_standard_deviation hs' mean') hs' bs' covers
            ∙ same)
      ]

  flags-Covers :
      (n : ℕ) (hs : List (HistoricalBooking D))
      → Covers hs (map (λ (h : HistoricalBooking D). if h.flag then true else false) (take n hs))
  flags-Covers zero hs = tt
  flags-Covers (suc n) [] = tt
  flags-Covers (suc n) (h ∷ hs) = (
    (λ e. elim (Bool-cases h.flag) [
      | inl censored ↦ censored
      | inr free ↦ absurd (ground (arith, rw free at e))
    ]),
    flags-Covers n hs,
  )

  guarded-settled :
      (enough constant : Bool) (holder : List (HistoricalBooking D))
      (run : List (HistoricalBooking D) × Bool)
      → map settled run.0 ≡ map settled holder
      → map settled
          (if enough then (if constant then (holder, true) else run) else (holder, true)).0
        ≡ map settled holder
  guarded-settled false constant holder run h = refl
  guarded-settled true false holder run h = h
  guarded-settled true true holder run h = refl

  -- At every moment of the estimation the entries are those of the start, in their order, with
  -- their bookings and flags; and the demand of an uncensored one is as it was.
  pub unconstrain-settled :
      (rounds : ℕ) (holder : List (HistoricalBooking D))
      → map settled (unconstrain rounds holder).0 ≡ map settled holder
  unfolding unconstrain get_list_of_to_be_unconstrained_flags
  unconstrain-settled rounds holder = guarded-settled _ _ holder _ (
      unconstrain_loop-settled rounds _ _ holder _
        (flags-Covers (pos_part (to_short (length holder))) holder))
