-- ===== src/Detruncation/Idle.antt =====
-- rmol/bom/EMDetruncator.cpp: the histories that the estimation does not change.
use rmol.Base.{
  ℕ, zero, suc, ◌≤◌, ◌≡◌, refl, ◌⊎◌, inl, inr, Bool, true, false, List, [], ◌∷◌, map, arith,
  if◌then◌else◌, ltb, length, take, All,
}
use rmol.Base.Int.{pos_part}
use rmol.Base.Double.{Double}
use rmol.Detruncation.{
  HistoricalBooking, to_short, get_nb_of_uncensored_data, get_list_of_to_be_unconstrained_flags,
  expectation_step, unconstrain_loop, unconstrain,
}

module _ {ℓ} {D : Type ℓ} ⦃d : Double D⦄ where
  -- the entry is not censored
  abbrev pub IsFree : HistoricalBooking D → Type 0
  IsFree h = h.flag ≡ false

  abbrev flags : ℕ → List (HistoricalBooking D) → List Bool
  flags n hs = map (λ (h : HistoricalBooking D). if h.flag then true else false) (take n hs)

  expectation_step-free :
      (mean sd : D) (n : ℕ) (hs : List (HistoricalBooking D))
      → All IsFree hs
      → expectation_step mean sd hs (flags n hs) ≡ (hs, flags n hs, true)
  unfolding expectation_step
  expectation_step-free mean sd zero hs a = refl
  expectation_step-free mean sd (suc n) [] a = refl
  expectation_step-free mean sd (suc n) (h ∷ hs) (f, a) =
      rw (f, expectation_step-free mean sd n hs a) refl

  unconstrain_loop-free :
      (rounds : ℕ) (mean sd : D) (n : ℕ) (hs : List (HistoricalBooking D))
      → All IsFree hs
      → unconstrain_loop (suc rounds) mean sd hs (flags n hs) ≡ (hs, true)
  unfolding unconstrain_loop
  unconstrain_loop-free rounds mean sd n hs a = rw (expectation_step-free mean sd n hs a) refl

  guarded-idle :
      (constant enough : Bool) (holder : List (HistoricalBooking D))
      (run : List (HistoricalBooking D) × Bool)
      → run ≡ (holder, true)
      → (if enough then (if constant then (holder, true) else run) else (holder, true))
        ≡ (holder, true)
  guarded-idle true enough holder run h = ground arith
  guarded-idle false true holder run h = h
  guarded-idle false false holder run h = refl

  -- If at most one entry is uncensored, or none is censored, the method returns within one round
  -- and changes nothing.
  pub unconstrain-idle :
      (rounds : ℕ) (holder : List (HistoricalBooking D))
      → (get_nb_of_uncensored_data holder ≤ 1) ⊎ All IsFree holder
      → unconstrain (suc rounds) holder ≡ (holder, true)
  unfolding unconstrain get_list_of_to_be_unconstrained_flags
  unconstrain-idle rounds holder (inl few) =
      let not_enough : ltb 1 (get_nb_of_uncensored_data holder) ≡ false = ground (arith, few) in
      rw not_enough refl
  unconstrain-idle rounds holder (inr free) =
      guarded-idle _ _ holder _
        (unconstrain_loop-free rounds _ _ (pos_part (to_short (length holder))) holder free)
