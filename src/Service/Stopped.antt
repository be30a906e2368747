-- ===== src/Service/Stopped.antt =====
-- The loops of the two cooperations in rmol/service/RMOL_Service.cpp: when they stop.
use rmol.Base.{
  ℕ, zero, suc, ◌≤◌, ◌<◌, ◌≡◌, refl, ap, ◌⊎◌, inl, inr, true, false, Option, none, some, arith,
  Bool-cases, Option-cases,
}
use rmol.Base.Double.{Double}
use rmol.Service.Cooperation.{while_varying}

module _ {ℓ} {S D : Type ℓ} ⦃d : Double D⦄ (step : S → Option (S × D)) where
  -- a number of rounds, each begun with a variation above 0.01
  pub data AreMade : ℕ → S × D → S × D → Type ℓ where
    done : {s : S × D} → AreMade 0 s s
    round :
        {n : ℕ} {s s' : S} {variation variation' : D} {r : S × D}
        → d.lt (d.literal 1 2) variation ≡ true
        → step s ≡ some (s', variation')
        → AreMade n (s', variation') r
        → AreMade (suc n) (s, variation) r

  -- The loop either reaches a round that fails, before its limit; or it returns the state, the
  -- variation and the number of the rounds made, which is at most the limit, and it has stopped
  -- since the variation is not above 0.01 any more or the limit is reached.
  pub while_varying_lem :
      (rounds : ℕ) (variation : D) (s : S)
      → ((n : ℕ) × (s' : S) × (variation' : D) × AreMade n (s, variation) (s', variation')
          × (n < rounds)
          × (step s' ≡ none)
          × (while_varying step rounds variation s ≡ none))
        ⊎ ((n : ℕ) × (s' : S) × (variation' : D) × AreMade n (s, variation) (s', variation')
            × (n ≤ rounds)
            × (while_varying step rounds variation s ≡ some (s', variation', n))
            × ((d.lt (d.literal 1 2) variation' ≡ false) ⊎ (n ≡ rounds)))
  unfolding while_varying
  while_varying_lem zero variation s = inr (0, s, variation, done, omega arith, refl, inr refl)
  while_varying_lem (suc rounds) variation s = elim (Bool-cases (d.lt (d.literal 1 2) variation)) [
    | inr stop ↦ inr (0, s, variation, done, omega arith, rw stop refl, inl stop)
    | inl go ↦ elim (Option-cases (step s)) [
      | inl fault ↦ inl (0, s, variation, done, omega arith, fault, rw (go, fault) refl)
      | inr ((s1, variation1), run) ↦ elim (while_varying_lem rounds variation1 s1) [
        | inl (n, s', variation', made, less, fault, fails) ↦ inl (
          suc n,
          s',
          variation',
          round go run made,
          omega (arith, less),
          fault,
          rw (go, run, fails) refl,
        )
        | inr (n, s', variation', made, less, returns, why) ↦ inr (
          suc n,
          s',
          variation',
          round go run made,
          omega (arith, less),
          rw (go, run, returns) refl,
          elim why [ inl calm ↦ inl calm | inr all ↦ inr (ap suc all) ],
        )
      ]
    ]
  ]
