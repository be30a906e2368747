-- ===== src/Integration/Floor.antt =====
-- `optimisationByMCIntegration` of rmol/bom/MCOptimiser.cpp: the last loop, whose prices have a
-- minimum of 1.0.
use mathlib.Core.List.{append_assoc, append-nil}
use rmol.Base.{
  ℕ, zero, suc, ◌+◌, ◌≤◌, ◌<◌, ◌≡◌, refl, subst, ◌⊎◌, inl, inr, true, false, List, [], ◌∷◌, ◌++◌,
  some, arith, length, replicate, All, Bool-cases,
}
use rmol.Base.Double.{Double, IsOrdered, of_ℕ}
use rmol.Base.Sorting.{count_below, IsSorted}
use rmol.Base.Sorting.Search.{lower_bound_resume, count_below_mono}
use rmol.MonteCarlo.{bid_price}
use rmol.MonteCarlo.Prices.{price_at, prices_from}
use rmol.Integration.{push_final, price_or_min}

module _ {ℓ} {D : Type ℓ} ⦃d : Double D⦄ where
  -- the indices from `idx` on that are up to the pool, as far as the first that is not
  abbrev pub IsUpTo : D → (idx count : ℕ) → Type 0
  IsUpTo pool idx zero = d.le (of_ℕ idx) pool ≡ false
  IsUpTo pool idx (suc count) = (d.le (of_ℕ idx) pool ≡ true) × IsUpTo pool (suc idx) count

  -- no index from this one on that is up to the pool is beyond the rounds
  abbrev pub IsEnough : D → (idx rounds : ℕ) → Type 0
  IsEnough pool idx rounds = (i : ℕ) → idx ≤ i → d.le (of_ℕ i) pool ≡ true → i < idx + rounds

  IsEnough-suc :
      (pool : D) (idx rounds : ℕ) → IsEnough pool idx (suc rounds) → IsEnough pool (suc idx) rounds
  IsEnough-suc pool idx rounds enough i h e = omega (arith, enough i (omega arith) e)

  IsEnough-zero : (pool : D) (idx : ℕ) → IsEnough pool idx 0 → d.le (of_ℕ idx) pool ≡ false
  IsEnough-zero pool idx enough = elim (Bool-cases (d.le (of_ℕ idx) pool)) [
    | inl e ↦ absurd (omega (arith, enough idx (omega arith) e))
    | inr e ↦ e
  ]

  module _ (laws : IsOrdered D) (pool y : D) (holder : List D) (sorted : IsSorted holder) where
    open laws use {of_ℕ_mono}

    -- where the search for the next index may start
    next_place : (idx : ℕ) → count_below holder (of_ℕ idx) ≤ count_below holder (of_ℕ (suc idx))
    next_place idx = count_below_mono laws holder _ _ (of_ℕ_mono idx (suc idx) (omega arith))

    push_final_reached :
        (rounds idx from : ℕ) (prices : List D)
        → from ≤ count_below holder (of_ℕ idx)
        → IsEnough pool idx rounds
        → (n : ℕ) × IsUpTo pool idx n
          × (push_final rounds idx from true pool y holder prices
              ≡ some (prices ++ replicate n (of_ℕ 1)))
    unfolding push_final price_or_min
    push_final_reached zero idx from prices h enough =
        let over = IsEnough-zero pool idx enough in (0, over, rw (over, append-nil) refl)
    push_final_reached (suc rounds) idx from prices h enough =
        elim (Bool-cases (d.le (of_ℕ idx) pool)) [
          | inr over ↦ (0, over, rw (over, append-nil) refl)
          | inl within ↦
              let at = count_below holder (of_ℕ idx) in
              let (n, up, run) =
                push_final_reached rounds (suc idx) at (prices ++ of_ℕ 1 ∷ []) (next_place idx)
                  (IsEnough-suc pool idx rounds enough) in
              (
                suc n,
                (within, up),
                rw
                    (
                      within,
                      lower_bound_resume laws from holder (of_ℕ idx) sorted h,
                      run,
                      append_assoc,
                    )
                    refl,
              )
        ]

    -- On sorted samples and with enough rounds the loop returns. It pushes one price for each index
    -- up to the pool: those that a search of its own gives each index, as far as the first below
    -- 1.0, and from there on 1.0 each time.
    pub push_final_lem :
        (rounds idx from : ℕ) (prices : List D)
        → from ≤ count_below holder (of_ℕ idx)
        → IsEnough pool idx rounds
        → (m : ℕ) × (n : ℕ) × IsUpTo pool idx (m + n)
          × (push_final rounds idx from false pool y holder prices
              ≡ some (prices ++ (prices_from y holder m idx ++ replicate n (of_ℕ 1))))
          × All (λ p. d.lt p (of_ℕ 1) ≡ false) (prices_from y holder m idx)
          × ((n ≡ 0) ⊎ (d.lt (price_at y holder (idx + m)) (of_ℕ 1) ≡ true))
    unfolding push_final price_or_min prices_from price_at
    push_final_lem zero idx from prices h enough =
        let over = IsEnough-zero pool idx enough in
        (0, 0, over, rw (over, append-nil) refl, tt, inl refl)
    push_final_lem (suc rounds) idx from prices h enough =
        elim (Bool-cases (d.le (of_ℕ idx) pool)) [
          | inr over ↦ (0, 0, over, rw (over, append-nil) refl, tt, inl refl)
          | inl within ↦
              let at = count_below holder (of_ℕ idx) in
              let place = lower_bound_resume laws from holder (of_ℕ idx) sorted h in
              let later = IsEnough-suc pool idx rounds enough in
              let price = bid_price y (length holder) at in
              elim (Bool-cases (d.lt price (of_ℕ 1))) [
                | inl low ↦
                    let (n, up, run) =
                      push_final_reached rounds (suc idx) at (prices ++ of_ℕ 1 ∷ [])
                        (next_place idx) later in
                    let all : suc n ≡ 0 + suc n = omega arith in
                    let here : idx ≡ idx + 0 = omega arith in
                    (
                      0,
                      suc n,
                      subst (λ k. IsUpTo pool idx k) all (within, up),
                      rw (within, place, low, run, append_assoc) refl,
                      tt,
                      inr (subst (λ k. d.lt (price_at y holder k) (of_ℕ 1) ≡ true) here low),
                    )
                | inr high ↦
                    let (m, n, up, run, above, last) =
                      push_final_lem rounds (suc idx) at (prices ++ price ∷ []) (next_place idx)
                        later in
                    let all : suc (m + n) ≡ suc m + n = omega arith in
                    let there : suc idx + m ≡ idx + suc m = omega arith in
                    (
                      suc m,
                      n,
                      subst (λ k. IsUpTo pool idx k) all (within, up),
                      rw (within, place, high, run, append_assoc) refl,
                      (high, above),
                      subst (λ k. (n ≡ 0) ⊎ (d.lt (price_at y holder k) (of_ℕ 1) ≡ true)) there
                          last,
                    )
              ]
        ]
