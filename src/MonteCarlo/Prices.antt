-- ===== src/MonteCarlo/Prices.antt =====
-- `optimalOptimisationByMCIntegration` of rmol/bom/MCOptimiser.cpp: the loop that pushes the bid
-- prices of one class, against a description of each price by itself.
use rmol.Base.{
  ℕ, zero, suc, ◌+◌, ◌-◌, ◌≤◌, ◌≡◌, refl, ap, min, inl, inr, true, List, [], ◌∷◌, ◌++◌, some, arith,
  leb, length, length-append, Bool-cases, Option-cases,
}
use rmol.Base.Double.{Double, IsOrdered, IsRounded, IsNumber, ◌⊗◌, ◌⊘◌, ◌≼◌, ◌≺◌, of_ℕ, nought}
use rmol.Base.Sorting.{lower_bound, count_below, IsSorted}
use rmol.Base.Sorting.Search.{lower_bound_resume, count_below_mono}
use rmol.MonteCarlo.{bid_price, push_prices}
use mathlib.Core.List.{append_assoc, append-nil}
use native.Mathlib.Nat.{add-zero}

module _ {ℓ} {D : Type ℓ} ⦃d : Double D⦄ where
  -- the price of the index `idx` alone: a search from the beginning of the sorted samples
  unfoldable pub price_at : D → List D → ℕ → D
  price_at y holder idx = bid_price y (length holder) (count_below holder (of_ℕ idx))

  -- the prices of `n` indices, from `idx` on
  unfoldable pub prices_from : D → List D → (n idx : ℕ) → List D
  prices_from y holder zero idx = []
  prices_from y holder (suc n) idx = price_at y holder idx ∷ prices_from y holder n (suc idx)

  pub length-prices_from :
      (y : D) (holder : List D) (n idx : ℕ) → length (prices_from y holder n idx) ≡ n
  unfolding prices_from
  length-prices_from y holder zero idx = refl
  length-prices_from y holder (suc n) idx = ap suc (length-prices_from y holder n (suc idx))

  -- each price is at most the one before
  abbrev pub IsFalling : List D → Type 0
  IsFalling [] = Unit
  IsFalling (p ∷ []) = Unit
  IsFalling (p ∷ q ∷ ps) = (q ≼ p) × IsFalling (q ∷ ps)

  -- What the loop leaves behind, whether the range is sorted or not: one price for each index.
  pub push_prices-idx :
      (left idx last from : ℕ) (y : D) (holder prices : List D) {idx' : ℕ} {prices' : List D}
      → push_prices left idx last from y holder prices ≡ some (idx', prices')
      → (idx' + length prices ≡ idx + length prices') × (idx ≤ idx') × (idx' ≤ idx + left)
  unfolding push_prices
  push_prices-idx zero idx last from y holder prices e = ground arith
  push_prices-idx (suc left) idx last from y holder prices {idx'} {prices'} e =
      elim (Bool-cases (leb idx last)) [
        | inr stop ↦ ground arith
        | inl go ↦ elim (Option-cases (lower_bound from holder (of_ℕ idx))) [
          | inl fault ↦ ground arith
          | inr (at, found) ↦
              let more = prices ++ bid_price y (length holder) at ∷ [] in
              let e' : push_prices left (suc idx) last at y holder more ≡ some (idx', prices') =
                ground arith in
              omega (
                arith,
                push_prices-idx left (suc idx) last at y holder more e',
                length-append prices (bid_price y (length holder) at ∷ []),
              )
        ]
      ]

  -- If `left` reaches just beyond `last`, the loop does not stop early.
  pub push_prices_all :
      (left idx last from : ℕ) (y : D) (holder prices : List D) {idx' : ℕ} {prices' : List D}
      → idx + left ≡ last + 1
      → push_prices left idx last from y holder prices ≡ some (idx', prices')
      → idx' ≡ last + 1
  unfolding push_prices
  push_prices_all zero idx last from y holder prices full e = ground arith
  push_prices_all (suc left) idx last from y holder prices {idx'} {prices'} full e =
      let go : leb idx last ≡ true = ground arith in
      elim (Option-cases (lower_bound from holder (of_ℕ idx))) [
        | inl fault ↦ ground arith
        | inr (at, found) ↦
            let more = prices ++ bid_price y (length holder) at ∷ [] in
            let e' : push_prices left (suc idx) last at y holder more ≡ some (idx', prices') =
              ground arith in
            push_prices_all left (suc idx) last at y holder more (omega arith) e'
      ]

  module _ (laws : IsOrdered D) where
    open laws use {of_ℕ_mono}

    -- On sorted samples, with an iterator that is not beyond the first index's place, the loop
    -- stops at the smaller of its two bounds and has appended the price of each index as a search
    -- of its own from the first sample gives it, though it goes on from the last place found.
    pub push_prices-prices_from :
        (left idx last from : ℕ) (y : D) (holder prices : List D)
        → IsSorted holder
        → from ≤ count_below holder (of_ℕ idx)
        → let n = min left (last + 1 - idx) in
          push_prices left idx last from y holder prices
          ≡ some (idx + n, prices ++ prices_from y holder n idx)
    unfolding push_prices prices_from price_at
    push_prices-prices_from zero idx last from y holder prices s h =
        let over : min 0 (last + 1 - idx) ≡ 0 = omega arith in rw (over, append-nil, add-zero)
    push_prices-prices_from (suc left) idx last from y holder prices s h =
        elim (Bool-cases (leb idx last)) [
          | inr stop ↦
              let over : min (suc left) (last + 1 - idx) ≡ 0 = ground arith in
              rw (stop, over, append-nil, add-zero)
          | inl go ↦
              let at = count_below holder (of_ℕ idx) in
              let more = prices ++ bid_price y (length holder) at ∷ [] in
              let one : min (suc left) (last + 1 - idx) ≡ suc (min left (last + 1 - suc idx)) =
                ground arith in
              let rounds = min left (last + 1 - suc idx) in
              let place : suc idx + rounds ≡ idx + suc rounds = omega arith in
              let below =
                count_below_mono laws holder _ _ (of_ℕ_mono idx (suc idx) (omega arith)) in
              rw
                (
                  go,
                  lower_bound_resume laws from holder (of_ℕ idx) s h,
                  push_prices-prices_from left (suc idx) last at y holder more s below,
                  one,
                  append_assoc,
                )
                (rw place)
        ]

    price_at-falling :
        (rounded : IsRounded D) (y : D) (holder : List D) (idx : ℕ)
        → nought ≼ y
        → ((m : ℕ)
            → m ≤ length holder
            → IsNumber (y ⊗ of_ℕ m) × IsNumber (y ⊗ of_ℕ m ⊘ of_ℕ (length holder)))
        → nought ≺ of_ℕ {D = D} (length holder)
        → price_at y holder (suc idx) ≼ price_at y holder idx
    unfolding price_at bid_price
    price_at-falling rounded y holder idx hy fits some_sample =
        let k = length holder in
        let a = count_below holder (of_ℕ idx) in
        let b = count_below holder (of_ℕ (suc idx)) in
        let a_le_b = count_below_mono laws holder _ _ (of_ℕ_mono idx (suc idx) (omega arith)) in
        let fewer = of_ℕ_mono (k - b) (k - a) (omega arith) in
        let (num_b, price_b) = fits (k - b) (omega arith) in
        let (num_a, price_a) = fits (k - a) (omega arith) in
        rounded.div_mono _ _ _ some_sample (rounded.mul_mono y _ _ hy fewer num_b num_a) price_b
          price_a

    prices_from-IsFalling :
        (rounded : IsRounded D) (y : D) (holder : List D) (n idx : ℕ)
        → nought ≺ of_ℕ {D = D} (length holder)
        → nought ≼ y
        → ((m : ℕ)
            → m ≤ length holder
            → IsNumber (y ⊗ of_ℕ m) × IsNumber (y ⊗ of_ℕ m ⊘ of_ℕ (length holder)))
        → IsFalling (prices_from y holder n idx)
    unfolding prices_from
    prices_from-IsFalling rounded y holder zero idx k hy fits = tt
    prices_from-IsFalling rounded y holder (suc zero) idx k hy fits = tt
    prices_from-IsFalling rounded y holder (suc (suc n)) idx k hy fits = (
      price_at-falling rounded y holder idx hy fits k,
      prices_from-IsFalling rounded y holder (suc n) (suc idx) k hy fits,
    )

    -- On sorted samples, with an iterator that is not beyond the first index's place, the loop
    -- returns, it appends one price for each index up to the smaller of its two bounds, and the
    -- prices that it appends never rise, if the yield is not negative and no price overflows to
    -- NaN.
    pub push_prices-IsFalling :
        (rounded : IsRounded D) (left idx last from : ℕ) (y : D) (holder prices : List D)
        → IsSorted holder
        → from ≤ count_below holder (of_ℕ idx)
        → nought ≺ of_ℕ {D = D} (length holder)
        → nought ≼ y
        → ((m : ℕ)
            → m ≤ length holder
            → IsNumber (y ⊗ of_ℕ m) × IsNumber (y ⊗ of_ℕ m ⊘ of_ℕ (length holder)))
        → let n = min left (last + 1 - idx) in
          (pushed : List D) × (push_prices left idx last from y holder prices
            ≡ some (idx + n, prices ++ pushed))
          × (length pushed ≡ n)
          × IsFalling pushed
    push_prices-IsFalling rounded left idx last from y holder prices s h k hy fits =
        let n = min left (last + 1 - idx) in
        (
          prices_from y holder n idx,
          push_prices-prices_from left idx last from y holder prices s h,
          length-prices_from y holder n idx,
          prices_from-IsFalling rounded y holder n idx k hy fits,
        )
