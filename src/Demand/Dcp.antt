-- ===== src/Demand/Dcp.antt =====
-- `buildRemainingDCPList` and `buildPastDCPList` of rmol/bom/Utilities.cpp: where a day cuts the
-- list of data collection points.
use rmol.Base.{
  ◌≡◌, refl, ap, ◌⊎◌, inl, inr, true, false, List, [], ◌∷◌, ◌++◌, none, some, arith, All,
  if◌then◌else◌, Bool-cases,
}
use rmol.Base.Int.{ℤ, ltb_ℤ, leb_ℤ}
use rmol.Demand.{build_remaining_dcp_list, build_past_dcp_list}

-- each point is below the one before it
abbrev pub IsFalling : List ℤ → Type 0
IsFalling [] = Unit
IsFalling (x ∷ xs) = All (λ y. ltb_ℤ y x ≡ true) xs × IsFalling xs

-- the point itself, if the day is on it
abbrev pub on_point : ℤ → ℤ → List ℤ
on_point dtd dcp = if leb_ℤ dtd dcp then dcp ∷ [] else []

build_past_dcp_list-above :
    (dtd dcp : ℤ) (rest : List ℤ)
    → leb_ℤ dcp dtd ≡ true
    → All (λ y. ltb_ℤ y dcp ≡ true) rest
    → build_past_dcp_list dtd (dcp ∷ rest) ≡ on_point dtd dcp
unfolding build_past_dcp_list
build_past_dcp_list-above dtd dcp [] h a = refl
build_past_dcp_list-above dtd dcp (y ∷ ys) h (b, a) =
    let past : leb_ℤ dtd y ≡ false = ground (arith, h, b) in rw past refl

-- On a falling list either no point is at the day or after it, and there is no remaining list but
-- all points are past; or the first such point cuts the list: those before it are past, with itself
-- if the day is on it, and the remaining list is the day and the points behind it.
pub dcp_lists-split :
    (dtd : ℤ) (whole : List ℤ)
    → IsFalling whole
    → (All (λ y. ltb_ℤ dtd y ≡ true) whole
        × (build_remaining_dcp_list dtd whole ≡ none)
        × (build_past_dcp_list dtd whole ≡ whole))
      ⊎ ((above : List ℤ) × (dcp : ℤ) × (rest : List ℤ) × (whole ≡ above ++ (dcp ∷ rest))
          × All (λ y. ltb_ℤ dtd y ≡ true) above
          × (leb_ℤ dcp dtd ≡ true)
          × (build_remaining_dcp_list dtd whole ≡ some (dtd ∷ rest))
          × (build_past_dcp_list dtd whole ≡ above ++ on_point dtd dcp))
unfolding build_remaining_dcp_list build_past_dcp_list
dcp_lists-split dtd [] f = inl (tt, refl, refl)
dcp_lists-split dtd (x ∷ xs) (below, f) = elim (Bool-cases (leb_ℤ x dtd)) [
  | inl here ↦
      inr ([], x, xs, refl, tt, here, rw here refl, build_past_dcp_list-above dtd x xs here below)
  | inr before ↦
      let above : ltb_ℤ dtd x ≡ true = ground (arith, before) in
      let past : leb_ℤ dtd x ≡ true = ground (arith, before) in
      elim (dcp_lists-split dtd xs f) [
        | inl (a, none_left, all) ↦
            inl ((above, a), rw (before, none_left) refl, rw past (ap (◌∷◌ x) all))
        | inr (ys, dcp, rest, e, a, h, remaining, cut) ↦ inr (
          x ∷ ys,
          dcp,
          rest,
          ap (◌∷◌ x) e,
          (above, a),
          h,
          rw before remaining,
          rw past (ap (◌∷◌ x) cut),
        )
      ]
]
