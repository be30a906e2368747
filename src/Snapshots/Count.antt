-- ===== src/Snapshots/Count.antt =====
-- rmol/bom/SegmentSnapshotTableHelper.cpp: the count of the segments and the day.
use mathlib.Core.Option.{some-injective}
use rmol.Base.{
  ℕ, zero, suc, ◌≤◌, ◌<◌, ◌≡◌, ◌↔◌, refl, subst, inl, inr, true, false, List, [], ◌∷◌, some, arith,
  length, get_elem?, Bool-cases,
}
use rmol.Base.Int.{ℤ, pos, ◌≤ℤ◌, ◌-ℤ◌, ◌+ℤ◌}
use rmol.Snapshots.{has_passed_this_dtd, get_nb_of_segment_already_passed_this_dtd}

has_passed_mono :
    (boarding dtd dtd' current current' : ℤ)
    → dtd ≤ℤ dtd'
    → current ≤ℤ current'
    → has_passed_this_dtd boarding dtd current ≡ true
    → has_passed_this_dtd boarding dtd' current' ≡ true
unfolding has_passed_this_dtd ◌-ℤ◌
has_passed_mono boarding dtd dtd' current current' h g p = ground (arith, h, g, p)

-- A later date or a greater number of days to departure never lessens the count of the segments
-- that have passed it, which is at most the number of segments.
pub passed_count_mono :
    (boardings : List ℤ) (dtd dtd' current current' : ℤ)
    → dtd ≤ℤ dtd'
    → current ≤ℤ current'
    → (get_nb_of_segment_already_passed_this_dtd boardings dtd current
        ≤ get_nb_of_segment_already_passed_this_dtd boardings dtd' current')
      × (get_nb_of_segment_already_passed_this_dtd boardings dtd' current' ≤ length boardings)
unfolding get_nb_of_segment_already_passed_this_dtd
passed_count_mono [] dtd dtd' current current' h g = (omega arith, omega arith)
passed_count_mono (b ∷ bs) dtd dtd' current current' h g =
    let (less, most) = passed_count_mono bs dtd dtd' current current' h g in
    elim (Bool-cases (has_passed_this_dtd b dtd current)) [
      | inl before ↦
          let after = has_passed_mono b dtd dtd' current current' h g before in
          rw (before, after) (omega (arith, less), omega (arith, most))
      | inr not_before ↦ rw not_before (ground (arith, less), ground (arith, most))
    ]

-- each boarding date is not before the one in front of it
abbrev pub IsInOrder : List ℤ → Type 0
IsInOrder [] = Unit
IsInOrder (b ∷ []) = Unit
IsInOrder (b ∷ c ∷ bs) = (b ≤ℤ c) × IsInOrder (c ∷ bs)

IsInOrder-tail : (b : ℤ) (bs : List ℤ) → IsInOrder (b ∷ bs) → IsInOrder bs
IsInOrder-tail b [] s = tt
IsInOrder-tail b (c ∷ bs) s = s.1

-- the boarding date is before the current date and the days to departure
has_passed_iff :
    (boarding dtd current : ℤ)
    → (has_passed_this_dtd boarding dtd current ≡ true) ↔ (boarding +ℤ pos 1 ≤ℤ current +ℤ dtd)
unfolding has_passed_this_dtd ◌-ℤ◌ ◌+ℤ◌
has_passed_iff boarding dtd current = ground arith

has_passed_earlier :
    (boarding b dtd current : ℤ)
    → boarding ≤ℤ b
    → has_passed_this_dtd boarding dtd current ≡ false
    → has_passed_this_dtd b dtd current ≡ false
unfolding has_passed_this_dtd ◌-ℤ◌
has_passed_earlier boarding b dtd current le h = ground (arith, le, h)

none_behind :
    (boarding : ℤ) (boardings : List ℤ) (dtd current : ℤ)
    → IsInOrder (boarding ∷ boardings)
    → has_passed_this_dtd boarding dtd current ≡ false
    → get_nb_of_segment_already_passed_this_dtd boardings dtd current ≡ 0
unfolding get_nb_of_segment_already_passed_this_dtd
none_behind boarding [] dtd current s h = refl
none_behind boarding (b ∷ bs) dtd current (le, s) h =
    let not_b = has_passed_earlier boarding b dtd current le h in
    rw not_b (none_behind b bs dtd current s not_b)

first_passed :
    (boardings : List ℤ) (dtd current : ℤ) (i : ℕ) {found : ℤ}
    → IsInOrder boardings
    → get_elem? boardings i ≡ some found
    → (i < get_nb_of_segment_already_passed_this_dtd boardings dtd current)
      ↔ (has_passed_this_dtd found dtd current ≡ true)
unfolding get_nb_of_segment_already_passed_this_dtd
first_passed [] dtd current i s e = cc
first_passed (b ∷ bs) dtd current zero {found} s e =
    let same : b ≡ found = some-injective _ _ e in
    elim (Bool-cases (has_passed_this_dtd b dtd current)) [
      | inl passed ↦ rw passed (
        (λ _. subst (λ x. has_passed_this_dtd x dtd current ≡ true) same passed),
        λ _. omega arith,
      )
      | inr not_passed ↦
          let none_there = none_behind b bs dtd current s not_passed in
          let not' = subst (λ x. has_passed_this_dtd x dtd current ≡ false) same not_passed in
          rw (not_passed, none_there) ((λ h. elim h [ ]), λ h. ground (arith, h, not'))
    ]
first_passed (b ∷ bs) dtd current (suc i) {found} s e =
    let (fore, back) = first_passed bs dtd current i (IsInOrder-tail b bs s) e in
    elim (Bool-cases (has_passed_this_dtd b dtd current)) [
      | inl passed ↦ rw passed ((λ h. fore (omega (arith, h))), λ h. omega (arith, back h))
      | inr not_passed ↦
          let none_there = none_behind b bs dtd current s not_passed in
          rw (not_passed, none_there)
            ((λ h. elim h [ ]), λ h. omega (arith, rw none_there at back h))
    ]

-- If the segments are in the order of their boarding dates, the count cuts their list: a segment
-- stands before the place that the count gives exactly if its boarding date is before the date that
-- lies the days to departure after the current one.
pub passed_count-first :
    (boardings : List ℤ) (dtd current : ℤ) (i : ℕ) {b : ℤ}
    → IsInOrder boardings
    → get_elem? boardings i ≡ some b
    → (i < get_nb_of_segment_already_passed_this_dtd boardings dtd current)
      ↔ (b +ℤ pos 1 ≤ℤ current +ℤ dtd)
passed_count-first boardings dtd current i {b} s e =
    let (fore, back) = first_passed boardings dtd current i s e in
    let (only, all) = has_passed_iff b dtd current in ((λ h. only (fore h)), λ h. back (all h))
