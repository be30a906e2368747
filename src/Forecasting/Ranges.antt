-- ===== src/Forecasting/Ranges.antt =====
-- The segments that a forecast uses at an interval, and the intervals.
use rmol.Base.{
  ap, false, ◌==◌, ℕ, ◌+◌, ◌-◌, ◌≤◌, ◌<◌, ◌≡◌, refl, List, ltb, min, if◌then◌else◌, arith, length,
}
use rmol.Base.Int.{ℤ, pos, ◌≤ℤ◌, ◌+ℤ◌}
use rmol.Snapshots.{get_nb_of_segment_already_passed_this_dtd, get_nb_of_departed_similar_segments}
use rmol.Snapshots.Count.{passed_count_mono}
use rmol.Forecasting.{Body, segment_range, forecast_interval}

range_of_le :
    (greatest departed usable : ℕ)
    → 2 ≤ departed
    → departed ≤ usable
    → (segment_begin : ℕ) × (segment_end : ℕ) × (segment_range greatest departed usable
        ≡ (segment_begin, segment_end))
      × (segment_begin < segment_end)
      × (segment_end < usable)
      × (segment_begin + min 52 departed ≡ departed)
      × (segment_end + 1 ≡ usable)
unfolding segment_range
range_of_le greatest departed usable two h =
    let some_begin = if ltb 52 departed then departed - 52 else 0 in
    let some_usable : (usable == 0) ≡ false = ground arith in
    (
      some_begin,
      usable - 1,
      rw some_usable refl,
      ground arith,
      omega arith,
      ground arith,
      omega arith,
    )

module _ {ℓ} {S : Type ℓ} where
  -- If two similar segments or more have departed and the interval does not end behind the
  -- departure, the interval has a range of at least two segments: those that have passed its end,
  -- from the last 52 that have departed on, or from the first of all if they are fewer.
  pub forecast_interval_range :
      (body : Body S) (boardings : List ℤ) (greatest : ℕ) (date dtd current next : ℤ) (s : S)
      → let departed = get_nb_of_departed_similar_segments boardings date in
        2 ≤ departed
        → pos 0 ≤ℤ next +ℤ pos 1
        → (segment_begin : ℕ) × (segment_end : ℕ) × (forecast_interval body boardings greatest date
              dtd departed current next s
            ≡ body current next segment_begin segment_end s)
          × (segment_begin < segment_end)
          × (segment_end < length boardings)
          × (segment_begin + min 52 departed ≡ departed)
          × (segment_end + 1
              ≡ get_nb_of_segment_already_passed_this_dtd boardings (next +ℤ pos 1) date)
  unfolding forecast_interval get_nb_of_departed_similar_segments
  forecast_interval_range body boardings greatest date dtd current next s two after =
      let (more, most) =
        passed_count_mono boardings (pos 0) (next +ℤ pos 1) date date after (omega arith) in
      let (segment_begin, segment_end, range, some_segments, inside, first, last) =
        range_of_le greatest (get_nb_of_segment_already_passed_this_dtd boardings (pos 0) date) _
          two more in
      (
        segment_begin,
        segment_end,
        ap (λ (r : ℕ × ℕ). body current next r.0 r.1 s) range,
        some_segments,
        omega (arith, inside, most),
        first,
        last,
      )
