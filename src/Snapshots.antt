-- ===== src/Snapshots.antt =====
-- rmol/bom/SegmentSnapshotTableHelper.cpp, and `getNbOfDepartedSimilarSegments` of
-- rmol/bom/Utilities.cpp. A date is a number of days, and a segment-cabin is its boarding date.
pub mod Count
mod Tests
use rmol.Base.{ℕ, suc, Bool, List, [], ◌∷◌, if◌then◌else◌}
use rmol.Base.Int.{ℤ, pos, ltb_ℤ, ◌-ℤ◌}

unfoldable pub has_passed_this_dtd : (boarding dtd current : ℤ) → Bool
has_passed_this_dtd boarding dtd current = ltb_ℤ (boarding -ℤ current) dtd

unfoldable pub get_nb_of_segment_already_passed_this_dtd : List ℤ → (dtd current : ℤ) → ℕ
unfolding has_passed_this_dtd
get_nb_of_segment_already_passed_this_dtd [] dtd current = 0
get_nb_of_segment_already_passed_this_dtd (boarding ∷ rest) dtd current =
    let others = get_nb_of_segment_already_passed_this_dtd rest dtd current in
    if has_passed_this_dtd boarding dtd current then suc others else others

unfoldable pub get_nb_of_departed_similar_segments : List ℤ → (event_date : ℤ) → ℕ
unfolding get_nb_of_segment_already_passed_this_dtd
get_nb_of_departed_similar_segments boardings event_date =
    get_nb_of_segment_already_passed_this_dtd boardings (pos 0) event_date
