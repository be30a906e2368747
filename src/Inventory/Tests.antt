-- ===== src/Inventory/Tests.antt =====
-- A file with a record, a line break and a broken record.
use rmol.Base.{ℕ, ◌≡◌, refl, List, [], ◌∷◌}
use rmol.Inventory.{parse_input_file_and_build_bom}
use rmol.Inventory.Records.{
  Part, whole, junk, broken_late, parse_input_file_and_build_bom-records, tokens_of, records_of,
}

abbrev parts : List (Part ℕ)
parts = whole 100 20 5 ∷ junk ∷ broken_late 90 10 3 ∷ whole 50 30 6 ∷ []

two_records : records_of parts ≡ (100, 20, 5) ∷ (50, 30, 6) ∷ []
unfolding records_of
two_records = refl

parse_input_file_and_build_bom-records_example :
    parse_input_file_and_build_bom 0 (tokens_of parts) ≡ records_of parts
parse_input_file_and_build_bom-records_example = parse_input_file_and_build_bom-records 0 parts
