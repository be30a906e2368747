-- ===== src/Inventory/Records.antt =====
-- rmol/command/InventoryParser.cpp: which tokens make a booking class.
use mathlib.Core.List.{append_assoc, append-nil}
use rmol.Base.{◌≡◌, sym, ◌∙◌, Bool, true, List, [], ◌∷◌, ◌++◌, Option, none, some}
use rmol.Inventory.{parse_token, parse_tokens, parse_input_file_and_build_bom}

-- the parts of a file: a record of three numbers, a token that is no number between two records,
-- and a record with such a token behind its first or its second number
pub data Part {ℓ} (D : Type ℓ) : Type ℓ where
  whole : (yield mean std_dev : D) → Part D
  junk : Part D
  broken_early : (yield mean std_dev : D) → Part D
  broken_late : (yield mean std_dev : D) → Part D

module _ {ℓ} {D : Type ℓ} where
  unfoldable pub tokens_of : List (Part D) → List (Option D)
  tokens_of [] = []
  tokens_of (whole y m s ∷ ps) = some y ∷ some m ∷ some s ∷ tokens_of ps
  tokens_of (junk ∷ ps) = none ∷ tokens_of ps
  tokens_of (broken_early y m s ∷ ps) = some y ∷ none ∷ some m ∷ some s ∷ tokens_of ps
  tokens_of (broken_late y m s ∷ ps) = some y ∷ some m ∷ none ∷ some s ∷ tokens_of ps

  unfoldable pub records_of : List (Part D) → List (D × D × D)
  records_of [] = []
  records_of (whole y m s ∷ ps) = (y, m, s) ∷ records_of ps
  records_of (junk ∷ ps) = records_of ps
  records_of (broken_early y m s ∷ ps) = records_of ps
  records_of (broken_late y m s ∷ ps) = records_of ps

  parse_tokens-records :
      (ps : List (Part D)) (all : Bool) (y m s : D) (classes : List (D × D × D))
      → (parse_tokens (tokens_of ps) (record {
        i = 1;
        has_all_params = all;
        yield = y;
        mean = m;
        std_dev = s;
        classes = classes;
      })).classes
        ≡ classes ++ records_of ps
  unfolding parse_tokens parse_token tokens_of records_of
  parse_tokens-records [] all y m s classes = sym (append-nil classes)
  parse_tokens-records (whole y' m' s' ∷ ps) all y m s classes =
      parse_tokens-records ps _ y' m' s' (classes ++ (y', m', s') ∷ [])
      ∙ append_assoc classes ((y', m', s') ∷ []) (records_of ps)
  parse_tokens-records (junk ∷ ps) all y m s classes = parse_tokens-records ps _ y m s classes
  parse_tokens-records (broken_early y' m' s' ∷ ps) all y m s classes =
      parse_tokens-records ps _ y' m' s' classes
  parse_tokens-records (broken_late y' m' s' ∷ ps) all y m s classes =
      parse_tokens-records ps _ y' m' s' classes

  -- Each record of three numbers makes a booking class of its yield, mean and deviation, in the
  -- order of the file. A token between records that is no number changes nothing; an additional
  -- one between the numbers of a record costs that record alone.
  pub parse_input_file_and_build_bom-records :
      (nothing : D) (ps : List (Part D))
      → parse_input_file_and_build_bom nothing (tokens_of ps) ≡ records_of ps
  unfolding parse_input_file_and_build_bom
  parse_input_file_and_build_bom-records nothing ps =
      parse_tokens-records ps true nothing nothing nothing []
