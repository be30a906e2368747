-- ===== src/Inventory.antt =====
-- The token loop of rmol/command/InventoryParser.cpp. The file is the list of what `getline` up to
-- a semicolon and `>>` give for each token: a number, or none.
pub mod Records
mod Tests
use rmol.Base.{
  ℕ, suc, Bool, true, false, ◌&&◌, List, [], ◌∷◌, ◌++◌, Option, none, some, ◌==◌, if◌then◌else◌,
}

-- The variables of the loop; `classes` are the booking classes, which are added to the
-- segment-cabin, each with its virtual class to the leg-cabin.
pub record Parsing {ℓ} (D : Type ℓ) : Type ℓ where
  pub i : ℕ
  pub has_all_params : Bool
  pub yield : D
  pub mean : D
  pub std_dev : D
  pub classes : List (D × D × D)

module _ {ℓ} {D : Type ℓ} where
  -- a number goes to the parameter whose turn it is
  unfoldable pub take_number : D → Parsing D → Parsing D
  take_number v st =
      if st.i == 1
      then record st { i = 2; yield = v }
      else if st.i == 2
      then record st { i = 3; mean = v }
      else (if st.i == 3 then record st { i = 1; std_dev = v } else record st { i = suc st.i })

  unfoldable pub take_token : Option D → Parsing D → Parsing D
  unfolding take_number
  take_token none st = record st { has_all_params = false }
  take_token (some v) st = take_number v st

  unfoldable pub add_class : Parsing D → Parsing D
  add_class st =
      if st.has_all_params && (st.i == 1)
      then record st { classes = st.classes ++ (st.yield, st.mean, st.std_dev) ∷ [] }
      else st

  -- the body of the loop
  unfoldable pub parse_token : Option D → Parsing D → Parsing D
  unfolding take_token add_class
  parse_token token st =
      let start = if st.i == 1 then record st { has_all_params = true } else st in
      add_class (take_token token start)

  unfoldable pub parse_tokens : List (Option D) → Parsing D → Parsing D
  unfolding parse_token
  parse_tokens [] st = st
  parse_tokens (t ∷ ts) st = parse_tokens ts (parse_token t st)

  -- From the start; the parameters have no value there, and `nothing` stands for them.
  unfoldable pub parse_input_file_and_build_bom : (nothing : D) → List (Option D) → List (D × D × D)
  unfolding parse_tokens
  parse_input_file_and_build_bom nothing tokens =
      (parse_tokens tokens (record {
        i = 1;
        has_all_params = true;
        yield = nothing;
        mean = nothing;
        std_dev = nothing;
        classes = [];
      })).classes
