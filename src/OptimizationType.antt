-- ===== src/OptimizationType.antt =====
-- rmol/OptimizationType.hpp and rmol/basic/OptimizationType.cpp: the kinds of optimisation, their
-- one-letter codes and their labels. `none` is the CodeConversionException of the constructors, and
-- in the getters a read at LAST_VALUE, which lies behind the end of the tables.
pub mod Laws
mod Tests
use Prim.Native.String.{String}
use text.Mathlib.Text.{◌==◌ as str_eq}
use rmol.Base.{ℕ, suc, Bool, List, [], ◌∷◌, Option, none, some, ◌==◌, if◌then◌else◌, get_elem?}

pub data OptimizationType : Type 0 where
  opt_mc opt_dp heur_emsr heur_emsra heur_emsrb : OptimizationType
  heur_mc_4_qff heur_emsrb_4_qff heur_mrt_qff last_value : OptimizationType

-- the number of an enumerator
pub to_index : OptimizationType → ℕ
to_index opt_mc = 0
to_index opt_dp = 1
to_index heur_emsr = 2
to_index heur_emsra = 3
to_index heur_emsrb = 4
to_index heur_mc_4_qff = 5
to_index heur_emsrb_4_qff = 6
to_index heur_mrt_qff = 7
to_index last_value = 8

-- `static_cast<EN_OptimizationType> (idx)`
pub of_index : ℕ → OptimizationType
of_index n =
    if n == 0
    then opt_mc
    else if n == 1
    then opt_dp
    else if n == 2
    then heur_emsr
    else if n == 3
    then heur_emsra
    else if n == 4
    then heur_emsrb
    else if n == 5
    then heur_mc_4_qff
    else if n == 6
    then heur_emsrb_4_qff
    else if n == 7
    then heur_mrt_qff
    else last_value

abbrev labels : List String
labels =
    "OptimalByMC" ∷ "OptimalByDP" ∷ "HeuristicByEMSR" ∷ "HeuristicByEMSRa" ∷ "HeuristicByEMSRb"
    ∷ "HeuristicByMCForQFF" ∷ "HeuristicByEMSRbForQFF" ∷ "HeuristicByMRTForQFF" ∷ []

abbrev type_labels : List ℕ
type_labels = b'M' ∷ b'D' ∷ b'E' ∷ b'A' ∷ b'B' ∷ b'Q' ∷ b'C' ∷ b'R' ∷ []

-- the `switch` of the constructor from a `char`
pub type_of_char : ℕ → OptimizationType
type_of_char c =
    if c == b'M'
    then opt_mc
    else if c == b'D'
    then opt_dp
    else if c == b'E'
    then heur_emsr
    else if c == b'A'
    then heur_emsra
    else if c == b'B'
    then heur_emsrb
    else if c == b'Q'
    then heur_mc_4_qff
    else if c == b'C'
    then heur_emsrb_4_qff
    else if c == b'R'
    then heur_mrt_qff
    else last_value

-- the throw at the end of either constructor
abbrev known : OptimizationType → Option OptimizationType
known last_value = none
known t = some t

pub of_char : ℕ → Option OptimizationType
unfolding type_of_char
of_char c = known (type_of_char c)

-- the loop of the constructor from a string, from the label number `idx` on
pub scan_labels : String → List String → ℕ → OptimizationType
scan_labels s [] idx = last_value
scan_labels s (label ∷ rest) idx =
    let later = scan_labels s rest (suc idx) in if str_eq s label then of_index idx else later

pub of_string : String → Option OptimizationType
unfolding scan_labels of_index
of_string s = known (scan_labels s labels 0)

pub get_label : OptimizationType → Option String
unfolding to_index
get_label t = get_elem? labels (to_index t)

pub get_type_label : OptimizationType → Option ℕ
unfolding to_index
get_type_label t = get_elem? type_labels (to_index t)
