-- ===== src/OptimizationType/Laws.antt =====
-- The codes and the labels of rmol/basic/OptimizationType.cpp name each kind once.
use Prim.Native.String.{String}
use text.Mathlib.TextEquality.{eq_iff}
use text.Mathlib.Text.{◌==◌ as str_eq}
use mathlib.Core.Option.{some-injective}
use rmol.Base.{
  ℕ, suc, ◌+◌, ◌≡◌, ◌≢◌, refl, sym, ap, ◌∙◌, subst, ◌↔◌, inl, inr, List, [], ◌∷◌, some, arith,
  Bool-cases, get_elem?,
}
use rmol.OptimizationType.{
  OptimizationType, of_char, of_string, get_label, get_type_label, scan_labels, of_index, labels,
  opt_mc, opt_dp, heur_emsr, heur_emsra, heur_emsrb, heur_mc_4_qff, heur_emsrb_4_qff, heur_mrt_qff,
  last_value,
}

of_char-get_type_label :
    (c : ℕ) (t : OptimizationType) → (of_char c ≡ some t) ↔ (get_type_label t ≡ some c)
unfolding of_char get_type_label
of_char-get_type_label c t = ground arith

-- What the loop finds is a label, and the kind that stands for its place.
scan_labels-get_elem? :
    (s : String) (ls : List String) (i : ℕ)
    → scan_labels s ls i ≢ last_value
    → (k : ℕ) × (get_elem? ls k ≡ some s) × (scan_labels s ls i ≡ of_index (i + k))
unfolding scan_labels
scan_labels-get_elem? s [] i h = absurd (h refl)
scan_labels-get_elem? s (l ∷ ls) i h = elim (Bool-cases (str_eq s l)) [
  | inl e ↦ (0, ap some (sym ((eq_iff s l).0 e)), rw e (ap of_index (omega arith)))
  | inr e ↦
      let (k, at, found) = scan_labels-get_elem? s ls (suc i) (rw e at h) in
      (suc k, at, rw e (found ∙ ap of_index (omega arith)))
]

get_label-of_index :
    (k : ℕ) (s : String) → get_elem? labels k ≡ some s → get_label (of_index k) ≡ some s
unfolding of_index get_label
get_label-of_index k s h = ground arith

of_string-known : (s : String) (t : OptimizationType) → get_label t ≡ some s → of_string s ≡ some t
unfolding of_string get_label
of_string-known s opt_mc h = subst (λ x. of_string x ≡ some opt_mc) (some-injective _ _ h) refl
of_string-known s opt_dp h = subst (λ x. of_string x ≡ some opt_dp) (some-injective _ _ h) refl
of_string-known s heur_emsr h =
    subst (λ x. of_string x ≡ some heur_emsr) (some-injective _ _ h) refl
of_string-known s heur_emsra h =
    subst (λ x. of_string x ≡ some heur_emsra) (some-injective _ _ h) refl
of_string-known s heur_emsrb h =
    subst (λ x. of_string x ≡ some heur_emsrb) (some-injective _ _ h) refl
of_string-known s heur_mc_4_qff h =
    subst (λ x. of_string x ≡ some heur_mc_4_qff) (some-injective _ _ h) refl
of_string-known s heur_emsrb_4_qff h =
    subst (λ x. of_string x ≡ some heur_emsrb_4_qff) (some-injective _ _ h) refl
of_string-known s heur_mrt_qff h =
    subst (λ x. of_string x ≡ some heur_mrt_qff) (some-injective _ _ h) refl
of_string-known s last_value h = cc

of_string-get_label :
    (s : String) (t : OptimizationType) → (of_string s ≡ some t) ↔ (get_label t ≡ some s)
unfolding of_string
of_string-get_label s t = (of_some, of_string-known s t)
  where
    of_some : of_string s ≡ some t → get_label t ≡ some s
    of_some h =
        let named : scan_labels s labels 0 ≢ last_value = ground arith in
        let (k, at, found) = scan_labels-get_elem? s labels 0 named in
        let same : of_index (0 + k) ≡ t = ground arith in
        subst (λ u. get_label u ≡ some s) same
          (get_label-of_index (0 + k) s (ap (get_elem? labels) {x = 0 + k} (omega arith) ∙ at))

-- The constructor from a letter builds a kind exactly when the letter is that kind's code, and the
-- constructor from a label exactly when the text is that kind's label.
pub constructors_iff :
    (c : ℕ) (s : String) (t : OptimizationType)
    → ((of_char c ≡ some t) ↔ (get_type_label t ≡ some c))
      × ((of_string s ≡ some t) ↔ (get_label t ≡ some s))
constructors_iff c s t = (of_char-get_type_label c t, of_string-get_label s t)
