-- ===== src/Policy/Between.antt =====
-- `diffBetweenBookingClassAndPolicy` of rmol/bom/PolicyHelper.cpp: the classes it adds.
use mathlib.Core.List.{reverse, reverse-append, reverse-cons, append_assoc}
use rmol.Base.{
  ℕ, ◌≡◌, ◌≢◌, refl, sym, ap, ◌∙◌, subst, true, false, List, [], ◌∷◌, ◌++◌, none, some, arith,
  length, length-append, All, All-append, ◌==◌, ltb,
}
use rmol.Policy.{
  is_in, first_in, intersection_between_policy_and_booking_class_list, from_class, before_class,
  between, diff_between_booking_class_and_policy,
}

-- a list that does not hold the code
abbrev pub Lacks : ℕ → List ℕ → Type 0
Lacks code = All (λ k. k ≢ code)

Lacks-reverse : (code : ℕ) (ks : List ℕ) → Lacks code ks → Lacks code (reverse ks)
Lacks-reverse code [] h = tt
Lacks-reverse code (k ∷ ks) (a, h) =
    subst (Lacks code) (sym (reverse-cons k ks))
      (All-append (λ k. k ≢ code) (reverse ks) (k ∷ []) (Lacks-reverse code ks h) (a, tt))

from_class-append :
    (code : ℕ) (low high : List ℕ)
    → Lacks code low
    → from_class code (low ++ code ∷ high) ≡ some (code ∷ high)
unfolding from_class
from_class-append code [] high h = ground arith
from_class-append code (k ∷ ks) high (a, h) =
    let other : (code == k) ≡ false = ground (arith, a) in
    rw other (from_class-append code ks high h)

before_class-append :
    (code : ℕ) (low high : List ℕ)
    → Lacks code low
    → before_class code (low ++ code ∷ high) ≡ some low
unfolding before_class
before_class-append code [] high h = ground arith
before_class-append code (k ∷ ks) high (a, h) =
    let other : (code == k) ≡ false = ground (arith, a) in
    rw (other, before_class-append code ks high h) refl

first_in-append :
    (held : List ℕ) (second : ℕ) (high low : List ℕ)
    → All (λ k. is_in k held ≡ false) high
    → is_in second held ≡ true
    → first_in (high ++ second ∷ low) held ≡ some second
unfolding first_in
first_in-append held second [] low a h = rw h refl
first_in-append held second (k ∷ ks) low (b, a) h = rw b (first_in-append held second ks low a h)

reverse-split :
    (high low : List ℕ) (first : ℕ)
    → reverse (high ++ (first ∷ low)) ≡ reverse low ++ (first ∷ reverse high)
reverse-split high low first =
    reverse-append high (first ∷ low)
    ∙ ap (λ xs. xs ++ reverse high) (reverse-cons first low)
    ∙ append_assoc (reverse low) (first ∷ []) (reverse high)

not_empty : (high low : List ℕ) (first : ℕ) → ltb 0 (length (high ++ (first ∷ low))) ≡ true
not_empty high low first = ground (arith, length-append high (first ∷ low))

-- In a family where the first policy's class stands below the second's, with `middle` between the
-- two, the node gets the first class and `middle`, from low to high.
pub diff_between_classes :
    (node high middle low held : List ℕ) (first second : ℕ)
    → Lacks first low
    → Lacks second (first ∷ reverse middle)
    → All (λ k. is_in k held ≡ false) high
    → is_in second held ≡ true
    → diff_between_booking_class_and_policy node
        ((high ++ (second ∷ middle)) ++ (first ∷ low))
        first
        (some held)
      ≡ some (node ++ (first ∷ reverse middle))
unfolding diff_between_booking_class_and_policy intersection_between_policy_and_booking_class_list
    between
diff_between_classes node high middle low held first second only_low only_first above has =
    let upper = high ++ (second ∷ middle) in
    let found : first_in (upper ++ (first ∷ low)) held ≡ some second =
      ap (λ xs. first_in xs held) (append_assoc high (second ∷ middle) (first ∷ low))
      ∙ first_in-append held second high (middle ++ (first ∷ low)) above has in
    let start : from_class first (reverse (upper ++ (first ∷ low))) ≡ some (first ∷ reverse upper) =
      ap (from_class first) (reverse-split upper low first)
      ∙ from_class-append first (reverse low) (reverse upper) (Lacks-reverse first low only_low) in
    let stop : before_class second (first ∷ reverse upper) ≡ some (first ∷ reverse middle) =
      ap (λ xs. before_class second (first ∷ xs)) (reverse-split high middle second)
      ∙ before_class-append second (first ∷ reverse middle) (reverse high) only_first in
    rw (not_empty upper low first, start, found, stop) refl

first_in-none :
    (held family : List ℕ) → All (λ k. is_in k held ≡ false) family → first_in family held ≡ none
unfolding first_in
first_in-none held [] a = refl
first_in-none held (k ∷ ks) (b, a) = rw b (first_in-none held ks a)

-- If the second policy holds no class of the family, the node gets the first policy's class and
-- all those above it, from low to high.
pub diff_from_class :
    (node high low held : List ℕ) (first : ℕ)
    → Lacks first low
    → All (λ k. is_in k held ≡ false) (high ++ (first ∷ low))
    → diff_between_booking_class_and_policy node (high ++ (first ∷ low)) first (some held)
      ≡ some (node ++ (first ∷ reverse high))
unfolding diff_between_booking_class_and_policy intersection_between_policy_and_booking_class_list
    between
diff_from_class node high low held first only_low closed =
    let start : from_class first (reverse (high ++ (first ∷ low))) ≡ some (first ∷ reverse high) =
      ap (from_class first) (reverse-split high low first)
      ∙ from_class-append first (reverse low) (reverse high) (Lacks-reverse first low only_low) in
    rw (not_empty high low first, start, first_in-none held _ closed) refl
