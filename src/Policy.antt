-- ===== src/Policy.antt =====
-- rmol/bom/PolicyHelper.cpp: policies, which hold a booking class of each fare family that they
-- open, and the booking classes between two policies. A booking class is known by its code; the
-- booking classes of its fare family, from high to low, are a parameter of what asks for them.
pub mod Between
pub mod Nested
mod Tests
use mathlib.Core.List.{reverse}
use rmol.Base.{
  ℕ, ◌-◌, Bool, true, false, List, [], ◌∷◌, ◌++◌, map, Option, none, some, ◌==◌, leb, ltb,
  if◌then◌else◌, length, take, ◌>>=◌, ◌>>◌, assert,
}

-- `stdair::Policy`: `classes` is `none` if the policy has no list of booking classes.
pub record Policy {ℓ} (D : Type ℓ) : Type ℓ where
  pub classes : Option (List ℕ)
  pub demand : D
  pub total_revenue : D
  pub std_dev : D

-- the first booking class of the family that the policy holds
unfoldable pub is_in : ℕ → List ℕ → Bool
is_in code [] = false
is_in code (k ∷ ks) = if k == code then true else is_in code ks

unfoldable pub first_in : List ℕ → List ℕ → Option ℕ
unfolding is_in
first_in [] held = none
first_in (k ∷ ks) held = if is_in k held then some k else first_in ks held

unfoldable pub intersection_between_policy_and_booking_class_list :
    List ℕ → Option (List ℕ) → Option ℕ
unfolding first_in
intersection_between_policy_and_booking_class_list family none = none
intersection_between_policy_and_booking_class_list family (some held) = first_in family held

-- the list from the class on; `none` if the class is not there
unfoldable pub from_class : ℕ → List ℕ → Option (List ℕ)
from_class code [] = none
from_class code (k ∷ ks) = if code == k then some (k ∷ ks) else from_class code ks

-- the list before the class; `none` if the class is not there
unfoldable pub before_class : ℕ → List ℕ → Option (List ℕ)
before_class code [] = none
before_class code (k ∷ ks) =
    let rest = before_class code ks in
    if code == k then some [] else (rest >>= λ before. some (k ∷ before))

-- what is added to the node, by whether the second policy holds a class of the family
unfoldable pub between : Option ℕ → List ℕ → Option (List ℕ)
unfolding before_class
between none rest = some rest
between (some second) rest = before_class second rest

-- the classes of the node, with those that are added; the exceptions are `none`
unfoldable pub diff_between_booking_class_and_policy :
    (node family : List ℕ) (first : ℕ) (second : Option (List ℕ)) → Option (List ℕ)
unfolding from_class between intersection_between_policy_and_booking_class_list
diff_between_booking_class_and_policy node family first second = do
  assert (ltb 0 (length family))
  rest ← from_class first (reverse family)
  added ← between (intersection_between_policy_and_booking_class_list family second) rest
  some (node ++ added)

-- one class of the first policy after the other
unfoldable pub diff_between_classes_and_policy :
    (family_of : ℕ → List ℕ) (node : List ℕ) (firsts : List ℕ) (second : Option (List ℕ))
    → Option (List ℕ)
unfolding diff_between_booking_class_and_policy
diff_between_classes_and_policy family_of node [] second = some node
diff_between_classes_and_policy family_of node (c ∷ cs) second = do
  node' ← diff_between_booking_class_and_policy node (family_of c) c second
  diff_between_classes_and_policy family_of node' cs second

unfoldable pub diff_between_two_policies {ℓ} :
    {D : Type ℓ} → (ℕ → List ℕ) → List ℕ → Policy D → Policy D → Option (List ℕ)
unfolding diff_between_classes_and_policy
diff_between_two_policies family_of node first second = do
  firsts ← first.classes
  diff_between_classes_and_policy family_of node firsts second.classes

-- the classes of a family from low to high, up to the given one
unfoldable pub below_class : ℕ → List ℕ → List ℕ
below_class code [] = []
below_class code (k ∷ ks) = if k == code then [] else k ∷ below_class code ks

unfoldable pub below_classes : (ℕ → List ℕ) → List ℕ → List ℕ
unfolding below_class
below_classes family_of [] = []
below_classes family_of (c ∷ cs) =
    below_class c (reverse (family_of c)) ++ below_classes family_of cs

unfoldable pub all_from_low : List (List ℕ) → List ℕ
all_from_low [] = []
all_from_low (family ∷ families) = reverse family ++ all_from_low families

-- `stdair::NestingNode`, with the codes of its booking classes
pub record NestingNode {ℓ} (D : Type ℓ) : Type ℓ where
  pub yield : D
  pub classes : List ℕ

-- The classes of the last node: those of the closed families, and those below the policy's own.
-- `default_yield` is a constant of StdAir.
unfoldable pub compute_last_node {ℓ} :
    {D : Type ℓ}
    → (ℕ → List ℕ)
    → (default_yield : D) → NestingNode D
    → Policy D
    → (families : List (List ℕ)) → Option (NestingNode D)
unfolding all_from_low below_classes
compute_last_node family_of default_yield node policy families = do
  classes ← policy.classes
  assert (leb (length classes) (length families))
  let closed = all_from_low (take (length families - length classes) (reverse families))
  some (record node {
    yield = default_yield;
    classes = (node.classes ++ closed) ++ below_classes family_of (reverse classes);
  })

-- whether `second` comes before `first` in the family
unfoldable pub precedes : (first second : ℕ) → List ℕ → Bool
precedes first second [] = false
precedes first second (k ∷ ks) =
    let rest = precedes first second ks in
    if first == k then false else (if second == k then true else rest)

-- The loop over the pairs, which the first equal pair ends; `none` is a read behind the end.
unfoldable pub pairs_in_order : (ℕ → List ℕ) → List ℕ → List ℕ → Option Bool
unfolding precedes
pairs_in_order family_of [] seconds = some true
pairs_in_order family_of (f ∷ fs) [] = none
pairs_in_order family_of (f ∷ fs) (s ∷ ss) =
    let rest = pairs_in_order family_of fs ss in
    let compared = if precedes f s (family_of f) then some false else rest in
    if f == s then some true else compared

unfoldable pub classes_nested : (ℕ → List ℕ) → Option (List ℕ) → Option (List ℕ) → Option Bool
unfolding pairs_in_order
classes_nested family_of none second = some true
classes_nested family_of (some firsts) none = some false
classes_nested family_of (some firsts) (some seconds) =
    let compared = pairs_in_order family_of firsts seconds in
    if ltb (length seconds) (length firsts) then some false else compared

unfoldable pub is_nested {ℓ} : {D : Type ℓ} → (ℕ → List ℕ) → Policy D → Policy D → Option Bool
unfolding classes_nested
is_nested family_of first second = classes_nested family_of first.classes second.classes
