-- ===== src/Service/Added.antt =====
-- The projections of rmol/service/RMOL_Service.cpp: the leg-cabins with some additions, and the
-- steps that add what is listed.
use mathlib.Core.Option
use mathlib.Core.Option.{some-injective}
use mathlib.Core.List.{append_assoc, append-nil, foldl-append}
use rmol.Base.{
  ℕ, zero, suc, ◌≡◌, refl, sym, ap, ◌∙◌, subst, inl, inr, Bool, List, [], ◌∷◌, ◌++◌, Option, none,
  some, ◌==◌, get_elem?, set, ◌>>=◌, ◌>>◌, assert, Bool-cases, Option-cases, ==_iff, >>=-eq-some,
  assert-eq-some, get_elem?-set_ne, arith,
}
use rmol.Cabin.{LegCabin}
use rmol.Service.{OndCabin, OndSegment, LegOps, for_each, update_leg}
use rmol.Service.Projection.{Legs, for_segments, if_operated}
use rmol.Service.Additions.{
  Addition, collect, of_segments, of_operated, with_addition, with_additions,
}

get_elem?-set {ℓ} :
    {A : Type ℓ} (xs : List A) (i : ℕ) (v : A) {a : A}
    → get_elem? xs i ≡ some a
    → get_elem? (set xs i v) i ≡ some v
get_elem?-set [] i v e = cc
get_elem?-set (x ∷ xs) zero v e = refl
get_elem?-set (x ∷ xs) (suc i) v e = get_elem?-set xs i v e

pub unchanged {ℓ} : {A : Type ℓ} (o : Option A) → Option.map (λ a. a) o ≡ o
unchanged none = refl
unchanged (some a) = refl

module _ {ℓ} {D : Type ℓ} (ops : LegOps D) where
  -- an addition at one leg-cabin, and after others
  update_leg-with_addition :
      (a : Addition D) (j : ℕ) (legs : Legs D) {legs' : Legs D}
      → update_leg (ops.add_demand_information a.yield a.mean a.std_dev) a.leg legs ≡ some legs'
      → get_elem? legs' j ≡ Option.map (λ c. with_addition ops j c a) (get_elem? legs j)
  unfolding update_leg with_addition
  update_leg-with_addition a j legs e =
      let (leg, at, e1) = >>=-eq-some (get_elem? legs a.leg) _ e in
      let f = ops.add_demand_information a.yield a.mean a.std_dev in
      ap (λ ls. get_elem? ls j) (sym (some-injective _ _ e1)) ∙ elim (Bool-cases (a.leg == j)) [
        | inl here ↦
            let same = (==_iff a.leg j).0 here in
            let at_j = subst (λ i. get_elem? legs i ≡ some leg) same at in
            subst (λ i. get_elem? (set legs i (f leg)) j ≡ some (f leg)) (sym same)
              (get_elem?-set legs j (f leg) at_j)
            ∙ rw (here, at_j) refl
        | inr elsewhere ↦
            get_elem?-set_ne legs a.leg j (f leg) (ground (arith, elsewhere))
            ∙ rw elsewhere (sym (unchanged (get_elem? legs j)))
      ]

  then_one :
      (added : List (Addition D)) (a : Addition D) (j : ℕ) (o : Option (LegCabin D))
      → Option.map (λ c. with_addition ops j c a) (Option.map (with_additions ops j added) o)
        ≡ Option.map (with_additions ops j (added ++ a ∷ [])) o
  then_one added a j none = refl
  then_one added a j (some c) = ap some (sym (foldl-append (with_addition ops j) c added (a ∷ [])))

module _ {ℓ} {D : Type ℓ} (ops : LegOps D) (start : Legs D) where
  -- the leg-cabins with some additions
  abbrev pub IsAdded : List (Addition D) → Legs D → Type ℓ
  IsAdded added legs =
      (j : ℕ) → get_elem? legs j ≡ Option.map (with_additions ops j added) (get_elem? start j)

  -- a step that returns adds what is listed
  abbrev pub Adds : (Legs D → Option (Legs D)) → Option (List (Addition D)) → Type ℓ
  Adds step listed =
      (added : List (Addition D)) (legs legs' : Legs D)
      → IsAdded added legs
      → step legs ≡ some legs'
      → (more : List (Addition D)) × (listed ≡ some more) × IsAdded (added ++ more) legs'

  pub no_more : Adds some (some [])
  no_more added legs legs' h e = (
    [],
    refl,
    subst (λ ls. IsAdded (added ++ []) ls) (some-injective _ _ e)
        (subst (λ t. IsAdded t legs) (sym (append-nil added)) h),
  )

  pub one_more :
      (added : List (Addition D)) (a : Addition D) (legs legs' : Legs D)
      → IsAdded added legs
      → update_leg (ops.add_demand_information a.yield a.mean a.std_dev) a.leg legs ≡ some legs'
      → IsAdded (added ++ a ∷ []) legs'
  one_more added a legs legs' h e j =
      update_leg-with_addition ops a j legs e
      ∙ ap (Option.map (λ c. with_addition ops j c a)) (h j)
      ∙ then_one ops added a j (get_elem? start j)

  -- a step after a step
  pub Adds-then :
      (step step' : Legs D → Option (Legs D)) (listed listed' : Option (List (Addition D)))
      → Adds step listed
      → Adds step' listed'
      → Adds
          (λ legs. step legs >>= step')
          (listed >>= λ here. listed' >>= λ others. some (here ++ others))
  Adds-then step step' listed listed' one others added legs legs' h e =
      let (legs1, run, e1) = >>=-eq-some (step legs) _ e in
      let (here, is_here, h1) = one added legs legs1 h run in
      let (more, is_more, h2) = others (added ++ here) legs1 legs' h1 e1 in
      (
        here ++ more,
        rw (is_here, is_more) refl,
        subst (λ t. IsAdded t legs') (append_assoc added here more) h2,
      )

  pub Adds-assert :
      (c : Bool) (step : Legs D → Option (Legs D)) (listed : Option (List (Addition D)))
      → Adds step listed
      → Adds (λ legs. assert c >> step legs) listed
  Adds-assert c step listed one added legs legs' h e =
      one added legs legs' h (assert-eq-some c _ e).1

  pub Adds-for_each {κ} :
      {A : Type κ} (step : A → Legs D → Option (Legs D)) (f : A → Option (List (Addition D)))
      → ((a : A) → Adds (step a) (f a))
      → (xs : List A) → Adds (for_each step xs) (collect f xs)
  unfolding for_each collect
  Adds-for_each step f one [] = no_more
  Adds-for_each step f one (x ∷ xs) =
      Adds-then (step x) (for_each step xs) (f x) (collect f xs) (one x)
        (Adds-for_each step f one xs)

  pub Adds-for_segments :
      (step : ℕ × ℕ → OndSegment D → Legs D → Option (Legs D))
      (f : ℕ × ℕ → OndSegment D → Option (List (Addition D)))
      → ((at : ℕ × ℕ) (segment : OndSegment D) → Adds (step at segment) (f at segment))
      → (ats : List (ℕ × ℕ)) (segments : List (OndSegment D))
      → Adds (for_segments step ats segments) (of_segments f ats segments)
  unfolding for_segments of_segments
  Adds-for_segments step f one (at ∷ ats) (segment ∷ segments) =
      Adds-then (step at segment) (for_segments step ats segments) (f at segment)
        (of_segments f ats segments) (one at segment) (Adds-for_segments step f one ats segments)
  Adds-for_segments step f one [] [] = no_more
  Adds-for_segments step f one (at ∷ ats) [] = no_more
  Adds-for_segments step f one [] (segment ∷ segments) = λ added legs legs' h e. cc

  pub Adds-if_operated :
      (step : OndCabin D → Legs D → Option (Legs D)) (f : OndCabin D → Option (List (Addition D)))
      → ((cabin : OndCabin D) → Adds (step cabin) (f cabin))
      → (code : ℕ) (segment : OndSegment D)
      → Adds (if_operated step code segment) (of_operated f code segment)
  unfolding if_operated of_operated
  Adds-if_operated step f one code segment added legs legs' h e =
      elim (Option-cases segment.operating) [
        | inr (operating, o) ↦ rw o (no_more added legs legs' h (rw o at e))
        | inl o ↦
            let (cabin, has, e1) = >>=-eq-some (segment.cabins code) _ (rw o at e) in
            rw (o, has) (one cabin added legs legs' h e1)
      ]
