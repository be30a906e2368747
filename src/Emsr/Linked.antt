-- ===== src/Emsr/Linked.antt =====
-- EMSR-a and EMSR-b of rmol/bom/Emsr.cpp: what the loops leave behind, against a description that
-- computes every protection level from the classes as they were.
use rmol.Base.{
  ◌≡◌, refl, sym, ap, ◌∙◌, subst, List, [], ◌∷◌, ◌++◌, map, Option, some, >>=-eq-some, ◌>>=◌,
}
use mathlib.Core.Path.{fun_ext, ap₂}
use mathlib.Core.Option.{some-injective}
use mathlib.Core.List.{append_assoc, map-append}
use rmol.Base.Double.{Double, ◌⊕◌, ◌⊖◌, nought}
use rmol.Cabin.{VirtualClass}
use rmol.Cabin.Chain.{IsChained, unset}
use rmol.Emsr.{
  Normal, compute_aggregated_virtual_class, compute_protection_level, add_protections, emsr_a_loop,
  emsr_a_classes, emsr_b_loop, emsr_b_classes,
}

module _ {ℓ} {D : Type ℓ} ⦃d : Double D⦄ (normal : Normal D) where
  abbrev protections : List (VirtualClass D) → List D
  protections = map (λ (c : VirtualClass D). c.protection)

  -- The protection levels of EMSR-b, each from the aggregate of the classes up to its own; the last
  -- class keeps the one that it has.
  unfoldable pub levels_b :
      (aggregated current : VirtualClass D) (rest : List (VirtualClass D)) → Option (List D)
  levels_b aggregated current [] = some (current.protection ∷ [])
  levels_b aggregated current (next ∷ rest) = do
    level ← compute_protection_level normal aggregated next
    levels ← levels_b (compute_aggregated_virtual_class aggregated next) next rest
    some (level ∷ levels)

  levels_b-limit :
      (aggregated c : VirtualClass D) (limit : D) (rest : List (VirtualClass D))
      → levels_b aggregated (record c { booking_limit = limit }) rest ≡ levels_b aggregated c rest
  unfolding levels_b
  levels_b-limit aggregated c limit [] = refl
  levels_b-limit aggregated c limit (next ∷ rest) = refl

  levels_b-aggregate :
      (a c : VirtualClass D) (limit : D) (rest : List (VirtualClass D))
      → levels_b (record a { booking_limit = limit }) c rest ≡ levels_b a c rest
  unfolding levels_b compute_protection_level compute_aggregated_virtual_class
  levels_b-aggregate a c limit [] = refl
  levels_b-aggregate a c limit (next ∷ rest) =
      ap
        (λ o.
          compute_protection_level normal a next >>= λ level. o >>= λ levels. some (level ∷ levels))
        (levels_b-aggregate (compute_aggregated_virtual_class a next) next limit rest)

  record IsLinked (capacity limit : D) (before : List (VirtualClass D)) (levels : Option (List D))
      (after : List (VirtualClass D)) : Type ℓ where
    chained : IsChained capacity limit after
    same : map unset after ≡ map unset before
    protected : levels ≡ some (protections after)

  emsr_b_loop-IsLinked :
      (capacity : D) (aggregated current : VirtualClass D) (rest : List (VirtualClass D))
      {after : List (VirtualClass D)}
      → emsr_b_loop normal capacity aggregated current rest ≡ some after
      → IsLinked capacity current.booking_limit
          (current ∷ rest)
          (levels_b aggregated current rest)
          after
  unfolding emsr_b_loop IsChained levels_b compute_aggregated_virtual_class
  emsr_b_loop-IsLinked capacity aggregated current [] e =
      subst
        (λ r.
          IsLinked capacity current.booking_limit (current ∷ []) (some (current.protection ∷ [])) r)
        (some-injective _ _ e) (record { chained = (refl, tt); same = refl; protected = refl })
  emsr_b_loop-IsLinked capacity aggregated current (next ∷ rest) e =
      let (level, found, e1) = >>=-eq-some (compute_protection_level normal aggregated next) _ e in
      let next' = record next { booking_limit = capacity ⊖ level } in
      let (classes, others, e2) =
        >>=-eq-some
          (emsr_b_loop normal capacity (compute_aggregated_virtual_class aggregated next') next'
            rest)
          _ e1 in
      let o =
        emsr_b_loop-IsLinked capacity (compute_aggregated_virtual_class aggregated next') next' rest
          others in
      subst
        (λ r.
          IsLinked capacity current.booking_limit (current ∷ next ∷ rest)
            (levels_b aggregated current (next ∷ rest)) r)
        (some-injective _ _ e2)
        (record {
          chained = (refl, o.chained);
          same = ap (◌∷◌ (unset current)) o.same;
          protected = rw found (
              ap (λ o. o >>= λ levels. some (level ∷ levels))
                (sym (levels_b-limit _ next _ rest) ∙ o.protected));
        })

  -- If EMSR-b returns, each protection level is that of the aggregate of the classes up to its own,
  -- computed from the classes as they were; the first booking limit is the capacity, each other
  -- one the capacity less the protection of the class before; and nothing else of a class changes.
  pub emsr_b_classes_lem :
      (capacity : D) (first : VirtualClass D) (rest : List (VirtualClass D))
      {after : List (VirtualClass D)}
      → emsr_b_classes normal capacity (first ∷ rest) ≡ some after
      → (levels_b first first rest ≡ some (protections after))
        × IsChained capacity capacity after
        × (map unset after ≡ map unset (first ∷ rest))
  unfolding emsr_b_classes
  emsr_b_classes_lem capacity first rest e =
      let o = emsr_b_loop-IsLinked capacity _ _ rest e in
      let same = levels_b-aggregate first first capacity rest in
      let limited =
        levels_b-limit (record first { booking_limit = capacity }) first capacity rest in
      (sym same ∙ sym limited ∙ o.protected, o.chained, o.same)

  -- The sum of the protections against `next` reads nothing that the optimisation writes.
  add_protections-unset :
      (xs ys : List (VirtualClass D)) (next : VirtualClass D) (acc : D)
      → map unset xs ≡ map unset ys
      → add_protections normal xs next acc ≡ add_protections normal ys next acc
  unfolding add_protections compute_protection_level
  add_protections-unset [] [] next acc h = refl
  add_protections-unset [] (y ∷ ys) next acc h = cc
  add_protections-unset (x ∷ xs) [] next acc h = cc
  add_protections-unset (x ∷ xs) (y ∷ ys) next acc h =
      let heads : unset x ≡ unset y = cc in
      let tails : map unset xs ≡ map unset ys = cc in
      let first = ap (λ (c : VirtualClass D). compute_protection_level normal c next) heads in
      ap (λ o. o >>= λ partial. add_protections normal xs next (acc ⊕ partial)) first
      ∙ ap (λ (f : D → Option D). compute_protection_level normal y next >>= f)
          (fun_ext λ partial. add_protections-unset xs ys next (acc ⊕ partial) tails)

  -- The protection levels of EMSR-a: each is the sum of the levels of all classes up to its own.
  unfoldable pub levels_a :
      (earlier : List (VirtualClass D)) (current : VirtualClass D) (rest : List (VirtualClass D))
      → Option (List D)
  levels_a earlier current [] = some (current.protection ∷ [])
  levels_a earlier current (next ∷ rest) = do
    level ← add_protections normal (earlier ++ current ∷ []) next nought
    levels ← levels_a (earlier ++ current ∷ []) next rest
    some (level ∷ levels)

  append_unset :
      (xs ys : List (VirtualClass D)) (b c : VirtualClass D)
      → map unset xs ≡ map unset ys
      → unset b ≡ unset c
      → map unset (xs ++ b ∷ []) ≡ map unset (ys ++ c ∷ [])
  append_unset xs ys b c h e =
      map-append unset xs (b ∷ [])
      ∙ ap₂ (λ (us : List (VirtualClass D)) (u : VirtualClass D). us ++ u ∷ []) h e
      ∙ sym (map-append unset ys (c ∷ []))

  -- what the loop of EMSR-a returns, behind the classes that it has done
  record IsAppended (capacity limit : D) (higher earlier : List (VirtualClass D))
      (c : VirtualClass D) (rest after : List (VirtualClass D)) : Type ℓ where
    tail : List (VirtualClass D)
    split : after ≡ higher ++ tail
    chained : IsChained capacity limit tail
    same : map unset tail ≡ map unset (c ∷ rest)
    protected : levels_a earlier c rest ≡ some (protections tail)

  emsr_a_loop-IsAppended :
      (capacity limit : D) (higher earlier : List (VirtualClass D)) (c : VirtualClass D)
      (rest : List (VirtualClass D)) {after : List (VirtualClass D)}
      → map unset higher ≡ map unset earlier
      → emsr_a_loop normal capacity higher (record c { booking_limit = limit }) rest ≡ some after
      → IsAppended capacity limit higher earlier c rest after
  unfolding emsr_a_loop IsChained levels_a
  emsr_a_loop-IsAppended capacity limit higher earlier c [] u e = record {
    tail = record c { booking_limit = limit } ∷ [];
    split = sym (some-injective _ _ e);
    chained = (refl, tt);
    same = refl;
    protected = refl;
  }
  emsr_a_loop-IsAppended capacity limit higher earlier c (next ∷ rest) u e =
      let current = record c { booking_limit = limit } in
      let (level, found, e1) =
        >>=-eq-some (add_protections normal (higher ++ current ∷ []) next nought) _ e in
      let before = append_unset higher earlier current c u refl in
      let found' = sym (add_protections-unset _ _ next nought before) ∙ found in
      let done = record current { protection = level } in
      let o =
        emsr_a_loop-IsAppended capacity (capacity ⊖ level) (higher ++ done ∷ []) (earlier ++ c ∷ [])
          next rest (append_unset higher earlier done c u refl) e1 in
      record {
        tail = done ∷ o.tail;
        split = o.split ∙ append_assoc higher (done ∷ []) o.tail;
        chained = (refl, o.chained);
        same = ap (◌∷◌ (unset c)) o.same;
        protected =
            ap (λ m. m >>= λ l. levels_a (earlier ++ c ∷ []) next rest >>= λ ls. some (l ∷ ls))
              found'
            ∙ ap (λ m. m >>= λ ls. some (level ∷ ls)) o.protected;
      }

  -- If EMSR-a returns, each protection level is the sum of the levels of all classes up to its own
  -- against the next one, computed from the classes as they were; the booking limits follow from
  -- the capacity and the protections as in EMSR-b; and nothing else of a class changes.
  pub emsr_a_classes_lem :
      (capacity : D) (first : VirtualClass D) (rest : List (VirtualClass D))
      {after : List (VirtualClass D)}
      → emsr_a_classes normal capacity (first ∷ rest) ≡ some after
      → (levels_a [] first rest ≡ some (protections after))
        × IsChained capacity capacity after
        × (map unset after ≡ map unset (first ∷ rest))
  unfolding emsr_a_classes
  emsr_a_classes_lem capacity first rest e =
      let o = emsr_a_loop-IsAppended capacity capacity [] [] first rest refl e in
      let all = o.split in
      (
        o.protected ∙ ap (λ cs. some (protections cs)) (sym all),
        subst (λ cs. IsChained capacity capacity cs) (sym all) o.chained,
        ap (map unset) all ∙ o.same,
      )
