-- ===== src/Optimiser/Falling.antt =====
-- The order in which `buildVirtualClassListForLegBasedOptimisation` of rmol/command/Optimiser.cpp
-- adds the virtual classes: that which the Monte Carlo optimiser asserts.
use mathlib.Core.List.{reverse, reverse-cons}
use mathlib.Core.Option.{some-injective}
use rmol.Base.{
  ℕ, suc, ◌≤◌, ◌<◌, ◌^◌, ◌≡◌, refl, sym, ap, subst, inl, inr, Bool, List, [], ◌∷◌, ◌++◌, map, some,
  arith, ltb, length, ◌==◌, if◌then◌else◌, All, All-append, Bool-cases, >>=-eq-some, assert-eq-some,
}
use rmol.Base.Double.{Double, IsOrdered, ◌≺◌, of_ℕ, nought}
use rmol.Cabin.{BookingClass, VirtualClass, LegCabin}
use rmol.Cabin.Chain.{FallsBelow, HasFallingYields}
use rmol.Optimiser.{
  VirtualClassMap, yield_level, new_class, extend_class, add_to_map, add_booking_class, build_map,
  from_high_to_low, is_not_empty, build_for_segments, build_virtual_class_list,
}
use rmol.Optimiser.Levels.{IsRising, build_map-lem}

module _ {ℓ} {D : Type ℓ} ⦃d : Double D⦄ where
  -- each class has the yield of its level, which a `double` holds exactly
  abbrev pub HasLevel : ℕ × VirtualClass D → Type ℓ
  HasLevel (k, v) = (k ≤ 2 ^ 53) × (v.yield ≡ of_ℕ k)

  -- a booking class whose yield is not too large for that
  abbrev pub IsModest : BookingClass D → Type 0
  IsModest c = yield_level c ≤ 2 ^ 53

  add_to_map-HasLevel :
      (level : ℕ) (c : BookingClass D) (m : VirtualClassMap D)
      → level ≤ 2 ^ 53
      → All HasLevel m
      → All HasLevel (add_to_map level c m)
  unfolding add_to_map new_class extend_class
  add_to_map-HasLevel level c [] h a = ((h, refl), tt)
  add_to_map-HasLevel level c ((k, v) ∷ rest) h (one, a) = elim (Bool-cases (level == k)) [
    | inl same ↦ rw same (one, a)
    | inr other ↦ elim (Bool-cases (ltb level k)) [
      | inl before ↦ rw (other, before) ((h, refl), (one, a))
      | inr behind ↦ rw (other, behind) (one, add_to_map-HasLevel level c rest h a)
    ]
  ]

  add_booking_class-HasLevel :
      (c : BookingClass D) (m : VirtualClassMap D) {m' : VirtualClassMap D}
      → IsModest c
      → All HasLevel m
      → add_booking_class c m ≡ some m'
      → All HasLevel m'
  unfolding add_booking_class
  add_booking_class-HasLevel c m h a e = elim (Bool-cases (d.lt nought c.mean)) [
    | inr no_demand ↦ subst (All HasLevel) (some-injective _ _ (rw no_demand at e)) a
    | inl some_demand ↦
        let level = yield_level c in
        let added = if ltb 0 level then add_to_map level c m else m in
        let (_, e1) =
          assert-eq-some (d.le nought c.adjusted_yield) (some added) (rw some_demand at e) in
        subst (All HasLevel) (some-injective _ _ e1) (elim (Bool-cases (ltb 0 level)) [
          | inl is_level ↦ rw is_level (add_to_map-HasLevel level c m h a)
          | inr low ↦ rw low a
        ])
  ]

  build_map-HasLevel :
      (classes : List (BookingClass D)) (m : VirtualClassMap D) {m' : VirtualClassMap D}
      → All IsModest classes
      → All HasLevel m
      → build_map classes m ≡ some m'
      → All HasLevel m'
  unfolding build_map
  build_map-HasLevel [] m h a e = subst (All HasLevel) (some-injective _ _ e) a
  build_map-HasLevel (c ∷ cs) m (h, hs) a e =
      let (m1, one, e1) = >>=-eq-some (add_booking_class c m) (build_map cs) e in
      build_map-HasLevel cs m1 hs (add_booking_class-HasLevel c m h a one) e1

  FallsBelow-append :
      (y : D) (vs : List (VirtualClass D)) (v : VirtualClass D)
      → FallsBelow y vs
      → v.yield ≺ y
      → All (λ (u : VirtualClass D). v.yield ≺ u.yield) vs
      → FallsBelow y (vs ++ v ∷ [])
  FallsBelow-append y [] v f h a = (h, tt)
  FallsBelow-append y (u ∷ us) v (g, f) h (b, a) = (g, FallsBelow-append u.yield us v f b a)

  HasFallingYields-append :
      (vs : List (VirtualClass D)) (v : VirtualClass D)
      → HasFallingYields vs
      → All (λ (u : VirtualClass D). v.yield ≺ u.yield) vs
      → HasFallingYields (vs ++ v ∷ [])
  HasFallingYields-append [] v f a = tt
  HasFallingYields-append (u ∷ us) v f (b, a) = FallsBelow-append u.yield us v f b a

  abbrev values : VirtualClassMap D → List (VirtualClass D)
  values m = map (λ e. e.1) m

  All-reverse :
      (P : VirtualClass D → Type 0) (vs : List (VirtualClass D)) → All P vs → All P (reverse vs)
  All-reverse P [] a = tt
  All-reverse P (v ∷ vs) (p, a) =
      subst (All P) (sym (reverse-cons v vs))
        (All-append P (reverse vs) (v ∷ []) (All-reverse P vs a) (p, tt))

  above_level :
      (laws : IsOrdered D) (y : D) (low lo : ℕ) (m : VirtualClassMap D)
      → y ≡ of_ℕ low
      → low < lo
      → IsRising lo m
      → All HasLevel m
      → All (λ (u : VirtualClass D). y ≺ u.yield) (values m)
  above_level laws y low lo [] e h r a = tt
  above_level laws y low lo ((k, v) ∷ rest) e h (b, r) ((small, own), a) = (
    rw (e, own) (laws.of_ℕ_strict low k (omega arith) small),
    above_level laws y low (suc k) rest e (omega arith) r a,
  )

  falling :
      (laws : IsOrdered D) (lo : ℕ) (m : VirtualClassMap D)
      → IsRising lo m
      → All HasLevel m
      → HasFallingYields (reverse (values m))
  falling laws lo [] r a = tt
  falling laws lo ((k, v) ∷ rest) (b, r) ((small, own), a) =
      subst HasFallingYields (sym (reverse-cons v (values rest))) (
        HasFallingYields-append (reverse (values rest)) v (falling laws (suc k) rest r a) (
          All-reverse (λ (u : VirtualClass D). v.yield ≺ u.yield) (values rest)
            (above_level laws v.yield k (suc k) rest own (omega arith) r a)))

  is_not_empty_lem : (vs : List (VirtualClass D)) → is_not_empty vs ≡ ltb 0 (length vs)
  unfolding is_not_empty
  is_not_empty_lem [] = refl
  is_not_empty_lem (v ∷ vs) = ground arith

  -- If the virtual class list is built and no yield level is beyond 2^53, the classes are those of
  -- a map whose levels rise strictly, each with its level as its yield, from the last to the first,
  -- so that their yields fall strictly, and the flag says whether there is one.
  pub build_virtual_class_list_lem :
      (laws : IsOrdered D) (cabin : LegCabin D) (classes : List (BookingClass D))
      (others : List (List (BookingClass D))) {cabin' : LegCabin D} {flag : Bool}
      → cabin.segment_cabins ≡ classes ∷ others
      → All IsModest classes
      → build_virtual_class_list cabin ≡ some (cabin', flag)
      → (m : VirtualClassMap D) × (build_map classes [] ≡ some m)
        × (cabin' ≡ record cabin { virtual_classes = from_high_to_low m })
        × HasFallingYields cabin'.virtual_classes
        × (flag ≡ ltb 0 (length cabin'.virtual_classes))
  unfolding build_virtual_class_list build_for_segments from_high_to_low
  build_virtual_class_list_lem laws cabin classes others {cabin'} {flag} e modest run =
      let run' : build_for_segments cabin (classes ∷ others) ≡ some (cabin', flag) =
        subst (λ s. build_for_segments cabin s ≡ some (cabin', flag)) e run in
      let (m, built, e1) = >>=-eq-some (build_map classes []) _ run' in
      let (rising, _) = build_map-lem 0 classes [] tt built in
      let levels = build_map-HasLevel classes [] modest tt built in
      let f = falling laws 1 m rising levels in
      let pair = some-injective _ _ e1 in
      let (order, flagged) =
        subst
          (λ p. HasFallingYields p.0.virtual_classes × (p.1 ≡ ltb 0 (length p.0.virtual_classes)))
          pair (f, is_not_empty_lem (from_high_to_low m)) in
      (m, built, ap (λ p. p.0) (sym pair), order, flagged)
