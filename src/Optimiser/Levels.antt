-- ===== src/Optimiser/Levels.antt =====
-- `buildVirtualClassListForLegBasedOptimisation` of rmol/command/Optimiser.cpp: one virtual class
-- for each yield level, in the order that the Monte Carlo optimiser asks for.
use mathlib.Core.Option.{some-injective}
use rmol.Base.{
  ℕ, suc, ◌≤◌, ◌<◌, ◌≡◌, refl, ap, ◌∙◌, subst, inl, inr, Bool, true, false, ◌&&◌, List, [], ◌∷◌,
  foldl, Option, none, some, arith, ltb, ◌==◌, if◌then◌else◌, Bool-cases, >>=-eq-some,
  assert-eq-some,
}
use rmol.Base.Double.{Double, nought}
use rmol.Cabin.{BookingClass, VirtualClass}
use rmol.Optimiser.{
  VirtualClassMap, yield_level, new_class, extend_class, add_to_map, add_booking_class, build_map,
}

module _ {ℓ} {D : Type ℓ} ⦃d : Double D⦄ where
  -- the virtual class of a level
  unfoldable pub find_level : ℕ → VirtualClassMap D → Option (VirtualClass D)
  find_level level [] = none
  find_level level ((k, v) ∷ rest) = if level == k then some v else find_level level rest

  -- a booking class that gets into a virtual class, of this level
  abbrev pub belongs : ℕ → BookingClass D → Bool
  belongs level c = d.lt nought c.mean && (level == yield_level c) && ltb 0 level

  -- one more booking class of the level
  unfoldable pub join : ℕ → Option (VirtualClass D) → BookingClass D → Option (VirtualClass D)
  join level none c = some (new_class level c)
  join level (some v) c = some (extend_class v c)

  unfoldable pub join_if : ℕ → Option (VirtualClass D) → BookingClass D → Option (VirtualClass D)
  unfolding join
  join_if level o c = if belongs level c then join level o c else o

  -- keys rise strictly, from `lo` on
  abbrev pub IsRising : ℕ → VirtualClassMap D → Type 0
  IsRising lo [] = Unit
  IsRising lo ((k, v) ∷ rest) = (lo ≤ k) × IsRising (suc k) rest

  IsRising-down : (lo hi : ℕ) (m : VirtualClassMap D) → lo ≤ hi → IsRising hi m → IsRising lo m
  IsRising-down lo hi [] h r = tt
  IsRising-down lo hi ((k, v) ∷ rest) h (b, r) = (omega arith, r)

  add_to_map-IsRising :
      (lo level : ℕ) (c : BookingClass D) (m : VirtualClassMap D)
      → lo ≤ level
      → IsRising lo m
      → IsRising lo (add_to_map level c m)
  unfolding add_to_map
  add_to_map-IsRising lo level c [] h r = (h, tt)
  add_to_map-IsRising lo level c ((k, v) ∷ rest) h (b, r) = elim (Bool-cases (level == k)) [
    | inl same ↦ rw same (b, r)
    | inr other ↦ elim (Bool-cases (ltb level k)) [
      | inl before ↦ rw (other, before) (h, (ground arith, r))
      | inr behind ↦
          rw (other, behind) (b, add_to_map-IsRising (suc k) level c rest (ground arith) r)
    ]
  ]

  find_level-above :
      (lo level : ℕ) (m : VirtualClassMap D)
      → IsRising lo m
      → level < lo
      → find_level level m ≡ none
  unfolding find_level
  find_level-above lo level [] r h = refl
  find_level-above lo level ((k, v) ∷ rest) (b, r) h =
      ground (arith, find_level-above (suc k) level rest)

  find_level-add_to_map :
      (lo l level : ℕ) (c : BookingClass D) (m : VirtualClassMap D)
      → IsRising lo m
      → find_level l (add_to_map level c m)
        ≡ (if l == level then join l (find_level l m) c else find_level l m)
  unfolding find_level add_to_map join
  find_level-add_to_map lo l level c [] r = ground arith
  find_level-add_to_map lo l level c ((k, v) ∷ rest) (b, r) =
      ground (arith, find_level-above (suc k) l rest, find_level-add_to_map (suc k) l level c rest)

  -- the map after a booking class whose demand is positive
  abbrev added : BookingClass D → VirtualClassMap D → VirtualClassMap D
  added c m = if ltb 0 (yield_level c) then add_to_map (yield_level c) c m else m

  added-IsRising :
      (c : BookingClass D) (m : VirtualClassMap D) → IsRising 1 m → IsRising 1 (added c m)
  added-IsRising c m r = elim (Bool-cases (ltb 0 (yield_level c))) [
    | inl is_level ↦ rw is_level (add_to_map-IsRising 1 (yield_level c) c m (ground arith) r)
    | inr low ↦ rw low r
  ]

  find_level-added :
      (l : ℕ) (c : BookingClass D) (m : VirtualClassMap D)
      → IsRising 1 m
      → d.lt nought c.mean ≡ true
      → find_level l (added c m) ≡ join_if l (find_level l m) c
  unfolding join_if
  find_level-added l c m r h = elim (Bool-cases (ltb 0 (yield_level c))) [
    | inl is_level ↦
        let found = find_level-add_to_map 1 l (yield_level c) c m r in
        elim (Bool-cases (l == yield_level c)) [
          | inl same ↦
              let positive : ltb 0 l ≡ true = ground arith in
              rw (is_level, h, found, same, positive) refl
          | inr other ↦ rw (is_level, h, found, other) refl
        ]
    | inr low ↦ elim (Bool-cases (l == yield_level c)) [
      | inl same ↦ let out : ltb 0 l ≡ false = ground arith in rw (low, h, same, out) refl
      | inr other ↦ rw (low, h, other) refl
    ]
  ]

  add_booking_class-lem :
      (l : ℕ) (c : BookingClass D) (m : VirtualClassMap D) {m' : VirtualClassMap D}
      → IsRising 1 m
      → add_booking_class c m ≡ some m'
      → IsRising 1 m' × (find_level l m' ≡ join_if l (find_level l m) c)
  unfolding add_booking_class join_if
  add_booking_class-lem l c m r e = elim (Bool-cases (d.lt nought c.mean)) [
    | inr no_demand ↦
        subst (λ n. IsRising 1 n × (find_level l n ≡ join_if l (find_level l m) c))
          (some-injective _ _ (rw no_demand at e)) (r, rw no_demand refl)
    | inl some_demand ↦
        let (_, e1) =
          assert-eq-some (d.le nought c.adjusted_yield) (some (added c m)) (rw some_demand at e) in
        subst (λ n. IsRising 1 n × (find_level l n ≡ join_if l (find_level l m) c))
          (some-injective _ _ e1) (added-IsRising c m r, find_level-added l c m r some_demand)
  ]

  -- If the map of virtual classes is built, its levels rise strictly from 1, and the virtual class
  -- of a level is made of the booking classes of that level with a demand, in their order.
  pub build_map-lem :
      (l : ℕ) (classes : List (BookingClass D)) (m : VirtualClassMap D) {m' : VirtualClassMap D}
      → IsRising 1 m
      → build_map classes m ≡ some m'
      → IsRising 1 m' × (find_level l m' ≡ foldl (join_if l) (find_level l m) classes)
  unfolding build_map
  build_map-lem l [] m r e =
      subst (λ n. IsRising 1 n × (find_level l n ≡ find_level l m)) (some-injective _ _ e) (r, refl)
  build_map-lem l (c ∷ cs) m r e =
      let (m1, added_one, e1) = >>=-eq-some (add_booking_class c m) (build_map cs) e in
      let (r1, one) = add_booking_class-lem l c m r added_one in
      let (r2, all) = build_map-lem l cs m1 r1 e1 in
      (r2, all ∙ ap (λ o. foldl (join_if l) o cs) one)
