-- ===== src/Service/Targets.antt =====
-- `setOnDForecast` of rmol/service/RMOL_Service.cpp: which O&D dates get the demand of a yield rule.
use mathlib.Core.Option.{some-injective}
use mathlib.Core.Bool.{false≢true}
use mathlib.Core.List.{cons-eq-cons}
use rmol.Base.{
  ℕ, ◌≤◌, ◌≡◌, ◌↔◌, refl, sym, ◌∙◌, subst, inl, inr, Bool, true, false, not, ◌&&◌, List, [], ◌∷◌,
  map, Option, none, some, arith, ◌==◌, length, Bool-cases, ==_iff, >>=-eq-some, assert-eq-some,
}
use rmol.Base.Int.{ℤ, eqb_ℤ}
use rmol.Service.{OndSegment, OndDate, Inventory, for_each, is_empty}
use rmol.Service.OndForecast.{
  OndSetup, update_first, update_inventory, is_same_trip, airlines_agree, set_single_forecast,
  set_multiple_forecast, set_for_airlines,
}

-- one step for each element of a list, in its order
pub data Runs {ℓ κ λ'} {A : Type ℓ} {S : Type κ} (R : A → S → S → Type λ')
    : List A → S → S → Type (ℓ ⊔ κ ⊔ λ') where
  end : {s : S} → Runs R [] s s
  next : {a : A} {as' : List A} {s s1 s2 : S} → R a s s1 → Runs R as' s1 s2 → Runs R (a ∷ as') s s2

pub for_each-Runs {ℓ κ λ'} :
    {A : Type ℓ} {S : Type κ} (R : A → S → S → Type λ') (step : A → S → Option S)
    → ((a : A) (s s' : S) → step a s ≡ some s' → R a s s')
    → (xs : List A) (s : S) {s' : S} → for_each step xs s ≡ some s'
    → Runs R xs s s'
unfolding for_each
for_each-Runs R step one [] s e = subst (Runs R [] s) (some-injective _ _ e) end
for_each-Runs R step one (x ∷ xs) s e =
    let (s1, run, more) = >>=-eq-some (step x s) _ e in
    next (one x s s1 run) (for_each-Runs R step one xs s1 more)

-- The first element with a property changes, and nothing else.
pub data IsFirstChanged {ℓ κ λ'} {A : Type ℓ} (P : A → Type κ) (R : A → A → Type λ')
    : List A → List A → Type (ℓ ⊔ κ ⊔ λ') where
  here : {a a' : A} {rest : List A} → P a → R a a' → IsFirstChanged P R (a ∷ rest) (a' ∷ rest)
  behind :
      {a : A} {rest rest' : List A}
      → ¬ P a
      → IsFirstChanged P R rest rest'
      → IsFirstChanged P R (a ∷ rest) (a ∷ rest')

eqb_ℤ_iff : (a b : ℤ) → (eqb_ℤ a b ≡ true) ↔ (a ≡ b)
eqb_ℤ_iff a b = ground arith

&&_iff : (a b : Bool) → ((a && b) ≡ true) ↔ ((a ≡ true) × (b ≡ true))
&&_iff a b = ground arith

module _ {ℓ} {D : Type ℓ} where
  -- the airline that operates each segment of an O&D date
  abbrev pub operating_airlines : ℕ → List (OndSegment D) → List ℕ
  operating_airlines own =
      map (λ (s : OndSegment D). elim s.operating [ none ↦ own | some other ↦ other.0 ])

  -- An O&D date is of the same day, origin and destination as another; it has a single segment;
  -- and it is operated by some airlines, segment by segment.
  abbrev pub IsSameTrip : OndDate D → OndDate D → Type 0
  IsSameTrip ond other =
      (other.date ≡ ond.date) × (other.origin ≡ ond.origin) × (other.destination ≡ ond.destination)

  abbrev pub IsSingle : OndDate D → OndDate D → Type 0
  IsSingle ond other = IsSameTrip ond other × (length other.segments ≡ 1)

  abbrev pub IsOperatedBy : List ℕ → OndDate D → OndDate D → Type 0
  IsOperatedBy airlines ond other =
      IsSameTrip ond other × (operating_airlines other.airline other.segments ≡ airlines)

  -- In the inventory of an airline, the first O&D date with a property is changed.
  abbrev pub IsSetAt :
      ℕ
      → (OndDate D → Type 0)
      → (OndDate D → OndDate D)
      → List (Inventory D)
      → List (Inventory D)
      → Type ℓ
  IsSetAt airline P change =
      IsFirstChanged (λ (inventory : Inventory D). airline ≡ inventory.code)
        (λ (inventory inventory' : Inventory D).
          (onds : List (OndDate D)) × (inventory' ≡ record inventory { onds = onds })
          × IsFirstChanged P (λ ond ond'. ond' ≡ change ond) inventory.onds onds)

  update_first_lem :
      (is_right : OndDate D → Bool) (P : OndDate D → Type 0) (change : OndDate D → OndDate D)
      → ((ond : OndDate D) → (is_right ond ≡ true) ↔ P ond)
      → (onds : List (OndDate D)) {onds' : List (OndDate D)}
      → update_first is_right change onds ≡ some onds'
      → IsFirstChanged P (λ ond ond'. ond' ≡ change ond) onds onds'
  unfolding update_first
  update_first_lem is_right P change reflects [] e = cc
  update_first_lem is_right P change reflects (ond ∷ rest) e =
      let (has_segments, e1) = assert-eq-some (not (is_empty ond.segments)) _ e in
      elim (Bool-cases (is_right ond)) [
        | inl right ↦
            subst (IsFirstChanged P _ (ond ∷ rest)) (some-injective _ _ (rw right at e1))
              (here ((reflects ond).0 right) refl)
        | inr wrong ↦
            let (rest', run, e2) =
              >>=-eq-some (update_first is_right change rest) _ (rw wrong at e1) in
            subst (IsFirstChanged P _ (ond ∷ rest)) (some-injective _ _ e2) (
              behind (λ p. not_both wrong ((reflects ond).1 p))
                (update_first_lem is_right P change reflects rest run))
      ]
    where
      not_both : {b : Bool} → b ≡ false → b ≡ true → ⊥
      not_both f t = false≢true (sym f ∙ t)

  update_inventory_lem :
      (airline : ℕ) (is_right : OndDate D → Bool) (P : OndDate D → Type 0)
      (change : OndDate D → OndDate D)
      → ((ond : OndDate D) → (is_right ond ≡ true) ↔ P ond)
      → (inventories : List (Inventory D)) {inventories' : List (Inventory D)}
      → update_inventory airline is_right change inventories ≡ some inventories'
      → IsSetAt airline P change inventories inventories'
  unfolding update_inventory
  update_inventory_lem airline is_right P change reflects [] e = cc
  update_inventory_lem airline is_right P change reflects (inventory ∷ rest) e =
      elim (Bool-cases (airline == inventory.code)) [
        | inl same ↦
            let (onds, run, e1) =
              >>=-eq-some (update_first is_right change inventory.onds) _ (rw same at e) in
            subst (IsSetAt airline P change (inventory ∷ rest)) (some-injective _ _ e1) (
              here ((==_iff airline inventory.code).0 same)
                (onds, refl, update_first_lem is_right P change reflects inventory.onds run))
        | inr other ↦
            let (rest', run, e1) =
              >>=-eq-some (update_inventory airline is_right change rest) _ (rw other at e) in
            subst (IsSetAt airline P change (inventory ∷ rest)) (some-injective _ _ e1) (
              behind (λ p. ground (arith, p, other))
                (update_inventory_lem airline is_right P change reflects rest run))
      ]

  is_same_trip_iff :
      (ond other : OndDate D) → (is_same_trip ond other ≡ true) ↔ IsSameTrip ond other
  unfolding is_same_trip
  is_same_trip_iff ond other = ground (arith, eqb_ℤ_iff other.date ond.date)

  airlines_agree_iff :
      (own : ℕ) (airlines : List ℕ) (segments : List (OndSegment D))
      → ((length segments == length airlines) ≡ true)
          × (airlines_agree own airlines segments ≡ true)
        ↔ (operating_airlines own segments ≡ airlines)
  unfolding airlines_agree
  airlines_agree_iff own [] [] = ((λ h. refl), λ e. (refl, refl))
  airlines_agree_iff own [] (segment ∷ segments) = ((λ h. absurd (ground (arith, h.0))), λ e. cc)
  airlines_agree_iff own (airline ∷ airlines) [] = ((λ h. absurd (ground (arith, h.0))), λ e. cc)
  airlines_agree_iff own (airline ∷ airlines) (segment ∷ segments) =
      let (fore, back) = airlines_agree_iff own airlines segments in
      let first : ℕ = elim segment.operating [ none ↦ own | some other ↦ other.0 ] in
      let named = ==_iff first airline in
      (
        (λ h. elim (Bool-cases (first == airline)) [
          | inl same ↦ cons-eq-cons.1 (named.0 same, fore (ground (arith, h.0), rw same at h.1))
          | inr other ↦ absurd (false≢true (rw other at h.1))
        ]),
        λ e.
            let (head, tail) = cons-eq-cons.0 e in
            let (size, agree) = back tail in (ground (arith, size), rw (named.1 head) agree),
      )

  module _ (setup : OndSetup D) (ond : OndDate D) (cabin_code : ℕ) (yield mean std_dev : D) where
    -- the change of an O&D date, at some classes of the cabin
    abbrev pub given : List ℕ → OndDate D → OndDate D
    given codes =
        setup.set_demand_information (map (λ code. (cabin_code, code)) codes) yield mean std_dev

    -- One airline has its first O&D date of the trip with a single segment set. Several have, one
    -- after the other, their first O&D date of the trip set that they operate, segment by segment.
    pub data IsGiven : List ℕ → List ℕ → List (Inventory D) → List (Inventory D) → Type ℓ where
      single :
          {airline code : ℕ} {s s' : List (Inventory D)}
          → IsSetAt airline (IsSingle ond) (given (code ∷ [])) s s'
          → IsGiven (airline ∷ []) (code ∷ []) s s'
      several :
          {airlines codes : List ℕ} {s s' : List (Inventory D)}
          → 2 ≤ length airlines
          → length airlines ≡ length codes
          → Runs
              (λ airline. IsSetAt airline (IsOperatedBy airlines ond) (given codes))
              airlines
              s
              s'
          → IsGiven airlines codes s s'

    IsSingle-iff :
        (other : OndDate D)
        → ((is_same_trip ond other && (length other.segments == 1)) ≡ true) ↔ IsSingle ond other
    IsSingle-iff other =
        ground (arith, is_same_trip_iff ond other, ==_iff (length other.segments) 1)

    IsOperatedBy-iff :
        (airlines : List ℕ) (other : OndDate D)
        → ((is_same_trip ond other
              && ((length other.segments == length airlines)
                  && airlines_agree other.airline airlines other.segments))
            ≡ true)
          ↔ IsOperatedBy airlines ond other
    IsOperatedBy-iff airlines other = ground (
      arith,
      is_same_trip_iff ond other,
      airlines_agree_iff other.airline airlines other.segments,
    )

    pub set_for_airlines_lem :
        (airlines codes : List ℕ) (inventories : List (Inventory D))
        {inventories' : List (Inventory D)}
        → set_for_airlines setup ond cabin_code yield mean std_dev airlines codes inventories
          ≡ some inventories'
        → IsGiven airlines codes inventories inventories'
    unfolding set_for_airlines set_single_forecast set_multiple_forecast
    set_for_airlines_lem [] codes inventories e = cc
    set_for_airlines_lem (airline ∷ []) [] inventories e = cc
    set_for_airlines_lem (airline ∷ []) (code ∷ []) inventories e =
        single (update_inventory_lem airline _ _ _ IsSingle-iff inventories e)
    set_for_airlines_lem (airline ∷ []) (code ∷ k ∷ codes) inventories e = cc
    set_for_airlines_lem (airline ∷ second ∷ rest) codes inventories e =
        let airlines = airline ∷ second ∷ rest in
        let (same, e1) = assert-eq-some (length airlines == length codes) _ e in
        several (omega arith) ((==_iff (length airlines) (length codes)).0 same) (
          for_each-Runs _ _
            (λ a s s' run. update_inventory_lem a _ _ _ (IsOperatedBy-iff airlines) s run) airlines
            inventories e1)
