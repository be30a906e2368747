-- ===== src/Curves/Factors.antt =====
-- The loops of rmol/bom/Utilities.cpp over a FRAT5 curve: the curves they build.
use mathlib.Core.List.{append_assoc, append-nil}
use rmol.Base.{◌≡◌, refl, sym, ap, ◌∙◌, false, [], ◌∷◌, ◌++◌, map, some, arith, All}
use rmol.Base.Int.{ℤ, eqb_ℤ}
use rmol.Base.Double.{Double, ◌⊖◌}
use rmol.Curves.{
  Curve, insert_factor, find_factor, set_factor, sell_up_factor, sell_up_curve, dispatching_curve,
}

module _ {ℓ} {D : Type ℓ} where
  -- the key is not in the curve
  abbrev pub LacksKey : ℤ → Curve D → Type 0
  LacksKey dtd = All (λ (e : ℤ × D). eqb_ℤ e.0 dtd ≡ false)

  -- each key behind the ones done is new
  abbrev pub HasNewKeys : Curve D → Curve D → Type 0
  HasNewKeys done [] = Unit
  HasNewKeys done ((k, v) ∷ rest) = LacksKey k done × HasNewKeys (done ++ (k, v) ∷ []) rest

  -- the curve with the same keys and other factors
  abbrev pub map_factors : (D → D) → Curve D → Curve D
  map_factors g = map (λ (e : ℤ × D). (e.0, g e.1))

  insert_factor-new :
      (g : D → D) (dtd : ℤ) (v : D) (done : Curve D)
      → LacksKey dtd done
      → insert_factor dtd v (map_factors g done) ≡ some (map_factors g done ++ (dtd, v) ∷ [])
  unfolding insert_factor
  insert_factor-new g dtd v [] h = refl
  insert_factor-new g dtd v ((k, w) ∷ done) (a, h) = rw (a, insert_factor-new g dtd v done h) refl

  find_factor-new :
      (g : D → D) (dtd : ℤ) (v : D) (done rest : Curve D)
      → LacksKey dtd done
      → find_factor dtd (map_factors g done ++ (dtd, v) ∷ rest) ≡ some v
  unfolding find_factor
  find_factor-new g dtd v [] rest h = ground arith
  find_factor-new g dtd v ((k, w) ∷ done) rest (a, h) = rw a (find_factor-new g dtd v done rest h)

  set_factor-new :
      (g : D → D) (dtd : ℤ) (v w : D) (done rest : Curve D)
      → LacksKey dtd done
      → set_factor dtd w (map_factors g done ++ (dtd, v) ∷ rest)
        ≡ map_factors g done ++ (dtd, w) ∷ rest
  unfolding set_factor
  set_factor-new g dtd v w [] rest h = ground arith
  set_factor-new g dtd v w ((k, u) ∷ done) rest (a, h) =
      rw (a, set_factor-new g dtd v w done rest h) refl

  map_factors-snoc :
      (g : D → D) (done : Curve D) (dtd : ℤ) (v : D)
      → map_factors g done ++ (dtd, g v) ∷ [] ≡ map_factors g (done ++ (dtd, v) ∷ [])
  map_factors-snoc g [] dtd v = refl
  map_factors-snoc g ((k, w) ∷ done) dtd v = ap (◌∷◌ (k, g w)) (map_factors-snoc g done dtd v)

module _ {ℓ} {D : Type ℓ} ⦃d : Double D⦄ (lowest yield : D) where
  abbrev pub factor : D → D
  factor = sell_up_factor lowest yield

  sell_up_curve-append :
      (done rest : Curve D)
      → HasNewKeys done rest
      → sell_up_curve lowest yield rest (map_factors factor done)
        ≡ some (map_factors factor (done ++ rest))
  unfolding sell_up_curve
  sell_up_curve-append done [] h = ap (λ c. some (map_factors factor c)) (sym (append-nil done))
  sell_up_curve-append done ((k, v) ∷ rest) (a, h) =
      rw (insert_factor-new factor k (factor v) done a, map_factors-snoc factor done k v)
        (sell_up_curve-append (done ++ (k, v) ∷ []) rest h)
      ∙ ap (λ c. some (map_factors factor c)) (append_assoc done ((k, v) ∷ []) rest)

  -- On a FRAT5 curve with different keys the loop gives each of them its sell-up factor.
  pub sell_up_curve-map_factors :
      (frat5s : Curve D)
      → HasNewKeys [] frat5s
      → sell_up_curve lowest yield frat5s [] ≡ some (map_factors factor frat5s)
  sell_up_curve-map_factors frat5s h = sell_up_curve-append [] frat5s h

  module _ (g : D → D) where
    abbrev pub drop_from : D → D
    drop_from v = g v ⊖ factor v

    dispatching_curve-append :
        (done rest : Curve D)
        → HasNewKeys done rest
        → dispatching_curve lowest yield rest
            (map_factors drop_from done)
            (map_factors factor done ++ map_factors g rest)
          ≡ some (map_factors drop_from (done ++ rest), map_factors factor (done ++ rest))
    unfolding dispatching_curve
    dispatching_curve-append done [] h =
        ap (λ c. some (map_factors drop_from done, c)) (append-nil (map_factors factor done))
        ∙ ap (λ c. some (map_factors drop_from c, map_factors factor c)) (sym (append-nil done))
    dispatching_curve-append done ((k, v) ∷ rest) (a, h) =
        let others = map_factors g rest in
        let based =
          set_factor-new factor k (g v) (factor v) done others a
          ∙ sym (append_assoc (map_factors factor done) ((k, factor v) ∷ []) others)
          ∙ ap (λ c. c ++ others) (map_factors-snoc factor done k v) in
        let inserted =
          insert_factor-new drop_from k (drop_from v) done a
          ∙ ap some (map_factors-snoc drop_from done k v) in
        rw (find_factor-new factor k (g v) done others a, inserted, based)
          (dispatching_curve-append (done ++ (k, v) ∷ []) rest h)
        ∙ ap (λ c. some (map_factors drop_from c, map_factors factor c))
            (append_assoc done ((k, v) ∷ []) rest)

    -- On a FRAT5 curve with different keys, and a based curve on those keys, the loop gives each key
    -- the drop from the based factor to the sell-up factor, and leaves the sell-up factors.
    pub dispatching_curve-map_factors :
        (frat5s : Curve D)
        → HasNewKeys [] frat5s
        → dispatching_curve lowest yield frat5s [] (map_factors g frat5s)
          ≡ some (map_factors drop_from frat5s, map_factors factor frat5s)
    dispatching_curve-map_factors frat5s h = dispatching_curve-append [] frat5s h
