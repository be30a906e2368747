-- ===== src/Forecasting/History.antt =====
-- The historical bookings of the forecasting methods, from the loop over the segments to the
-- parameters of the demand.
use mathlib.Core.List.{append_assoc, append-nil}
use rmol.Base.{
  leb, ℕ, zero, suc, ◌+◌, ◌-◌, ◌^◌, ◌≤◌, ◌<◌, ◌≡◌, refl, sym, ap, ◌∙◌, inl, inr, Bool, true, List,
  [], ◌∷◌, ◌++◌, map, Option, some, ltb, arith, length, length-take, length-map, Option-cases,
}
use rmol.Base.Double.{Double}
use rmol.Demand.{compute_distribution_parameters}
use rmol.Detruncation.{
  HistoricalBooking, em, to_short, visited, historical_booking, add_historical_booking, unconstrain,
  detruncate,
}
use rmol.Detruncation.Keep.{settled, unconstrain-settled}
use rmol.Forecasting.{build_history, nb_of_rounds, prepare_bookings, unconstrained_parameters}

length-visited {ℓ} :
    {A : Type ℓ} (xs : List A) → length xs < 2 ^ 15 → length (visited xs) ≡ length xs
unfolding to_short
length-visited xs h = ground (arith, length-take (length xs) xs)

module _ {ℓ} {D : Type ℓ} ⦃d : Double D⦄ where
  -- what the entries from `i` on have been read as
  abbrev pub IsRead : (ℕ → Option (D × Bool)) → ℕ → List (D × Bool) → Type ℓ
  IsRead entry i [] = Unit
  IsRead entry i (r ∷ rs) = (entry i ≡ some r) × IsRead entry (suc i) rs

  abbrev pub bookings_of : D × Bool → HistoricalBooking D
  bookings_of r = historical_booking r.0 r.1

  -- each entry of a range is defined
  abbrev pub IsDefined : (ℕ → Option (D × Bool)) → (i rounds : ℕ) → Type ℓ
  IsDefined entry i rounds = (k : ℕ) → i ≤ k → k < i + rounds → (r : D × Bool) × (entry k ≡ some r)

  build_history_lem :
      (entry : ℕ → Option (D × Bool)) (rounds i : ℕ) (holder : List (HistoricalBooking D))
      → IsDefined entry i rounds
      → (rs : List (D × Bool)) × IsRead entry i rs
        × (length rs ≡ rounds)
        × (build_history entry rounds i holder ≡ some (holder ++ map bookings_of rs))
  unfolding build_history add_historical_booking
  build_history_lem entry zero i holder defined = ([], tt, refl, rw append-nil refl)
  build_history_lem entry (suc rounds) i holder defined =
      let (r, here) = defined i (omega arith) (omega arith) in
      let (rs, read, count, run) =
        build_history_lem entry rounds (suc i) (holder ++ bookings_of r ∷ [])
          (λ k h l. defined k (omega arith) (omega arith)) in
      (r ∷ rs, (here, read), ap suc count, rw (here, run, append_assoc) refl)

  length-unconstrain :
      (rounds : ℕ) (holder : List (HistoricalBooking D))
      → length (unconstrain rounds holder).0 ≡ length holder
  length-unconstrain rounds holder =
      sym (length-map (unconstrain rounds holder).0 settled)
      ∙ ap length (unconstrain-settled rounds holder)
      ∙ length-map holder settled

  -- with two samples or more the parameters are defined
  distribution_defined :
      (samples : List D)
      → 1 < length samples
      → (p : D × D) × (compute_distribution_parameters samples ≡ some p)
  unfolding compute_distribution_parameters
  distribution_defined samples h =
      let enough : ltb 1 (length samples) ≡ true = ground arith in
      elim (Option-cases (compute_distribution_parameters samples)) [
        | inl failed ↦ absurd (ground (arith, enough, failed))
        | inr defined ↦ defined
      ]

  parameters_defined :
      (rounds : ℕ) (holder : List (HistoricalBooking D))
      → 1 < length holder
      → length holder < 2 ^ 15
      → (unconstrain rounds holder).1 ≡ true
      → (p : D × D) × (unconstrained_parameters em rounds holder ≡ some p)
  unfolding unconstrained_parameters detruncate
  parameters_defined rounds holder more less stops =
      let after = (unconstrain rounds holder).0 in
      let same : length after ≡ length holder = length-unconstrain rounds holder in
      let demands = map (λ (h : HistoricalBooking D). h.unconstrained_demand) (visited after) in
      let count : length demands ≡ length holder =
        length-map (visited after) _ ∙ length-visited after (omega arith) ∙ same in
      let (p, e) = distribution_defined demands (omega arith) in (p, rw (stops, e) refl)

  -- If each entry of a segment range is defined and the range has at least two segments and fewer
  -- than 2^15, its history has one booking for each of them, as read, in their order; and once
  -- the unconstraining of it stops the parameters of the demand are defined.
  pub prepare_bookings_lem :
      (greatest : ℕ) (entry : ℕ → Option (D × Bool)) (segment_begin segment_end : ℕ)
      → IsDefined entry 0 (suc (segment_end - segment_begin))
      → segment_begin < segment_end
      → segment_end - segment_begin + 1 < 2 ^ 15
      → (rs : List (D × Bool)) × IsRead entry 0 rs
        × (length rs ≡ suc (segment_end - segment_begin))
        × (prepare_bookings greatest entry segment_begin segment_end ≡ some (map bookings_of rs))
        × ((rounds : ℕ)
            → (unconstrain rounds (map bookings_of rs)).1 ≡ true
            → (p : D × D) × (unconstrained_parameters em rounds (map bookings_of rs) ≡ some p))
  unfolding prepare_bookings nb_of_rounds
  prepare_bookings_lem greatest entry segment_begin segment_end defined two fits =
      let (rs, read, count, run) =
        build_history_lem entry (suc (segment_end - segment_begin)) 0 [] defined in
      let in_order : leb segment_begin segment_end ≡ true = ground arith in
      let in_short : ltb (suc (segment_end - segment_begin)) (2 ^ 15) ≡ true = ground arith in
      let size : length (map bookings_of rs) ≡ suc (segment_end - segment_begin) =
        length-map rs bookings_of ∙ count in
      (
        rs,
        read,
        count,
        rw (in_order, in_short) run,
        λ rounds stops.
            parameters_defined rounds (map bookings_of rs) (omega arith) (omega arith) stops,
      )
