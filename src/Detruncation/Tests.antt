-- ===== src/Detruncation/Tests.antt =====
-- Small histories of bookings.
use rmol.Base.{ℕ, ◌≡◌, refl, inr, Bool, true, false, List, [], ◌∷◌, map}
use rmol.Base.Int.{pos, negsuc, ◌+ℤ◌, ◌-ℤ◌, ◌*ℤ◌, ◌/ℤ◌}
use rmol.Base.Fixed.{Fixed, fixed_double, root_below}
use rmol.Cabin.Samples.{seats}
use rmol.Detruncation.{HistoricalBooking, to_short, get_demand_mean, unconstrain}
use rmol.Detruncation.Keep.{settled, unconstrain-settled}
use rmol.Detruncation.Idle.{unconstrain-idle}

abbrev entry : ℕ → Bool → HistoricalBooking Fixed
entry n flag = record { number_of_bookings = seats n; unconstrained_demand = seats n; flag = flag }

abbrev history : List (HistoricalBooking Fixed)
history = entry 8 false ∷ entry 9 true ∷ entry 12 false ∷ []

mean_of_history : get_demand_mean history ≡ pos 9666
unfolding get_demand_mean to_short ◌+ℤ◌ ◌-ℤ◌ ◌*ℤ◌ ◌/ℤ◌
mean_of_history = refl

-- a size that a `short` does not hold
wrapped : to_short 65535 ≡ negsuc 0
unfolding to_short
wrapped = refl

abbrev estimated : List (HistoricalBooking Fixed)
estimated =
    entry 8 false ∷ record (entry 9 true) { unconstrained_demand = pos 11962 } ∷ entry 12 false ∷ []

one_round : (unconstrain 1 history).0 ≡ estimated
unfolding unconstrain to_short get_demand_mean root_below ◌+ℤ◌ ◌-ℤ◌ ◌*ℤ◌ ◌/ℤ◌
one_round = refl

unconstrain-settled_example : map settled (unconstrain 1 history).0 ≡ map settled history
unconstrain-settled_example = unconstrain-settled 1 history

abbrev free : List (HistoricalBooking Fixed)
free = entry 8 false ∷ entry 12 false ∷ []

unconstrain-idle_example : unconstrain 1 free ≡ (free, true)
unconstrain-idle_example = unconstrain-idle 0 free (inr (refl, (refl, tt)))
