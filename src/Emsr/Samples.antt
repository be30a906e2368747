-- ===== src/Emsr/Samples.antt =====
-- Uniform demands in place of the normal ones of rmol/bom/EmsrUtils.cpp, for the tests.
use rmol.Base.{◌&&◌, Option, none, some, if◌then◌else◌}
use rmol.Base.Int.{pos, ltb_ℤ, ◌+ℤ◌, ◌-ℤ◌, ◌*ℤ◌, ◌/ℤ◌}
use rmol.Base.Fixed.{Fixed}
use rmol.Emsr.{Normal}

-- uniform over [mean - sd, mean + sd]
abbrev uniform_quantile : (mean sd p : Fixed) → Option Fixed
uniform_quantile mean sd p =
    if ltb_ℤ (pos 0) sd && ltb_ℤ (pos 0) p && ltb_ℤ p (pos 1000)
    then some (mean +ℤ sd -ℤ pos 2 *ℤ sd *ℤ p /ℤ pos 1000)
    else none

abbrev uniform_survival : (mean sd x : Fixed) → Option Fixed
uniform_survival mean sd x =
    if ltb_ℤ (pos 0) sd then some ((mean +ℤ sd -ℤ x) *ℤ pos 1000 /ℤ (pos 2 *ℤ sd)) else none

abbrev pub uniform : Normal Fixed
uniform = record { quantile = uniform_quantile; survival = uniform_survival }
