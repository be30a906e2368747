-- ===== src/Service/Cooperation.antt =====
-- `optimiseOnD` and the two ways of cooperation in rmol/service/RMOL_Service.cpp: the optimisation
-- of the flight-dates, repeated while a bid price varies.
use rmol.Base.{ℕ, zero, suc, List, Option, some, if◌then◌else◌, ◌>>=◌}
use rmol.Base.Int.{ℤ}
use rmol.Base.Double.{Double, of_ℕ, nought}
use rmol.Integration.{max_of, optimise_using_ond_forecast}
use rmol.Service.{
  Flight, Inventory, LegOps, for_each, is_dcp, reset_inventory, reset_demand_information,
}
use rmol.Service.Projection.{Legs, project_inventory, project, project_dyp, update_bid_price}

module _ {ℓ} {S D : Type ℓ} ⦃d : Double D⦄ (step : S → Option (S × D)) where
  -- `while (lMaxBPVariation > 0.01 && lIterationCounter < limit)`, for the rounds left, with the
  -- last variation and the number of rounds made
  unfoldable pub while_varying : (rounds : ℕ) (variation : D) → S → Option (S × D × ℕ)
  while_varying zero variation s = some (s, variation, 0)
  while_varying (suc rounds) variation s =
      let more = do
        (s', variation') ← step s
        (s'', variation'', made) ← while_varying rounds variation' s'
        some (s'', variation'', suc made)
      in if d.lt (d.literal 1 2) variation then more else some (s, variation, 0)

module _ {ℓ} {D : Type ℓ} ⦃d : Double D⦄ (sample : (mean std_dev : D) → ℕ → D) (draws : ℕ)
    (whole : List ℤ) (today : ℤ) where
  -- a flight-date on a data collection point, with the greatest variation so far
  unfoldable pub optimise_ond_flight : Flight → Legs D × D → Option (Legs D × D)
  unfolding is_dcp
  optimise_ond_flight flight (legs, most) =
      let run = do
        (legs', variation) ← optimise_using_ond_forecast sample draws flight.leg_dates legs nought
        some (legs', max_of most variation)
      in if is_dcp whole flight.departure today then run else some (legs, most)

  unfoldable pub optimise_ond_inventory : Inventory D → Legs D × D → Option (Legs D × D)
  unfolding for_each optimise_ond_flight
  optimise_ond_inventory inventory = for_each optimise_ond_flight inventory.flights

  -- `optimiseOnD`
  unfoldable pub optimise_ond : List (Inventory D) → Legs D → Option (Legs D)
  unfolding for_each optimise_ond_inventory
  optimise_ond inventories legs = do
    (legs', variation) ← for_each optimise_ond_inventory inventories (legs, nought)
    some legs'

  module _ (ops : LegOps D) where
    -- one round within an inventory: the yields of its demand are prorated anew at the end
    unfoldable pub cooperate_inventory : Inventory D → Legs D → Option (Legs D × D)
    unfolding optimise_ond_inventory reset_inventory project_inventory project_dyp
    cooperate_inventory inventory legs = do
      (legs', variation) ← optimise_ond_inventory inventory (legs, nought)
      cleared ← reset_inventory whole today inventory legs'
      projected ← project_inventory whole today (project_dyp ops) inventory cleared
      some (projected, variation)

    -- `optimiseOnDUsingRMCooperation`: each inventory by itself
    unfoldable pub optimise_ond_using_rm_cooperation : List (Inventory D) → Legs D → Option (Legs D)
    unfolding for_each while_varying cooperate_inventory
    optimise_ond_using_rm_cooperation = for_each (λ inventory legs.
        while_varying (cooperate_inventory inventory) 10 (of_ℕ 1) legs >>= λ (r : Legs D × D × ℕ).
        some r.0)

    -- one round over the network: the bid prices are communicated at the end
    unfoldable pub cooperate_network : List (Inventory D) → Legs D → Option (Legs D × D)
    unfolding for_each optimise_ond_inventory update_bid_price reset_demand_information project
        project_dyp
    cooperate_network inventories legs = do
      (legs', variation) ← for_each optimise_ond_inventory inventories (legs, nought)
      updated ← update_bid_price ops whole today inventories legs'
      cleared ← reset_demand_information whole today inventories updated
      projected ← project whole today (project_dyp ops) inventories cleared
      some (projected, variation)

    -- `optimiseOnDUsingAdvancedRMCooperation`
    unfoldable pub optimise_ond_using_advanced_rm_cooperation :
        List (Inventory D) → Legs D → Option (Legs D)
    unfolding while_varying cooperate_network
    optimise_ond_using_advanced_rm_cooperation inventories legs = do
      (legs', variation, made) ← while_varying (cooperate_network inventories) 50 (of_ℕ 1) legs
      some legs'
