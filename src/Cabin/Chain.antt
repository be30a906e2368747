-- ===== src/Cabin/Chain.antt =====
-- How the optimisation algorithms of rmol/bom (MCOptimiser.cpp, Emsr.cpp) leave a list of virtual
-- classes: which fields they write, and how the values of neighbours hang together.
use rmol.Base.{◌≡◌, List, [], ◌∷◌}
use rmol.Base.Double.{Double, ◌⊖◌, ◌≺◌, nought}
use rmol.Cabin.{VirtualClass}

module _ {ℓ} {D : Type ℓ} ⦃d : Double D⦄ where
  -- The booking limit of the first class is `limit`, and that of each other class is what the
  -- protection of the class before leaves of the capacity.
  unfoldable pub IsChained : (remaining limit : D) → List (VirtualClass D) → Type ℓ
  IsChained remaining limit [] = Unit
  IsChained remaining limit (c ∷ cs) =
      (c.booking_limit ≡ limit) × IsChained remaining (remaining ⊖ c.protection) cs

  -- a class without what the optimisation writes
  abbrev pub unset : VirtualClass D → VirtualClass D
  unset c = record c { protection = nought; booking_limit = nought }

  -- the yields fall strictly
  abbrev pub FallsBelow : D → List (VirtualClass D) → Type 0
  FallsBelow y [] = Unit
  FallsBelow y (c ∷ cs) = (c.yield ≺ y) × FallsBelow c.yield cs

  abbrev pub HasFallingYields : List (VirtualClass D) → Type 0
  HasFallingYields [] = Unit
  HasFallingYields (c ∷ cs) = FallsBelow c.yield cs
