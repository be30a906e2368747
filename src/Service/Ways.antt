-- ===== src/Service/Ways.antt =====
-- The four projections of the O&D demand in rmol/service/RMOL_Service.cpp, by name.
use rmol.Base.{Option}
use rmol.Base.Double.{Double}
use rmol.Service.{OndDemand, OndDate, LegOps}
use rmol.Service.Projection.{Legs, project_aggregated, project_yp, project_da, project_dyp}

-- the four ways to project the O&D demand
pub data Way : Type 0 where
  aggregated yield_proration displacement dynamic : Way

module _ {ℓ} {D : Type ℓ} ⦃d : Double D⦄ (ops : LegOps D) where
  abbrev pub project_by : Way → OndDate D → OndDemand D → Legs D → Option (Legs D)
  project_by aggregated = project_aggregated ops
  project_by yield_proration = project_yp ops
  project_by displacement = project_da ops
  project_by dynamic = project_dyp ops
