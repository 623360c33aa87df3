-- ===== src/Operations/Tests.antt =====
-- A state of runtime/operations.py, and the theorems at it.
use query_boy.Base.{[], ◌∷◌, some}
use query_boy.Operations.{
  OperationalState, reset, healthy, unavailable, set_source_health, reconcile_sources,
  public_status,
}
use query_boy.Operations.Status.{Meaning, public_status-Meaning}
use query_boy.Operations.Sources.{
  IsReconciled, reconcile_sources-IsReconciled, IsReported, set_source_health-IsReported,
}

abbrev two_sources : OperationalState
two_sources = record reset {
  active_sources = some ("sales" ∷ "stock" ∷ []);
  source_metadata_health = ("sales", healthy) ∷ ("stock", unavailable) ∷ [];
  source_query_health = ("sales", healthy) ∷ ("stock", healthy) ∷ [];
}

public_status-Meaning_example : Meaning (public_status two_sources) two_sources
public_status-Meaning_example = public_status-Meaning two_sources

reconcile_sources-IsReconciled_example :
    IsReconciled
      ("stock" ∷ "web" ∷ [])
      two_sources
      (reconcile_sources ("stock" ∷ "web" ∷ []) two_sources)
reconcile_sources-IsReconciled_example =
    reconcile_sources-IsReconciled ("stock" ∷ "web" ∷ []) two_sources

set_source_health-IsReported_example :
    IsReported "web" healthy two_sources (set_source_health "web" healthy two_sources)
set_source_health-IsReported_example = set_source_health-IsReported "web" healthy two_sources
