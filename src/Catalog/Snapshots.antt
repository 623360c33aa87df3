-- ===== src/Catalog/Snapshots.antt =====
-- A snapshot of rows (`PostgresCatalog.load`, metadata/catalog.py).
use query_boy.Base.{Bool, false, List, any, map, length, ltb, ◌≤◌, ◌≡◌, sym, ap, not_ltb→ge}
use query_boy.Base.Result.{ok, >>=-eq-ok, passed_raise, raise-tested, ok-injective}
use query_boy.Models.{SourceProfile, CatalogSnapshot}
use query_boy.Catalog.Rows.{Row, CatalogRelationBuilder, freeze, rows_to_relations}
use query_boy.Catalog.Grouping.{AreGroups, rows_to_relations-AreGroups}
use query_boy.Catalog.Loading.{snapshot_of}

-- What a snapshot shows of the rows.
pub record IsSnapshotOf (source : SourceProfile) (rows : List Row) (snapshot : CatalogSnapshot)
    : Type 0 where
  pub relations : List CatalogRelationBuilder
  pub frozen : snapshot.relations ≡ map freeze relations
  pub groups : AreGroups rows relations
  pub few : length relations ≤ source.budget.max_metadata_relations
  pub narrow :
      any
        (λ (b : CatalogRelationBuilder).
          ltb source.budget.max_columns_per_relation (length b.columns))
        relations
      ≡ false

pub snapshot_of-IsSnapshotOf :
    (source : SourceProfile) (rows : List Row) (snapshot : CatalogSnapshot)
    → snapshot_of source rows ≡ ok snapshot
    → IsSnapshotOf source rows snapshot
unfolding snapshot_of
snapshot_of-IsSnapshotOf source rows snapshot h =
    let (relations, made, tested) = >>=-eq-ok (rows_to_relations rows) _ h in
    let many : Bool = ltb source.budget.max_metadata_relations (length relations) in
    let wide : Bool =
      any
        (λ (b : CatalogRelationBuilder).
          ltb source.budget.max_columns_per_relation (length b.columns))
        relations in
    let tested' = passed_raise many _ _ tested in
    record {
      relations = relations;
      frozen =
          ap (λ (s : CatalogSnapshot). s.relations)
            (sym (ok-injective (passed_raise wide _ _ tested')));
      groups = rows_to_relations-AreGroups rows relations made;
      few = not_ltb→ge _ _ (raise-tested many _ _ tested);
      narrow = raise-tested wide _ _ tested';
    }
