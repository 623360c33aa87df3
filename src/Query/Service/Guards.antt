-- ===== src/Query/Service/Guards.antt =====
-- What has passed when a query gives a result (`QueryService.query`, guarded_query/query.py).
use query_boy.Base.{
  sym, String, Bool, true, false, not, ◌||◌, Option, none, some, ◌≡◌, refl, ◌∙◌, arith, eq_iff,
  ◌==◌, if◌then◌else◌, ap,
}
use query_boy.Base.Dict.{Dict, lookup}
use query_boy.Base.Result.{Result, ok, err, ok-injective}
use query_boy.Operations.{OperationalState}
use query_boy.Models.{SourceProfile, PreparedMetadata}
use query_boy.Metadata.Context.{names_of}
use query_boy.Metadata.Service.{Settings, MetadataState, Prepared, get_prepared}
use query_boy.Sql.Tree.{Python}
use query_boy.Sql.Handlers.{SqlValidationError}
use query_boy.Sql.Validate.{ValidatedSql, Parser, default_policy, validate_sql}
use query_boy.Query.Execution.{Raised, execute}
use query_boy.Query.Service.{
  Run, Answer, run_validated, run_published, run_source, query, QueryResult, with_policy,
}

module _ (sha256 : String → String) (policy_revision : String) (settings : Settings) (py : Python)
    (pg : Parser) (Response : Type 0) (run : Run Response) where
  -- The guards that a query with a result has passed.
  pub record IsGuarded (registry : Dict SourceProfile)
      (source_id sql metadata_revision sql_policy_revision : String) (s : MetadataState)
      (response : QueryResult Response) : Type 0 where
    pub source : SourceProfile
    pub published : PreparedMetadata
    pub stale : Bool
    pub validated : ValidatedSql
    pub registered : lookup source_id registry ≡ some source
    pub served :
        (get_prepared sha256 policy_revision settings source run.now run.load run.later s).0
        ≡ ok (published, stale)
    pub same_revision : metadata_revision ≡ published.revision
    pub same_policy : sql_policy_revision ≡ policy_revision
    pub valid :
        validate_sql py pg
          (default_policy (names_of published.snapshot.relations) source.budget.max_sql_bytes)
          sql
        ≡ ok validated
    pub executed :
        (execute run.accepting run.still_accepting run.queue run.shutdown source.source_id
          (run.work published.revision validated)
          (get_prepared sha256 policy_revision settings source run.now run.load run.later
            s).1.operations).0
        ≡ ok response.result
    pub names_policy : response.sql_policy_revision ≡ policy_revision

  with_policy_lem :
      (answer : Result Raised Response × OperationalState) (response : QueryResult Response)
      → (with_policy policy_revision answer).0 ≡ ok response
      → (answer.0 ≡ ok response.result) × (response.sql_policy_revision ≡ policy_revision)
  with_policy_lem (err raised, operations) response h = absurd (cc h)
  with_policy_lem (ok result, operations) response h =
      let same = ok-injective h in
      (
        ap (λ (r : QueryResult Response). ok r.result) same,
        sym (ap (λ (r : QueryResult Response). r.sql_policy_revision) same),
      )

  run_validated_lem :
      (source : SourceProfile) (published : PreparedMetadata) (s : MetadataState)
      (v : Result SqlValidationError ValidatedSql) (response : QueryResult Response)
      → (run_validated sha256 policy_revision settings py pg run source published s v).0
        ≡ ok response
      → (validated : ValidatedSql) × (v ≡ ok validated)
        × ((execute run.accepting run.still_accepting run.queue run.shutdown source.source_id
              (run.work published.revision validated)
              s.operations).0
            ≡ ok response.result)
        × (response.sql_policy_revision ≡ policy_revision)
  run_validated_lem source published s (err e) response h = absurd (cc h)
  run_validated_lem source published s (ok validated) response h =
      let (result, named) =
        with_policy_lem
          (execute run.accepting run.still_accepting run.queue run.shutdown source.source_id
            (run.work published.revision validated) s.operations)
          response h in
      (validated, refl, result, named)

  passed_guard :
      (bad : Bool) (raised : Raised) (x y : Answer Response) (response : QueryResult Response)
      → x.0 ≡ err raised
      → (if bad then x else y).0 ≡ ok response
      → (bad ≡ false) × (y.0 ≡ ok response)
  passed_guard true raised x y response e h = absurd (cc (e, h))
  passed_guard false raised x y response e h = (refl, h)

  -- A query gives a result only for a registered source whose metadata was served for this request,
  -- when both revisions that the caller names are the current ones and the SQL is valid for the
  -- relations of this metadata; and the result is the executor's for this SQL, to which the current revision
  -- of the SQL policy is added.
  pub query-IsGuarded :
      (registry : Dict SourceProfile) (source_id sql metadata_revision sql_policy_revision : String)
      (s : MetadataState) (response : QueryResult Response)
      → (query sha256 policy_revision settings py pg run registry source_id sql metadata_revision
          sql_policy_revision s).0
        ≡ ok response
      → IsGuarded registry source_id sql metadata_revision sql_policy_revision s response
  unfolding query
  query-IsGuarded registry source_id sql metadata_revision sql_policy_revision s response h =
      from_source (lookup source_id registry) refl h
    where
      from_published :
          (source : SourceProfile) (r : Prepared × MetadataState)
          → lookup source_id registry ≡ some source
          → get_prepared sha256 policy_revision settings source run.now run.load run.later s ≡ r
          → (run_published sha256 policy_revision settings py pg run source sql metadata_revision
              sql_policy_revision r).0
            ≡ ok response
          → IsGuarded registry source_id sql metadata_revision sql_policy_revision s response
      from_published source (err f, s') l g k = absurd (cc k)
      from_published source (ok (published, stale), s') l g k =
          let (t, k') =
            passed_guard
              (not (metadata_revision == published.revision)
                || not (sql_policy_revision == policy_revision))
              _ _ _ response refl k in
          let (validated, v, e, named) = run_validated_lem source published s' _ response k' in
          record {
            source = source;
            published = published;
            stale = stale;
            validated = validated;
            registered = l;
            served = ap (λ r. r.0) g;
            same_revision = ground (arith, t, eq_iff metadata_revision published.revision);
            same_policy = ground (arith, t, eq_iff sql_policy_revision policy_revision);
            valid = v;
            executed =
                ap
                  (λ r.
                    (execute run.accepting run.still_accepting run.queue run.shutdown
                      source.source_id (run.work published.revision validated) r.1.operations).0)
                  g
                ∙ e;
            names_policy = named;
          }

      from_source :
          (o : Option SourceProfile)
          → lookup source_id registry ≡ o
          → (run_source sha256 policy_revision settings py pg run o sql metadata_revision
              sql_policy_revision s).0
            ≡ ok response
          → IsGuarded registry source_id sql metadata_revision sql_policy_revision s response
      from_source none l k = absurd (cc k)
      from_source (some source) l k = from_published source _ l refl k
