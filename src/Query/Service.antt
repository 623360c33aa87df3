-- ===== src/Query/Service.antt =====
-- `QueryService.query` (guarded_query/query.py): a query from the published metadata to the executor.
pub mod Guards
mod Tests
use query_boy.Base.{ℕ, String, Bool, not, ◌||◌, Option, none, some, ◌==◌, if◌then◌else◌}
use query_boy.Base.Dict.{Dict, lookup}
use query_boy.Base.Result.{Result, ok, err}
use query_boy.Errors.{
  source_not_found_error, metadata_unavailable_error, metadata_revision_mismatch_error,
  query_rejected_error, query_unavailable_error,
}
use query_boy.Operations.{OperationalState, increment}
use query_boy.Models.{SourceProfile, PreparedMetadata}
use query_boy.Metadata.Context.{names_of}
use query_boy.Metadata.Service.{
  Settings, MetadataState, Loaded, MetadataFailure, refused, refused_by_reader_policy,
  request_cancelled, Prepared, get_prepared,
}
use query_boy.Sql.Tree.{Python}
use query_boy.Sql.Handlers.{SqlValidationError}
use query_boy.Sql.Validate.{ValidatedSql, Parser, default_policy, validate_sql}
use query_boy.Query.Failures.{Failure}
use query_boy.Query.Execution.{Raised, app_error, interrupted, Queue, execute}

-- What happens while a query runs: what the clocks and the database give, and what is done with the
-- connection for SQL that was validated.
pub record Run (Response : Type 0) : Type 0 where
  pub now : ℕ
  pub load : Loaded
  pub later : ℕ
  pub accepting : Bool
  pub still_accepting : Bool
  pub queue : Queue
  pub shutdown : Bool
  pub work : String → ValidatedSql → OperationalState → Result Failure Response × OperationalState

-- `except MetadataUnavailableError`
abbrev pub raise_metadata : MetadataFailure → Raised
raise_metadata (refused details) = app_error (metadata_unavailable_error details)
raise_metadata refused_by_reader_policy = app_error query_unavailable_error
raise_metadata request_cancelled = interrupted

-- The executor's result, to which `query` adds the revision of the SQL policy.
pub record QueryResult (Response : Type 0) : Type 0 where
  pub result : Response
  pub sql_policy_revision : String

abbrev pub Answer : Type 0 → Type 0
Answer Response = Result Raised (QueryResult Response) × MetadataState

abbrev on_operations :
    {Response : Type 0}
    → MetadataState
    → Result Raised (QueryResult Response) × OperationalState
    → Answer Response
on_operations s (answer, operations) = (answer, record s { operations = operations })

abbrev reject :
    {Response : Type 0} → Raised → String → SourceProfile → MetadataState → Answer Response
reject raised metric source s =
    on_operations s (err raised, increment metric (some source.source_id) 1 s.operations)

-- `result["sql_policy_revision"] = SQL_POLICY_REVISION`
abbrev pub with_policy :
    {Response : Type 0}
    → String
    → Result Raised Response × OperationalState
    → Result Raised (QueryResult Response) × OperationalState
with_policy policy_revision (err raised, operations) = (err raised, operations)
with_policy policy_revision (ok response, operations) =
    (ok (record { result = response; sql_policy_revision = policy_revision }), operations)

module _ (sha256 : String → String) (policy_revision : String) (settings : Settings) (py : Python)
    (pg : Parser) {Response : Type 0} where
  -- From the validation of the SQL on.
  abbrev pub run_validated :
      Run Response
      → SourceProfile
      → PreparedMetadata
      → MetadataState
      → Result SqlValidationError ValidatedSql
      → Answer Response
  run_validated run source published s (err error) =
      reject (app_error (query_rejected_error error.code error.rejected_construct)) "query_rejected"
        source s
  run_validated run source published s (ok validated) = on_operations s (
      with_policy policy_revision (
        execute run.accepting run.still_accepting run.queue run.shutdown source.source_id
          (run.work published.revision validated) s.operations))

  -- From the comparison of the revisions on.
  abbrev pub run_published :
      Run Response
      → SourceProfile
      → String
      → String
      → String
      → Prepared × MetadataState
      → Answer Response
  run_published run source sql metadata_revision sql_policy_revision (err failure, s) =
      (err (raise_metadata failure), s)
  run_published run source sql metadata_revision sql_policy_revision (ok (published, stale), s) =
      if not (metadata_revision == published.revision)
        || not (sql_policy_revision == policy_revision)
      then reject (app_error metadata_revision_mismatch_error) "query_revision_rejected" source s
      else run_validated run source published s (
          validate_sql py pg
            (default_policy (names_of published.snapshot.relations) source.budget.max_sql_bytes)
            sql)

  abbrev pub run_source :
      Run Response
      → Option SourceProfile
      → String
      → String
      → String
      → MetadataState
      → Answer Response
  run_source run none sql metadata_revision sql_policy_revision s =
      (err (app_error source_not_found_error), s)
  run_source run (some source) sql metadata_revision sql_policy_revision s =
      run_published run source sql metadata_revision sql_policy_revision
        (get_prepared sha256 policy_revision settings source run.now run.load run.later s)

  unfoldable pub query :
      Run Response
      → Dict SourceProfile
      → String
      → String
      → String
      → String
      → MetadataState
      → Answer Response
  unfolding lookup execute validate_sql get_prepared
  query run registry source_id sql metadata_revision sql_policy_revision s =
      run_source run (lookup source_id registry) sql metadata_revision sql_policy_revision s
