-- ===== src/Query/Connection.antt =====
-- `PostgresQueryExecutor._execute_connection` and `_validate_resolved_objects` (guarded_query/query.py). What
-- the database answers is an input.
pub mod Checks
pub mod Quiet
pub mod Guarded
pub mod Confirmed
pub mod Answered
mod Tests
use query_boy.Base.{
  ℕ, String, ◌<>◌, Bool, true, false, not, ◌&&◌, List, [], ◌∷◌, ◌++◌, Option, none, some, map,
  length, if◌then◌else◌,
}
use query_boy.Base.Dict.{Dict}
use query_boy.Base.Json.{Json}
use query_boy.Base.Sets.{is_subset, all_different}
use query_boy.Base.Result.{Result, ok, err, raise_if}
use query_boy.Catalog.Comments.{after_literal}
use query_boy.Encoding.{
  Library, Cell, Oid, ResultEncodingError, encoding_error, result_oid_policy_error,
  require_supported_result_oids,
}
use query_boy.Errors.{query_rejected_error}
use query_boy.Models.{SourceProfile, BudgetProfile}
use query_boy.Operations.{OperationalState, increment, observe, set_source_query_health, healthy}
use query_boy.Reader.{ReaderSessionPolicyError, require_reader_session_policy}
use query_boy.Sql.Validate.{ValidatedSql}
use query_boy.Query.Execution.{raise_query_invalid_for_user_sql}
use query_boy.Query.Failures.{Failure, app, reader_policy, encoding, unexpected, cancelled}
use query_boy.Query.Fetch.{Fetched, no_rows, fetch_rows}
use query_boy.Query.Plan.{
  Floats, Value, PlanSummary, PlanLimits, extract_plan, summarize_plan, admit_plan, Fields,
}
use query_boy.Query.Session.{
  Statement, begin_read_only, set_timezone, set_session, policy_query, function_query,
  operator_query, explain, execute_sql, fetch_result, close_cursor, commit, cancel, rollback,
  Session, Action, asked, ask, given, update, continued, ◌>>=◌, ◌>>◌, cleaned_up, is_cancelled,
}
use query_boy.Query.Connection.Checks.{
  ResolvedObject, ResultColumn, without_schema, safe_names, same_set, require_safe, checked,
  encoded, column_names, user_sql_failed,
}

module _ (F : Floats) (lib : Library) where
  -- The answers of the connection; `fetched` is what the loop over the batches gives, and `elapsed_ms` what
  -- the clock has measured at the end.
  pub record Database : Type 0 where
    pub begun : Result Failure (Unit {0})
    pub timezone : Result Failure (Unit {0})
    pub settings : Result Failure (Unit {0})
    pub policy : Result Failure (Option (Dict Bool))
    pub functions : Result Failure (List ResolvedObject)
    pub operators : Result Failure (List ResolvedObject)
    pub plan_row : Result Failure (Option (List (Value F)))
    pub executed : Result Failure (List ResultColumn)
    pub fetched : Result Failure Fetched
    pub cursor_closed : Result Failure (Unit {0})
    pub committed : Result Failure (Unit {0})
    pub cancel_sent : Result Failure (Unit {0})
    pub rolled_back : Result Failure (Unit {0})
    pub elapsed_ms : ℕ

  pub record Response : Type 0 where
    pub query_id : String
    pub metadata_revision : String
    pub fingerprint : String
    pub columns : List String
    pub rows : List Json
    pub row_count : ℕ
    pub result_bytes : ℕ
    pub truncated : Bool
    pub queue_ms : ℕ
    pub elapsed_ms : ℕ
    pub plan_summary : PlanSummary F

  -- The loop over the plan ends, so there is a summary or an error.
  abbrev pub summary_of : Option (Result Failure (PlanSummary F)) → Result Failure (PlanSummary F)
  summary_of none = err unexpected
  summary_of (some summary) = summary

  abbrev pub summarized : Result Failure (Fields F) → Result Failure (PlanSummary F)
  summarized (err raised) = err raised
  summarized (ok root) = summary_of (summarize_plan F root)

  abbrev pub plan_limits : BudgetProfile → PlanLimits
  plan_limits b = record {
    max_plan_total_cost = b.max_plan_total_cost;
    max_plan_rows = b.max_plan_rows;
    max_plan_nodes = b.max_plan_nodes;
  }

  unfoldable pub validate_resolved_objects : Database → ValidatedSql → Action (Unit {0})
  unfolding require_safe
  validate_resolved_objects db validated =
      require_safe function_query "QUERY_RESOLVED_FUNCTION_NOT_ALLOWED" db.functions
        (map without_schema validated.functions)
      >> require_safe operator_query "QUERY_RESOLVED_OPERATOR_NOT_ALLOWED" db.operators
          validated.operators

  unfoldable pub explain_plan : Database → SourceProfile → Action (PlanSummary F)
  unfolding raise_query_invalid_for_user_sql extract_plan summarize_plan
  explain_plan db source =
      (λ s. user_sql_failed source.source_id (ask explain db.plan_row s)) >>= λ row.
      given (summarized (extract_plan F row))

  -- From the start of the transaction to the admission of the plan.
  unfoldable pub admit_query : Database → SourceProfile → ValidatedSql → Action (PlanSummary F)
  unfolding require_reader_session_policy validate_resolved_objects explain_plan admit_plan
  admit_query db source validated =
      ask begin_read_only db.begun
      >> ask set_timezone db.timezone
      >> ask set_session db.settings
      >> ask policy_query db.policy
      >>= λ policy.
          given (checked (require_reader_session_policy policy))
          >> validate_resolved_objects db validated
          >> explain_plan db source
          >>= λ plan. given (admit_plan F (plan_limits source.budget) plan) >> given (ok plan)

  -- The statements of the cursor under `try`.
  unfoldable pub read_result : Database → Action (List String × Fetched)
  unfolding all_different require_supported_result_oids
  read_result db = ask execute_sql db.executed >>= λ columns.
      given (column_names columns) >>= λ names.
      given (
        raise_if (not (all_different names))
          (app (query_rejected_error "QUERY_DUPLICATE_RESULT_COLUMN" none)))
      >> given (
          encoded (require_supported_result_oids (map (λ (c : ResultColumn). c.type_code) columns)))
      >> ask fetch_result db.fetched
      >>= λ fetched. given (ok (names, fetched))

  -- `finally: await cursor.close()`
  abbrev pub cursor_closing {ℓ} :
      {A : Type ℓ} → Database → Result Failure A × Session → Result Failure A × Session
  cursor_closing db (result, s) = (cleaned_up db.cursor_closed result, asked close_cursor s)

  unfoldable pub run_cursor : Database → SourceProfile → Action (List String × Fetched)
  unfolding read_result raise_query_invalid_for_user_sql
  run_cursor db source s = cursor_closing db (user_sql_failed source.source_id (read_result db s))

  -- The body of the outer `try`.
  unfoldable pub run_transaction :
      Database → SourceProfile → ValidatedSql → Action (PlanSummary F × (List String × Fetched))
  unfolding admit_query run_cursor set_source_query_health
  run_transaction db source validated = admit_query db source validated >>= λ plan.
      run_cursor db source >>= λ result.
      ask commit db.committed
      >> update (set_source_query_health source.source_id healthy)
      >> given (ok (plan, result))

  -- `except asyncio.CancelledError` and `except Exception`: the transaction is rolled back.
  abbrev pub after_cancel {ℓ} :
      {A : Type ℓ} → Database → Session → Result Failure (Unit {0}) → Result Failure A × Session
  after_cancel db s (err raised) = (err raised, s)
  after_cancel db s (ok done) = (cleaned_up db.rolled_back (err cancelled), asked rollback s)

  abbrev pub rolled_back {ℓ} :
      {A : Type ℓ} → Database → Result Failure A × Session → Result Failure A × Session
  rolled_back db (ok value, s) = (ok value, s)
  rolled_back db (err raised, s) =
      if is_cancelled raised
      then after_cancel db (asked cancel s) db.cancel_sent
      else (cleaned_up db.rolled_back (err raised), asked rollback s)

  abbrev pub count_success : Database → SourceProfile → Bool → OperationalState → OperationalState
  count_success db source truncated operations =
      let counted =
        observe "query_elapsed_ms" db.elapsed_ms (some source.source_id)
          (increment "query_execution_succeeded" (some source.source_id) 1 operations) in
      if truncated then increment "query_truncated" (some source.source_id) 1 counted else counted

  abbrev pub response_of :
      Database
      → String
      → String
      → ℕ
      → ValidatedSql
      → PlanSummary F × (List String × Fetched)
      → Response
  response_of db metadata_revision query_id queue_ms validated (plan, (columns, fetched)) = record {
    query_id = query_id;
    metadata_revision = metadata_revision;
    fingerprint = validated.fingerprint;
    columns = columns;
    rows = fetched.rows;
    row_count = length fetched.rows;
    result_bytes = fetched.result_bytes;
    truncated = fetched.truncated;
    queue_ms = queue_ms;
    elapsed_ms = db.elapsed_ms;
    plan_summary = plan;
  }

  unfoldable pub execute_connection :
      Database → SourceProfile → String → ValidatedSql → ℕ → String → Action Response
  unfolding run_transaction increment observe
  execute_connection db source metadata_revision validated queue_ms query_id =
      (λ s. rolled_back db (run_transaction db source validated s)) >>= λ result.
      update (count_success db source result.1.1.truncated)
      >> given (ok (response_of db metadata_revision query_id queue_ms validated result))
