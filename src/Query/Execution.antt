-- ===== src/Query/Execution.antt =====
-- `PostgresQueryExecutor.execute` and `_execute_admitted`, and `_raise_query_invalid_for_user_sql`
-- (guarded_query/query.py): which error leaves the executor, and what it counts. How the work on
-- the connection ended is an input.
pub mod Outcomes
use query_boy.Base.{
  ℕ, String, Bool, true, false, List, [], ◌∷◌, ◌++◌, Option, none, some, any, eqb, not,
  if◌then◌else◌,
}
use query_boy.Base.Dict.{Dict, lookup}
use query_boy.Base.Result.{Result, ok, err}
use query_boy.Errors.{
  AppError, ErrorClass, query_rejected, query_invalid, query_overloaded, query_timeout,
  query_invalid_error, query_overloaded_error, query_timeout_error, query_unavailable_error,
}
use query_boy.Operations.{
  OperationalState, increment, observe, set_source_query_health, unavailable,
}
use query_boy.Query.Failures.{
  Failure, app, pool_timeout, timeout, query_canceled, operational, interface, database,
  reader_policy, encoding, unexpected, cancelled,
}

abbrev pub query_invalid_reason_by_sqlstate : Dict String
query_invalid_reason_by_sqlstate =
    ("22003", "QUERY_NUMERIC_VALUE_OUT_OF_RANGE")
    ∷ ("22007", "QUERY_INVALID_CAST")
    ∷ ("22008", "QUERY_INVALID_CAST")
    ∷ ("22012", "QUERY_DIVISION_BY_ZERO")
    ∷ ("2201B", "QUERY_INVALID_REGULAR_EXPRESSION")
    ∷ ("2201W", "QUERY_INVALID_LIMIT")
    ∷ ("2201X", "QUERY_INVALID_LIMIT")
    ∷ ("22023", "QUERY_INVALID_FUNCTION_ARGUMENT")
    ∷ ("22P02", "QUERY_INVALID_CAST")
    ∷ ("42703", "QUERY_UNDEFINED_COLUMN")
    ∷ ("42809", "QUERY_INVALID_FUNCTION_USAGE")
    ∷ ("42846", "QUERY_INVALID_CAST")
    ∷ ("42883", "QUERY_FUNCTION_SIGNATURE_MISMATCH")
    ∷ []

-- `error.sqlstate or ""`
abbrev pub sqlstate_or_empty : Option String → String
sqlstate_or_empty none = ""
sqlstate_or_empty (some sqlstate) = sqlstate

-- `QueryInvalidError(reason_code)`, or the `ValueError` of its constructor.
abbrev pub invalid_failure : Option AppError → Failure
invalid_failure none = unexpected
invalid_failure (some error) = app error

abbrev pub raise_reason :
    Option String → Failure → String → OperationalState → Failure × OperationalState
raise_reason none error source_id s = (error, s)
raise_reason (some reason) error source_id s =
    (invalid_failure (query_invalid_error reason), increment "query_invalid" (some source_id) 1 s)

-- `except errors.DatabaseError`: `_raise_query_invalid_for_user_sql`, then `raise`. An
-- `InterfaceError` is no `DatabaseError`, and the SQLSTATE of a `QueryCanceled` is not in the table.
unfoldable pub raise_query_invalid_for_user_sql :
    Failure → String → OperationalState → Failure × OperationalState
unfolding lookup
raise_query_invalid_for_user_sql (operational sqlstate) source_id s =
    raise_reason (lookup (sqlstate_or_empty sqlstate) query_invalid_reason_by_sqlstate)
      (operational sqlstate) source_id s
raise_query_invalid_for_user_sql (database sqlstate) source_id s =
    raise_reason (lookup (sqlstate_or_empty sqlstate) query_invalid_reason_by_sqlstate)
      (database sqlstate) source_id s
raise_query_invalid_for_user_sql error source_id s = (error, s)

-- What leaves `_execute_admitted` and `execute`: an `AppError`, or `CancelledError`.
pub data Raised : Type 0 where
  app_error : AppError → Raised
  interrupted : Raised

abbrev count : String → String → OperationalState → OperationalState
count name source_id s = increment name (some source_id) 1 s

-- `except Exception`
abbrev pub fail : String → OperationalState → Raised × OperationalState
fail source_id s = (app_error query_unavailable_error, count "query_failed" source_id s)

-- `except (OperationalError, InterfaceError, ReaderSessionPolicyError)`
abbrev pub lose_source : String → OperationalState → Raised × OperationalState
lose_source source_id s = (
  app_error query_unavailable_error,
  set_source_query_health source_id unavailable (count "query_failed" source_id s),
)

-- The clauses for an `AppError`.
abbrev pub pass_on : ErrorClass → AppError → String → OperationalState → Raised × OperationalState
pass_on query_rejected error source_id s = (app_error error, count "query_rejected" source_id s)
pass_on query_invalid error source_id s = (app_error error, s)
pass_on query_overloaded error source_id s = (app_error error, s)
pass_on query_timeout error source_id s = (app_error error, s)
pass_on _ error source_id s = fail source_id s

-- The `except` clauses of `_execute_admitted`. `shutdown` says whether the active query has the
-- cancel reason "shutdown".
unfoldable pub settle_failure :
    Bool → Failure → String → OperationalState → Raised × OperationalState
settle_failure shutdown pool_timeout source_id s = (
  app_error query_unavailable_error,
  set_source_query_health source_id unavailable (count "query_pool_exhausted" source_id s),
)
settle_failure shutdown timeout source_id s =
    (app_error query_timeout_error, count "query_timeout" source_id s)
settle_failure shutdown query_canceled source_id s = (
  app_error query_timeout_error,
  count (if shutdown then "query_shutdown_cancelled" else "query_timeout") source_id s,
)
settle_failure shutdown (operational sqlstate) source_id s = lose_source source_id s
settle_failure shutdown interface source_id s = lose_source source_id s
settle_failure shutdown reader_policy source_id s = lose_source source_id s
settle_failure shutdown (app error) source_id s = pass_on error.kind error source_id s
settle_failure shutdown (database sqlstate) source_id s = fail source_id s
settle_failure shutdown (encoding error) source_id s = fail source_id s
settle_failure shutdown unexpected source_id s = fail source_id s
settle_failure shutdown cancelled source_id s = (interrupted, s)

-- Waiting for the semaphore of the source.
pub data Queue : Type 0 where
  acquired : ℕ → Queue
  queue_timeout queue_cancelled : Queue

module _ {Response : Type 0} where
  abbrev pub settle :
      Bool
      → String
      → Result Failure Response × OperationalState
      → Result Raised Response × OperationalState
  settle shutdown source_id (ok response, s) = (ok response, s)
  settle shutdown source_id (err failure, s) =
      let (raised, s') = settle_failure shutdown failure source_id s in (err raised, s')

  -- `work` is what is done with a connection once the semaphore is held.
  unfoldable pub execute_admitted :
      Queue
      → Bool
      → String
      → (OperationalState → Result Failure Response × OperationalState)
      → OperationalState
      → Result Raised Response × OperationalState
  unfolding settle_failure
  execute_admitted queue_timeout shutdown source_id work s =
      (err (app_error query_overloaded_error), count "query_queue_rejected" source_id s)
  execute_admitted queue_cancelled shutdown source_id work s = (err interrupted, s)
  execute_admitted (acquired queue_ms) shutdown source_id work s = settle shutdown source_id (
      work (
        count "query_execution_started" source_id
          (observe "query_queue_ms" queue_ms (some source_id) s)))

  -- The handlers of `execute`; `accepting` is read when the cancellation arrives.
  abbrev pub leave :
      Bool
      → String
      → Result Raised Response × OperationalState
      → Result Raised Response × OperationalState
  leave accepting source_id (err interrupted, s) =
      if not accepting
      then (err (app_error query_unavailable_error), s)
      else (err interrupted, count "query_interrupted" source_id s)
  leave accepting source_id (err (app_error error), s) = (err (app_error error), s)
  leave accepting source_id (ok response, s) = (ok response, s)

  -- `accepting` is `self._accepting` when the request comes, and `still_accepting` when it ends.
  unfoldable pub execute :
      Bool
      → Bool
      → Queue
      → Bool
      → String
      → (OperationalState → Result Failure Response × OperationalState)
      → OperationalState
      → Result Raised Response × OperationalState
  unfolding execute_admitted
  execute accepting still_accepting queue shutdown source_id work s =
      if not accepting
      then (err (app_error query_unavailable_error), s)
      else leave still_accepting source_id (execute_admitted queue shutdown source_id work s)
