-- ===== src/Query/Failures.antt =====
-- The exceptions that meet in the handlers of guarded_query/query.py.
use query_boy.Base.{String, Option}
use query_boy.Errors.{AppError}
use query_boy.Encoding.{ResultEncodingError}

pub data Failure : Type 0 where
  -- an error of errors.py
  app : AppError → Failure
  -- psycopg_pool's `PoolTimeout`
  pool_timeout : Failure
  -- `TimeoutError`
  timeout : Failure
  -- psycopg's `QueryCanceled`, `OperationalError` and `InterfaceError`
  query_canceled : Failure
  operational : Option String → Failure
  interface : Failure
  -- any other `DatabaseError`, with its SQLSTATE
  database : Option String → Failure
  reader_policy : Failure
  encoding : ResultEncodingError → Failure
  -- `RuntimeError` and every other `Exception`
  unexpected : Failure
  -- `asyncio.CancelledError`, which is no `Exception`
  cancelled : Failure
