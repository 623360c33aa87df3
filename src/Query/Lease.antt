-- ===== src/Query/Lease.antt =====
-- The part of `PostgresQueryExecutor._execute_admitted` that takes a connection of the pool and runs the
-- query on it (guarded_query/query.py).
pub mod Sent
use query_boy.Base.{ℕ, String, Bool, true, false, ◌&&◌, List, [], ◌∷◌, if◌then◌else◌}
use query_boy.Base.Result.{Result, ok, err}
use query_boy.Encoding.{Library}
use query_boy.Models.{SourceProfile}
use query_boy.Operations.{OperationalState}
use query_boy.Reader.{ReaderSessionPolicyError, ConnectionInfo, require_reader_connection_policy}
use query_boy.Sql.Validate.{ValidatedSql}
use query_boy.Query.Failures.{Failure, timeout, reader_policy}
use query_boy.Query.Plan.{Floats}
use query_boy.Query.Session.{
  close, Session, Action, asked, given, continued, ◌>>=◌, ◌>>◌, cleaned_up, is_cancelled,
}
use query_boy.Query.Connection.{Database, Response, execute_connection}

-- What the pool answers, and whether `asyncio.timeout` has ended the work, which cancels it.
pub record Lease : Type 0 where
  pub pool : Result Failure (Unit {0})
  pub leased : Result Failure ConnectionInfo
  pub closed : Result Failure (Unit {0})
  pub expired : Bool

-- A connection that does not meet the policy is closed.
abbrev pub closed_if_refused :
    Lease → Result ReaderSessionPolicyError (Unit {0}) → Action (Unit {0})
closed_if_refused lease (ok done) s = (ok done, s)
closed_if_refused lease (err raised) s =
    (cleaned_up lease.closed (err reader_policy), asked close s)

-- The exit of `asyncio.timeout`: its own cancellation becomes a `TimeoutError`.
abbrev pub timed_out {ℓ} : {A : Type ℓ} → Lease → Result Failure A → Result Failure A
timed_out lease (ok value) = ok value
timed_out lease (err raised) =
    if lease.expired && is_cancelled raised then err timeout else err raised

module _ (F : Floats) (lib : Library) where
  unfoldable pub use_connection :
      Lease
      → Database F lib
      → SourceProfile
      → String
      → ValidatedSql
      → ℕ
      → String
      → Action (Response F lib)
  unfolding require_reader_connection_policy execute_connection
  use_connection lease db source revision validated queue_ms query_id =
      given lease.leased >>= λ info.
      closed_if_refused lease (require_reader_connection_policy info source.connection.sslmode)
      >> execute_connection F lib db source revision validated queue_ms query_id

  unfoldable pub lease_connection :
      Lease
      → Database F lib
      → SourceProfile
      → String
      → ValidatedSql
      → ℕ
      → String
      → Action (Response F lib)
  unfolding use_connection
  lease_connection lease db source revision validated queue_ms query_id = given lease.pool >> (λ s.
      let (result, t) = use_connection lease db source revision validated queue_ms query_id s in
      (timed_out lease result, t))

  -- What the executor does with the semaphore held, as it changes the counters.
  unfoldable pub work :
      Lease
      → Database F lib
      → SourceProfile
      → String
      → ValidatedSql
      → ℕ
      → String
      → OperationalState
      → Result Failure (Response F lib) × OperationalState
  unfolding lease_connection
  work lease db source revision validated queue_ms query_id operations =
      let (result, s) =
        lease_connection lease db source revision validated queue_ms query_id
          (record { operations = operations; statements = [] }) in
      (result, s.operations)
