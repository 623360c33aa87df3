-- ===== src/Query/Connection/Checks.antt =====
-- The tests of `_execute_connection` and `_validate_resolved_objects` (guarded_query/query.py).
use query_boy.Base.{String, Bool, not, ◌&&◌, List, [], ◌∷◌, Option, none, some, if◌then◌else◌}
use query_boy.Base.Sets.{is_subset}
use query_boy.Base.Result.{Result, ok, err, raise_if}
use query_boy.Catalog.Comments.{after_literal}
use query_boy.Encoding.{Oid, ResultEncodingError, encoding_error, result_oid_policy_error}
use query_boy.Errors.{query_rejected_error}
use query_boy.Reader.{ReaderSessionPolicyError}
use query_boy.Query.Execution.{raise_query_invalid_for_user_sql}
use query_boy.Query.Failures.{Failure, app, reader_policy, encoding}
use query_boy.Query.Session.{Statement, Session, Action, ask, given, ◌>>=◌}

-- A row of the function and operator queries.
pub record ResolvedObject : Type 0 where
  pub object_name : String
  pub is_safe : Bool

-- A column of the cursor's description; a name that is no text is `none`.
pub record ResultColumn : Type 0 where
  pub name : Option String
  pub type_code : Oid

-- `name.removeprefix("pg_catalog.")`
abbrev pub without_schema : String → String
without_schema name = elim (after_literal "pg_catalog." name) [ none ↦ name | some rest ↦ rest ]

abbrev pub safe_names : List ResolvedObject → List String
safe_names [] = []
safe_names (o ∷ rows) = if o.is_safe then o.object_name ∷ safe_names rows else safe_names rows

abbrev pub same_set : List String → List String → Bool
same_set xs ys = is_subset xs ys && is_subset ys xs

-- `if names:` the database must know every name as safe.
unfoldable pub require_safe :
    Statement → String → Result Failure (List ResolvedObject) → List String → Action (Unit {0})
unfolding is_subset
require_safe statement reason answer [] = given (ok tt)
require_safe statement reason answer (name ∷ names) = ask statement answer >>= λ rows. given (
    raise_if (not (same_set (safe_names rows) (name ∷ names)))
      (app (query_rejected_error reason none)))

abbrev pub checked : Result ReaderSessionPolicyError (Unit {0}) → Result Failure (Unit {0})
checked (ok done) = ok done
checked (err raised) = err reader_policy

abbrev pub encoded : Result ResultEncodingError (Unit {0}) → Result Failure (Unit {0})
encoded (ok done) = ok done
encoded (err raised) = err (encoding raised)

-- `[column.name for column in result_columns]`, if all are texts.
abbrev pub column_names : List ResultColumn → Result Failure (List String)
column_names [] = ok []
column_names (c ∷ columns) = elim (column_names columns) [
  | err raised ↦ err raised
  | ok names ↦ elim c.name [
    | none ↦ err (encoding (encoding_error result_oid_policy_error))
    | some name ↦ ok (name ∷ names)
  ]
]

-- `except errors.DatabaseError as error`
abbrev pub user_sql_failed {ℓ} :
    {A : Type ℓ} → String → Result Failure A × Session → Result Failure A × Session
user_sql_failed source_id (ok value, s) = (ok value, s)
user_sql_failed source_id (err raised, s) =
    let (raised', operations) = raise_query_invalid_for_user_sql raised source_id s.operations in
    (err raised', record s { operations = operations })
