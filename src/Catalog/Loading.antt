-- ===== src/Catalog/Loading.antt =====
-- `PostgresCatalog.load`, `_begin_catalog_transaction` and `_require_catalog_connection_policy`
-- (metadata/catalog.py), over a connection of the pool. What the pool, the connection and the database
-- answer is given; a run records the statements that the connection is asked for.
use query_boy.Base.{Bool, List, [], ◌∷◌, ◌++◌, Option, any, map, length, ltb, if◌then◌else◌}
use query_boy.Base.Dict.{Dict}
use query_boy.Base.Result.{Result, ok, err, ◌>>=◌, raise_if, ◌>>◌}
use query_boy.Models.{SourceProfile, CatalogSnapshot}
use query_boy.Reader.{
  ReaderSessionPolicyError, ConnectionInfo, require_reader_connection_policy,
  require_reader_session_policy,
}
use query_boy.Catalog.Failures.{CatalogFailure, invalid, reader_policy, cancelled}
use query_boy.Catalog.Rows.{
  Row, CatalogRelationBuilder, freeze, rows_to_relations, require_supported_catalog_types,
}

pub data Statement : Type 0 where
  begin_read_only set_timezone set_budget policy_query catalog_query commit rollback close :
      Statement

-- What a call gives, or what it raises.
abbrev pub Answer {ℓ} : Type ℓ → Type ℓ
Answer A = Result CatalogFailure A

-- The answers of the pool and of its connection.
pub record Database : Type 0 where
  pub connection : Answer ConnectionInfo
  pub begun : Answer (Unit {0})
  pub timezone : Answer (Unit {0})
  pub budget : Answer (Unit {0})
  pub policy : Answer (Option (Dict Bool))
  pub rows : Answer (List Row)
  pub committed : Answer (Unit {0})
  pub rolled_back : Answer (Unit {0})
  pub closed : Answer (Unit {0})

-- A result and the statements on the way to it.
pub record Exchange {ℓ} (A : Type ℓ) : Type ℓ where
  pub statements : List Statement
  pub result : Answer A

abbrev pub ask {ℓ} : {A : Type ℓ} → Statement → Answer A → Exchange A
ask statement answer = record { statements = statement ∷ []; result = answer }

abbrev pub given {ℓ} : {A : Type ℓ} → Answer A → Exchange A
given answer = record { statements = []; result = answer }

abbrev pub after {ℓ} : {A : Type ℓ} → List Statement → Exchange A → Exchange A
after earlier run = record { statements = earlier ++ run.statements; result = run.result }

abbrev pub continued {ℓ κ} :
    {A : Type ℓ} {B : Type κ} → List Statement → Answer A → (A → Exchange B) → Exchange B
continued earlier (err raised) next = record { statements = earlier; result = err raised }
continued earlier (ok value) next = after earlier (next value)

infixl 5 ◌then◌
abbrev pub ◌then◌ {ℓ κ} : {A : Type ℓ} {B : Type κ} → Exchange A → (A → Exchange B) → Exchange B
first then next = continued first.statements first.result next

-- `except Exception as error: raise ReaderSessionPolicyError(...) from error`
abbrev pub as_policy_error {ℓ} : {A : Type ℓ} → Answer A → Answer A
as_policy_error (ok value) = ok value
as_policy_error (err cancelled) = err cancelled
as_policy_error (err (invalid message)) = err reader_policy
as_policy_error (err reader_policy) = err reader_policy
as_policy_error (err CatalogFailure.value_error) = err reader_policy
as_policy_error (err CatalogFailure.database) = err reader_policy

-- A test of the reader policy.
abbrev pub checked : Result ReaderSessionPolicyError (Unit {0}) → Answer (Unit {0})
checked (ok done) = ok done
checked (err raised) = err reader_policy

unfoldable pub begin_catalog_transaction : Database → Exchange (Unit {0})
unfolding require_reader_session_policy
begin_catalog_transaction db = ask begin_read_only db.begun then λ begun.
    ask set_timezone (as_policy_error db.timezone) then λ zoned.
    ask set_budget (as_policy_error db.budget) then λ set.
    ask policy_query db.policy then λ policy. given (checked (require_reader_session_policy policy))

-- An error while a connection is cleaned up is dropped for the error before it.
abbrev pub cleaned_up {ℓ} : {A : Type ℓ} → Answer (Unit {0}) → CatalogFailure → Answer A
cleaned_up (err cancelled) raised = err cancelled
cleaned_up _ raised = err raised

-- The connection is closed when it does not have the policy.
abbrev pub closed_if_refused : Database → Answer (Unit {0}) → Exchange (Unit {0})
closed_if_refused db (ok done) = given (ok done)
closed_if_refused db (err raised) = record {
  statements = close ∷ [];
  result = cleaned_up db.closed raised;
}

unfoldable pub require_catalog_connection_policy :
    Database → ConnectionInfo → SourceProfile → Exchange (Unit {0})
unfolding require_reader_connection_policy
require_catalog_connection_policy db info source =
    closed_if_refused db (checked (require_reader_connection_policy info source.connection.sslmode))

-- The statements under `try`.
unfoldable pub read_rows : Database → SourceProfile → Exchange (List Row)
unfolding begin_catalog_transaction require_supported_catalog_types
read_rows db source = begin_catalog_transaction db then λ begun.
    ask catalog_query db.rows then λ rows.
    given (
      raise_if (ltb source.budget.max_metadata_columns (length rows))
        (invalid "Catalog column limit exceeded")
      >> require_supported_catalog_types rows)
    then λ supported. ask commit db.committed then λ committed. given (ok rows)

-- `except Exception as error`: the transaction is rolled back, and the first error is raised.
abbrev pub with_rollback {ℓ} : {A : Type ℓ} → Database → List Statement → Answer A → Exchange A
with_rollback db earlier (ok value) = record { statements = earlier; result = ok value }
with_rollback db earlier (err cancelled) = record { statements = earlier; result = err cancelled }
with_rollback db earlier (err raised) = record {
  statements = earlier ++ (rollback ∷ []);
  result = cleaned_up db.rolled_back raised;
}

-- What the rows become behind the connection.
unfoldable pub snapshot_of : SourceProfile → List Row → Answer CatalogSnapshot
unfolding rows_to_relations
snapshot_of source rows = rows_to_relations rows >>= λ relations.
    raise_if (ltb source.budget.max_metadata_relations (length relations))
      (invalid "Catalog relation limit exceeded")
    >> (raise_if
          (any
            (λ (b : CatalogRelationBuilder).
              ltb source.budget.max_columns_per_relation (length b.columns))
            relations)
          (invalid "Catalog per-relation column limit exceeded")
        >> ok (record { relations = map freeze relations }))

unfoldable pub load : Database → SourceProfile → Exchange CatalogSnapshot
unfolding require_catalog_connection_policy read_rows snapshot_of
load db source = given db.connection then λ info.
    require_catalog_connection_policy db info source then λ policy.
    with_rollback db (read_rows db source).statements (read_rows db source).result then λ rows.
    given (snapshot_of source rows)
