-- ===== src/Catalog/Loaded.antt =====
-- What `PostgresCatalog.load` gives (metadata/catalog.py), and what its connection is asked for.
use mathlib.Core.Path.{subst}
use mathlib.Core.List.{append-nil}
use query_boy.Base.{
  Bool, false, List, [], ◌∷◌, ◌++◌, Option, any, length, ltb, ◌==◌, ◌≤◌, ◌≡◌, ◌≢◌, refl, ◌∙◌, ap,
  not_ltb→ge,
}
use query_boy.Base.Dict.{Dict}
use query_boy.Base.Result.{Result, ok, err, passed_raise, raise-eq-ok, raise-tested, ok-injective}
use query_boy.Models.{SourceProfile, CatalogSnapshot}
use query_boy.Reader.{
  ReaderSessionPolicyError, ConnectionInfo, require_reader_connection_policy,
  require_reader_session_policy,
}
use query_boy.Catalog.Failures.{CatalogFailure, invalid, reader_policy, cancelled}
use query_boy.Catalog.Rows.{Row, require_supported_catalog_types}
use query_boy.Catalog.Loading.{
  Statement, begin_read_only, set_timezone, set_budget, policy_query, catalog_query, commit, Answer,
  Database, Exchange, continued, ◌then◌, as_policy_error, checked, begin_catalog_transaction,
  closed_if_refused, require_catalog_connection_policy, read_rows, cleaned_up, with_rollback, load,
}
use query_boy.Catalog.Snapshots.{IsSnapshotOf, snapshot_of-IsSnapshotOf}

-- A step that gives a value: the statements and the result of what follows it.
record Continues {ℓ κ} {A : Type ℓ} {B : Type κ} (first : Exchange A) (next : A → Exchange B)
    (y : B) : Type (ℓ ⊔ κ) where
  value : A
  gave : first.result ≡ ok value
  later : (next value).result ≡ ok y
  statements : (first then next).statements ≡ first.statements ++ (next value).statements

then-eq-ok {ℓ κ} :
    {A : Type ℓ} {B : Type κ} (statements : List Statement) (answer : Answer A)
    (next : A → Exchange B) {y : B}
    → (continued statements answer next).result ≡ ok y
    → Continues (record { statements = statements; result = answer }) next y
then-eq-ok statements (err raised) next h = absurd (cc h)
then-eq-ok statements (ok value) next h = record {
  value = value;
  gave = refl;
  later = h;
  statements = refl;
}

pub checked-eq-ok :
    (r : Result ReaderSessionPolicyError (Unit {0})) {u : Unit {0}} → checked r ≡ ok u → r ≡ ok tt
checked-eq-ok (ok u) h = refl
checked-eq-ok (err raised) h = absurd (cc h)

-- The session has the reader policy.
abbrev pub HasSessionPolicy : Database → Type 0
HasSessionPolicy db =
    (policy : Option (Dict Bool)) × (db.policy ≡ ok policy)
    × (require_reader_session_policy policy ≡ ok tt)

abbrev transaction : List Statement
transaction = begin_read_only ∷ set_timezone ∷ set_budget ∷ policy_query ∷ []

pub begin_catalog_transaction-eq-ok :
    (db : Database) {u : Unit {0}}
    → (begin_catalog_transaction db).result ≡ ok u
    → ((begin_catalog_transaction db).statements ≡ transaction) × HasSessionPolicy db
unfolding begin_catalog_transaction
begin_catalog_transaction-eq-ok db h =
    let began = then-eq-ok (begin_read_only ∷ []) db.begun _ h in
    let zoned = then-eq-ok (set_timezone ∷ []) (as_policy_error db.timezone) _ began.later in
    let budgeted = then-eq-ok (set_budget ∷ []) (as_policy_error db.budget) _ zoned.later in
    let asked = then-eq-ok (policy_query ∷ []) db.policy _ budgeted.later in
    (
      began.statements
          ∙ ap (λ s. begin_read_only ∷ s)
              (zoned.statements
                ∙ ap (λ s. set_timezone ∷ s)
                    (budgeted.statements ∙ ap (λ s. set_budget ∷ s) asked.statements)),
      (asked.value, asked.gave, checked-eq-ok _ asked.later),
    )

record IsRead (db : Database) (source : SourceProfile) (rows : List Row) : Type 0 where
  policy : HasSessionPolicy db
  given_rows : db.rows ≡ ok rows
  few : length rows ≤ source.budget.max_metadata_columns
  no_domain : any (λ (row : Row). row.type_kind == "d") rows ≡ false
  statements : (read_rows db source).statements ≡ transaction ++ (catalog_query ∷ commit ∷ [])

read_rows-IsRead :
    (db : Database) (source : SourceProfile) (rows : List Row)
    → (read_rows db source).result ≡ ok rows
    → IsRead db source rows
unfolding read_rows require_supported_catalog_types
read_rows-IsRead db source rows h =
    let begun =
      then-eq-ok (begin_catalog_transaction db).statements (begin_catalog_transaction db).result _
        h in
    let (steps, policy) = begin_catalog_transaction-eq-ok db begun.gave in
    let asked = then-eq-ok (catalog_query ∷ []) db.rows _ begun.later in
    let tests = then-eq-ok [] _ _ asked.later in
    let written = then-eq-ok (commit ∷ []) db.committed _ tests.later in
    let same = ok-injective written.later in
    let test : Bool = ltb source.budget.max_metadata_columns (length asked.value) in
    record {
      policy = policy;
      given_rows = asked.gave ∙ ap ok same;
      few =
          subst (λ (r : List Row). length r ≤ source.budget.max_metadata_columns) same
            (not_ltb→ge _ _ (raise-tested test _ _ tests.gave));
      no_domain =
          subst (λ (r : List Row). any (λ (row : Row). row.type_kind == "d") r ≡ false) same
            (raise-eq-ok _ _ (passed_raise test _ _ tests.gave));
      statements =
          begun.statements
          ∙ rw steps (
              ap (λ s. transaction ++ s)
                (asked.statements
                  ∙ ap (λ s. catalog_query ∷ s) (tests.statements ∙ written.statements)));
    }

cleaned_up-ne-ok {ℓ} :
    {A : Type ℓ} (answer : Answer (Unit {0})) (raised : CatalogFailure) {y : A}
    → cleaned_up answer raised ≢ ok y
cleaned_up-ne-ok (ok done) raised h = absurd (cc h)
cleaned_up-ne-ok (err cancelled) raised h = absurd (cc h)
cleaned_up-ne-ok (err (invalid message)) raised h = absurd (cc h)
cleaned_up-ne-ok (err reader_policy) raised h = absurd (cc h)
cleaned_up-ne-ok (err CatalogFailure.value_error) raised h = absurd (cc h)
cleaned_up-ne-ok (err CatalogFailure.database) raised h = absurd (cc h)

with_rollback-eq-ok {ℓ} :
    {A : Type ℓ} (db : Database) (statements : List Statement) (answer : Answer A) {y : A}
    → (with_rollback db statements answer).result ≡ ok y
    → (answer ≡ ok y) × ((with_rollback db statements answer).statements ≡ statements)
with_rollback-eq-ok db statements (ok value) h = (h, refl)
with_rollback-eq-ok db statements (err cancelled) h = absurd (cc h)
with_rollback-eq-ok db statements (err (invalid message)) h =
    absurd (cleaned_up-ne-ok db.rolled_back (invalid message) h)
with_rollback-eq-ok db statements (err reader_policy) h =
    absurd (cleaned_up-ne-ok db.rolled_back reader_policy h)
with_rollback-eq-ok db statements (err CatalogFailure.value_error) h =
    absurd (cleaned_up-ne-ok db.rolled_back CatalogFailure.value_error h)
with_rollback-eq-ok db statements (err CatalogFailure.database) h =
    absurd (cleaned_up-ne-ok db.rolled_back CatalogFailure.database h)

-- The connection has the reader policy.
abbrev pub HasConnectionPolicy : Database → SourceProfile → Type 0
HasConnectionPolicy db source =
    (info : ConnectionInfo) × (db.connection ≡ ok info)
    × (require_reader_connection_policy info source.connection.sslmode ≡ ok tt)

pub closed_if_refused-eq-ok :
    (db : Database) (answer : Answer (Unit {0})) {u : Unit {0}}
    → (closed_if_refused db answer).result ≡ ok u
    → (answer ≡ ok tt) × ((closed_if_refused db answer).statements ≡ [])
closed_if_refused-eq-ok db (ok done) h = (refl, refl)
closed_if_refused-eq-ok db (err raised) h = absurd (cleaned_up-ne-ok db.closed raised h)

pub record IsLoaded (db : Database) (source : SourceProfile) (snapshot : CatalogSnapshot)
    : Type 0 where
  pub connection : HasConnectionPolicy db source
  pub session : HasSessionPolicy db
  pub rows : List Row
  pub given_rows : db.rows ≡ ok rows
  pub few : length rows ≤ source.budget.max_metadata_columns
  pub no_domain : any (λ (row : Row). row.type_kind == "d") rows ≡ false
  pub snapshot_of_rows : IsSnapshotOf source rows snapshot
  pub statements : (load db source).statements ≡ transaction ++ (catalog_query ∷ commit ∷ [])

-- A catalog that is loaded came over a connection and a session that meet the reader policy, by the
-- statements of one read-only transaction that was committed, and not rolled back. Its relations are the
-- database's rows grouped by the name of their relation, and rows, relations and columns of a relation are
-- no more than the source's budget allows, and no column is of a domain type.
pub load-IsLoaded :
    (db : Database) (source : SourceProfile) (snapshot : CatalogSnapshot)
    → (load db source).result ≡ ok snapshot
    → IsLoaded db source snapshot
unfolding load require_catalog_connection_policy
load-IsLoaded db source snapshot h =
    let connected = then-eq-ok [] db.connection _ h in
    let info = connected.value in
    let refused =
      closed_if_refused db
        (checked (require_reader_connection_policy info source.connection.sslmode)) in
    let required = then-eq-ok refused.statements refused.result _ connected.later in
    let (policy, quiet) = closed_if_refused-eq-ok db _ required.gave in
    let body = with_rollback db (read_rows db source).statements (read_rows db source).result in
    let finished = then-eq-ok body.statements body.result _ required.later in
    let (answered, kept) = with_rollback-eq-ok db _ _ finished.gave in
    let read = read_rows-IsRead db source finished.value answered in
    record {
      connection = (info, connected.gave, checked-eq-ok _ policy);
      session = read.policy;
      rows = finished.value;
      given_rows = read.given_rows;
      few = read.few;
      no_domain = read.no_domain;
      snapshot_of_rows = snapshot_of-IsSnapshotOf source finished.value snapshot finished.later;
      statements =
          connected.statements
          ∙ required.statements
          ∙ rw quiet (finished.statements ∙ append-nil _ ∙ kept ∙ read.statements);
    }
