-- ===== src/Catalog/Asked.antt =====
-- Which statements a connection is asked for before its policy is known (metadata/catalog.py).
use query_boy.Base.{
  Bool, true, false, ◌||◌, List, [], ◌∷◌, ◌++◌, any, Bool-cases, ◌≡◌, ◌⊎◌, inl, inr, refl, sym, ◌∙◌,
  arith,
}
use query_boy.Base.Result.{ok, err}
use query_boy.Models.{SourceProfile}
use query_boy.Reader.{require_reader_connection_policy}
use query_boy.Catalog.Failures.{CatalogFailure, invalid, reader_policy, cancelled}
use query_boy.Catalog.Loading.{
  Statement, begin_read_only, set_timezone, set_budget, policy_query, catalog_query, rollback,
  Answer, Database, Exchange, continued, as_policy_error, checked, begin_catalog_transaction,
  closed_if_refused, require_catalog_connection_policy, read_rows, with_rollback, load,
}
use query_boy.Catalog.Loaded.{
  checked-eq-ok, begin_catalog_transaction-eq-ok, closed_if_refused-eq-ok, HasSessionPolicy,
  HasConnectionPolicy,
}

abbrev is_rows_query : Statement → Bool
is_rows_query catalog_query = true
is_rows_query _ = false

-- The views of the database are among what is asked for.
abbrev pub asks_rows : List Statement → Bool
asks_rows statements = any is_rows_query statements

asks_rows-append : (xs ys : List Statement) → asks_rows (xs ++ ys) ≡ (asks_rows xs || asks_rows ys)
asks_rows-append [] ys = refl
asks_rows-append (x ∷ xs) ys = ground (arith, asks_rows-append xs ys)

-- The views are asked for in the first step, or in what follows its value.
continued-asks {ℓ κ} :
    {A : Type ℓ} {B : Type κ} (earlier : List Statement) (answer : Answer A) (next : A → Exchange B)
    → asks_rows (continued earlier answer next).statements ≡ true
    → (asks_rows earlier ≡ true)
      ⊎ ((x : A) × (answer ≡ ok x) × (asks_rows (next x).statements ≡ true))
continued-asks earlier (err raised) next h = inl h
continued-asks earlier (ok value) next h = elim (Bool-cases (asks_rows earlier)) [
  | inl asked ↦ inl asked
  | inr quiet ↦ inr (value, refl, ground (arith, asks_rows-append earlier (next value).statements))
]

continued-quiet {ℓ κ} :
    {A : Type ℓ} {B : Type κ} (earlier : List Statement) (answer : Answer A) (next : A → Exchange B)
    → asks_rows earlier ≡ false
    → ((x : A) → asks_rows (next x).statements ≡ false)
    → asks_rows (continued earlier answer next).statements ≡ false
continued-quiet earlier (err raised) next quiet later = quiet
continued-quiet earlier (ok value) next quiet later =
    ground (arith, asks_rows-append earlier (next value).statements, later value)

append-rollback :
    (earlier : List Statement) → asks_rows (earlier ++ (rollback ∷ [])) ≡ asks_rows earlier
append-rollback earlier = ground (arith, asks_rows-append earlier (rollback ∷ []))

begin_catalog_transaction-asks :
    (db : Database) → asks_rows (begin_catalog_transaction db).statements ≡ false
unfolding begin_catalog_transaction
begin_catalog_transaction-asks db = continued-quiet (begin_read_only ∷ []) db.begun _ refl (λ begun.
    continued-quiet (set_timezone ∷ []) (as_policy_error db.timezone) _ refl (λ zoned.
      continued-quiet (set_budget ∷ []) (as_policy_error db.budget) _ refl
        (λ set. continued-quiet (policy_query ∷ []) db.policy _ refl (λ policy. refl))))

read_rows-asks :
    (db : Database) (source : SourceProfile)
    → asks_rows (read_rows db source).statements ≡ true
    → HasSessionPolicy db
unfolding read_rows
read_rows-asks db source h =
    let begun = begin_catalog_transaction db in
    elim (continued-asks begun.statements begun.result _ h) [
      | inl asked ↦ absurd (cc (asked, begin_catalog_transaction-asks db))
      | inr (done, began, later) ↦ (begin_catalog_transaction-eq-ok db began).1
    ]

closed_if_refused-asks :
    (db : Database) (answer : Answer (Unit {0}))
    → asks_rows (closed_if_refused db answer).statements ≡ false
closed_if_refused-asks db (ok done) = refl
closed_if_refused-asks db (err raised) = refl

with_rollback-asks {ℓ} :
    {A : Type ℓ} (db : Database) (earlier : List Statement) (answer : Answer A)
    → asks_rows (with_rollback db earlier answer).statements ≡ asks_rows earlier
with_rollback-asks db earlier (ok value) = refl
with_rollback-asks db earlier (err cancelled) = refl
with_rollback-asks db earlier (err (invalid message)) = append-rollback earlier
with_rollback-asks db earlier (err reader_policy) = append-rollback earlier
with_rollback-asks db earlier (err CatalogFailure.value_error) = append-rollback earlier
with_rollback-asks db earlier (err CatalogFailure.database) = append-rollback earlier

-- The views of a database are asked for only over a connection and in a session that meet the reader
-- policy, whatever the pool and the database answer and however the loading ends.
pub load-asks_rows :
    (db : Database) (source : SourceProfile)
    → asks_rows (load db source).statements ≡ true
    → HasConnectionPolicy db source × HasSessionPolicy db
unfolding load read_rows require_catalog_connection_policy
load-asks_rows db source h = elim (continued-asks [] db.connection _ h) [
  | inl asked ↦ absurd (cc asked)
  | inr (info, connected, later) ↦
      let policy = checked (require_reader_connection_policy info source.connection.sslmode) in
      let required = closed_if_refused db policy in
      elim (continued-asks required.statements required.result _ later) [
        | inl asked ↦ absurd (cc (asked, closed_if_refused-asks db policy))
        | inr (done, passed, body) ↦
            let rows = read_rows db source in
            let read = with_rollback db rows.statements rows.result in
            elim (continued-asks read.statements read.result _ body) [
              | inl asked ↦ (
                (info, connected, checked-eq-ok _ (closed_if_refused-eq-ok db policy passed).0),
                read_rows-asks db source
                    (sym (with_rollback-asks db rows.statements rows.result) ∙ asked),
              )
              | inr (value, gave, none_left) ↦ absurd (cc none_left)
            ]
      ]
]
