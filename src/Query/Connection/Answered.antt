-- ===== src/Query/Connection/Answered.antt =====
-- What a query that is answered has been given (`_execute_connection`, guarded_query/query.py).
use mathlib.Core.Path.{subst}
use query_boy.Base.{
  some, ◌≤◌, ◌<◌, ◌≢◌, if-false, if-true, ℕ, String, true, not, List, Option, map, length,
  not-eq-false, Bool-cases, ◌≡◌, inl, inr, refl, sym, ◌∙◌, ap,
}
use query_boy.Base.Sets.{all_different}
use query_boy.Base.Result.{Result, ok, err, raise_if, raise-eq-ok, ok-injective}
use query_boy.Encoding.{Library, Cell, ResultEncodingError, require_supported_result_oids}
use query_boy.Errors.{query_rejected_error}
use query_boy.Models.{SourceProfile}
use query_boy.Sql.Validate.{ValidatedSql}
use query_boy.Query.Failures.{Failure, app}
use query_boy.Query.Fetch.{Fetched, no_rows, fetch_rows}
use query_boy.Query.Reference.{IsSelection}
use query_boy.Query.Batches.{IsCursor, fetch_rows-IsSelection}
use query_boy.Query.Plan.{Floats, PlanSummary}
use query_boy.Query.Session.{
  commit, execute_sql, fetch_result, cancel, Session, asked, ask, given, is_cancelled,
}
use query_boy.Query.Session.Steps.{cleaned_up-eq-ok, continued-eq-ok, given-eq-ok}
use query_boy.Query.Connection.{
  Database, Response, read_result, run_cursor, run_transaction, admit_query, after_cancel,
  rolled_back, execute_connection,
}
use query_boy.Query.Connection.Checks.{ResultColumn, column_names, encoded, user_sql_failed}
use query_boy.Query.Connection.Guarded.{IsAdmitted, admit_query-IsAdmitted, user_sql_failed-eq-ok}

encoded-eq-ok :
    (r : Result ResultEncodingError (Unit {0})) {u : Unit {0}} → encoded r ≡ ok u → r ≡ ok tt
encoded-eq-ok (ok u) h = refl
encoded-eq-ok (err raised) h = absurd (cc h)

module _ (F : Floats) (lib : Library) (db : Database F lib) (source : SourceProfile)
    (validated : ValidatedSql) where
  -- The columns and rows of the cursor.
  pub record IsResult (columns : List String) (fetched : Fetched) : Type 0 where
    pub described : List ResultColumn
    pub executed : db.executed ≡ ok described
    pub names : column_names described ≡ ok columns
    pub different : all_different columns ≡ true
    pub supported :
        require_supported_result_oids (map (λ (c : ResultColumn). c.type_code) described) ≡ ok tt
    pub given_rows : db.fetched ≡ ok fetched

  read_result-IsResult :
      (s : Session) (columns : List String) (fetched : Fetched) (s' : Session)
      → read_result F lib db s ≡ (ok (columns, fetched), s')
      → IsResult columns fetched
  unfolding read_result
  read_result-IsResult s columns fetched s' h =
      let executed = continued-eq-ok (ask execute_sql db.executed s) _ h in
      let names =
        continued-eq-ok (given (column_names executed.value) executed.session) _ executed.rest in
      let repeated = not (all_different names.value) in
      let rejected = app (query_rejected_error "QUERY_DUPLICATE_RESULT_COLUMN" Option.none) in
      let distinct =
        continued-eq-ok (given (raise_if repeated rejected) names.session) _ names.rest in
      let oids =
        require_supported_result_oids (map (λ (c : ResultColumn). c.type_code) executed.value) in
      let supported = continued-eq-ok (given (encoded oids) distinct.session) _ distinct.rest in
      let rows = continued-eq-ok (ask fetch_result db.fetched supported.session) _ supported.rest in
      let both = ok-injective (given-eq-ok (ok (names.value, rows.value)) rows.session rows.rest) in
      let same = ap (λ (p : List String × Fetched). p.0) both in
      record {
        described = executed.value;
        executed = given-eq-ok db.executed _ executed.first;
        names = given-eq-ok (column_names executed.value) executed.session names.first ∙ ap ok same;
        different =
            subst (λ (c : List String). all_different c ≡ true) same
              (not-eq-false _ (
                raise-eq-ok repeated rejected
                  (given-eq-ok (raise_if repeated rejected) names.session distinct.first)));
        supported =
            encoded-eq-ok oids (given-eq-ok (encoded oids) distinct.session supported.first);
        given_rows =
            given-eq-ok db.fetched _ rows.first ∙ ap (λ (p : List String × Fetched). ok p.1) both;
      }

  after_cancel-ne-ok {ℓ} :
      (A : Type ℓ) (answer : Result Failure (Unit {0})) (s : Session) {y : A} {s' : Session}
      → after_cancel F lib {A = A} db s answer ≢ (ok y, s')
  after_cancel-ne-ok A (ok done) s h = absurd (
      cc (
        cleaned_up-eq-ok db.rolled_back (err Failure.cancelled)
          (ap (λ (p : Result Failure A × Session). p.0) h)))
  after_cancel-ne-ok A (err raised) s h = absurd (cc h)

  rolled_back-eq-ok {ℓ} :
      {A : Type ℓ} (run : Result Failure A × Session) {y : A} {s' : Session}
      → rolled_back F lib db run ≡ (ok y, s')
      → run ≡ (ok y, s')
  rolled_back-eq-ok (ok value, s) h = h
  rolled_back-eq-ok {A = A} (err raised, s) h = elim (Bool-cases (is_cancelled raised)) [
    | inl stopped ↦
        absurd
          (after_cancel-ne-ok A db.cancel_sent (asked cancel s) (sym (if-true _ _ _ stopped) ∙ h))
    | inr failed ↦ absurd (
        cc (
          cleaned_up-eq-ok db.rolled_back (err raised)
            (ap (λ (p : Result Failure A × Session). p.0) (sym (if-false _ _ _ failed) ∙ h))))
  ]

  run_cursor-IsResult :
      (s : Session) (columns : List String) (fetched : Fetched) (s' : Session)
      → run_cursor F lib db source s ≡ (ok (columns, fetched), s')
      → IsResult columns fetched
  unfolding run_cursor
  run_cursor-IsResult s columns fetched s' h =
      let run = user_sql_failed source.source_id (read_result F lib db s) in
      let read =
        cleaned_up-eq-ok db.cursor_closed run.0
          (ap (λ (p : Result Failure (List String × Fetched) × Session). p.0) h) in
      read_result-IsResult s columns fetched run.1 (
        user_sql_failed-eq-ok source.source_id (read_result F lib db s)
          (ap (λ (r : Result Failure (List String × Fetched)). (r, run.1)) read))

  record IsRun (result : PlanSummary F × (List String × Fetched)) : Type 0 where
    admitted : IsAdmitted F lib db source validated result.0
    rows : IsResult result.1.0 result.1.1
    committed : db.committed ≡ ok tt

  run_transaction-IsRun :
      (s : Session) (result : PlanSummary F × (List String × Fetched)) (s' : Session)
      → run_transaction F lib db source validated s ≡ (ok result, s')
      → IsRun result
  unfolding run_transaction
  run_transaction-IsRun s result s' h =
      let admitted = continued-eq-ok (admit_query F lib db source validated s) _ h in
      let read = continued-eq-ok (run_cursor F lib db source admitted.session) _ admitted.rest in
      let committed = continued-eq-ok (ask commit db.committed read.session) _ read.rest in
      let same = ok-injective (given-eq-ok _ _ committed.rest) in
      subst IsRun same (record {
        admitted =
            admit_query-IsAdmitted F lib db source validated s admitted.value admitted.session
              admitted.first;
        rows =
            run_cursor-IsResult admitted.session read.value.0 read.value.1 read.session read.first;
        committed = given-eq-ok db.committed _ committed.first;
      })

  -- An answered query: its plan was admitted, its columns and rows are those of the cursor, and the
  -- transaction was committed.
  pub record IsAnswered (response : Response F lib) (fetched : Fetched) : Type 0 where
    pub admitted : IsAdmitted F lib db source validated response.plan_summary
    pub result : IsResult response.columns fetched
    pub rows : response.rows ≡ fetched.rows
    pub row_count : response.row_count ≡ length response.rows
    pub result_bytes : response.result_bytes ≡ fetched.result_bytes
    pub truncated : response.truncated ≡ fetched.truncated
    pub committed : db.committed ≡ ok tt

  execute_connection-eq-ok :
      (revision : String) (queue_ms : ℕ) (query_id : String) (s : Session)
      (response : Response F lib) (s' : Session)
      → execute_connection F lib db source revision validated queue_ms query_id s
        ≡ (ok response, s')
      → (fetched : Fetched) × IsAnswered response fetched
  unfolding execute_connection
  execute_connection-eq-ok revision queue_ms query_id s response s' h =
      let run = run_transaction F lib db source validated s in
      let done = continued-eq-ok (rolled_back F lib db run) _ h in
      let result =
        run_transaction-IsRun s done.value done.session (rolled_back-eq-ok run done.first) in
      let same =
        ok-injective (ap (λ (p : Result Failure (Response F lib) × Session). p.0) done.rest) in
      (
        done.value.1.1,
        subst (λ (r : Response F lib). IsAnswered r done.value.1.1) same
            (record {
              admitted = result.admitted;
              result = result.rows;
              rows = refl;
              row_count = refl;
              result_bytes = refl;
              truncated = refl;
              committed = result.committed;
            }),
      )

  module _ {Cursor : Type 0} (fetchmany : ℕ → Cursor → Result Failure (List (Cell lib) × Cursor))
      (left : Cursor → List (Cell lib)) (lawful : IsCursor lib fetchmany left) where
    -- If a query is answered, with rows that the loop has fetched from a lawful cursor within the
    -- source's limits, on more fuel than there are rows: the session met the reader policy, the database
    -- knows all functions and operators as safe, the plan was admitted, the columns are different and of
    -- supported types, the rows are the longest prefix of the result that the limits on rows and bytes
    -- allow, `row_count` counts them, `truncated` tells whether any are missing, and the transaction was
    -- committed.
    pub execute_connection-IsAnswered :
        (fuel : ℕ) (cursor : Cursor) (revision : String) (queue_ms : ℕ) (query_id : String)
        (s : Session) (response : Response F lib) (s' : Session)
        → length (left cursor) < fuel
        → 2 ≤ source.budget.max_result_bytes
        → fetch_rows lib source.budget.max_result_rows source.budget.max_result_bytes fetchmany fuel
            cursor no_rows
          ≡ some db.fetched
        → execute_connection F lib db source revision validated queue_ms query_id s
          ≡ (ok response, s')
        → (fetched : Fetched) × IsAnswered response fetched
          × IsSelection lib source.budget.max_result_rows source.budget.max_result_bytes
              (left cursor)
              fetched
    execute_connection-IsAnswered fuel cursor revision queue_ms query_id s response s' enough two
          rows h =
        let (fetched, answered) =
          execute_connection-eq-ok revision queue_ms query_id s response s' h in
        (
          fetched,
          answered,
          fetch_rows-IsSelection lib source.budget.max_result_rows source.budget.max_result_bytes
              fetchmany left lawful fuel cursor fetched enough two
              (rows ∙ ap some answered.result.given_rows),
        )
