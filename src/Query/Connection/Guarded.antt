-- ===== src/Query/Connection/Guarded.antt =====
-- When the user's SQL is run by the database (`_execute_connection`, guarded_query/query.py).
use mathlib.Core.Path.{subst}
use query_boy.Base.{
  ℕ, String, Bool, true, not, List, [], ◌∷◌, Option, map, not-eq-false, ◌≡◌, ◌⊎◌, inl, inr, refl,
  ◌∙◌, ap,
}
use query_boy.Base.Dict.{Dict}
use query_boy.Base.Result.{Result, ok, err, raise-eq-ok, ok-injective}
use query_boy.Encoding.{Library}
use query_boy.Errors.{query_rejected_error}
use query_boy.Models.{SourceProfile}
use query_boy.Operations.{OperationalState}
use query_boy.Reader.{ReaderSessionPolicyError, require_reader_session_policy}
use query_boy.Sql.Validate.{ValidatedSql}
use query_boy.Query.Failures.{Failure, app}
use query_boy.Query.Plan.{Floats, Value, PlanSummary, extract_plan, admit_plan}
use query_boy.Query.Session.{
  Statement, function_query, operator_query, explain, begin_read_only, set_timezone, set_session,
  policy_query, Session, asked, ask, given,
}
use query_boy.Query.Session.Steps.{continued-eq-ok, given-eq-ok, is_execution, sends}
use query_boy.Query.Connection.{
  Database, summarized, plan_limits, validate_resolved_objects, explain_plan, admit_query,
  execute_connection,
}
use query_boy.Query.Connection.Checks.{
  ResolvedObject, without_schema, safe_names, same_set, require_safe, checked, user_sql_failed,
}
use query_boy.Query.Connection.Quiet.{executed, execute_connection-sends, run_transaction-sends}

-- The database knows each of the names as safe, and no others were asked for.
abbrev pub Resolves : Result Failure (List ResolvedObject) → List String → Type 0
Resolves answer names =
    (names ≡ [])
    ⊎ ((rows : List ResolvedObject) × (answer ≡ ok rows)
        × (same_set (safe_names rows) names ≡ true))

require_safe-Resolves :
    (statement : Statement) (reason : String) (answer : Result Failure (List ResolvedObject))
    (names : List String) (s : Session) {u : Unit {0}} {s' : Session}
    → require_safe statement reason answer names s ≡ (ok u, s')
    → Resolves answer names
unfolding require_safe
require_safe-Resolves statement reason answer [] s h = inl refl
require_safe-Resolves statement reason answer (name ∷ names) s h =
    let asked = continued-eq-ok (ask statement answer s) _ h in
    let other = not (same_set (safe_names asked.value) (name ∷ names)) in
    inr (
      asked.value,
      ap (λ (p : Result Failure (List ResolvedObject) × Session). p.0) asked.first,
      not-eq-false _ (
          raise-eq-ok other (app (query_rejected_error reason Option.none))
            (given-eq-ok _ _ asked.rest)),
    )

pub checked-eq-ok :
    (r : Result ReaderSessionPolicyError (Unit {0})) {u : Unit {0}} → checked r ≡ ok u → r ≡ ok tt
checked-eq-ok (ok u) h = refl
checked-eq-ok (err raised) h = absurd (cc h)

pub user_sql_failed-eq-ok {ℓ} :
    {A : Type ℓ} (source_id : String) (run : Result Failure A × Session) {a : A} {s : Session}
    → user_sql_failed source_id run ≡ (ok a, s)
    → run ≡ (ok a, s)
user_sql_failed-eq-ok source_id (ok value, s) h = h
user_sql_failed-eq-ok source_id (err raised, s) h = absurd (cc h)

module _ (F : Floats) (lib : Library) (db : Database F lib) (source : SourceProfile)
    (validated : ValidatedSql) where
  -- What is known once a query is admitted.
  pub record IsAdmitted (plan : PlanSummary F) : Type 0 where
    pub policy : Option (Dict Bool)
    pub given_policy : db.policy ≡ ok policy
    pub policy_holds : require_reader_session_policy policy ≡ ok tt
    pub functions : Resolves db.functions (map without_schema validated.functions)
    pub operators : Resolves db.operators validated.operators
    pub row : Option (List (Value F))
    pub explained : db.plan_row ≡ ok row
    pub summary : summarized F lib (extract_plan F row) ≡ ok plan
    pub within : admit_plan F (plan_limits F lib source.budget) plan ≡ ok tt

  IsExplained : PlanSummary F → Type 0
  IsExplained plan =
      (row : Option (List (Value F))) × (db.plan_row ≡ ok row)
      × (summarized F lib (extract_plan F row) ≡ ok plan)

  explain_plan-IsExplained :
      (s : Session) (plan : PlanSummary F) (s' : Session)
      → explain_plan F lib db source s ≡ (ok plan, s')
      → IsExplained plan
  unfolding explain_plan IsExplained
  explain_plan-IsExplained s plan s' h =
      let explained =
        continued-eq-ok (user_sql_failed source.source_id (ask explain db.plan_row s)) _ h in
      let row =
        user_sql_failed-eq-ok source.source_id (ask explain db.plan_row s) explained.first in
      (
        explained.value,
        given-eq-ok db.plan_row (asked explain s) row,
        given-eq-ok (summarized F lib (extract_plan F explained.value)) explained.session
            explained.rest,
      )

  abbrev pub HasSafeObjects : Type 0
  HasSafeObjects =
      Resolves db.functions (map without_schema validated.functions)
      × Resolves db.operators validated.operators

  pub validate_resolved_objects-HasSafeObjects :
      (s : Session) {u : Unit {0}} (s' : Session)
      → validate_resolved_objects F lib db validated s ≡ (ok u, s')
      → HasSafeObjects
  unfolding validate_resolved_objects
  validate_resolved_objects-HasSafeObjects s s' h =
      let names = map without_schema validated.functions in
      let functions =
        continued-eq-ok
          (require_safe function_query "QUERY_RESOLVED_FUNCTION_NOT_ALLOWED" db.functions names s) _
          h in
      (
        require_safe-Resolves function_query "QUERY_RESOLVED_FUNCTION_NOT_ALLOWED" db.functions
            names s functions.first,
        require_safe-Resolves operator_query "QUERY_RESOLVED_OPERATOR_NOT_ALLOWED" db.operators
            validated.operators functions.session functions.rest,
      )

  pub admit_query-IsAdmitted :
      (s : Session) (plan : PlanSummary F) (s' : Session)
      → admit_query F lib db source validated s ≡ (ok plan, s')
      → IsAdmitted plan
  unfolding admit_query IsExplained
  admit_query-IsAdmitted s plan s' h =
      let begun = continued-eq-ok (ask begin_read_only db.begun s) _ h in
      let zoned = continued-eq-ok (ask set_timezone db.timezone begun.session) _ begun.rest in
      let set = continued-eq-ok (ask set_session db.settings zoned.session) _ zoned.rest in
      let policy = continued-eq-ok (ask policy_query db.policy set.session) _ set.rest in
      let holds =
        continued-eq-ok
          (given (checked (require_reader_session_policy policy.value)) policy.session) _
          policy.rest in
      let safe =
        continued-eq-ok (validate_resolved_objects F lib db validated holds.session) _ holds.rest in
      let (functions, operators) =
        validate_resolved_objects-HasSafeObjects holds.session safe.session safe.first in
      let planned = continued-eq-ok (explain_plan F lib db source safe.session) _ safe.rest in
      let (row, explained, summary) =
        explain_plan-IsExplained safe.session planned.value planned.session planned.first in
      let within =
        continued-eq-ok
          (given (admit_plan F (plan_limits F lib source.budget) planned.value) planned.session) _
          planned.rest in
      let same = given-eq-ok (ok planned.value) within.session within.rest in
      let bound =
        given-eq-ok (admit_plan F (plan_limits F lib source.budget) planned.value) planned.session
          within.first in
      record {
        policy = policy.value;
        given_policy = given-eq-ok db.policy (asked policy_query set.session) policy.first;
        policy_holds = checked-eq-ok (require_reader_session_policy policy.value) (
            given-eq-ok (checked (require_reader_session_policy policy.value)) policy.session
              holds.first);
        functions = functions;
        operators = operators;
        row = row;
        explained = explained;
        summary = summary ∙ same;
        within =
            subst (λ p. admit_plan F (plan_limits F lib source.budget) p ≡ ok tt)
              (ok-injective same) bound;
      }

  -- If the SQL of the caller is run by the database, then in a session that meets the reader
  -- policy, after the database has confirmed every function and operator of the SQL as safe, and with a
  -- plan within the limits of the source's budget; this holds however the query ends.
  pub execute_connection-IsAdmitted :
      (revision : String) (queue_ms : ℕ) (query_id : String) (operations : OperationalState)
      → sends is_execution
          (execute_connection F lib db source revision validated queue_ms query_id
            (record { operations = operations; statements = [] })).1
        ≡ true
      → (plan : PlanSummary F) × IsAdmitted plan
  execute_connection-IsAdmitted revision queue_ms query_id operations sent =
      let start : Session = record { operations = operations; statements = [] } in
      let (plan, t, admitted) = run_transaction-sends F lib db source validated start refl (
        execute_connection-sends is_execution executed F lib db source validated revision queue_ms
          query_id start sent) in
      (plan, admit_query-IsAdmitted start plan t admitted)
