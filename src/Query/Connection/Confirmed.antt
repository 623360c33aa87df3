-- ===== src/Query/Connection/Confirmed.antt =====
-- When the user's SQL reaches the database, in its EXPLAIN or to be run (`_execute_connection`,
-- guarded_query/query.py).
use query_boy.Base.{ℕ, String, Bool, true, false, [], Option, map, ◌≡◌, inl, inr, refl, ◌∙◌}
use query_boy.Base.Dict.{Dict}
use query_boy.Base.Result.{ok}
use query_boy.Encoding.{Library}
use query_boy.Models.{SourceProfile}
use query_boy.Operations.{OperationalState}
use query_boy.Reader.{require_reader_session_policy}
use query_boy.Sql.Validate.{ValidatedSql}
use query_boy.Query.Plan.{Floats, PlanSummary}
use query_boy.Query.Session.{
  begin_read_only, set_timezone, set_session, policy_query, Session, asked, ask, given,
}
use query_boy.Query.Session.Steps.{
  given-eq-ok, is_sql, sends, ask-IsQuiet, continued-sends, continued-Passes,
}
use query_boy.Query.Connection.{
  Database, validate_resolved_objects, admit_query, run_transaction, execute_connection,
}
use query_boy.Query.Connection.Checks.{without_schema, checked}
use query_boy.Query.Connection.Quiet.{validate_resolved_objects-IsQuiet, execute_connection-sends}
use query_boy.Query.Connection.Guarded.{
  Resolves, checked-eq-ok, IsAdmitted, validate_resolved_objects-HasSafeObjects,
  admit_query-IsAdmitted,
}

module _ (F : Floats) (lib : Library) (db : Database F lib) (source : SourceProfile)
    (validated : ValidatedSql) where
  -- What the database has said of its session and of the names in the SQL.
  pub record IsConfirmed : Type 0 where
    pub policy : Option (Dict Bool)
    pub given_policy : db.policy ≡ ok policy
    pub policy_holds : require_reader_session_policy policy ≡ ok tt
    pub functions : Resolves db.functions (map without_schema validated.functions)
    pub operators : Resolves db.operators validated.operators

  IsAdmitted-IsConfirmed :
      {plan : PlanSummary F} → IsAdmitted F lib db source validated plan → IsConfirmed
  IsAdmitted-IsConfirmed admitted = record {
    policy = admitted.policy;
    given_policy = admitted.given_policy;
    policy_holds = admitted.policy_holds;
    functions = admitted.functions;
    operators = admitted.operators;
  }

  -- The first step that carries the SQL is behind the tests.
  admit_query-IsConfirmed :
      (s : Session)
      → sends is_sql s ≡ false
      → sends is_sql (admit_query F lib db source validated s).1 ≡ true
      → IsConfirmed
  unfolding admit_query
  admit_query-IsConfirmed s quiet sent =
      let begun =
        continued-Passes is_sql (ask begin_read_only db.begun s) _
          (ask-IsQuiet is_sql begin_read_only db.begun refl s ∙ quiet) sent in
      let zoned =
        continued-Passes is_sql (ask set_timezone db.timezone begun.session) _
          (ask-IsQuiet is_sql set_timezone db.timezone refl begun.session ∙ begun.quiet)
          begun.later in
      let set =
        continued-Passes is_sql (ask set_session db.settings zoned.session) _
          (ask-IsQuiet is_sql set_session db.settings refl zoned.session ∙ zoned.quiet)
          zoned.later in
      let policy =
        continued-Passes is_sql (ask policy_query db.policy set.session) _
          (ask-IsQuiet is_sql policy_query db.policy refl set.session ∙ set.quiet) set.later in
      let holds =
        continued-Passes is_sql
          (given (checked (require_reader_session_policy policy.value)) policy.session) _
          policy.quiet policy.later in
      let safe =
        continued-Passes is_sql (validate_resolved_objects F lib db validated holds.session) _
          (validate_resolved_objects-IsQuiet is_sql (λ x h. h) F lib db source validated
              holds.session
            ∙ holds.quiet)
          holds.later in
      let (functions, operators) =
        validate_resolved_objects-HasSafeObjects F lib db source validated holds.session
          safe.session safe.first in
      record {
        policy = policy.value;
        given_policy = given-eq-ok db.policy (asked policy_query set.session) policy.first;
        policy_holds = checked-eq-ok (require_reader_session_policy policy.value) (
            given-eq-ok (checked (require_reader_session_policy policy.value)) policy.session
              holds.first);
        functions = functions;
        operators = operators;
      }

  run_transaction-IsConfirmed :
      (s : Session)
      → sends is_sql s ≡ false
      → sends is_sql (run_transaction F lib db source validated s).1 ≡ true
      → IsConfirmed
  unfolding run_transaction
  run_transaction-IsConfirmed s quiet sent =
      elim (continued-sends is_sql (admit_query F lib db source validated s) _ sent) [
        | inl early ↦ admit_query-IsConfirmed s quiet early
        | inr (plan, t, admitted, later) ↦
            IsAdmitted-IsConfirmed
              (admit_query-IsAdmitted F lib db source validated s plan t admitted)
      ]

  -- If the SQL of the caller is sent to the database, if only in its EXPLAIN, then in a session that meets
  -- the reader policy, after the database has confirmed every function and operator of the SQL as safe.
  pub execute_connection-IsConfirmed :
      (revision : String) (queue_ms : ℕ) (query_id : String) (operations : OperationalState)
      → sends is_sql
          (execute_connection F lib db source revision validated queue_ms query_id
            (record { operations = operations; statements = [] })).1
        ≡ true
      → IsConfirmed
  execute_connection-IsConfirmed revision queue_ms query_id operations sent =
      let start : Session = record { operations = operations; statements = [] } in
      run_transaction-IsConfirmed start refl (
        execute_connection-sends is_sql (λ x h. h) F lib db source validated revision queue_ms
          query_id start sent)
