-- ===== src/Query/Connection/Quiet.antt =====
-- The parts of `_execute_connection` that do not send the user's SQL (guarded_query/query.py).
use query_boy.Base.{
  Bool, ℕ, String, true, false, List, [], ◌∷◌, map, Bool-cases, ◌≡◌, inl, inr, refl, sym, ◌∙◌, ap,
}
use query_boy.Base.Result.{Result, ok, err}
use query_boy.Encoding.{Library}
use query_boy.Models.{SourceProfile}
use query_boy.Sql.Validate.{ValidatedSql}
use query_boy.Reader.{require_reader_session_policy}
use query_boy.Query.Failures.{Failure}
use query_boy.Query.Fetch.{Fetched}
use query_boy.Query.Plan.{Floats, PlanSummary, admit_plan}
use query_boy.Query.Session.{
  Statement, function_query, operator_query, explain, begin_read_only, set_timezone, set_session,
  policy_query, execute_sql, fetch_result, close_cursor, commit, close, cancel, rollback, Session,
  asked, ask, given, is_cancelled,
}
use query_boy.Query.Session.Steps.{
  is_sql, is_execution, sends, continued-sends, IsQuiet, ask-IsQuiet, continued-quiet,
}
use query_boy.Query.Connection.{
  Database, plan_limits, validate_resolved_objects, explain_plan, admit_query, execute_connection,
  run_transaction, rolled_back, after_cancel,
}
use query_boy.Query.Connection.Checks.{
  ResolvedObject, without_schema, require_safe, checked, user_sql_failed,
}

module _ (P : Statement → Bool) (others : (x : Statement) → is_sql x ≡ false → P x ≡ false) where
  require_safe-IsQuiet :
      (statement : Statement) (reason : String) (answer : Result Failure (List ResolvedObject))
      (names : List String)
      → IsQuiet P (ask statement answer)
      → IsQuiet P (require_safe statement reason answer names)
  unfolding require_safe
  require_safe-IsQuiet statement reason answer [] quiet s = refl
  require_safe-IsQuiet statement reason answer (name ∷ names) quiet s =
      continued-quiet P (ask statement answer s) _ (quiet s) (λ rows t e. e)

  pub user_sql_failed-quiet {ℓ} :
      {A : Type ℓ} (source_id : String) (run : Result Failure A × Session)
      → sends P (user_sql_failed source_id run).1 ≡ sends P run.1
  user_sql_failed-quiet source_id (ok value, s) = refl
  user_sql_failed-quiet source_id (err raised, s) = refl

  module _ (F : Floats) (lib : Library) (db : Database F lib) (source : SourceProfile)
      (validated : ValidatedSql) where
    pub validate_resolved_objects-IsQuiet : IsQuiet P (validate_resolved_objects F lib db validated)
    unfolding validate_resolved_objects
    validate_resolved_objects-IsQuiet s =
        continued-quiet P
          (require_safe function_query "QUERY_RESOLVED_FUNCTION_NOT_ALLOWED" db.functions
            (map without_schema validated.functions) s)
          _
          (require_safe-IsQuiet function_query _ db.functions _
            (ask-IsQuiet P function_query db.functions (others function_query refl)) s)
          (λ done t e.
            require_safe-IsQuiet operator_query _ db.operators _
              (ask-IsQuiet P operator_query db.operators (others operator_query refl)) t
            ∙ e)

    after_cancel-quiet {ℓ} :
        (A : Type ℓ) (s : Session) (answer : Result Failure (Unit {0}))
        → sends P (after_cancel F lib {A = A} db s answer).1 ≡ sends P s
    after_cancel-quiet A s (err raised) = refl
    after_cancel-quiet A s (ok done) =
        ask-IsQuiet P rollback db.rolled_back (others rollback refl) s

    -- Rolling back sends no SQL of the user.
    rolled_back-quiet {ℓ} :
        {A : Type ℓ} (run : Result Failure A × Session)
        → sends P (rolled_back F lib db run).1 ≡ sends P run.1
    rolled_back-quiet (ok value, s) = refl
    rolled_back-quiet (err raised, s) = elim (Bool-cases (is_cancelled raised)) [
      | inl stopped ↦ rw stopped (
          after_cancel-quiet _ (asked cancel s) db.cancel_sent
          ∙ ask-IsQuiet P cancel db.cancel_sent (others cancel refl) s)
      | inr failed ↦ rw failed (ask-IsQuiet P rollback db.rolled_back (others rollback refl) s)
    ]

    pub execute_connection-sends :
        (revision : String) (queue_ms : ℕ) (query_id : String) (s : Session)
        → sends P (execute_connection F lib db source revision validated queue_ms query_id s).1
          ≡ true
        → sends P (run_transaction F lib db source validated s).1 ≡ true
    unfolding execute_connection
    execute_connection-sends revision queue_ms query_id s sent =
        elim (continued-sends P (rolled_back F lib db (run_transaction F lib db source validated s))
          _ sent) [
            | inl early ↦
                sym (rolled_back-quiet (run_transaction F lib db source validated s)) ∙ early
            | inr (result, t, done, later) ↦
                sym (rolled_back-quiet (run_transaction F lib db source validated s))
                ∙ ap
                    (λ (p : Result Failure (PlanSummary F × (List String × Fetched)) × Session).
                      sends P p.1)
                    done
                ∙ later
          ]

-- What is not asked with the SQL does not run it.
pub executed : (x : Statement) → is_sql x ≡ false → is_execution x ≡ false
executed execute_sql h = absurd (cc h)
executed begin_read_only h = refl
executed set_timezone h = refl
executed set_session h = refl
executed policy_query h = refl
executed function_query h = refl
executed operator_query h = refl
executed explain h = refl
executed fetch_result h = refl
executed close_cursor h = refl
executed commit h = refl
executed cancel h = refl
executed rollback h = refl
executed close h = refl

module _ (F : Floats) (lib : Library) (db : Database F lib) (source : SourceProfile)
    (validated : ValidatedSql) where
  explain_plan-IsQuiet : IsQuiet is_execution (explain_plan F lib db source)
  unfolding explain_plan
  explain_plan-IsQuiet s =
      continued-quiet is_execution (user_sql_failed source.source_id (ask explain db.plan_row s)) _
        (user_sql_failed-quiet is_execution executed source.source_id (ask explain db.plan_row s)
          ∙ ask-IsQuiet is_execution explain db.plan_row refl s)
        (λ row t e. e)

  pub admit_query-IsQuiet : IsQuiet is_execution (admit_query F lib db source validated)
  unfolding admit_query
  admit_query-IsQuiet s =
      continued-quiet is_execution (ask begin_read_only db.begun s) _
        (ask-IsQuiet is_execution begin_read_only db.begun refl s)
        (λ begun t e.
          continued-quiet is_execution (ask set_timezone db.timezone t) _
            (ask-IsQuiet is_execution set_timezone db.timezone refl t ∙ e)
            (λ zoned t e.
              continued-quiet is_execution (ask set_session db.settings t) _
                (ask-IsQuiet is_execution set_session db.settings refl t ∙ e)
                (λ set t e.
                  continued-quiet is_execution (ask policy_query db.policy t) _
                    (ask-IsQuiet is_execution policy_query db.policy refl t ∙ e)
                    (λ policy t e.
                      continued-quiet is_execution
                        (given (checked (require_reader_session_policy policy)) t) _ e
                        (λ done t e.
                          continued-quiet is_execution
                            (validate_resolved_objects F lib db validated t) _
                            (validate_resolved_objects-IsQuiet is_execution executed F lib db source
                                validated t
                              ∙ e)
                            (λ safe t e.
                              continued-quiet is_execution (explain_plan F lib db source t) _
                                (explain_plan-IsQuiet t ∙ e)
                                (λ plan t e.
                                  continued-quiet is_execution
                                    (given (admit_plan F (plan_limits F lib source.budget) plan) t)
                                    _ e (λ done t e. e))))))))

  -- The SQL is sent by the cursor, once the query is admitted.
  pub run_transaction-sends :
      (s : Session)
      → sends is_execution s ≡ false
      → sends is_execution (run_transaction F lib db source validated s).1 ≡ true
      → (plan : PlanSummary F) × (t : Session) × (admit_query F lib db source validated s
          ≡ (ok plan, t))
  unfolding run_transaction
  run_transaction-sends s quiet sent =
      elim (continued-sends is_execution (admit_query F lib db source validated s) _ sent) [
        | inl early ↦ absurd (cc (sym early ∙ admit_query-IsQuiet s ∙ quiet))
        | inr (plan, t, admitted, later) ↦ (plan, t, admitted)
      ]
