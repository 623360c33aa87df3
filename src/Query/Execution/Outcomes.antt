-- ===== src/Query/Execution/Outcomes.antt =====
-- The errors that leave the executor (guarded_query/query.py).
use mathlib.Core.Path.{subst}
use mathlib.Core.Option.{some-injective}
use query_boy.Base.{
  All, if-true, if-false, String, Bool, true, false, [], ◌∷◌, some, ◌≡◌, inl, inr, refl, sym, ◌∙◌,
  ◌==◌, Bool-cases,
}
use query_boy.Base.Dict.{Dict, lookup}
use query_boy.Base.Result.{Result, ok, err}
use query_boy.Errors.{
  correction, AppError, ErrorClass, source_not_found, metadata_unavailable,
  metadata_revision_mismatch, query_rejected, query_invalid, query_overloaded, query_timeout,
  query_unavailable, operator_required, query_invalid_messages, query_invalid_with,
  query_invalid_error, query_overloaded_error, query_timeout_error, query_unavailable_error,
}
use query_boy.Operations.{OperationalState}
use query_boy.Query.Failures.{
  Failure, app, pool_timeout, timeout, query_canceled, operational, interface, database,
  reader_policy, encoding, unexpected, cancelled,
}
use query_boy.Query.Execution.{
  query_invalid_reason_by_sqlstate, raise_reason, invalid_failure, raise_query_invalid_for_user_sql,
  Raised, app_error, interrupted, pass_on, settle_failure, settle, Queue, acquired, queue_timeout,
  queue_cancelled, execute_admitted, leave, execute,
}

-- The errors that a caller of the executor is shown.
pub data IsQueryError : ErrorClass → Type 0 where
  rejected : IsQueryError query_rejected
  invalid : IsQueryError query_invalid
  overloaded : IsQueryError query_overloaded
  timed_out : IsQueryError query_timeout
  not_available : IsQueryError query_unavailable

-- What may leave the executor, if it stops accepting or not before the end.
abbrev pub MayLeave : Bool → Raised → Type 0
MayLeave accepting (app_error e) = IsQueryError e.kind
MayLeave accepting interrupted = accepting ≡ true

abbrev IsShown : Raised → Type 0
IsShown (app_error e) = IsQueryError e.kind
IsShown interrupted = Unit

pass_on-IsShown :
    (kind : ErrorClass) (e : AppError) (x : String) (s : OperationalState)
    → e.kind ≡ kind
    → IsShown (pass_on kind e x s).0
unfolding query_unavailable_error
pass_on-IsShown query_rejected e x s h = rw h rejected
pass_on-IsShown query_invalid e x s h = rw h invalid
pass_on-IsShown query_overloaded e x s h = rw h overloaded
pass_on-IsShown query_timeout e x s h = rw h timed_out
pass_on-IsShown source_not_found e x s h = not_available
pass_on-IsShown metadata_unavailable e x s h = not_available
pass_on-IsShown metadata_revision_mismatch e x s h = not_available
pass_on-IsShown query_unavailable e x s h = not_available
pass_on-IsShown operator_required e x s h = not_available

settle_failure-IsShown :
    (shutdown : Bool) (f : Failure) (x : String) (s : OperationalState)
    → IsShown (settle_failure shutdown f x s).0
unfolding settle_failure query_unavailable_error query_timeout_error
settle_failure-IsShown shutdown (app e) x s = pass_on-IsShown e.kind e x s refl
settle_failure-IsShown shutdown pool_timeout x s = not_available
settle_failure-IsShown shutdown timeout x s = timed_out
settle_failure-IsShown shutdown query_canceled x s = timed_out
settle_failure-IsShown shutdown (operational o) x s = not_available
settle_failure-IsShown shutdown interface x s = not_available
settle_failure-IsShown shutdown (database o) x s = not_available
settle_failure-IsShown shutdown reader_policy x s = not_available
settle_failure-IsShown shutdown (encoding e) x s = not_available
settle_failure-IsShown shutdown unexpected x s = not_available
settle_failure-IsShown shutdown cancelled x s = tt

module _ (Response : Type 0) where
  -- The error of a result may leave.
  abbrev pub Leaves : Bool → Result Raised Response → Type 0
  Leaves accepting (ok response) = Unit
  Leaves accepting (err raised) = MayLeave accepting raised

  leave-raised :
      (accepting : Bool) (x : String) (r : Raised) (s : OperationalState)
      → IsShown r
      → Leaves accepting (leave {Response = Response} accepting x (err r, s)).0
  unfolding query_unavailable_error
  leave-raised accepting x (app_error e) s h = h
  leave-raised true x interrupted s h = refl
  leave-raised false x interrupted s h = not_available

  leave-settled :
      (accepting shutdown : Bool) (x : String) (r : Result Failure Response × OperationalState)
      → Leaves accepting (leave accepting x (settle shutdown x r)).0
  leave-settled accepting shutdown x (ok response, s) = tt
  leave-settled accepting shutdown x (err f, s) =
      leave-raised accepting x _ _ (settle_failure-IsShown shutdown f x s)

  leave-admitted :
      (accepting : Bool) (queue : Queue) (shutdown : Bool) (x : String)
      (work : OperationalState → Result Failure Response × OperationalState) (s : OperationalState)
      → Leaves accepting (leave accepting x (execute_admitted queue shutdown x work s)).0
  unfolding execute_admitted query_overloaded_error
  leave-admitted accepting (acquired n) shutdown x work s = leave-settled accepting shutdown x _
  leave-admitted accepting queue_timeout shutdown x work s = overloaded
  leave-admitted accepting queue_cancelled shutdown x work s =
      leave-raised accepting x interrupted s tt

  -- Whatever happens in the queue and on the connection, an error that leaves `execute` is one of the
  -- five query errors, or the cancellation of the request while the executor still accepts requests.
  pub execute-Leaves :
      (accepting still_accepting : Bool) (queue : Queue) (shutdown : Bool) (x : String)
      (work : OperationalState → Result Failure Response × OperationalState) (s : OperationalState)
      → Leaves still_accepting (execute accepting still_accepting queue shutdown x work s).0
  unfolding execute query_unavailable_error
  execute-Leaves true still_accepting queue shutdown x work s =
      leave-admitted still_accepting queue shutdown x work s
  execute-Leaves false still_accepting queue shutdown x work s = not_available

abbrev HasMessage : String → Type 0
HasMessage reason = (message : String) × (lookup reason query_invalid_messages ≡ some message)

-- A reason is shown with its code and its message.
pub record IsShownReason (reason : String) (failure : Failure) : Type 0 where
  pub error : AppError
  pub raised : failure ≡ app error
  pub invalid_query : error.kind ≡ query_invalid
  pub message : lookup reason query_invalid_messages ≡ some error.message
  pub details : error.details ≡ correction reason "CORRECT_SQL" true

lookup-All :
    (P : String → Type 0) (d : Dict String) (k v : String)
    → All (λ (entry : String × String). P entry.1) d
    → lookup k d ≡ some v
    → P v
unfolding lookup
lookup-All P [] k v a h = absurd (cc h)
lookup-All P ((j, w) ∷ d) k v (p, a) h = elim (Bool-cases (j == k)) [
  | inl e ↦ subst P (some-injective _ _ (sym (if-true _ _ _ e) ∙ h)) p
  | inr f ↦ lookup-All P d k v a (sym (if-false _ _ _ f) ∙ h)
]

public_reasons :
    All (λ (entry : String × String). HasMessage entry.1) query_invalid_reason_by_sqlstate
unfolding lookup
public_reasons = (
  (_, refl),
  (
    (_, refl),
    (
      (_, refl),
      (
        (_, refl),
        (
          (_, refl),
          (
            (_, refl),
            (
              (_, refl),
              ((_, refl), ((_, refl), ((_, refl), ((_, refl), ((_, refl), ((_, refl), tt)))))),
            ),
          ),
        ),
      ),
    ),
  ),
)

shown_with :
    (reason message : String)
    → lookup reason query_invalid_messages ≡ some message
    → IsShownReason reason (invalid_failure (query_invalid_error reason))
unfolding query_invalid_error
shown_with reason message h =
    subst (λ o. IsShownReason reason (invalid_failure (query_invalid_with reason o))) (sym h)
      (record { error = _; raised = refl; invalid_query = refl; message = h; details = refl })

-- Every SQLSTATE of the table is raised as a `QueryInvalidError` that has its reason and that it can
-- be corrected and retried in the details, and the public message of this reason; the constructor of the error never refuses the reason.
pub raise_query_invalid_for_user_sql-IsShownReason :
    (sqlstate reason x : String) (s : OperationalState)
    → lookup sqlstate query_invalid_reason_by_sqlstate ≡ some reason
    → IsShownReason reason (raise_query_invalid_for_user_sql (database (some sqlstate)) x s).0
unfolding raise_query_invalid_for_user_sql
raise_query_invalid_for_user_sql-IsShownReason sqlstate reason x s h =
    let (message, m) =
      lookup-All HasMessage query_invalid_reason_by_sqlstate sqlstate reason public_reasons h in
    subst (λ o. IsShownReason reason (raise_reason o (database (some sqlstate)) x s).0) (sym h)
      (shown_with reason message m)
