-- ===== src/Query/Session.antt =====
-- A connection while a query uses it: what it was asked for, and what was counted. Code that talks to it
-- is a function of this state that gives a value or raises (`_execute_connection`, guarded_query/query.py).
pub mod Steps
use query_boy.Base.{Bool, true, false, if◌then◌else◌, List, [], ◌∷◌, ◌++◌}
use query_boy.Base.Result.{Result, ok, err}
use query_boy.Operations.{OperationalState}
use query_boy.Query.Failures.{Failure, cancelled}

pub data Statement : Type 0 where
  begin_read_only set_timezone set_session policy_query : Statement
  function_query operator_query explain : Statement
  execute_sql fetch_result close_cursor commit cancel rollback close : Statement

pub record Session : Type 0 where
  pub operations : OperationalState
  pub statements : List Statement

abbrev pub Action {ℓ} : Type ℓ → Type ℓ
Action A = Session → Result Failure A × Session

abbrev pub asked : Statement → Session → Session
asked statement s = record s { statements = s.statements ++ (statement ∷ []) }

abbrev pub ask {ℓ} : {A : Type ℓ} → Statement → Result Failure A → Action A
ask statement answer s = (answer, asked statement s)

-- What is computed without the connection.
abbrev pub given {ℓ} : {A : Type ℓ} → Result Failure A → Action A
given answer s = (answer, s)

abbrev pub update : (OperationalState → OperationalState) → Action (Unit {0})
update f s = (ok tt, record s { operations = f s.operations })

abbrev pub continued {ℓ κ} :
    {A : Type ℓ} {B : Type κ}
    → Result Failure A × Session
    → (A → Action B)
    → Result Failure B × Session
continued (err raised, s) next = (err raised, s)
continued (ok value, s) next = next value s

infixr 5 ◌>>=◌
abbrev pub ◌>>=◌ {ℓ κ} : {A : Type ℓ} {B : Type κ} → Action A → (A → Action B) → Action B
(first >>= next) s = continued (first s) next

infixr 5 ◌>>◌
abbrev pub ◌>>◌ {κ} : {B : Type κ} → Action (Unit {0}) → Action B → Action B
first >> next = first >>= (λ done. next)

abbrev pub is_cancelled : Failure → Bool
is_cancelled cancelled = true
is_cancelled _ = false

-- An error while something is cleaned up is dropped, unless it is a cancellation.
abbrev pub cleaned_up {ℓ} :
    {A : Type ℓ} → Result Failure (Unit {0}) → Result Failure A → Result Failure A
cleaned_up (ok done) before = before
cleaned_up (err raised) before = if is_cancelled raised then err cancelled else before
