-- ===== src/Query/Session/Steps.antt =====
-- Actions on a connection that give a value, and actions that do not send the user's SQL.
use query_boy.Base.{
  if-false, if-true, Bool, true, false, ◌||◌, List, [], ◌∷◌, ◌++◌, any, Bool-cases, ◌≡◌, ◌⊎◌, inl,
  inr, refl, sym, ◌∙◌, ap, arith,
}
use query_boy.Base.Result.{Result, ok, err}
use query_boy.Query.Failures.{Failure, cancelled}
use query_boy.Query.Session.{
  Statement, explain, execute_sql, Session, Action, ask, given, continued, cleaned_up, is_cancelled,
}

-- The step before, where two steps give a value.
pub record Gives {ℓ κ} {A : Type ℓ} {B : Type κ} (run : Result Failure A × Session)
    (next : A → Action B) (last : Result Failure B × Session) : Type (ℓ ⊔ κ) where
  pub value : A
  pub session : Session
  pub first : run ≡ (ok value, session)
  pub rest : next value session ≡ last

pub continued-eq-ok {ℓ κ} :
    {A : Type ℓ} {B : Type κ} (run : Result Failure A × Session) (next : A → Action B) {y : B}
    {s : Session}
    → continued run next ≡ (ok y, s)
    → Gives run next (ok y, s)
continued-eq-ok (err raised, s) next h = absurd (cc h)
continued-eq-ok (ok value, s) next h = record { value = value; session = s; first = refl; rest = h }

pub given-eq-ok {ℓ} :
    {A : Type ℓ} (answer : Result Failure A) (s : Session) {y : A} {s' : Session}
    → given answer s ≡ (ok y, s')
    → answer ≡ ok y
given-eq-ok answer s h = ap (λ (p : Result Failure _ × Session). p.0) h

pub cleaned_up-eq-ok {ℓ} :
    {A : Type ℓ} (answer : Result Failure (Unit {0})) (before : Result Failure A) {y : A}
    → cleaned_up answer before ≡ ok y
    → before ≡ ok y
cleaned_up-eq-ok (ok done) before h = h
cleaned_up-eq-ok (err raised) before h = elim (Bool-cases (is_cancelled raised)) [
  | inl stopped ↦ absurd (cc (sym (if-true _ (err cancelled) before stopped) ∙ h))
  | inr failed ↦ sym (if-false _ (err cancelled) before failed) ∙ h
]

-- The statements that carry the user's SQL: the plan is asked for by EXPLAIN, which does not run it.
abbrev pub is_sql : Statement → Bool
is_sql explain = true
is_sql execute_sql = true
is_sql _ = false

-- The statement that runs the user's SQL.
abbrev pub is_execution : Statement → Bool
is_execution execute_sql = true
is_execution _ = false

module _ (P : Statement → Bool) where
  -- A statement that passes the test is among what the connection was asked for.
  abbrev pub sends : Session → Bool
  sends s = any P s.statements

  any-append : (xs ys : List Statement) → any P (xs ++ ys) ≡ (any P xs || any P ys)
  any-append [] ys = refl
  any-append (x ∷ xs) ys = ground (arith, any-append xs ys)

  -- An action that never asks for such a statement.
  abbrev pub IsQuiet {ℓ} : {A : Type ℓ} → Action A → Type 0
  IsQuiet action = (s : Session) → sends (action s).1 ≡ sends s

  pub ask-IsQuiet {ℓ} :
      {A : Type ℓ} (statement : Statement) (answer : Result Failure A)
      → P statement ≡ false
      → IsQuiet (ask statement answer)
  ask-IsQuiet statement answer quiet s = ground (arith, any-append s.statements (statement ∷ []))

  -- What follows a step with the given session.
  pub continued-quiet {ℓ κ} :
      {A : Type ℓ} {B : Type κ} (run : Result Failure A × Session) (next : A → Action B) {b : Bool}
      → sends run.1 ≡ b
      → ((x : A) (s : Session) → sends s ≡ b → sends (next x s).1 ≡ b)
      → sends (continued run next).1 ≡ b
  continued-quiet (err raised, s) next quiet later = quiet
  continued-quiet (ok value, s) next quiet later = later value s quiet

  -- If such a statement is sent, then in the first step or behind its value.
  pub continued-sends {ℓ κ} :
      {A : Type ℓ} {B : Type κ} (run : Result Failure A × Session) (next : A → Action B)
      → sends (continued run next).1 ≡ true
      → (sends run.1 ≡ true)
        ⊎ ((x : A) × (s : Session) × (run ≡ (ok x, s)) × (sends (next x s).1 ≡ true))
  continued-sends (err raised, s) next h = inl h
  continued-sends (ok value, s) next h = inr (value, s, refl, h)

  -- The step before, where a step that is quiet lies before one that is not.
  pub record Passes {ℓ κ} {A : Type ℓ} {B : Type κ} (run : Result Failure A × Session)
      (next : A → Action B) : Type (ℓ ⊔ κ) where
    pub value : A
    pub session : Session
    pub first : run ≡ (ok value, session)
    pub quiet : sends session ≡ false
    pub later : sends (next value session).1 ≡ true

  pub continued-Passes {ℓ κ} :
      {A : Type ℓ} {B : Type κ} (run : Result Failure A × Session) (next : A → Action B)
      → sends run.1 ≡ false
      → sends (continued run next).1 ≡ true
      → Passes run next
  continued-Passes (err raised, s) next quiet sent = absurd (cc (quiet, sent))
  continued-Passes (ok value, s) next quiet sent = record {
    value = value;
    session = s;
    first = refl;
    quiet = quiet;
    later = sent;
  }
