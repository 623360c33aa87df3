-- ===== src/Sql/Validate.antt =====
-- `_ValidationPolicy.validate` and `validate_sql` (guarded_query/sql_validation.py). The parser of
-- pglast is a parameter.
use query_boy.Base.{ℕ, String, ◌<>◌, List, [], ◌∷◌, map, ltb}
use query_boy.Base.{Option, none, some, ◌==◌, if◌then◌else◌}
use query_boy.Base.Text.{strip, byte_length}
use query_boy.Base.Sets.{sorted}
use query_boy.Base.Result.{Result, ok, ◌>>=◌}
use query_boy.Sql.Tree.{mapping, Fields, Python, walk_nodes}
use query_boy.Sql.Allowlists.{
  default_allowed_functions, default_allowed_operators, default_allowed_types,
}
use query_boy.Sql.Handlers.{SqlValidationError, Allowed, Found, Checked, reject, validate_nodes}
use query_boy.Sql.Scope.{validate_select_scope}

pub record ValidatedSql : Type 0 where
  pub fingerprint : String
  pub relations : List String
  pub functions : List String
  pub operators : List String

-- A parsed statement: a SELECT with its tree, or another one.
pub data Statement : Type 0 where
  select : Fields → Statement
  other : Statement

-- pglast: `none` is a `ParseError`.
pub record Parser : Type 0 where
  pub parse_sql : String → Option (List Statement)
  pub fingerprint : String → Option String

-- The keyword arguments of `validate_sql`.
pub record SqlPolicy : Type 0 where
  pub allowed_relations : List String
  pub allowed_functions : List String
  pub allowed_operators : List String
  pub allowed_types : List String
  pub max_sql_bytes : ℕ

-- The defaults of the other arguments.
abbrev pub default_policy : List String → ℕ → SqlPolicy
default_policy relations max_sql_bytes = record {
  allowed_relations = relations;
  allowed_functions = default_allowed_functions;
  allowed_operators = default_allowed_operators;
  allowed_types = default_allowed_types;
  max_sql_bytes = max_sql_bytes;
}

abbrev pub nothing_found : Found
nothing_found = record { relations = []; functions = []; operators = [] }

module _ (py : Python) where
  -- `_ValidationPolicy.validate`
  unfoldable pub validate : Allowed → Fields → Checked
  validate allowed tree = do
    s ← validate_nodes py allowed (walk_nodes (mapping tree)) nothing_found
    relations ← validate_select_scope py allowed tree [] s.relations
    ok (record s { relations = relations })

  abbrev pub allowed_of : SqlPolicy → Allowed
  allowed_of p = record {
    relations = p.allowed_relations;
    functions = map py.casefold p.allowed_functions;
    operators = p.allowed_operators;
    types = map py.casefold p.allowed_types;
  }

  abbrev pub parse_error : {A : Type 0} → Result SqlValidationError A
  parse_error = reject "SQL_PARSE_ERROR" "SQL could not be parsed."

  module _ (pg : Parser) where
    abbrev pub validated : String → Found → Result SqlValidationError ValidatedSql
    validated sql s = elim (pg.fingerprint sql) [
      | none ↦ parse_error
      | some print ↦ ok (record {
        fingerprint = "pg_query:" <> print;
        relations = sorted s.relations;
        functions = sorted s.functions;
        operators = sorted s.operators;
      })
    ]

    abbrev pub validate_statement :
        SqlPolicy → String → Statement → Result SqlValidationError ValidatedSql
    validate_statement p sql other =
        reject "SQL_STATEMENT_NOT_ALLOWED" "Only a read-only SELECT statement is allowed."
    validate_statement p sql (select tree) = validate (allowed_of p) tree >>= validated sql

    abbrev pub validate_statements :
        SqlPolicy → String → Option (List Statement) → Result SqlValidationError ValidatedSql
    validate_statements p sql none = parse_error
    validate_statements p sql (some (statement ∷ [])) = validate_statement p sql statement
    validate_statements p sql (some _) =
        reject "SQL_MULTIPLE_STATEMENTS" "Exactly one SQL statement is required."

    unfoldable pub validate_sql : SqlPolicy → String → Result SqlValidationError ValidatedSql
    validate_sql p sql =
        if strip sql == ""
        then reject "SQL_EMPTY" "SQL must contain one read-only SELECT statement."
        else if ltb p.max_sql_bytes (byte_length sql)
        then reject "SQL_TOO_LARGE" "SQL exceeds the configured byte limit."
        else validate_statements p sql (pg.parse_sql sql)
