-- ===== src/Sql/Handlers.antt =====
-- `SqlValidationError`, the state of `_ValidationPolicy`, and its handlers for one node
-- (guarded_query/sql_validation.py).
use query_boy.Base.{String, ◌<>◌, Bool, false, not, ◌&&◌, List, [], ◌∷◌}
use query_boy.Base.{Option, none, some, ◌==◌, if◌then◌else◌}
use query_boy.Base.Text.{ends_with}
use query_boy.Base.Dict.{lookup}
use query_boy.Base.Sets.{contains, add, is_subset}
use query_boy.Base.Result.{Result, ok, err, ◌>>=◌}
use query_boy.Sql.Tree.{
  Value, nothing, text, items, mapping, nil, cons, Fields, Python, get, get_or, is_mapping,
  is_nothing, is_truthy, to_text, string_parts,
}
use query_boy.Sql.Allowlists.{
  default_allowed_unqualified_types, allowed_sql_value_functions, forbidden_node_codes,
  rejected_a_expr_constructs, allowed_node_tags,
}

pub record SqlValidationError : Type 0 where
  pub code : String
  pub message : String
  pub rejected_construct : Option String

-- The arguments of `_ValidationPolicy`.
pub record Allowed : Type 0 where
  pub relations : List String
  pub functions : List String
  pub operators : List String
  pub types : List String

-- What a policy has found so far.
pub record Found : Type 0 where
  pub relations : List String
  pub functions : List String
  pub operators : List String

abbrev pub Checked : Type 0
Checked = Result SqlValidationError Found

abbrev pub reject {ℓ} : {A : Type ℓ} → String → String → Result SqlValidationError A
reject code message = err (record { code = code; message = message; rejected_construct = none })

abbrev pub reject_operator : String → Checked
reject_operator construct = err (record {
  code = "SQL_OPERATOR_NOT_ALLOWED";
  message = "The SQL operator is not approved.";
  rejected_construct = some construct;
})

unfoldable pub validate_select_stmt : Fields → Found → Checked
validate_select_stmt node s =
    if not (is_nothing (get "intoClause" node))
    then reject "SQL_SELECT_INTO_NOT_ALLOWED" "SELECT INTO is not allowed."
    else if is_truthy (get "lockingClause" node)
    then reject "SQL_ROW_LOCK_NOT_ALLOWED" "Row locking clauses are not allowed."
    else ok s

unfoldable pub validate_with_clause : Fields → Found → Checked
validate_with_clause node s =
    if is_truthy (get "recursive" node)
    then reject "SQL_RECURSIVE_CTE_NOT_ALLOWED" "Recursive CTEs are not allowed."
    else ok s

unfoldable pub validate_collate_clause : Fields → Found → Checked
validate_collate_clause node s =
    reject "SQL_COLLATION_NOT_ALLOWED" "Explicit collations are not allowed."

-- `kind.get("name")` if `kind` is a mapping.
abbrev pub name_of : Value → Value → Value
name_of default (mapping fields) = get_or "name" default fields
name_of default _ = default

-- `name not in _ALLOWED_SQL_VALUE_FUNCTIONS`
abbrev pub admit_value_function : Value → Found → Checked
admit_value_function (text name) s =
    if contains allowed_sql_value_functions name
    then ok s
    else reject "SQL_VALUE_FUNCTION_NOT_ALLOWED" "The SQL value function is not approved."
admit_value_function _ s =
    reject "SQL_VALUE_FUNCTION_NOT_ALLOWED" "The SQL value function is not approved."

unfoldable pub validate_sql_value_function : Fields → Found → Checked
validate_sql_value_function node s = admit_value_function (name_of nothing (get "op" node)) s

-- Two bounds, both nodes.
abbrev pub are_bounds : Value → Bool
are_bounds (items (cons low (cons high nil))) = is_mapping low && is_mapping high
are_bounds _ = false

module _ (py : Python) (allowed : Allowed) where
  -- The function that `funcname` names, if it is built in.
  abbrev pub called_function : List String → Result SqlValidationError String
  called_function [] = reject "SQL_FUNCTION_NOT_ALLOWED" "The SQL function is not allowed."
  called_function (name ∷ []) = ok (py.casefold name)
  called_function (schema ∷ name ∷ []) =
      if schema == "pg_catalog"
      then ok (py.casefold name)
      else reject "SQL_FUNCTION_SCHEMA_NOT_ALLOWED" "Only approved built-in functions are allowed."
  called_function (a ∷ b ∷ c ∷ rest) =
      reject "SQL_FUNCTION_SCHEMA_NOT_ALLOWED" "Only approved built-in functions are allowed."

  abbrev pub admit_function : Result SqlValidationError String → Found → Checked
  admit_function (err e) s = err e
  admit_function (ok function) s =
      if contains allowed.functions function
      then ok (record s { functions = add ("pg_catalog." <> function) s.functions })
      else reject "SQL_FUNCTION_NOT_ALLOWED" "The SQL function is not approved."

  unfoldable pub validate_func_call : Fields → Found → Checked
  validate_func_call node s =
      admit_function (called_function (string_parts py (get "funcname" node))) s

  abbrev pub admit_operator : List String → Found → Checked
  admit_operator [] s = ok s
  admit_operator (name ∷ []) s =
      if contains allowed.operators name
      then ok (record s { operators = add name s.operators })
      else reject_operator "OPERATOR"
  admit_operator (a ∷ b ∷ rest) s = reject_operator "OPERATOR"

  unfoldable pub validate_between : Fields → Found → Checked
  validate_between node s =
      if is_mapping (get "lexpr" node)
        && are_bounds (get "rexpr" node)
        && is_subset (">=" ∷ "<=" ∷ []) allowed.operators
      then ok (record s { operators = add "<=" (add ">=" s.operators) })
      else reject_operator "BETWEEN"

  unfoldable pub validate_a_expr : Fields → Found → Checked
  unfolding validate_between lookup
  validate_a_expr node s =
      let kind_name = to_text py (name_of (text "") (get "kind" node)) in
      if kind_name == "AEXPR_BETWEEN"
      then validate_between node s
      else elim (lookup kind_name rejected_a_expr_constructs) [
        | some construct ↦ reject_operator construct
        | none ↦ admit_operator (string_parts py (get "name" node)) s
      ]

  abbrev pub reject_type : Checked
  reject_type = reject "SQL_TYPE_NOT_ALLOWED" "The cast type is not approved."

  abbrev pub reject_foreign_type : Checked
  reject_foreign_type =
      reject "SQL_TYPE_NOT_ALLOWED" "Only approved built-in cast types are allowed."

  abbrev pub admit_type : List String → Found → Checked
  admit_type [] s = ok s
  admit_type (name ∷ []) s =
      if contains default_allowed_unqualified_types (py.casefold name)
      then (if contains allowed.types (py.casefold name) then ok s else reject_type)
      else reject_foreign_type
  admit_type (schema ∷ name ∷ []) s =
      if schema == "pg_catalog"
      then (if contains allowed.types (py.casefold name) then ok s else reject_type)
      else reject_foreign_type
  admit_type (a ∷ b ∷ c ∷ rest) s = reject_foreign_type

  unfoldable pub validate_type_name : Fields → Found → Checked
  validate_type_name node s = admit_type (string_parts py (get "names" node)) s

  -- `getattr(self, f"_validate_{tag}", None)`, called if it is there.
  unfoldable pub run_handler : String → Fields → Found → Checked
  run_handler tag node s =
      if tag == "SelectStmt"
      then validate_select_stmt node s
      else if tag == "WithClause"
      then validate_with_clause node s
      else if tag == "FuncCall"
      then validate_func_call node s
      else if tag == "A_Expr"
      then validate_a_expr node s
      else if tag == "TypeName"
      then validate_type_name node s
      else if tag == "SQLValueFunction"
      then validate_sql_value_function node s
      else if tag == "CollateClause"
      then validate_collate_clause node s
      else ok s

  abbrev pub tag_of : Fields → String
  tag_of node = to_text py (get_or "@" (text "") node)

  -- One round of the loop in `validate`.
  unfoldable pub validate_node : Fields → Found → Checked
  unfolding lookup
  validate_node node s =
      let tag = tag_of node in
      if ends_with tag "Stmt" && not (tag == "SelectStmt")
      then reject "SQL_NESTED_STATEMENT_NOT_ALLOWED"
          "Only read-only SELECT statements are allowed inside CTEs."
      else elim (lookup tag forbidden_node_codes) [
        | some code ↦ reject code "The SQL construct is not allowed."
        | none ↦
            if not (contains allowed_node_tags tag)
            then reject "SQL_CONSTRUCT_NOT_ALLOWED"
                "The SQL contains a construct that has not been approved."
            else run_handler tag node s
      ]

  -- The loop in `validate` over `_walk_nodes(tree)`.
  unfoldable pub validate_nodes : List Fields → Found → Checked
  validate_nodes [] s = ok s
  validate_nodes (node ∷ nodes) s = validate_node node s >>= (λ s'. validate_nodes nodes s')
