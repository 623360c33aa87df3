-- ===== src/Sql/Tests.antt =====
-- Statements run through the policy of guarded_query/sql_validation.py, and its theorems at them.
use query_boy.Base.{
  String, true, List, [], ◌∷◌, ◌≡◌, refl, none, some, All, arith, ◌↔◌, if◌then◌else◌, ◌==◌,
}
use query_boy.Base.Sets.{contains, add}
use query_boy.Base.Result.{ok}
use query_boy.Sql.Tree.{has_key, get_or, string_parts}
use query_boy.Sql.Tree.{
  Value, text, items, mapping, Items, nil, cons, Fields, end, field, Python, walk_nodes,
}
use query_boy.Sql.Handlers.{
  Found, Checked, reject, validate_nodes, validate_node, run_handler, validate_select_stmt,
  validate_with_clause, validate_a_expr, validate_func_call,
}
use query_boy.Sql.Scope.{validate_select_scope, validate_range_var}
use query_boy.Base.Text.{ends_with, strip}
use query_boy.Sql.Validate.{
  Parser, select, SqlPolicy, default_policy, ValidatedSql, allowed_of, validate, validate_sql,
}
use query_boy.Sql.Nodes.{
  CallsAllowed, OperatorsAllowed, IsReadOnly, validate-CallsAllowed, validate-OperatorsAllowed,
  validate-IsReadOnly,
}
use query_boy.Sql.Published.{validate-Published}
use query_boy.Sql.Published.Shape.{Shaped, Published}
use query_boy.Sql.Accepted.{IsAccepted, validate_sql_iff}

abbrev py : Python
py = record { casefold = λ s. s; repr = λ v. "?" }

abbrev node : String → Fields → Value
node tag fields = mapping (field "@" (text tag) fields)

abbrev name_parts : List String → Items
name_parts [] = nil
name_parts (s ∷ rest) = cons (node "String" (field "sval" (text s) end)) (name_parts rest)

abbrev table : String → String → Value
table schema relation =
    node "RangeVar" (field "schemaname" (text schema) (field "relname" (text relation) end))

abbrev cte_table : Value
cte_table = node "RangeVar" (field "relname" (text "recent") end)

abbrev compare_ids : Value
compare_ids = node "A_Expr" (
    field "kind" (mapping (field "name" (text "AEXPR_OP") end))
      (field "name" (items (name_parts ("<" ∷ []))) end))

abbrev count_all : Value
count_all =
    node "ResTarget"
      (field "val" (node "FuncCall" (field "funcname" (items (name_parts ("count" ∷ []))) end)) end)

abbrev inner : Value
inner = node "SelectStmt" (
    field "fromClause" (items (cons (table "sales" "orders") nil))
      (field "whereClause" compare_ids end))

-- WITH recent AS (SELECT … FROM sales.orders WHERE … < …) SELECT count(…) FROM recent
abbrev recent_count : Fields
recent_count = field "@" (text "SelectStmt") (
    field "withClause"
      (node "WithClause" (
        field "ctes"
          (items (
            cons
              (node "CommonTableExpr"
                (field "ctename" (text "recent") (field "ctequery" inner end)))
              nil))
          end))
      (field "targetList" (items (cons count_all nil))
        (field "fromClause" (items (cons cte_table nil)) end)))

abbrev policy : SqlPolicy
policy = default_policy ("sales.orders" ∷ []) 1024

abbrev pg : Parser
pg = record {
  parse_sql = λ sql. if sql == "(" then none else some (select recent_count ∷ []);
  fingerprint = λ sql. some "50fde20626009aba";
}

abbrev recent_found : Found
recent_found = record {
  relations = "sales.orders" ∷ [];
  functions = "pg_catalog.count" ∷ [];
  operators = "<" ∷ [];
}

run : Fields → Checked
unfolding validate validate_nodes walk_nodes has_key validate_node ends_with get_or contains
    run_handler validate_select_stmt validate_with_clause validate_a_expr string_parts
    validate_func_call validate_select_scope validate_range_var add
run = validate py (allowed_of py policy)

run_recent : validate py (allowed_of py policy) recent_count ≡ ok recent_found
unfolding run
run_recent = refl

recent-Shaped : Shaped (mapping recent_count)
unfolding Shaped run
recent-Shaped = ground arith

validate-CallsAllowed_example :
    All
      (λ node. CallsAllowed py (allowed_of py policy) node recent_found)
      (walk_nodes (mapping recent_count))
validate-CallsAllowed_example =
    validate-CallsAllowed py (allowed_of py policy) recent_count recent_found run_recent

validate-OperatorsAllowed_example :
    All
      (λ node. OperatorsAllowed py (allowed_of py policy) node recent_found)
      (walk_nodes (mapping recent_count))
validate-OperatorsAllowed_example =
    validate-OperatorsAllowed py (allowed_of py policy) recent_count recent_found run_recent

validate-IsReadOnly_example :
    All (IsReadOnly py (allowed_of py policy)) (walk_nodes (mapping recent_count))
validate-IsReadOnly_example =
    validate-IsReadOnly py (allowed_of py policy) recent_count recent_found run_recent

validate-Published_example :
    All
      (Published py (allowed_of py policy) ("sales.orders" ∷ []))
      (walk_nodes (mapping recent_count))
    × ((x : String)
        → contains ("sales.orders" ∷ []) x ≡ true
        → contains ("sales.orders" ∷ []) x ≡ true)
unfolding run
validate-Published_example =
    validate-Published py (allowed_of py policy) recent_count recent_found refl recent-Shaped
      run_recent

abbrev accepted : ValidatedSql
accepted = record {
  fingerprint = "pg_query:50fde20626009aba";
  relations = "sales.orders" ∷ [];
  functions = "pg_catalog.count" ∷ [];
  operators = "<" ∷ [];
}

validate_sql_iff_example :
    (validate_sql py pg policy "WITH …" ≡ ok accepted) ↔ IsAccepted py pg policy "WITH …" accepted
validate_sql_iff_example = validate_sql_iff py pg policy "WITH …" accepted

run_blank :
    validate_sql py pg policy " "
    ≡ reject "SQL_EMPTY" "SQL must contain one read-only SELECT statement."
unfolding validate_sql strip
run_blank = refl
