-- ===== src/Sql/Scope.antt =====
-- Which relation a name stands for: `_validate_range_var`, `_validate_select_scope` and
-- `_validate_scoped_value` (guarded_query/sql_validation.py). They thread the set of relations found.
use query_boy.Base.{String, ◌<>◌, not, List, ◌==◌, if◌then◌else◌}
use query_boy.Base.Sets.{contains, add}
use query_boy.Base.Result.{Result, ok, ◌>>=◌}
use query_boy.Sql.Tree.{
  Value, nothing, truth, integer, text, items, mapping, Items, nil, cons, Fields, end, field,
  Python, get, get_or, is_truthy, equals_text, to_text,
}
use query_boy.Sql.Handlers.{SqlValidationError, Allowed, reject}

abbrev pub Relations : Type 0
Relations = Result SqlValidationError (List String)

-- The CTE names that are visible, and the relations.
abbrev pub Scoped : Type 0
Scoped = Result SqlValidationError (List String × List String)

module _ (py : Python) (allowed : Allowed) where
  abbrev pub relation_name : Fields → String
  relation_name node = to_text py (get_or "relname" (text "") node)

  abbrev pub qualified_name : Fields → String
  qualified_name node = to_text py (get "schemaname" node) <> "." <> relation_name node

  unfoldable pub validate_range_var : Fields → List String → List String → Relations
  validate_range_var node visible found =
      if is_truthy (get "catalogname" node)
      then reject "SQL_CROSS_DATABASE_REFERENCE"
          "Cross-database relation references are not allowed."
      else if not (is_truthy (get "schemaname" node))
      then (if contains visible (relation_name node)
          then ok found
          else reject "SQL_RELATION_MUST_BE_QUALIFIED"
              "Physical relations must use a schema-qualified name.")
      else if not (contains allowed.relations (qualified_name node))
      then reject "SQL_RELATION_NOT_ALLOWED"
          "The SQL references a relation that is not published for this source."
      else ok (add (qualified_name node) found)

  -- `visible.add(str(name))` if there is a name.
  abbrev pub see_cte : Value → List String → List String
  see_cte name visible = if is_truthy name then add (to_text py name) visible else visible

  -- The case of `SelectStmt` in `scoped_value` is `_validate_select_scope`: first the CTEs of the
  -- field "withClause", then the other fields.
  unfoldable mutual
    pub scoped_value : Value → List String → List String → Relations
    scoped_value nothing visible found = ok found
    scoped_value (truth b) visible found = ok found
    scoped_value (integer n) visible found = ok found
    scoped_value (text s) visible found = ok found
    scoped_value (items vs) visible found = scoped_items vs visible found
    scoped_value (mapping fields) visible found =
        let inside = with_fields fields visible found in
        if equals_text (get "@" fields) "RangeVar"
        then validate_range_var fields visible found
        else if equals_text (get "@" fields) "SelectStmt"
        then inside >>= (λ r. scoped_others fields r.0 r.1)
        else scoped_fields fields visible found

    pub scoped_items : Items → List String → List String → Relations
    scoped_items nil visible found = ok found
    scoped_items (cons v vs) visible found =
        scoped_value v visible found >>= (λ found'. scoped_items vs visible found')

    pub scoped_fields : Fields → List String → List String → Relations
    scoped_fields end visible found = ok found
    scoped_fields (field k v rest) visible found =
        scoped_value v visible found >>= (λ found'. scoped_fields rest visible found')

    -- the last loop of `_validate_select_scope`
    pub scoped_others : Fields → List String → List String → Relations
    scoped_others end visible found = ok found
    scoped_others (field k v rest) visible found =
        (if k == "withClause" then ok found else scoped_value v visible found)
        >>= (λ found'. scoped_others rest visible found')

    -- `node.get("withClause")`
    pub with_fields : Fields → List String → List String → Scoped
    with_fields end visible found = ok (visible, found)
    with_fields (field k v rest) visible found =
        let here = with_clause v visible found in
        if k == "withClause" then here else with_fields rest visible found

    pub with_clause : Value → List String → List String → Scoped
    with_clause (mapping fields) visible found = ctes_field fields visible found
    with_clause _ visible found = ok (visible, found)

    -- `with_clause.get("ctes")`
    pub ctes_field : Fields → List String → List String → Scoped
    ctes_field end visible found = ok (visible, found)
    ctes_field (field k v rest) visible found =
        let here = cte_list v visible found in
        if k == "ctes" then here else ctes_field rest visible found

    pub cte_list : Value → List String → List String → Scoped
    cte_list (items vs) visible found = cte_items vs visible found
    cte_list _ visible found = ok (visible, found)

    -- the loop over the CTEs
    pub cte_items : Items → List String → List String → Scoped
    cte_items nil visible found = ok (visible, found)
    cte_items (cons (mapping fields) vs) visible found =
        cte_query fields visible found
        >>= (λ found'. cte_items vs (see_cte (get "ctename" fields) visible) found')
    cte_items (cons v vs) visible found = cte_items vs visible found

    -- `cte.get("ctequery")`
    pub cte_query : Fields → List String → List String → Relations
    cte_query end visible found = ok found
    cte_query (field k v rest) visible found =
        let here = query_value v visible found in
        if k == "ctequery" then here else cte_query rest visible found

    -- a query that is a `SelectStmt`
    pub query_value : Value → List String → List String → Relations
    query_value (mapping fields) visible found =
        let inside = with_fields fields visible found in
        if equals_text (get "@" fields) "SelectStmt"
        then inside >>= (λ r. scoped_others fields r.0 r.1)
        else ok found
    query_value _ visible found = ok found

  -- `_validate_select_scope`
  unfoldable pub validate_select_scope : Fields → List String → List String → Relations
  unfolding scoped_value
  validate_select_scope fields outer found =
      with_fields fields outer found >>= (λ r. scoped_others fields r.0 r.1)
