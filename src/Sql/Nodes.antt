-- ===== src/Sql/Nodes.antt =====
-- What holds of every node of a tree that `_ValidationPolicy.validate` accepts
-- (guarded_query/sql_validation.py).
use mathlib.Core.Path.{subst}
use query_boy.Base.{
  String, ◌<>◌, true, false, List, [], ◌∷◌, ◌≡◌, ◌≢◌, refl, inl, inr, arith, Option, none, some,
  ◌==◌, All, All-map, eq_iff, eq_refl, Bool-cases,
}
use query_boy.Base.Text.{ends_with}
use query_boy.Base.Dict.{lookup}
use query_boy.Base.Sets.{is_subset, contains, add, contains-add}
use query_boy.Base.Result.{ok, >>=-eq-ok, ok-injective}
use query_boy.Sql.Tree.{
  Value, nothing, text, mapping, Fields, Python, get, is_mapping, is_nothing, is_truthy, to_text,
  string_parts, walk_nodes,
}
use query_boy.Sql.Allowlists.{
  allowed_sql_value_functions, forbidden_node_codes, rejected_a_expr_constructs, allowed_node_tags,
}
use query_boy.Sql.Handlers.{
  Allowed, Found, name_of, tag_of, run_handler, validate_node, validate_nodes, validate_select_stmt,
  validate_with_clause, validate_a_expr, validate_collate_clause, validate_sql_value_function,
  admit_operator, admit_value_function, validate_between, reject_operator, are_bounds,
}
use query_boy.Sql.Scope.{validate_select_scope}
use query_boy.Sql.Validate.{validate, nothing_found}
use query_boy.Sql.Growth.{
  Grows, BuiltIn, validate_func_call_lem, validate_node_lem, validate_nodes-All,
}

module _ (py : Python) (allowed : Allowed) where
  -- The nodes of an accepted tree pass the loop, and leave the names that the policy has found.
  pub validate-eq-ok :
      (tree : Fields) (t : Found)
      → validate py allowed tree ≡ ok t
      → (s : Found) × (validate_nodes py allowed (walk_nodes (mapping tree)) nothing_found ≡ ok s)
        × (validate_select_scope py allowed tree [] s.relations ≡ ok t.relations)
        × (t.functions ≡ s.functions)
        × (t.operators ≡ s.operators)
  unfolding validate
  validate-eq-ok tree t h =
      let (s, p, k) =
        >>=-eq-ok (validate_nodes py allowed (walk_nodes (mapping tree)) nothing_found) _ h in
      let (r, q, e) = >>=-eq-ok (validate_select_scope py allowed tree [] s.relations) _ k in
      (s, p, rw (← ok-injective e) q, ground arith, ground arith)

  -- A handler runs on the nodes with its tag.
  handled :
      (tag : String) (node : Fields) (s t : Found)
      → tag_of py allowed node ≡ tag
      → validate_node py allowed node s ≡ ok t
      → run_handler py allowed tag node s ≡ ok t
  handled tag node s t e h =
      subst (λ w. run_handler py allowed w node s ≡ ok t) e
        (validate_node_lem py allowed node s t h).3

  -- The call of `node` is of an allowed built-in function that the policy has recorded.
  abbrev pub CallsAllowed : Fields → Found → Type 0
  CallsAllowed node t =
      tag_of py allowed node ≡ "FuncCall"
      → (f : String) × BuiltIn py (string_parts py (get "funcname" node)) f
        × (contains allowed.functions f ≡ true)
        × (contains t.functions ("pg_catalog." <> f) ≡ true)

  calls_at :
      (node : Fields) (s t : Found) → validate_node py allowed node s ≡ ok t → CallsAllowed node t
  unfolding run_handler
  calls_at node s t h e =
      let (f, b, m, g) =
        validate_func_call_lem py allowed node s t (handled "FuncCall" node s t e h) in
      (
        f,
        b,
        m,
        rw g (
            ground (
              arith,
              contains-add ("pg_catalog." <> f) ("pg_catalog." <> f) s.functions,
              eq_refl ("pg_catalog." <> f),
            )),
      )

  calls_keep : (node : Fields) (s t : Found) → Grows s t → CallsAllowed node s → CallsAllowed node t
  calls_keep node s t g c e = let (f, b, m, k) = c e in (f, b, m, g.functions _ k)

  -- In an accepted tree every function call, at any depth, names a built-in function of the
  -- allowlist, bare or in pg_catalog, and the function is among those that the policy reports.
  pub validate-CallsAllowed :
      (tree : Fields) (t : Found)
      → validate py allowed tree ≡ ok t
      → All (λ node. CallsAllowed node t) (walk_nodes (mapping tree))
  validate-CallsAllowed tree t h =
      let (s, p, _, f, _) = validate-eq-ok tree t h in
      All-map (λ node c e. let (g, b, m, k) = c e in (g, b, m, rw f k)) (walk_nodes (mapping tree))
        (validate_nodes-All py allowed CallsAllowed calls_at calls_keep _ nothing_found s p)

  -- The kind of an operator expression.
  abbrev pub kind_of : Fields → String
  kind_of node = to_text py (name_of (text "") (get "kind" node))

  -- The operator that the parts of a name write, if they write one, is allowed and recorded.
  pub data Named (t : Found) : List String → Type 0 where
    unnamed : Named t []
    named :
        (op : String)
        → contains allowed.operators op ≡ true
        → contains t.operators op ≡ true
        → Named t (op ∷ [])

  -- What a BETWEEN must have: an operand, two bounds and both of its comparisons on the allowlist.
  pub record IsBetween (node : Fields) : Type 0 where
    pub operand : is_mapping (get "lexpr" node) ≡ true
    pub bounds : are_bounds (get "rexpr" node) ≡ true
    pub at_least : contains allowed.operators ">=" ≡ true
    pub at_most : contains allowed.operators "<=" ≡ true

  -- The operator of `node`: both bounds of BETWEEN, or the name of an expression of another kind.
  pub data OperatorAdmitted (node : Fields) (t : Found) : Type 0 where
    between :
        kind_of node ≡ "AEXPR_BETWEEN"
        → IsBetween node
        → contains t.operators ">=" ≡ true
        → contains t.operators "<=" ≡ true
        → OperatorAdmitted node t
    written :
        lookup (kind_of node) rejected_a_expr_constructs ≡ none
        → Named t (string_parts py (get "name" node))
        → OperatorAdmitted node t

  between_lem :
      (node : Fields) (s t : Found)
      → validate_between py allowed node s ≡ ok t
      → (contains t.operators ">=" ≡ true) × (contains t.operators "<=" ≡ true)
  unfolding validate_between
  between_lem node s t h = ground (
    arith,
    contains-add "<=" ">=" (add ">=" s.operators),
    contains-add "<=" "<=" (add ">=" s.operators),
    contains-add ">=" ">=" s.operators,
  )

  validate_between-IsBetween :
      (node : Fields) (s t : Found) → validate_between py allowed node s ≡ ok t → IsBetween node
  unfolding validate_between is_subset
  validate_between-IsBetween node s t h = record {
    operand = ground arith;
    bounds = ground arith;
    at_least = ground arith;
    at_most = ground arith;
  }

  admit_operator-Named :
      (parts : List String) (s t : Found) → admit_operator py allowed parts s ≡ ok t → Named t parts
  admit_operator-Named [] s t h = unnamed
  admit_operator-Named (op ∷ []) s t h =
      named op (ground arith) (ground (arith, contains-add op op s.operators, eq_refl op))
  admit_operator-Named (a ∷ b ∷ rest) s t h = cc

  Named-keep : {parts : List String} (s t : Found) → Grows s t → Named s parts → Named t parts
  Named-keep s t g unnamed = unnamed
  Named-keep s t g (named op m k) = named op m (g.operators op k)

  named_operator :
      (c : Option String) (parts : List String) (s t : Found)
      → (elim c [
        | some construct ↦ reject_operator construct
        | none ↦ admit_operator py allowed parts s
      ])
        ≡ ok t
      → (c ≡ none) × (admit_operator py allowed parts s ≡ ok t)
  named_operator none parts s t h = (refl, h)
  named_operator (some c) parts s t h = cc

  a_expr-OperatorAdmitted :
      (node : Fields) (s t : Found)
      → validate_a_expr py allowed node s ≡ ok t
      → OperatorAdmitted node t
  unfolding validate_a_expr
  a_expr-OperatorAdmitted node s t h = elim (Bool-cases (kind_of node == "AEXPR_BETWEEN")) [
    | inl e ↦
        let accepted : validate_between py allowed node s ≡ ok t = rw e at h in
        let (low, high) = between_lem node s t accepted in
        between ((eq_iff _ _).0 e) (validate_between-IsBetween node s t accepted) low high
    | inr e ↦
        let parts = string_parts py (get "name" node) in
        let (c, k) = named_operator _ parts s t (rw e at h) in
        written c (admit_operator-Named parts s t k)
  ]

  abbrev pub OperatorsAllowed : Fields → Found → Type 0
  OperatorsAllowed node t = tag_of py allowed node ≡ "A_Expr" → OperatorAdmitted node t

  operators_at :
      (node : Fields) (s t : Found)
      → validate_node py allowed node s ≡ ok t
      → OperatorsAllowed node t
  unfolding run_handler
  operators_at node s t h e = a_expr-OperatorAdmitted node s t (handled "A_Expr" node s t e h)

  OperatorAdmitted-keep :
      (node : Fields) (s t : Found) → Grows s t → OperatorAdmitted node s → OperatorAdmitted node t
  OperatorAdmitted-keep node s t g (between e b low high) =
      between e b (g.operators _ low) (g.operators _ high)
  OperatorAdmitted-keep node s t g (written c n) = written c (Named-keep s t g n)

  Named-moved :
      {parts : List String} (s t : Found)
      → t.operators ≡ s.operators
      → Named s parts
      → Named t parts
  Named-moved s t e unnamed = unnamed
  Named-moved s t e (named op m k) = named op m (rw e k)

  OperatorAdmitted-moved :
      (node : Fields) (s t : Found)
      → t.operators ≡ s.operators
      → OperatorAdmitted node s
      → OperatorAdmitted node t
  OperatorAdmitted-moved node s t e (between k b low high) = between k b (rw e low) (rw e high)
  OperatorAdmitted-moved node s t e (written c n) = written c (Named-moved s t e n)

  -- In an accepted tree every operator expression, at any depth, is a BETWEEN with an operand and
  -- two bounds, whose two comparisons are on the allowlist and reported, or is of no rejected kind and its operator, if it names one, is a single
  -- unqualified name of the allowlist that the policy reports.
  pub validate-OperatorsAllowed :
      (tree : Fields) (t : Found)
      → validate py allowed tree ≡ ok t
      → All (λ node. OperatorsAllowed node t) (walk_nodes (mapping tree))
  validate-OperatorsAllowed tree t h =
      let (s, p, _, _, o) = validate-eq-ok tree t h in
      All-map (λ node c e. OperatorAdmitted-moved node s t o (c e)) (walk_nodes (mapping tree))
        (validate_nodes-All py allowed OperatorsAllowed operators_at
          (λ node u v g c e. OperatorAdmitted-keep node u v g (c e)) _ nothing_found s p)

  -- What the other checks demand of one node.
  pub record IsReadOnly (node : Fields) : Type 0 where
    pub approved : contains allowed_node_tags (tag_of py allowed node) ≡ true
    pub not_forbidden : lookup (tag_of py allowed node) forbidden_node_codes ≡ none
    pub statement :
        ends_with (tag_of py allowed node) "Stmt" ≡ true → tag_of py allowed node ≡ "SelectStmt"
    pub no_into : tag_of py allowed node ≡ "SelectStmt" → get "intoClause" node ≡ nothing
    pub no_lock :
        tag_of py allowed node ≡ "SelectStmt" → is_truthy (get "lockingClause" node) ≡ false
    pub no_recursion :
        tag_of py allowed node ≡ "WithClause" → is_truthy (get "recursive" node) ≡ false
    pub no_collation : tag_of py allowed node ≢ "CollateClause"
    pub known_value :
        tag_of py allowed node ≡ "SQLValueFunction"
        → (name : String) × (name_of nothing (get "op" node) ≡ text name)
          × (contains allowed_sql_value_functions name ≡ true)

  is_nothing-lem : (v : Value) → is_nothing v ≡ true → v ≡ nothing
  is_nothing-lem nothing h = refl
  is_nothing-lem (text s) h = cc
  is_nothing-lem _ h = cc

  select_lem :
      (node : Fields) (s t : Found)
      → validate_select_stmt node s ≡ ok t
      → (get "intoClause" node ≡ nothing) × (is_truthy (get "lockingClause" node) ≡ false)
  unfolding validate_select_stmt
  select_lem node s t h = (is_nothing-lem _ (ground arith), ground arith)

  with_lem :
      (node : Fields) (s t : Found)
      → validate_with_clause node s ≡ ok t
      → is_truthy (get "recursive" node) ≡ false
  unfolding validate_with_clause
  with_lem node s t h = ground arith

  admit_value_lem :
      (v : Value) (s t : Found)
      → admit_value_function v s ≡ ok t
      → (name : String) × (v ≡ text name) × (contains allowed_sql_value_functions name ≡ true)
  admit_value_lem (text name) s t h = (name, refl, ground arith)
  admit_value_lem nothing s t h = cc
  admit_value_lem _ s t h = cc

  value_lem :
      (node : Fields) (s t : Found)
      → validate_sql_value_function node s ≡ ok t
      → (name : String) × (name_of nothing (get "op" node) ≡ text name)
        × (contains allowed_sql_value_functions name ≡ true)
  unfolding validate_sql_value_function
  value_lem node s t h = admit_value_lem (name_of nothing (get "op" node)) s t h

  collate_lem : (node : Fields) (s t : Found) → validate_collate_clause node s ≢ ok t
  unfolding validate_collate_clause
  collate_lem node s t h = cc

  IsReadOnly-at :
      (node : Fields) (s t : Found) → validate_node py allowed node s ≡ ok t → IsReadOnly node
  unfolding run_handler
  IsReadOnly-at node s t h =
      let (a, b, c, d) = validate_node_lem py allowed node s t h in
      record {
        approved = c;
        not_forbidden = b;
        statement = λ e. (eq_iff _ _).0 (ground arith);
        no_into = λ e. (select_lem node s t (handled "SelectStmt" node s t e h)).0;
        no_lock = λ e. (select_lem node s t (handled "SelectStmt" node s t e h)).1;
        no_recursion = λ e. with_lem node s t (handled "WithClause" node s t e h);
        no_collation = λ e. collate_lem node s t (handled "CollateClause" node s t e h);
        known_value = λ e. value_lem node s t (handled "SQLValueFunction" node s t e h);
      }

  -- In an accepted tree every node, at any depth, has an approved tag that is not forbidden and is a
  -- SELECT if it is a statement; no SELECT has INTO or a row lock, no WITH is recursive, there is no
  -- COLLATE, and every SQL value function is one of the approved ones.
  pub validate-IsReadOnly :
      (tree : Fields) (t : Found)
      → validate py allowed tree ≡ ok t
      → All IsReadOnly (walk_nodes (mapping tree))
  validate-IsReadOnly tree t h =
      let (s, p, _, _, _) = validate-eq-ok tree t h in
      validate_nodes-All py allowed (λ node _. IsReadOnly node) IsReadOnly-at (λ node u v g c. c) _
        nothing_found s p
