-- ===== src/Sql/Growth.antt =====
-- What one node adds to the names found, and the induction over the nodes of a tree
-- (guarded_query/sql_validation.py).
use query_boy.Base.{
  String, ◌<>◌, true, List, [], ◌∷◌, ◌≡◌, refl, sym, ◌∙◌, ◌⊎◌, inl, inr, arith, Bool-cases,
}
use query_boy.Base.{eq_iff, Bool, false, not, ◌&&◌, Option, none, some, ◌==◌, if◌then◌else◌, All}
use query_boy.Base.Dict.{lookup}
use query_boy.Base.Text.{ends_with}
use query_boy.Sql.Allowlists.{forbidden_node_codes, allowed_node_tags, rejected_a_expr_constructs}
use mathlib.Core.Path.{subst}
use query_boy.Base.Sets.{contains, add, contains-add, is_subset}
use query_boy.Base.Result.{Result, ok, err, ok-injective, >>=-eq-ok}
use query_boy.Sql.Tree.{Fields, Python, get, is_mapping, to_text, text, string_parts}
use query_boy.Sql.Handlers.{
  SqlValidationError, Allowed, Found, Checked, reject_operator, called_function, admit_function,
  admit_operator, validate_func_call, validate_between, validate_a_expr, validate_type_name,
  admit_type, validate_select_stmt, validate_with_clause, validate_sql_value_function,
  validate_collate_clause, run_handler, validate_node, validate_nodes, tag_of, are_bounds, name_of,
}

abbrev pub Includes : List String → List String → Type 0
Includes xs ys = (x : String) → contains xs x ≡ true → contains ys x ≡ true

pub Includes-add : (x : String) (xs : List String) → Includes xs (add x xs)
Includes-add x xs y h = ground (arith, contains-add x y xs)

-- Nothing that was found is lost.
pub record Grows (s t : Found) : Type 0 where
  pub functions : Includes s.functions t.functions
  pub operators : Includes s.operators t.operators
  pub relations : t.relations ≡ s.relations

pub Grows-refl : (s : Found) → Grows s s
Grows-refl s = record { functions = λ x h. h; operators = λ x h. h; relations = refl }

pub Grows-trans : {s t u : Found} → Grows s t → Grows t u → Grows s u
Grows-trans g h = record {
  functions = λ x m. h.functions x (g.functions x m);
  operators = λ x m. h.operators x (g.operators x m);
  relations = h.relations ∙ g.relations;
}

-- `parts` names the built-in function `f`: bare, or in the schema pg_catalog.
abbrev pub BuiltIn : Python → List String → String → Type 0
BuiltIn py parts f =
    (name : String) × ((parts ≡ name ∷ []) ⊎ (parts ≡ "pg_catalog" ∷ name ∷ []))
    × (f ≡ py.casefold name)

module _ (py : Python) (allowed : Allowed) where
  called_function_lem :
      (parts : List String) (f : String)
      → called_function py allowed parts ≡ ok f
      → BuiltIn py parts f
  called_function_lem [] f h = cc
  called_function_lem (name ∷ []) f h = (name, inl refl, ground arith)
  called_function_lem (schema ∷ name ∷ []) f h = (
    name,
    inr (ground (arith, eq_iff schema "pg_catalog")),
    ground (arith, eq_iff schema "pg_catalog"),
  )
  called_function_lem (a ∷ b ∷ c ∷ rest) f h = cc

  -- A call that passes is of an allowed function, which is then among those found.
  pub validate_func_call_lem :
      (node : Fields) (s t : Found)
      → validate_func_call py allowed node s ≡ ok t
      → (f : String) × BuiltIn py (string_parts py (get "funcname" node)) f
        × (contains allowed.functions f ≡ true)
        × (t ≡ record s { functions = add ("pg_catalog." <> f) s.functions })
  unfolding validate_func_call
  validate_func_call_lem node s t h =
      from (called_function py allowed (string_parts py (get "funcname" node))) refl h
    where
      from :
          (r : Result SqlValidationError String)
          → called_function py allowed (string_parts py (get "funcname" node)) ≡ r
          → admit_function py allowed r s ≡ ok t
          → (f : String) × BuiltIn py (string_parts py (get "funcname" node)) f
            × (contains allowed.functions f ≡ true)
            × (t ≡ record s { functions = add ("pg_catalog." <> f) s.functions })
      from (err e) p k = cc
      from (ok f) p k = (f, called_function_lem _ f p, ground arith, ground arith)

  pub validate_func_call-Grows :
      (node : Fields) (s t : Found) → validate_func_call py allowed node s ≡ ok t → Grows s t
  validate_func_call-Grows node s t h =
      let (f, b, m, e) = validate_func_call_lem node s t h in
      rw e (record { functions = Includes-add _ _; operators = λ x k. k; relations = refl })

  admit_operator-Grows :
      (parts : List String) (s t : Found) → admit_operator py allowed parts s ≡ ok t → Grows s t
  admit_operator-Grows [] s t h = rw (← ok-injective h) (Grows-refl s)
  admit_operator-Grows (name ∷ []) s t h = elim (Bool-cases (contains allowed.operators name)) [
    | inl e ↦
        rw (← ok-injective (rw e at h))
          (record { functions = λ x k. k; operators = Includes-add _ _; relations = refl })
    | inr e ↦ ground arith
  ]
  admit_operator-Grows (a ∷ b ∷ rest) s t h = cc

  -- Whatever `m` leaves has grown from `s`.
  abbrev Steady : Found → Checked → Type 0
  Steady s m = (t : Found) → m ≡ ok t → Grows s t

  Steady-of : (s u : Found) → Grows s u → Steady s (ok u)
  Steady-of s u g t h = subst (Grows s) (ok-injective h) g

  Steady-ok : (s : Found) → Steady s (ok s)
  Steady-ok s = Steady-of s s (Grows-refl s)

  Steady-if :
      (b : Bool) (s : Found) (m n : Checked)
      → Steady s m
      → Steady s n
      → Steady s (if b then m else n)
  Steady-if true s m n g h = g
  Steady-if false s m n g h = h

  validate_between-Grows :
      (node : Fields) (s : Found) → Steady s (validate_between py allowed node s)
  unfolding validate_between
  validate_between-Grows node s =
      Steady-if
        (is_mapping (get "lexpr" node)
          && are_bounds (get "rexpr" node)
          && is_subset (">=" ∷ "<=" ∷ []) allowed.operators)
        s _ _
        (Steady-of s _ (record {
          functions = λ x k. k;
          operators = λ x k. Includes-add "<=" _ x (Includes-add ">=" _ x k);
          relations = refl;
        }))
        (λ t h. cc)

  pub validate_a_expr-Grows :
      (node : Fields) (s : Found) → Steady s (validate_a_expr py allowed node s)
  unfolding validate_a_expr
  validate_a_expr-Grows node s =
      Steady-if (to_text py (name_of (text "") (get "kind" node)) == "AEXPR_BETWEEN") s _ _
        (validate_between-Grows node s)
        (λ t h.
          by_name
            (lookup (to_text py (name_of (text "") (get "kind" node))) rejected_a_expr_constructs) t
            h)
    where
      by_name :
          (c : Option String)
          → Steady s (elim c [
            | some construct ↦ reject_operator construct
            | none ↦ admit_operator py allowed (string_parts py (get "name" node)) s
          ])
      by_name none t h = admit_operator-Grows (string_parts py (get "name" node)) s t h
      by_name (some c) t h = cc

  Steady-kept : (s : Found) (m : Checked) → ((t : Found) → m ≡ ok t → t ≡ s) → Steady s m
  Steady-kept s m f t h = subst (Grows s) (sym (f t h)) (Grows-refl s)

  admit_type_lem :
      (parts : List String) (s t : Found) → admit_type py allowed parts s ≡ ok t → t ≡ s
  admit_type_lem [] s t h = sym (ok-injective h)
  admit_type_lem (name ∷ []) s t h = ground arith
  admit_type_lem (schema ∷ name ∷ []) s t h = ground arith
  admit_type_lem (a ∷ b ∷ c ∷ rest) s t h = cc

  validate_type_name_lem :
      (node : Fields) (s t : Found) → validate_type_name py allowed node s ≡ ok t → t ≡ s
  unfolding validate_type_name
  validate_type_name_lem node s t h = admit_type_lem (string_parts py (get "names" node)) s t h

  validate_select_stmt_lem :
      (node : Fields) (s t : Found) → validate_select_stmt node s ≡ ok t → t ≡ s
  unfolding validate_select_stmt
  validate_select_stmt_lem node s t h = ground arith

  validate_with_clause_lem :
      (node : Fields) (s t : Found) → validate_with_clause node s ≡ ok t → t ≡ s
  unfolding validate_with_clause
  validate_with_clause_lem node s t h = ground arith

  validate_sql_value_function_lem :
      (node : Fields) (s t : Found) → validate_sql_value_function node s ≡ ok t → t ≡ s
  unfolding validate_sql_value_function
  validate_sql_value_function_lem node s t h = ground arith

  validate_collate_clause_lem :
      (node : Fields) (s t : Found) → validate_collate_clause node s ≡ ok t → t ≡ s
  unfolding validate_collate_clause
  validate_collate_clause_lem node s t h = cc

  pub run_handler-Grows :
      (tag : String) (node : Fields) (s : Found) → Steady s (run_handler py allowed tag node s)
  unfolding run_handler
  run_handler-Grows tag node s =
      Steady-if (tag == "SelectStmt") s _ _ (Steady-kept s _ (validate_select_stmt_lem node s)) (
        Steady-if (tag == "WithClause") s _ _ (Steady-kept s _ (validate_with_clause_lem node s)) (
          Steady-if (tag == "FuncCall") s _ _ (validate_func_call-Grows node s) (
            Steady-if (tag == "A_Expr") s _ _ (validate_a_expr-Grows node s) (
              Steady-if (tag == "TypeName") s _ _ (Steady-kept s _ (validate_type_name_lem node s))
                (Steady-if (tag == "SQLValueFunction") s _ _
                  (Steady-kept s _ (validate_sql_value_function_lem node s))
                  (Steady-if (tag == "CollateClause") s _ _
                    (Steady-kept s _ (validate_collate_clause_lem node s)) (Steady-ok s)))))))

  -- A node that passes has an approved tag, no rejected construct, and passes its handler.
  pub validate_node_lem :
      (node : Fields) (s t : Found)
      → validate_node py allowed node s ≡ ok t
      → ((ends_with (tag_of py allowed node) "Stmt" && not (tag_of py allowed node == "SelectStmt"))
          ≡ false)
        × (lookup (tag_of py allowed node) forbidden_node_codes ≡ none)
        × (contains allowed_node_tags (tag_of py allowed node) ≡ true)
        × (run_handler py allowed (tag_of py allowed node) node s ≡ ok t)
  unfolding validate_node
  validate_node_lem node s t h = ground arith

  pub validate_node-Grows : (node : Fields) (s : Found) → Steady s (validate_node py allowed node s)
  validate_node-Grows node s t h =
      run_handler-Grows (tag_of py allowed node) node s t (validate_node_lem node s t h).3

  pub validate_nodes-Grows :
      (nodes : List Fields) (s : Found) → Steady s (validate_nodes py allowed nodes s)
  unfolding validate_nodes
  validate_nodes-Grows [] s t h = Steady-ok s t h
  validate_nodes-Grows (node ∷ nodes) s t h =
      let (s', p, k) = >>=-eq-ok (validate_node py allowed node s) _ h in
      Grows-trans (validate_node-Grows node s s' p) (validate_nodes-Grows nodes s' t k)

  -- What holds of each node when it passes, and stays true as more is found, holds of all at the end.
  pub validate_nodes-All :
      (P : Fields → Found → Type 0)
      → ((node : Fields) (s t : Found) → validate_node py allowed node s ≡ ok t → P node t)
      → ((node : Fields) (s t : Found) → Grows s t → P node s → P node t)
      → (nodes : List Fields) (s t : Found) → validate_nodes py allowed nodes s ≡ ok t
      → All (λ node. P node t) nodes
  unfolding validate_nodes
  validate_nodes-All P at keep [] s t h = tt
  validate_nodes-All P at keep (node ∷ nodes) s t h =
      let (s', p, k) = >>=-eq-ok (validate_node py allowed node s) _ h in
      (
        keep node s' t (validate_nodes-Grows nodes s' t k) (at node s s' p),
        validate_nodes-All P at keep nodes s' t k,
      )
