-- ===== src/Sql/Published/Scoping.antt =====
-- The scoping of relation names covers a whole tree of the parser's shape: `_validate_range_var`,
-- `_validate_select_scope` and `_validate_scoped_value` (guarded_query/sql_validation.py).
use query_boy.Base.{
  String, Bool, true, false, not, List, [], ◌∷◌, ◌++◌, ◌≡◌, refl, arith, ◌==◌, if◌then◌else◌,
  Bool-cases, ◌⊎◌, inl, inr, All, All-append, eq_iff, All-append_left, All-append_right, eq_refl,
}
use mathlib.Core.Path.{subst}
use query_boy.Base.Sets.{contains, add, contains-add}
use query_boy.Base.Result.{ok, >>=-eq-ok, ok-injective}
use query_boy.Sql.Tree.{
  Value, nothing, truth, integer, text, items, mapping, Items, nil, cons, Fields, end, field,
  Python, get, has_key, is_truthy, equals_text, walk_nodes, walk_items, walk_fields,
}
use query_boy.Sql.Handlers.{Allowed, reject}
use query_boy.Sql.Growth.{Includes, Includes-add}
use query_boy.Sql.Scope.{
  Relations, Scoped, see_cte, validate_range_var, qualified_name, relation_name, scoped_value,
  scoped_items, scoped_fields, scoped_others, with_fields, with_clause, ctes_field, cte_list,
  cte_items, cte_query, query_value,
}
use query_boy.Sql.Published.Shape.{
  is_range, is_select, Quiet, IsQuery, PlainCte, PlainCteItems, PlainCtes, PlainWithFields,
  PlainWith, Shaped, ShapedItems, ShapedFields, Resolved, unqualified, listed, Published, Covers,
  Covers-Quiet, Covers-append, Covers-front, Quiet-Published,
}

-- The nodes below the field "withClause", and those below the others.
walk_with : Fields → List Fields
walk_with end = []
walk_with (field k v rest) = if k == "withClause" then walk_nodes v else walk_with rest

walk_others : Fields → List Fields
walk_others end = []
walk_others (field k v rest) =
    let more = walk_others rest in if k == "withClause" then more else walk_nodes v ++ more

module _ {ℓ} (P : Fields → Type ℓ) where
  All-walk_absent :
      (fields : Fields)
      → has_key "withClause" fields ≡ false
      → All P (walk_others fields)
      → All P (walk_fields fields)
  unfolding walk_others walk_nodes has_key
  All-walk_absent end h o = tt
  All-walk_absent (field k v rest) h o = elim (Bool-cases (k == "withClause")) [
    | inl e ↦ cc (rw e at h)
    | inr e ↦
        let o' = rw e at o in
        All-append P (walk_nodes v) (walk_fields rest)
          (All-append_left P (walk_nodes v) (walk_others rest) o')
          (All-walk_absent rest (rw e at h)
            (All-append_right P (walk_nodes v) (walk_others rest) o'))
  ]

  All-walk_fields :
      (fields : Fields)
      → ShapedFields fields
      → All P (walk_with fields)
      → All P (walk_others fields)
      → All P (walk_fields fields)
  unfolding walk_with walk_others walk_nodes Shaped
  All-walk_fields end s w o = tt
  All-walk_fields (field k v rest) (_, s, t) w o = elim (Bool-cases (k == "withClause")) [
    | inl e ↦
        All-append P (walk_nodes v) (walk_fields rest) (rw e at w)
          (All-walk_absent rest (s e).1 (rw e at o))
    | inr e ↦
        let o' = rw e at o in
        All-append P (walk_nodes v) (walk_fields rest)
          (All-append_left P (walk_nodes v) (walk_others rest) o')
          (All-walk_fields rest t (rw e at w)
            (All-append_right P (walk_nodes v) (walk_others rest) o'))
  ]

module _ (py : Python) (allowed : Allowed) where
  -- What a relation name that passes leaves.
  pub record Kept (node : Fields) (found found' : List String) : Type 0 where
    pub grows : Includes found found'
    pub resolved : Resolved py allowed found' node
    pub honest :
        (x : String)
        → contains found' x ≡ true
        → (contains found x ≡ true) ⊎ (contains allowed.relations x ≡ true)

  Kept-add :
      (node : Fields) (found : List String)
      → is_truthy (get "catalogname" node) ≡ false
      → contains allowed.relations (qualified_name py allowed node) ≡ true
      → Kept node found (add (qualified_name py allowed node) found)
  Kept-add node found c a =
      let q = qualified_name py allowed node in
      record {
        grows = Includes-add q found;
        resolved = listed c a (ground (arith, contains-add q q found, eq_refl q));
        honest = λ x m. ground (arith, contains-add q x found, eq_iff q x);
      }

  validate_range_var-Kept :
      (node : Fields) (visible found found' : List String)
      → validate_range_var py allowed node visible found ≡ ok found'
      → Kept node found found'
  unfolding validate_range_var
  validate_range_var-Kept node visible found found' h =
      by_catalog (is_truthy (get "catalogname" node)) refl h
    where
      by_allowed :
          (b : Bool)
          → contains allowed.relations (qualified_name py allowed node) ≡ b
          → is_truthy (get "catalogname" node) ≡ false
          → (if not b
              then reject "SQL_RELATION_NOT_ALLOWED"
                  "The SQL references a relation that is not published for this source."
              else ok (add (qualified_name py allowed node) found))
            ≡ ok found'
          → Kept node found found'
      by_allowed true a c k = subst (Kept node found) (ok-injective k) (Kept-add node found c a)
      by_allowed false a c k = cc

      by_schema :
          (b : Bool)
          → is_truthy (get "schemaname" node) ≡ b
          → is_truthy (get "catalogname" node) ≡ false
          → (if not b
              then (if contains visible (relation_name py allowed node)
                  then ok found
                  else reject "SQL_RELATION_MUST_BE_QUALIFIED"
                      "Physical relations must use a schema-qualified name.")
              else if not (contains allowed.relations (qualified_name py allowed node))
              then reject "SQL_RELATION_NOT_ALLOWED"
                  "The SQL references a relation that is not published for this source."
              else ok (add (qualified_name py allowed node) found))
            ≡ ok found'
          → Kept node found found'
      by_schema true u c k = by_allowed _ refl c k
      by_schema false u c k =
          let e : found ≡ found' = ground arith in
          subst (Kept node found) e
            (record { grows = λ x m. m; resolved = unqualified c u; honest = λ x m. inl m })

      by_catalog :
          (b : Bool)
          → is_truthy (get "catalogname" node) ≡ b
          → (if b
              then reject "SQL_CROSS_DATABASE_REFERENCE"
                  "Cross-database relation references are not allowed."
              else if not (is_truthy (get "schemaname" node))
              then (if contains visible (relation_name py allowed node)
                  then ok found
                  else reject "SQL_RELATION_MUST_BE_QUALIFIED"
                      "Physical relations must use a schema-qualified name.")
              else if not (contains allowed.relations (qualified_name py allowed node))
              then reject "SQL_RELATION_NOT_ALLOWED"
                  "The SQL references a relation that is not published for this source."
              else ok (add (qualified_name py allowed node) found))
            ≡ ok found'
          → Kept node found found'
      by_catalog true c k = cc
      by_catalog false c k = by_schema _ refl c k

  abbrev Covered : List String → List String → List Fields → Type 0
  Covered = Covers py allowed

  Covered-none :
      (found found' : List String) (nodes : List Fields)
      → Quiet nodes
      → ◌≡◌ {A = Relations} (ok found) (ok found')
      → Covered found found' nodes
  Covered-none found found' nodes q h =
      subst (λ f. Covered found f nodes) (ok-injective h) (Covers-Quiet py allowed found nodes q)

  relations_eq :
      {p r : List String × List String}
      → ◌≡◌ {A = Scoped} (ok p) (ok r)
      → ◌≡◌ {A = Relations} (ok p.1) (ok r.1)
  relations_eq h = cc

  -- A relation name: the node itself is resolved, and nothing below it is a relation name.
  range_covers :
      (fields : Fields) (visible found found' : List String)
      → Quiet (walk_fields fields)
      → validate_range_var py allowed fields visible found ≡ ok found'
      → Covered found found' (walk_nodes (mapping fields))
  unfolding walk_nodes
  range_covers fields visible found found' q h =
      let kept = validate_range_var-Kept fields visible found found' h in
      pick kept (has_key "@" fields)
    where
      pick :
          Kept fields found found'
          → (b : Bool)
          → Covered found found' (if b then fields ∷ walk_fields fields else walk_fields fields)
      pick k true = record {
        grows = k.grows;
        published = (λ _. k.resolved, Quiet-Published py allowed found' _ q);
        honest = k.honest;
      }
      pick k false = record {
        grows = k.grows;
        published = Quiet-Published py allowed found' _ q;
        honest = k.honest;
      }

  -- A SELECT: its CTEs, then its other fields.
  select_covers :
      (fields : Fields) (found middle found' : List String)
      → ShapedFields fields
      → Covered found middle (walk_with fields)
      → Covered middle found' (walk_others fields)
      → Covered found found' (walk_fields fields)
  select_covers fields found middle found' s c d =
      let both =
        Covers-append py allowed found middle found' (walk_with fields) (walk_others fields) c d in
      record {
        grows = both.grows;
        honest = both.honest;
        published =
            All-walk_fields (Published py allowed found') fields s
              (All-append_left _ (walk_with fields) (walk_others fields) both.published)
              (All-append_right _ (walk_with fields) (walk_others fields) both.published);
      }

  pub select-not-range :
      (v : Value) → equals_text v "SelectStmt" ≡ true → equals_text v "RangeVar" ≡ false
  select-not-range (text s) h = rw ((eq_iff s "SelectStmt").0 h)
  select-not-range nothing h = cc
  select-not-range _ h = cc

  mutual
    unfolding scoped_value Shaped walk_nodes walk_with walk_others

    pub value_covers :
        (v : Value) (visible found found' : List String)
        → Shaped v
        → scoped_value py allowed v visible found ≡ ok found'
        → Covered found found' (walk_nodes v)
    value_covers nothing visible found found' s h = Covered-none found found' [] tt h
    value_covers (truth b) visible found found' s h = Covered-none found found' [] tt h
    value_covers (integer n) visible found found' s h = Covered-none found found' [] tt h
    value_covers (text w) visible found found' s h = Covered-none found found' [] tt h
    value_covers (items vs) visible found found' s h = items_covers vs visible found found' s h
    value_covers (mapping fields) visible found found' (q, s) h =
        elim (Bool-cases (is_range fields)) [
          | inl e ↦ range_covers fields visible found found' (q e) (rw e at h)
          | inr e ↦ elim (Bool-cases (is_select fields)) [
            | inl f ↦
                let (r, p, k) =
                  >>=-eq-ok (with_fields py allowed fields visible found) _ (rw (e, f) at h) in
                Covers-front py allowed fields (walk_fields fields) e (
                  select_covers fields found r.1 found' s (with_covers fields visible found r s p)
                    (others_covers fields r.0 r.1 found' s k))
            | inr f ↦
                Covers-front py allowed fields (walk_fields fields) e
                  (fields_covers fields visible found found' s (rw (e, f) at h))
          ]
        ]

    items_covers :
        (vs : Items) (visible found found' : List String)
        → ShapedItems vs
        → scoped_items py allowed vs visible found ≡ ok found'
        → Covered found found' (walk_items vs)
    items_covers nil visible found found' s h = Covered-none found found' [] tt h
    items_covers (cons v vs) visible found found' (s, t) h =
        let (m, p, k) = >>=-eq-ok (scoped_value py allowed v visible found) _ h in
        Covers-append py allowed found m found' (walk_nodes v) (walk_items vs)
          (value_covers v visible found m s p) (items_covers vs visible m found' t k)

    fields_covers :
        (fields : Fields) (visible found found' : List String)
        → ShapedFields fields
        → scoped_fields py allowed fields visible found ≡ ok found'
        → Covered found found' (walk_fields fields)
    fields_covers end visible found found' s h = Covered-none found found' [] tt h
    fields_covers (field k v rest) visible found found' (s, _, t) h =
        let (m, p, j) = >>=-eq-ok (scoped_value py allowed v visible found) _ h in
        Covers-append py allowed found m found' (walk_nodes v) (walk_fields rest)
          (value_covers v visible found m s p) (fields_covers rest visible m found' t j)

    others_covers :
        (fields : Fields) (visible found found' : List String)
        → ShapedFields fields
        → scoped_others py allowed fields visible found ≡ ok found'
        → Covered found found' (walk_others fields)
    others_covers end visible found found' s h = Covered-none found found' [] tt h
    others_covers (field k v rest) visible found found' (s, _, t) h =
        elim (Bool-cases (k == "withClause")) [
          | inl e ↦ rw e (others_covers rest visible found found' t (rw e at h))
          | inr e ↦
              let (m, p, j) = >>=-eq-ok (scoped_value py allowed v visible found) _ (rw e at h) in
              rw e (
                Covers-append py allowed found m found' (walk_nodes v) (walk_others rest)
                  (value_covers v visible found m s p) (others_covers rest visible m found' t j))
        ]

    with_covers :
        (fields : Fields) (visible found : List String) (r : List String × List String)
        → ShapedFields fields
        → with_fields py allowed fields visible found ≡ ok r
        → Covered found r.1 (walk_with fields)
    with_covers end visible found r s h = Covered-none found r.1 [] tt (relations_eq h)
    with_covers (field k v rest) visible found r (s, w, t) h =
        elim (Bool-cases (k == "withClause")) [
          | inl e ↦ rw e (clause_covers v visible found r s (w e).0 (rw e at h))
          | inr e ↦ rw e (with_covers rest visible found r t (rw e at h))
        ]

    clause_covers :
        (v : Value) (visible found : List String) (r : List String × List String)
        → Shaped v
        → PlainWith v
        → with_clause py allowed v visible found ≡ ok r
        → Covered found r.1 (walk_nodes v)
    clause_covers (mapping fields) visible found r (_, s) (e, w) h =
        Covers-front py allowed fields (walk_fields fields) e
          (ctes_covers fields visible found r s w h)
    clause_covers nothing visible found r s w h = Covered-none found r.1 [] tt (relations_eq h)
    clause_covers (items vs) visible found r s w h =
        Covered-none found r.1 (walk_items vs) w (relations_eq h)
    clause_covers v visible found r s w h = Covered-none found r.1 [] tt (relations_eq h)

    ctes_covers :
        (fields : Fields) (visible found : List String) (r : List String × List String)
        → ShapedFields fields
        → PlainWithFields fields
        → ctes_field py allowed fields visible found ≡ ok r
        → Covered found r.1 (walk_fields fields)
    ctes_covers end visible found r s w h = Covered-none found r.1 [] tt (relations_eq h)
    ctes_covers (field k v rest) visible found r (s, _, t) (w, u) h =
        elim (Bool-cases (k == "ctes")) [
          | inl e ↦
              Covers-append py allowed found r.1 r.1 (walk_nodes v) (walk_fields rest)
                (list_covers v visible found r s (w e).0 (rw e at h))
                (Covers-Quiet py allowed r.1 (walk_fields rest) (w e).1)
          | inr e ↦
              Covers-append py allowed found found r.1 (walk_nodes v) (walk_fields rest)
                (Covers-Quiet py allowed found (walk_nodes v) (u e).0)
                (ctes_covers rest visible found r t (u e).1 (rw e at h))
        ]

    list_covers :
        (v : Value) (visible found : List String) (r : List String × List String)
        → Shaped v
        → PlainCtes v
        → cte_list py allowed v visible found ≡ ok r
        → Covered found r.1 (walk_nodes v)
    list_covers (items vs) visible found r s w h = cte_items_covers vs visible found r s w h
    list_covers nothing visible found r s w h = Covered-none found r.1 [] tt (relations_eq h)
    list_covers (mapping fields) visible found r s w h =
        Covered-none found r.1 (walk_nodes (mapping fields)) w (relations_eq h)
    list_covers v visible found r s w h = Covered-none found r.1 [] tt (relations_eq h)

    cte_items_covers :
        (vs : Items) (visible found : List String) (r : List String × List String)
        → ShapedItems vs
        → PlainCteItems vs
        → cte_items py allowed vs visible found ≡ ok r
        → Covered found r.1 (walk_items vs)
    cte_items_covers nil visible found r s w h = Covered-none found r.1 [] tt (relations_eq h)
    cte_items_covers (cons (mapping fields) vs) visible found r ((_, s), t) (e, w, u) h =
        let (m, p, j) = >>=-eq-ok (cte_query py allowed fields visible found) _ h in
        Covers-append py allowed found m r.1 (walk_nodes (mapping fields)) (walk_items vs)
          (Covers-front py allowed fields (walk_fields fields) e
            (cte_covers fields visible found m s w p))
          (cte_items_covers vs (see_cte py allowed (get "ctename" fields) visible) m r t u j)
    cte_items_covers (cons (items ws) vs) visible found r (s, t) (q, u) h =
        Covers-append py allowed found found r.1 (walk_items ws) (walk_items vs)
          (Covers-Quiet py allowed found (walk_items ws) q)
          (cte_items_covers vs visible found r t u h)
    cte_items_covers (cons nothing vs) visible found r (s, t) (q, u) h =
        cte_items_covers vs visible found r t u h
    cte_items_covers (cons (truth b) vs) visible found r (s, t) (q, u) h =
        cte_items_covers vs visible found r t u h
    cte_items_covers (cons (integer n) vs) visible found r (s, t) (q, u) h =
        cte_items_covers vs visible found r t u h
    cte_items_covers (cons (text w) vs) visible found r (s, t) (q, u) h =
        cte_items_covers vs visible found r t u h

    cte_covers :
        (fields : Fields) (visible found found' : List String)
        → ShapedFields fields
        → PlainCte fields
        → cte_query py allowed fields visible found ≡ ok found'
        → Covered found found' (walk_fields fields)
    cte_covers end visible found found' s w h = Covered-none found found' [] tt h
    cte_covers (field k v rest) visible found found' (s, _, t) (w, u) h =
        elim (Bool-cases (k == "ctequery")) [
          | inl e ↦
              Covers-append py allowed found found' found' (walk_nodes v) (walk_fields rest)
                (query_covers v visible found found' s (w e).0 (rw e at h))
                (Covers-Quiet py allowed found' (walk_fields rest) (w e).1)
          | inr e ↦
              Covers-append py allowed found found found' (walk_nodes v) (walk_fields rest)
                (Covers-Quiet py allowed found (walk_nodes v) (u e).0)
                (cte_covers rest visible found found' t (u e).1 (rw e at h))
        ]

    query_covers :
        (v : Value) (visible found found' : List String)
        → Shaped v
        → IsQuery v
        → query_value py allowed v visible found ≡ ok found'
        → Covered found found' (walk_nodes v)
    query_covers (mapping fields) visible found found' (_, s) q h =
        let (r, p, k) = >>=-eq-ok (with_fields py allowed fields visible found) _ (rw q at h) in
        Covers-front py allowed fields (walk_fields fields) (select-not-range (get "@" fields) q) (
          select_covers fields found r.1 found' s (with_covers fields visible found r s p)
            (others_covers fields r.0 r.1 found' s k))
    query_covers v visible found found' s q h = elim q [ ]
