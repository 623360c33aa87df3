-- ===== src/Sql/Published/Shape.antt =====
-- The shape of the trees that PostgreSQL's parser gives, as far as the scoping of
-- guarded_query/sql_validation.py relies on it: a relation name holds no other, and a WITH clause
-- holds relation names only inside the SELECT of a CTE.
use query_boy.Base.{
  String, Bool, true, false, List, ◌∷◌, ◌++◌, ◌≡◌, ◌⊎◌, inl, inr, ◌==◌, if◌then◌else◌, All,
  All-append, All-map,
}
use query_boy.Base.Sets.{contains}
use query_boy.Sql.Tree.{
  Value, nothing, truth, integer, text, items, mapping, Items, nil, cons, Fields, end, field,
  Python, get, has_key, is_truthy, equals_text, walk_nodes, walk_fields,
}
use query_boy.Sql.Handlers.{Allowed}
use query_boy.Sql.Growth.{Includes}
use query_boy.Sql.Scope.{qualified_name}

abbrev pub is_range : Fields → Bool
is_range node = equals_text (get "@" node) "RangeVar"

abbrev pub is_select : Fields → Bool
is_select node = equals_text (get "@" node) "SelectStmt"

-- No node is a relation name.
abbrev pub Quiet : List Fields → Type 0
Quiet = All (λ node. is_range node ≡ false)

abbrev pub IsQuery : Value → Type 0
IsQuery (mapping fields) = is_select fields ≡ true
IsQuery _ = ⊥

-- Relation names stand in the field "ctequery", which is a SELECT.
abbrev pub PlainCte : Fields → Type 0
PlainCte end = Unit
PlainCte (field k v rest) =
    (k == "ctequery" ≡ true → IsQuery v × Quiet (walk_fields rest))
    × (k == "ctequery" ≡ false → Quiet (walk_nodes v) × PlainCte rest)

abbrev pub PlainCteItems : Items → Type 0
PlainCteItems nil = Unit
PlainCteItems (cons (mapping fields) vs) =
    (is_range fields ≡ false) × PlainCte fields × PlainCteItems vs
PlainCteItems (cons v vs) = Quiet (walk_nodes v) × PlainCteItems vs

abbrev pub PlainCtes : Value → Type 0
PlainCtes (items vs) = PlainCteItems vs
PlainCtes v = Quiet (walk_nodes v)

abbrev pub PlainWithFields : Fields → Type 0
PlainWithFields end = Unit
PlainWithFields (field k v rest) =
    (k == "ctes" ≡ true → PlainCtes v × Quiet (walk_fields rest))
    × (k == "ctes" ≡ false → Quiet (walk_nodes v) × PlainWithFields rest)

-- Relation names stand in the CTEs of the field "ctes".
abbrev pub PlainWith : Value → Type 0
PlainWith (mapping fields) = (is_range fields ≡ false) × PlainWithFields fields
PlainWith v = Quiet (walk_nodes v)

unfoldable mutual
  pub Shaped : Value → Type 0
  Shaped nothing = Unit
  Shaped (truth b) = Unit
  Shaped (integer n) = Unit
  Shaped (text s) = Unit
  Shaped (items vs) = ShapedItems vs
  Shaped (mapping fields) =
      (is_range fields ≡ true → Quiet (walk_fields fields)) × ShapedFields fields

  pub ShapedItems : Items → Type 0
  ShapedItems nil = Unit
  ShapedItems (cons v vs) = Shaped v × ShapedItems vs

  pub ShapedFields : Fields → Type 0
  ShapedFields end = Unit
  ShapedFields (field k v rest) =
      Shaped v
      × (k == "withClause" ≡ true → PlainWith v × (has_key "withClause" rest ≡ false))
      × ShapedFields rest

module _ (py : Python) (allowed : Allowed) where
  -- A relation name is in this database, and is unqualified, or published and recorded.
  pub data Resolved (found : List String) (node : Fields) : Type 0 where
    unqualified :
        is_truthy (get "catalogname" node) ≡ false
        → is_truthy (get "schemaname" node) ≡ false
        → Resolved found node
    listed :
        is_truthy (get "catalogname" node) ≡ false
        → contains allowed.relations (qualified_name py allowed node) ≡ true
        → contains found (qualified_name py allowed node) ≡ true
        → Resolved found node

  abbrev pub Published : List String → Fields → Type 0
  Published found node = is_range node ≡ true → Resolved found node

  -- From `found` to `found'` nothing is lost, and `found'` has the relations of the nodes.
  pub record Covers (found found' : List String) (nodes : List Fields) : Type 0 where
    pub grows : Includes found found'
    pub published : All (Published found') nodes
    pub honest :
        (x : String)
        → contains found' x ≡ true
        → (contains found x ≡ true) ⊎ (contains allowed.relations x ≡ true)

  Resolved-grow :
      (found found' : List String) (node : Fields)
      → Includes found found'
      → Resolved found node
      → Resolved found' node
  Resolved-grow found found' node g (unqualified c u) = unqualified c u
  Resolved-grow found found' node g (listed c a m) = listed c a (g _ m)

  pub Quiet-Published :
      (found : List String) (nodes : List Fields) → Quiet nodes → All (Published found) nodes
  Quiet-Published found nodes = All-map (λ node q r. cc) nodes

  pub Covers-Quiet :
      (found : List String) (nodes : List Fields) → Quiet nodes → Covers found found nodes
  Covers-Quiet found nodes q = record {
    grows = λ x h. h;
    published = Quiet-Published found nodes q;
    honest = λ x m. inl m;
  }

  pub Covers-append :
      (found found' found'' : List String) (nodes nodes' : List Fields)
      → Covers found found' nodes
      → Covers found' found'' nodes'
      → Covers found found'' (nodes ++ nodes')
  Covers-append found found' found'' nodes nodes' c d = record {
    grows = λ x h. d.grows x (c.grows x h);
    published =
        All-append _ nodes nodes'
          (All-map (λ node p r. Resolved-grow found' found'' node d.grows (p r)) nodes c.published)
          d.published;
    honest = λ x m. chain x (d.honest x m);
  }
    where
      chain :
          (x : String)
          → (contains found' x ≡ true) ⊎ (contains allowed.relations x ≡ true)
          → (contains found x ≡ true) ⊎ (contains allowed.relations x ≡ true)
      chain x (inl m) = c.honest x m
      chain x (inr a) = inr a

  -- A node in front that is no relation name.
  pub Covers-front :
      {found found' : List String} (node : Fields) (nodes : List Fields)
      → is_range node ≡ false
      → Covers found found' nodes
      → Covers found found' (if has_key "@" node then node ∷ nodes else nodes)
  Covers-front {found} {found'} node nodes r c = pick (has_key "@" node)
    where
      pick : (b : Bool) → Covers found found' (if b then node ∷ nodes else nodes)
      pick true = record { grows = c.grows; published = (λ e. cc, c.published); honest = c.honest }
      pick false = c
