-- ===== src/Sql/Published.antt =====
-- The relations of an accepted statement: what `_validate_select_scope` ensures
-- (guarded_query/sql_validation.py).
pub mod Shape
mod Scoping
use query_boy.Base.{List, [], Bool, true, ◌≡◌, ◌⊎◌, inl, inr, arith, All, String, false, refl}
use query_boy.Base.Sets.{contains}
use query_boy.Base.Result.{ok}
use query_boy.Sql.Tree.{Fields, mapping, Python, walk_nodes, get, equals_text}
use query_boy.Sql.Handlers.{Allowed, Found}
use query_boy.Sql.Growth.{validate_nodes-Grows}
use query_boy.Sql.Scope.{scoped_value, validate_select_scope}
use query_boy.Sql.Validate.{validate, nothing_found}
use query_boy.Sql.Nodes.{validate-eq-ok}
use query_boy.Sql.Published.Shape.{Shaped, is_select, Published, Covers}
use query_boy.Sql.Published.Scoping.{value_covers, select-not-range}

module _ (py : Python) (allowed : Allowed) where
  validate_select_scope-Covers :
      (tree : Fields) (found found' : List String)
      → is_select tree ≡ true
      → Shaped (mapping tree)
      → validate_select_scope py allowed tree [] found ≡ ok found'
      → Covers py allowed found found' (walk_nodes (mapping tree))
  unfolding validate_select_scope
  validate_select_scope-Covers tree found found' e s h =
      value_covers py allowed (mapping tree) [] found found' s
        (rw (select-not-range py allowed (get "@" tree) e, e) h)

  -- In an accepted statement of the parser's shape every relation name, at any depth, names this
  -- database, and either has no schema or is a published relation that the policy reports; and
  -- the policy reports published relations only.
  pub validate-Published :
      (tree : Fields) (t : Found)
      → is_select tree ≡ true
      → Shaped (mapping tree)
      → validate py allowed tree ≡ ok t
      → All (Published py allowed t.relations) (walk_nodes (mapping tree))
        × ((x : String) → contains t.relations x ≡ true → contains allowed.relations x ≡ true)
  unfolding contains
  validate-Published tree t e shaped h =
      let (s, p, q, _, _) = validate-eq-ok py allowed tree t h in
      let c = validate_select_scope-Covers tree s.relations t.relations e shaped q in
      (
        c.published,
        λ x m.
            from s x (validate_nodes-Grows py allowed _ nothing_found s p).relations (c.honest x m),
      )
    where
      from :
          (s : Found) (x : String)
          → s.relations ≡ []
          → (contains s.relations x ≡ true) ⊎ (contains allowed.relations x ≡ true)
          → contains allowed.relations x ≡ true
      from s x r (inl m) = cc (rw r at m)
      from s x r (inr a) = a
