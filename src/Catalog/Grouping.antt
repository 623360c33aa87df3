-- ===== src/Catalog/Grouping.antt =====
-- The relations of a catalog are its rows, grouped by the relation's name (`_rows_to_relations`,
-- metadata/catalog.py).
use mathlib.Core.List.{append_assoc, append-nil}
use mathlib.Core.Path.{subst}
use query_boy.Base.{
  String, true, not, List, [], ◌∷◌, ◌++◌, map, Option, none, some, All, ◌==◌, eq_iff, ◌≡◌, refl,
  sym, ◌∙◌, ap, Bool-cases, inl, inr, if◌then◌else◌,
}
use query_boy.Base.Dict.{lookup, insert, keys, values, lookup-insert}
use query_boy.Base.Keys.{
  distinct, keys-insert, values-All, map-values, lookup-insert-cases, all_different-distinct,
}
use query_boy.Base.Sets.{all_different, sorted}
use query_boy.Base.Sorting.{map-sort_by, sort_by-All, all_different-sorted}
use query_boy.Base.Result.{ok, >>=-eq-ok, passed_raise, ok-injective}
use query_boy.Models.{CatalogColumn}
use query_boy.Catalog.Comments.{parse_view_comment}
use query_boy.Catalog.Rows.{
  Row, CatalogRelationBuilder, row_name, column_of, Builders, relation_of, append_column, add_rows,
  rows_to_relations,
}

-- The columns of the rows with a relation's name, in the order of the rows.
unfoldable pub columns_named : String → List Row → List CatalogColumn
columns_named name [] = []
columns_named name (row ∷ rows) =
    if row_name row == name
    then column_of row ∷ columns_named name rows
    else columns_named name rows

abbrev columns_at : Option CatalogRelationBuilder → List CatalogColumn
columns_at none = []
columns_at (some b) = b.columns

-- A relation stands under its name.
abbrev IsNamed : Builders → Type 0
IsNamed d = (k : String) (b : CatalogRelationBuilder) → lookup k d ≡ some b → b.qualified_name ≡ k

record IsRelationOf (row : Row) (o : Option CatalogRelationBuilder) (b : CatalogRelationBuilder)
    : Type 0 where
  name : b.qualified_name ≡ row_name row
  columns : b.columns ≡ columns_at o

relation_of_lem :
    (row : Row) (o : Option CatalogRelationBuilder) (b : CatalogRelationBuilder)
    → ((r : CatalogRelationBuilder) → o ≡ some r → r.qualified_name ≡ row_name row)
    → relation_of row o ≡ ok b
    → IsRelationOf row o b
unfolding relation_of
relation_of_lem row (some r) b named h =
    let same = ok-injective h in
    record {
      name = ap (λ (c : CatalogRelationBuilder). c.qualified_name) (sym same) ∙ named r refl;
      columns = ap (λ (c : CatalogRelationBuilder). c.columns) (sym same);
    }
relation_of_lem row none b named h =
    let (parsed, read, built) =
      >>=-eq-ok (parse_view_comment row.relation_comment) _
        (passed_raise (not (row.relation_kind == "v")) _ _ h) in
    let same = ok-injective built in
    record {
      name = ap (λ (c : CatalogRelationBuilder). c.qualified_name) (sym same);
      columns = ap (λ (c : CatalogRelationBuilder). c.columns) (sym same);
    }

module _ (row : Row) (c : CatalogRelationBuilder) (d : Builders) where
  insert-IsNamed : c.qualified_name ≡ row_name row → IsNamed d → IsNamed (insert (row_name row) c d)
  insert-IsNamed own named k e at = elim (lookup-insert-cases (row_name row) k c e d at) [
    | inl (same, here) ↦
        ap (λ (b : CatalogRelationBuilder). b.qualified_name) (sym here) ∙ own ∙ same
    | inr before ↦ named k e before
  ]

  -- The row's column stands behind those of its relation.
  columns_at-insert :
      (rows : List Row) (name : String)
      → c.columns ≡ columns_at (lookup (row_name row) d) ++ (column_of row ∷ [])
      → columns_at (lookup name (insert (row_name row) c d)) ++ columns_named name rows
        ≡ columns_at (lookup name d) ++ columns_named name (row ∷ rows)
  unfolding columns_named
  columns_at-insert rows name own = elim (Bool-cases (row_name row == name)) [
    | inl y ↦
        rw (lookup-insert, y, own, append_assoc)
          (ap (λ n. columns_at (lookup n d) ++ (column_of row ∷ columns_named name rows))
            ((eq_iff (row_name row) name).0 y))
    | inr n ↦ rw (lookup-insert, n) refl
  ]

record IsGrouped (d : Builders) (rows : List Row) (final : Builders) : Type 0 where
  columns :
      (name : String)
      → columns_at (lookup name final) ≡ columns_at (lookup name d) ++ columns_named name rows
  named : IsNamed final
  names : keys final ≡ distinct (keys d) (map row_name rows)

add_rows-IsGrouped :
    (d : Builders) (rows : List Row) (final : Builders)
    → IsNamed d
    → add_rows d rows ≡ ok final
    → IsGrouped d rows final
unfolding add_rows columns_named distinct
add_rows-IsGrouped d [] final named h =
    subst (IsGrouped d []) (ok-injective h)
      (record { columns = λ name. sym (append-nil _); named = named; names = refl })
add_rows-IsGrouped d (row ∷ rows) final named h =
    let (b, found, added) = >>=-eq-ok (relation_of row (lookup (row_name row) d)) _ h in
    let relation = relation_of_lem row (lookup (row_name row) d) b (named (row_name row)) found in
    let c = append_column (column_of row) b in
    let d' = insert (row_name row) c d in
    let still : IsNamed d' = insert-IsNamed row c d relation.name named in
    let rest = add_rows-IsGrouped d' rows final still added in
    record {
      columns = λ name.
          rest.columns name
          ∙ columns_at-insert row c d rows name
              (ap (λ cs. cs ++ (column_of row ∷ [])) relation.columns);
      named = rest.named;
      names =
          rest.names
          ∙ ap (λ seen. distinct seen (map row_name rows)) (keys-insert (row_name row) c d);
    }

-- The relations of the rows: each has the columns of its rows, and their names are different and sorted.
pub record AreGroups (rows : List Row) (relations : List CatalogRelationBuilder) : Type 0 where
  columns :
      All
        (λ (b : CatalogRelationBuilder). b.columns ≡ columns_named b.qualified_name rows)
        relations
  names :
      map (λ (b : CatalogRelationBuilder). b.qualified_name) relations
      ≡ sorted (distinct [] (map row_name rows))
  different :
      all_different (map (λ (b : CatalogRelationBuilder). b.qualified_name) relations) ≡ true

-- If the rows of the catalog are accepted, the relations that they give are the rows grouped by the name
-- of their relation: each relation has the columns of all rows with its name and of no other row, in the
-- order of the rows, there is one relation for each name that occurs, and the names are sorted.
pub rows_to_relations-AreGroups :
    (rows : List Row) (relations : List CatalogRelationBuilder)
    → rows_to_relations rows ≡ ok relations
    → AreGroups rows relations
unfolding rows_to_relations lookup keys all_different
rows_to_relations-AreGroups rows relations h =
    let (final, added, made) = >>=-eq-ok (add_rows [] rows) _ h in
    let groups = add_rows-IsGrouped [] rows final (λ k b at. absurd (cc at)) added in
    let key : CatalogRelationBuilder → String = λ b. b.qualified_name in
    let different : all_different (keys final) ≡ true =
      rw groups.names (all_different-distinct [] (map row_name rows) refl) in
    let names =
      map-sort_by key (values final)
      ∙ ap sorted (map-values key final different groups.named ∙ groups.names) in
    subst (AreGroups rows) (ok-injective made) (record {
      columns = sort_by-All _ key (values final) (
          values-All _ final different (λ k b at.
            ap columns_at (sym at)
            ∙ groups.columns k
            ∙ ap (λ n. columns_named n rows) (sym (groups.named k b at))));
      names = names;
      different =
          rw names (all_different-sorted _ (all_different-distinct [] (map row_name rows) refl));
    })
