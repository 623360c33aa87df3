-- ===== src/Catalog/Rows.antt =====
-- `_CatalogRelationBuilder`, `_rows_to_relations` and `_require_supported_catalog_types` (metadata/catalog.py).
-- The rows come from PostgreSQL, whose catalog query gives them the columns of `Row`.
use query_boy.Base.{ℕ, String, ◌<>◌, Bool, not, List, [], ◌∷◌, ◌++◌, Option, none, some, any, ◌==◌}
use query_boy.Base.Dict.{Dict, lookup, insert, values}
use query_boy.Base.Sorting.{sort_by}
use query_boy.Base.Result.{Result, ok, ◌>>=◌, raise_if, ◌>>◌}
use query_boy.Models.{CatalogColumn, CatalogRelation, RelationKind, view, unknown}
use query_boy.Catalog.Failures.{CatalogFailure, invalid}
use query_boy.Catalog.Quoting.{quote_identifier}
use query_boy.Catalog.Comments.{sanitize_comment, parse_view_comment}

pub record Row : Type 0 where
  pub schema_name : String
  pub relation_name : String
  pub relation_kind : String
  pub relation_comment : Option String
  pub view_definition_hash : Option String
  pub security_invoker : Bool
  pub security_barrier : Bool
  pub ordinal : ℕ
  pub column_name : String
  pub data_type : String
  pub type_kind : String
  pub column_comment : Option String

pub record CatalogRelationBuilder : Type 0 where
  pub schema : String
  pub name : String
  pub qualified_name : String
  pub sql_name : String
  pub kind : RelationKind
  pub comment : Option String
  pub definition_hash : Option String
  pub view_contract_source : Option String
  pub view_contract_version : Option ℕ
  pub security_invoker : Bool
  pub security_barrier : Bool
  pub columns : List CatalogColumn

abbrev pub freeze : CatalogRelationBuilder → CatalogRelation
freeze b = record {
  schema = b.schema;
  name = b.name;
  qualified_name = b.qualified_name;
  sql_name = b.sql_name;
  kind = b.kind;
  columns = b.columns;
  comment = b.comment;
  definition_hash = b.definition_hash;
  view_contract_source = b.view_contract_source;
  view_contract_version = b.view_contract_version;
  security_invoker = b.security_invoker;
  security_barrier = b.security_barrier;
}

abbrev pub row_name : Row → String
row_name row = row.schema_name <> ("." <> row.relation_name)

unfoldable pub column_of : Row → CatalogColumn
unfolding quote_identifier sanitize_comment
column_of row = record {
  name = row.column_name;
  sql_name = quote_identifier row.column_name;
  ordinal = row.ordinal;
  data_type = row.data_type;
  nullable = unknown;
  comment = sanitize_comment row.column_comment;
}

abbrev pub Builders : Type 0
Builders = Dict CatalogRelationBuilder

abbrev pub builder_with : Row → Option String × Option ℕ × Option String → CatalogRelationBuilder
builder_with row (source, version, comment) = record {
  schema = row.schema_name;
  name = row.relation_name;
  qualified_name = row_name row;
  sql_name = quote_identifier row.schema_name <> ("." <> quote_identifier row.relation_name);
  kind = view;
  comment = comment;
  definition_hash = row.view_definition_hash;
  view_contract_source = source;
  view_contract_version = version;
  security_invoker = row.security_invoker;
  security_barrier = row.security_barrier;
  columns = [];
}

-- The relation of the row, which is built when it is missing.
unfoldable pub relation_of :
    Row → Option CatalogRelationBuilder → Result CatalogFailure CatalogRelationBuilder
unfolding parse_view_comment quote_identifier
relation_of row (some relation) = ok relation
relation_of row none =
    raise_if (not (row.relation_kind == "v")) (invalid "Catalog returned a non-view relation")
    >> (parse_view_comment row.relation_comment >>= λ parsed. ok (builder_with row parsed))

-- `relation.columns.append(column)`
abbrev pub append_column : CatalogColumn → CatalogRelationBuilder → CatalogRelationBuilder
append_column column b = record b { columns = b.columns ++ (column ∷ []) }

-- The loop over the rows.
unfoldable pub add_rows : Builders → List Row → Result CatalogFailure Builders
unfolding lookup insert relation_of column_of
add_rows relations [] = ok relations
add_rows relations (row ∷ rows) = relation_of row (lookup (row_name row) relations) >>= λ relation.
    add_rows (insert (row_name row) (append_column (column_of row) relation) relations) rows

unfoldable pub rows_to_relations : List Row → Result CatalogFailure (List CatalogRelationBuilder)
unfolding add_rows values sort_by
rows_to_relations rows = add_rows [] rows >>= λ relations.
    ok (sort_by (λ (b : CatalogRelationBuilder). b.qualified_name) (values relations))

unfoldable pub require_supported_catalog_types : List Row → Result CatalogFailure (Unit {0})
require_supported_catalog_types rows =
    raise_if (any (λ (row : Row). row.type_kind == "d") rows)
      (invalid "Catalog contains an unsupported domain column")
