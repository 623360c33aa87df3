-- ===== src/Metadata/Context.antt =====
-- `_validate_snapshot`, `_to_relation_response` and `_context_response` (metadata/service.py).
use query_boy.Base.{
  ℕ, String, ◌<>◌, Bool, true, false, not, ◌&&◌, ◌||◌, List, [], ◌∷◌, ◌++◌, Option, none, some, map,
  any, ltb, eqb, length, take, ◌==◌, option_eq, if◌then◌else◌,
}
use query_boy.Base.Text.{byte_length}
use query_boy.Base.Sets.{contains, sorted, text_leb, all_different}
use query_boy.Base.Json.{Json, boolean, string, array, elements, dumps}
use query_boy.Base.Result.{Result, ok, err}
use query_boy.Models.{
  SourceProfile, CatalogColumn, CatalogRelation, CatalogSnapshot, RelationKind, view,
  PreparedMetadata,
}
use query_boy.Sql.Allowlists.{
  default_allowed_functions, default_allowed_types, default_allowed_unqualified_types,
}
use query_boy.Metadata.Revision.{
  optional, strings, kind_json, nullable_json, nat_json, dict_json, members,
}

-- `relation.kind in source.allowed_relation_kinds`
abbrev contains_kind : List RelationKind → RelationKind → Bool
contains_kind [] kind = false
contains_kind (view ∷ kinds) view = true

-- `issues.append(message)` under `if`.
abbrev pub issue_if : Bool → String → List String
issue_if true message = message ∷ []
issue_if false message = []

-- `not relation.comment`
abbrev pub is_blank : Option String → Bool
is_blank none = true
is_blank (some s) = s == ""

abbrev pub version_differs : Option ℕ → ℕ → Bool
version_differs none version = true
version_differs (some v) version = not (eqb v version)

abbrev pub is_outside : SourceProfile → CatalogRelation → Bool
is_outside source r =
    not (contains source.allowed_schemas r.schema)
    || not (contains_kind source.allowed_relation_kinds r.kind)

unfoldable pub relation_issues : SourceProfile → CatalogRelation → List String
unfolding contains
relation_issues source r =
    issue_if (is_outside source r)
      ("Catalog relation is outside the source allowlist: " <> r.qualified_name)
    ++ (issue_if (not (option_eq r.view_contract_source (some source.source_id)))
          ("View contract source does not match the source: " <> r.qualified_name)
        ++ (issue_if (version_differs r.view_contract_version source.view_contract_version)
              ("View contract version does not match the source: " <> r.qualified_name)
            ++ issue_if (is_blank r.comment) ("Missing view description: " <> r.qualified_name)))

unfoldable pub all_relation_issues : SourceProfile → List CatalogRelation → List String
unfolding relation_issues
all_relation_issues source [] = []
all_relation_issues source (r ∷ rs) = relation_issues source r ++ all_relation_issues source rs

abbrev pub names_of : List CatalogRelation → List String
names_of rs = map (λ (r : CatalogRelation). r.qualified_name) rs

abbrev issues_of : SourceProfile → List CatalogRelation → List String
issues_of source [] = "No selectable relations were discovered in the allowed schemas." ∷ []
issues_of source (r ∷ rs) =
    issue_if (not (all_different (names_of (r ∷ rs)))) "Catalog contains duplicate relations."
    ++ all_relation_issues source (r ∷ rs)

unfoldable pub validate_snapshot : SourceProfile → CatalogSnapshot → List String
unfolding all_different all_relation_issues
validate_snapshot source snapshot = issues_of source snapshot.relations

-- `sorted(relations, key=qualified_name)`
place_relation : CatalogRelation → List CatalogRelation → List CatalogRelation
place_relation r [] = r ∷ []
place_relation r (q ∷ rs) =
    if text_leb r.qualified_name q.qualified_name then r ∷ q ∷ rs else q ∷ place_relation r rs

unfoldable pub sort_relations : List CatalogRelation → List CatalogRelation
unfolding place_relation
sort_relations [] = []
sort_relations (r ∷ rs) = place_relation r (sort_relations rs)

-- The order of `(column.ordinal, column.name)`.
abbrev column_leb : CatalogColumn → CatalogColumn → Bool
column_leb c d = ltb c.ordinal d.ordinal || (eqb c.ordinal d.ordinal && text_leb c.name d.name)

pub place_column : CatalogColumn → List CatalogColumn → List CatalogColumn
place_column c [] = c ∷ []
place_column c (d ∷ ds) = if column_leb c d then c ∷ d ∷ ds else d ∷ place_column c ds

unfoldable pub sort_columns : List CatalogColumn → List CatalogColumn
unfolding place_column
sort_columns [] = []
sort_columns (c ∷ cs) = place_column c (sort_columns cs)

abbrev to_column_response : CatalogColumn → Json
to_column_response c = dict_json (
    ("name", string c.name)
    ∷ ("sql_name", string c.sql_name)
    ∷ ("ordinal", nat_json c.ordinal)
    ∷ ("data_type", string c.data_type)
    ∷ ("nullable", nullable_json c.nullable)
    ∷ ("description", optional c.comment)
    ∷ [])

-- The columns that a response shows.
unfoldable pub shown_columns : ℕ → CatalogRelation → List CatalogColumn
unfolding sort_columns
shown_columns max_columns r = take max_columns (sort_columns r.columns)

unfoldable pub columns_truncated : ℕ → CatalogRelation → Bool
unfolding shown_columns
columns_truncated max_columns r =
    ltb (length (shown_columns max_columns r)) (length (sort_columns r.columns))

unfoldable pub to_relation_response : ℕ → CatalogRelation → Json
unfolding shown_columns columns_truncated members
to_relation_response max_columns r = dict_json (
    ("name", string r.qualified_name)
    ∷ ("sql_name", string r.sql_name)
    ∷ ("kind", kind_json r.kind)
    ∷ ("description", optional r.comment)
    ∷ ("column_count", nat_json (length (sort_columns r.columns)))
    ∷ ("returned_column_count", nat_json (length (shown_columns max_columns r)))
    ∷ ("columns_truncated", boolean (columns_truncated max_columns r))
    ∷ ("columns", array (elements (map to_column_response (shown_columns max_columns r))))
    ∷ [])

unfoldable pub context_json : String → SourceProfile → PreparedMetadata → Bool → Json
unfolding sort_relations to_relation_response columns_truncated members
context_json sql_policy_revision source prepared stale =
    let relations = sort_relations prepared.snapshot.relations in
    let max_columns = source.budget.max_context_columns_per_relation in
    dict_json (
      ("source_id", string source.source_id)
      ∷ ("source_name", string source.name)
      ∷ ("source_description", string source.description)
      ∷ ("metadata_revision", string prepared.revision)
      ∷ ("sql_policy_revision", string sql_policy_revision)
      ∷ ("snapshot_status", string (if stale then "stale" else "fresh"))
      ∷ (
        "sql_capabilities",
        dict_json (
            ("functions", strings (sorted default_allowed_functions))
            ∷ ("cast_types", strings (sorted default_allowed_types))
            ∷ ("unqualified_cast_types", strings (sorted default_allowed_unqualified_types))
            ∷ []),
      )
      ∷ ("relations", array (elements (map (to_relation_response max_columns) relations)))
      ∷ ("truncated", boolean (any (columns_truncated max_columns) relations))
      ∷ [])

abbrev pub response_too_large : List String
response_too_large = "Metadata response exceeds its byte limit." ∷ []

-- The response, or the violation with which `MetadataUnavailableError` is raised.
unfoldable pub context_response :
    String → SourceProfile → PreparedMetadata → Bool → Result (List String) Json
context_response sql_policy_revision source prepared stale =
    let response = context_json sql_policy_revision source prepared stale in
    if ltb source.budget.max_metadata_response_bytes (byte_length (dumps response))
    then err response_too_large
    else ok response
