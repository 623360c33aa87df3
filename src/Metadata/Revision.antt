-- ===== src/Metadata/Revision.antt =====
-- metadata/revision.py, and `SQL_POLICY_REVISION` of guarded_query/sql_validation.py: fingerprints of
-- canonical JSON. SHA-256 is a parameter.
use query_boy.Base.{
  ℕ, suc, String, ◌<>◌, Bool, true, List, [], ◌∷◌, ◌++◌, Option, none, some, map, if◌then◌else◌,
}
use query_boy.Base.Int.{pos}
use query_boy.Base.Dict.{Dict}
use query_boy.Base.Sets.{text_leb}
use query_boy.Base.Json.{
  Json, null, boolean, number, string, array, object, Elements, nil, cons, Members, end, member,
  elements, dumps,
}
use query_boy.Models.{
  BudgetProfile, SourceProfile, CatalogColumn, CatalogRelation, CatalogSnapshot, RelationKind, view,
  Nullability, known, unknown,
}

-- `sorted(result, key=dumps)`
pub place_element : Json → Elements → Elements
place_element j nil = cons j nil
place_element j (cons i es) =
    if text_leb (dumps j) (dumps i) then cons j (cons i es) else cons i (place_element j es)

pub place_member : String → Json → Members → Members
place_member k v end = member k v end
place_member k v (member j w ms) =
    if text_leb k j then member k v (member j w ms) else member j w (place_member k v ms)

-- `_canonicalize` of JSON data: arrays in the order of their texts, objects in the order of their
-- keys and without those that are `None`.
unfoldable mutual
  unfolding place_element place_member

  pub canonicalize : Json → Json
  canonicalize null = null
  canonicalize (boolean b) = boolean b
  canonicalize (number n) = number n
  canonicalize (string s) = string s
  canonicalize (array es) = array (canonical_elements es)
  canonicalize (object ms) = object (canonical_members ms)

  pub canonical_elements : Elements → Elements
  canonical_elements nil = nil
  canonical_elements (cons j es) = place_element (canonicalize j) (canonical_elements es)

  pub canonical_members : Members → Members
  canonical_members end = end
  canonical_members (member k null ms) = canonical_members ms
  canonical_members (member k v ms) = place_member k (canonicalize v) (canonical_members ms)

-- Texts, texts or `None`, and lists of texts as JSON.
abbrev pub optional : Option String → Json
optional none = null
optional (some s) = string s

abbrev pub strings : List String → Json
strings xs = array (elements (map string xs))

abbrev pub kind_json : RelationKind → Json
kind_json view = string "view"

abbrev pub nullable_json : Nullability → Json
nullable_json (known b) = boolean b
nullable_json unknown = string "unknown"

abbrev pub nat_json : ℕ → Json
nat_json n = number (pos n)

-- An object from its items.
unfoldable pub members : Dict Json → Members
members [] = end
members ((k, v) ∷ rest) = member k v (members rest)

abbrev pub dict_json : Dict Json → Json
dict_json items = object (members items)

unfoldable pub canonical_time_policy_material : Json
unfolding members
canonical_time_policy_material = dict_json (
    ("version", nat_json 1)
    ∷ ("reader_session_timezone", string "UTC")
    ∷ ("aware_datetime", string "utc_isoformat_plus_00_00")
    ∷ ("naive_datetime", string "preserve_isoformat")
    ∷ ("date", string "preserve_isoformat")
    ∷ ("time", string "preserve_isoformat")
    ∷ ("timetz", string "preserve_isoformat")
    ∷ [])

unfoldable pub budget_json : BudgetProfile → Json
unfolding members
budget_json b = dict_json (
    ("name", string b.name)
    ∷ ("version", nat_json b.version)
    ∷ ("metadata_statement_timeout_ms", nat_json b.metadata_statement_timeout_ms)
    ∷ ("query_statement_timeout_ms", nat_json b.query_statement_timeout_ms)
    ∷ ("query_transaction_timeout_ms", nat_json b.query_transaction_timeout_ms)
    ∷ ("query_queue_timeout_ms", nat_json b.query_queue_timeout_ms)
    ∷ ("lock_timeout_ms", nat_json b.lock_timeout_ms)
    ∷ ("work_mem_kb", nat_json b.work_mem_kb)
    ∷ ("temp_file_limit_kb", nat_json b.temp_file_limit_kb)
    ∷ ("max_parallel_workers_per_gather", nat_json b.max_parallel_workers_per_gather)
    ∷ ("jit_enabled", boolean b.jit_enabled)
    ∷ ("max_pool_size", nat_json b.max_pool_size)
    ∷ ("max_concurrent_queries", nat_json b.max_concurrent_queries)
    ∷ ("max_metadata_relations", nat_json b.max_metadata_relations)
    ∷ ("max_metadata_columns", nat_json b.max_metadata_columns)
    ∷ ("max_columns_per_relation", nat_json b.max_columns_per_relation)
    ∷ ("max_context_columns_per_relation", nat_json b.max_context_columns_per_relation)
    ∷ ("max_metadata_response_bytes", nat_json b.max_metadata_response_bytes)
    ∷ ("max_result_rows", nat_json b.max_result_rows)
    ∷ ("max_result_bytes", nat_json b.max_result_bytes)
    ∷ ("max_sql_bytes", nat_json b.max_sql_bytes)
    ∷ ("max_plan_total_cost", nat_json b.max_plan_total_cost)
    ∷ ("max_plan_rows", nat_json b.max_plan_rows)
    ∷ ("max_plan_nodes", nat_json b.max_plan_nodes)
    ∷ [])

abbrev revision_column : CatalogColumn → Json
revision_column c = dict_json (
    ("name", string c.name)
    ∷ ("ordinal", nat_json c.ordinal)
    ∷ ("data_type", string c.data_type)
    ∷ ("nullable", nullable_json c.nullable)
    ∷ ("comment", optional c.comment)
    ∷ [])

-- `**({key: True} if flag else {})`
abbrev only_true : String → Bool → Dict Json
only_true key flag = if flag then (key, boolean true) ∷ [] else []

abbrev revision_relation : CatalogRelation → Json
revision_relation r = dict_json (
    ("schema", string r.schema)
    ∷ ("name", string r.name)
    ∷ ("kind", kind_json r.kind)
    ∷ ("comment", optional r.comment)
    ∷ ("definition_hash", optional r.definition_hash)
    ∷ (only_true "security_invoker" r.security_invoker
        ++ (only_true "security_barrier" r.security_barrier
            ++ ("columns", array (elements (map revision_column r.columns))) ∷ [])))

unfoldable pub revision_json : SourceProfile → CatalogSnapshot → Json
unfolding members
revision_json source catalog = dict_json (
    ("source_id", string source.source_id)
    ∷ ("source_name", string source.name)
    ∷ ("source_description", string source.description)
    ∷ ("view_contract_version", nat_json source.view_contract_version)
    ∷ ("canonical_time_policy", canonical_time_policy_material)
    ∷ ("allowed_schemas", strings source.allowed_schemas)
    ∷ ("allowed_relation_kinds", array (elements (map kind_json source.allowed_relation_kinds)))
    ∷ ("execution_budget", budget_json source.budget)
    ∷ ("relations", array (elements (map revision_relation catalog.relations)))
    ∷ [])

-- `enumerate(relation.columns, 1)`
pub signature_columns : ℕ → List CatalogColumn → List Json
signature_columns position [] = []
signature_columns position (c ∷ columns) =
    dict_json (
      ("position", nat_json position)
      ∷ ("name", string c.name)
      ∷ ("ordinal", nat_json c.ordinal)
      ∷ ("data_type", string c.data_type)
      ∷ ("nullable", nullable_json c.nullable)
      ∷ [])
    ∷ signature_columns (suc position) columns

pub signature_relation : CatalogRelation → Json
unfolding members signature_columns
signature_relation r = dict_json (
    ("schema", string r.schema)
    ∷ ("name", string r.name)
    ∷ ("kind", kind_json r.kind)
    ∷ ("definition_hash", optional r.definition_hash)
    ∷ ("security_invoker", boolean r.security_invoker)
    ∷ ("security_barrier", boolean r.security_barrier)
    ∷ ("columns", array (elements (signature_columns 1 r.columns)))
    ∷ [])

unfoldable pub signature_json : CatalogSnapshot → Json
unfolding members signature_relation
signature_json catalog =
    dict_json (("relations", array (elements (map signature_relation catalog.relations))) ∷ [])

module _ (sha256 : String → String) where
  abbrev fingerprint_of : Json → String
  fingerprint_of value = "sha256:" <> sha256 (dumps (canonicalize value))

  unfoldable pub create_metadata_revision : SourceProfile → CatalogSnapshot → String
  unfolding revision_json
  create_metadata_revision source catalog = fingerprint_of (revision_json source catalog)

  unfoldable pub create_view_structure_signature : CatalogSnapshot → String
  unfolding signature_json
  create_view_structure_signature catalog = fingerprint_of (signature_json catalog)
