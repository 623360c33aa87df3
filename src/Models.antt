-- ===== src/Models.antt =====
-- source_catalog/models.py and metadata/models.py: the data of a source and of its metadata.
use query_boy.Base.{ℕ, String, Bool, List, Option}

pub data SourceEnvironment : Type 0 where
  production staging development test : SourceEnvironment

pub data SslMode : Type 0 where
  disable require verify_full : SslMode

pub record BudgetProfile : Type 0 where
  pub name : String
  pub version : ℕ
  pub metadata_statement_timeout_ms : ℕ
  pub query_statement_timeout_ms : ℕ
  pub query_transaction_timeout_ms : ℕ
  pub query_queue_timeout_ms : ℕ
  pub lock_timeout_ms : ℕ
  pub work_mem_kb : ℕ
  pub temp_file_limit_kb : ℕ
  pub max_parallel_workers_per_gather : ℕ
  pub jit_enabled : Bool
  pub max_pool_size : ℕ
  pub max_concurrent_queries : ℕ
  pub max_metadata_relations : ℕ
  pub max_metadata_columns : ℕ
  pub max_columns_per_relation : ℕ
  pub max_context_columns_per_relation : ℕ
  pub max_metadata_response_bytes : ℕ
  pub max_result_rows : ℕ
  pub max_result_bytes : ℕ
  pub max_sql_bytes : ℕ
  pub max_plan_total_cost : ℕ
  pub max_plan_rows : ℕ
  pub max_plan_nodes : ℕ

pub data DatabaseAuthentication : Type 0 where
  password : String → DatabaseAuthentication
  client_certificate : String → String → String → DatabaseAuthentication

pub record ResolvedConnection : Type 0 where
  pub database_profile : String
  pub host : String
  pub port : ℕ
  pub database : String
  pub user : String
  pub sslmode : SslMode
  pub authentication : DatabaseAuthentication

pub record SourceProvenance : Type 0 where
  pub owner : String
  pub environment : SourceEnvironment
  pub database_migration_ref : String

-- `AllowedRelationKind` and `CatalogRelationKind` have the one value "view".
pub data RelationKind : Type 0 where
  view : RelationKind

pub record SourceProfile : Type 0 where
  pub source_id : String
  pub name : String
  pub description : String
  pub connection : ResolvedConnection
  pub allowed_schemas : List String
  pub allowed_relation_kinds : List RelationKind
  pub view_contract_version : ℕ
  pub budget : BudgetProfile
  pub provenance : SourceProvenance

pub data Nullability : Type 0 where
  known : Bool → Nullability
  unknown : Nullability

pub record CatalogColumn : Type 0 where
  pub name : String
  pub sql_name : String
  pub ordinal : ℕ
  pub data_type : String
  pub nullable : Nullability
  pub comment : Option String

pub record CatalogRelation : Type 0 where
  pub schema : String
  pub name : String
  pub qualified_name : String
  pub sql_name : String
  pub kind : RelationKind
  pub columns : List CatalogColumn
  pub comment : Option String
  pub definition_hash : Option String
  pub view_contract_source : Option String
  pub view_contract_version : Option ℕ
  pub security_invoker : Bool
  pub security_barrier : Bool

pub record CatalogSnapshot : Type 0 where
  pub relations : List CatalogRelation

pub record PreparedMetadata : Type 0 where
  pub snapshot : CatalogSnapshot
  pub revision : String
