-- ===== src/Metadata/Samples.antt =====
-- A source with one view, for the tests of the modules that read metadata.
use query_boy.Base.{String, true, false, [], ◌∷◌, none, some}
use query_boy.Operations.{reset}
use query_boy.Models.{
  BudgetProfile, SourceProfile, development, disable, password, view, known, CatalogRelation,
  CatalogSnapshot, PreparedMetadata,
}
use query_boy.Metadata.Service.{Settings, MetadataState}

abbrev pub budget : BudgetProfile
budget = record {
  name = "small";
  version = 1;
  metadata_statement_timeout_ms = 1000;
  query_statement_timeout_ms = 1000;
  query_transaction_timeout_ms = 2000;
  query_queue_timeout_ms = 100;
  lock_timeout_ms = 100;
  work_mem_kb = 1024;
  temp_file_limit_kb = 0;
  max_parallel_workers_per_gather = 0;
  jit_enabled = false;
  max_pool_size = 2;
  max_concurrent_queries = 1;
  max_metadata_relations = 10;
  max_metadata_columns = 100;
  max_columns_per_relation = 10;
  max_context_columns_per_relation = 10;
  max_metadata_response_bytes = 100000;
  max_result_rows = 10;
  max_result_bytes = 1000;
  max_sql_bytes = 1000;
  max_plan_total_cost = 100;
  max_plan_rows = 100;
  max_plan_nodes = 10;
}

abbrev pub sales : SourceProfile
sales = record {
  source_id = "sales";
  name = "Sales";
  description = "Orders of the shop";
  connection = record {
    database_profile = "sales";
    host = "localhost";
    port = 5432;
    database = "sales";
    user = "reader";
    sslmode = disable;
    authentication = password "secret";
  };
  allowed_schemas = "sales" ∷ [];
  allowed_relation_kinds = view ∷ [];
  view_contract_version = 1;
  budget = budget;
  provenance = record {
    owner = "shop";
    environment = development;
    database_migration_ref = "0001";
  };
}

abbrev pub orders : CatalogRelation
orders = record {
  schema = "sales";
  name = "orders";
  qualified_name = "sales.orders";
  sql_name = "\"sales\".\"orders\"";
  kind = view;
  columns =
      (record {
        name = "id";
        sql_name = "\"id\"";
        ordinal = 1;
        data_type = "bigint";
        nullable = known false;
        comment = none;
      }
        ∷ []);
  comment = some "One row for each order";
  definition_hash = some "50fd";
  view_contract_source = some "sales";
  view_contract_version = some 1;
  security_invoker = true;
  security_barrier = true;
}

abbrev pub snapshot : CatalogSnapshot
snapshot = record { relations = orders ∷ [] }

abbrev pub sha256 : String → String
sha256 s = "e3b0"

abbrev pub settings : Settings
settings = record { cache_ttl_ms = 30000; max_stale_ms = 300000; refresh_retry_ms = 5000 }

abbrev pub fresh_state : MetadataState
fresh_state = record { cache = []; signatures = []; operations = reset }

abbrev pub value : PreparedMetadata
value = record { snapshot = snapshot; revision = "sha256:e3b0" }
