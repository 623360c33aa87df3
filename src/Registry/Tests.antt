-- ===== src/Registry/Tests.antt =====
-- A configuration with one test source.
use query_boy.Base.{true, false, [], ◌∷◌, none, some, ◌==◌, ◌≡◌, refl, if◌then◌else◌}
use query_boy.Base.Int.{pos}
use query_boy.Base.Result.{ok}
use query_boy.Models.{disable, view, test, password}
use query_boy.Registry.Budgets.{Budget, budget_profile}
use query_boy.Registry.Files.{password_env, SourceFile}
use query_boy.Registry.Resolve.{PythonText, is_forbidden_schema, is_bad_host}
use query_boy.Registry.Registered.{Configuration, SourceRegistry, load}
use query_boy.Registry.Published.{IsConfigured, load-IsConfigured}

abbrev py : PythonText
py = record { casefold = λ s. s; to_int = λ s. if s == "6543" then some (pos 6543) else none }

abbrev small : Budget
small = record {
  metadata_statement_timeout_ms = 1000;
  query_statement_timeout_ms = 1000;
  query_transaction_timeout_ms = 2000;
  query_queue_timeout_ms = 100;
  lock_timeout_ms = 100;
  work_mem_kb = 1024;
  temp_file_limit_kb = 0;
  max_parallel_workers_per_gather = 0;
  jit_enabled = false;
  max_pool_size = 2;
  max_concurrent_queries = 2;
  max_metadata_relations = 10;
  max_metadata_columns = 100;
  max_columns_per_relation = 10;
  max_context_columns_per_relation = 10;
  max_metadata_response_bytes = 100000;
  max_result_rows = 10;
  max_result_bytes = 1024;
  max_sql_bytes = 1024;
  max_plan_total_cost = 100;
  max_plan_rows = 100;
  max_plan_nodes = 10;
}

abbrev shop : SourceFile
shop = record {
  version = 6;
  source_id = "shop";
  name = "Shop";
  description = "Orders of the shop";
  owner = "shop";
  environment = test;
  database_migration_ref = "config/sources/shop/views.sql";
  database_profile = "shop-db";
  reader_user = "reader";
  allowed_schemas = "sales" ∷ "stock" ∷ [];
  allowed_relation_kinds = view ∷ [];
  view_contract_version = 1;
  budget_profile = "small";
}

abbrev config : Configuration
config = record {
  source_directory = "/" ∷ "app" ∷ "config" ∷ "sources" ∷ [];
  entries = some (
      record {
        name = "shop";
        is_symlink = false;
        is_dir = true;
        files = some (
            record { name = "source.yaml"; is_symlink = false; is_file = true }
            ∷ record { name = "views.sql"; is_symlink = false; is_file = true }
            ∷ []);
        manifest = some shop;
      }
      ∷ []);
  budget_file = some (record { version = 2; profiles = ("small", small) ∷ [] });
  database_file = some (record {
    version = 1;
    profiles =
        (
          "shop-db",
          record {
            host = "localhost";
            host_env = none;
            port = 5432;
            port_env = some "SHOP_PORT";
            database = "shop";
            sslmode = disable;
            authentication = password_env "SHOP_PASSWORD";
          },
        )
        ∷ [];
  });
  credential_directory = "/" ∷ "run" ∷ [];
  environment = ("SHOP_PORT", "6543") ∷ ("SHOP_PASSWORD", "secret") ∷ [];
}

abbrev registry : SourceRegistry
registry = record {
  sources =
      (
        "shop",
        record {
          source_id = "shop";
          name = "Shop";
          description = "Orders of the shop";
          connection = record {
            database_profile = "shop-db";
            host = "localhost";
            port = 6543;
            database = "shop";
            user = "reader";
            sslmode = disable;
            authentication = password "secret";
          };
          allowed_schemas = "sales" ∷ "stock" ∷ [];
          allowed_relation_kinds = view ∷ [];
          view_contract_version = 1;
          budget = budget_profile "small" 2 small;
          provenance = record {
            owner = "shop";
            environment = test;
            database_migration_ref = "config/sources/shop/views.sql";
          };
        },
      )
      ∷ [];
}

loaded : load py config ≡ ok registry
unfolding load
loaded = refl

load-IsConfigured_example : IsConfigured py config registry
load-IsConfigured_example = load-IsConfigured py config registry loaded

system_schemas : is_forbidden_schema py "pg_toast" ≡ true
unfolding is_forbidden_schema
system_schemas = refl

user_schema : is_forbidden_schema py "sales_pg_" ≡ false
unfolding is_forbidden_schema
user_schema = refl

socket_directory : is_bad_host "db1,/var/run" ≡ true
unfolding is_bad_host
socket_directory = refl

two_hosts : is_bad_host "db1,db2" ≡ false
unfolding is_bad_host
two_hosts = refl
