-- ===== src/Registry/Bounded.antt =====
-- The budgets of a file that is accepted (`_Budget`, source_catalog/registry.py).
use mathlib.Core.Path.{subst}
use query_boy.Base.{
  ℕ, String, true, List, [], ◌∷◌, Option, some, All, all, ◌*◌, leb→le, eqb→eq, and-eq-true, ◌≤◌,
  ◌≡◌, refl, sym, ◌∙◌, ap,
}
use query_boy.Base.Dict.{Dict, lookup}
use query_boy.Base.Keys.{all-lookup, lookup-map}
use query_boy.Base.Result.{ok, >>=-eq-ok, ok-injective}
use query_boy.Models.{BudgetProfile}
use query_boy.Registry.Budgets.{
  Budget, BudgetFile, Field, is_admitted, budget_fields, is_budget, is_budget_file, budget_profile,
  parse_model, parse_model-eq-ok, load_budget_profiles,
}

abbrev pub Within : ℕ → ℕ → ℕ → Type 0
Within low high value = (low ≤ value) × (value ≤ high)

-- A budget whose numbers are within the documented bounds.
pub record IsBounded (b : BudgetProfile) : Type 0 where
  pub second_version : b.version ≡ 2
  pub enough_connections : b.max_concurrent_queries ≤ b.max_pool_size
  pub metadata_statement_timeout_ms : Within 100 30000 b.metadata_statement_timeout_ms
  pub query_statement_timeout_ms : Within 100 60000 b.query_statement_timeout_ms
  pub query_transaction_timeout_ms : Within 100 300000 b.query_transaction_timeout_ms
  pub query_queue_timeout_ms : Within 1 60000 b.query_queue_timeout_ms
  pub lock_timeout_ms : Within 1 10000 b.lock_timeout_ms
  pub work_mem_kb : Within 64 65536 b.work_mem_kb
  pub temp_file_limit_kb : Within 0 1048576 b.temp_file_limit_kb
  pub max_parallel_workers_per_gather : Within 0 4 b.max_parallel_workers_per_gather
  pub max_pool_size : Within 1 20 b.max_pool_size
  pub max_concurrent_queries : Within 1 20 b.max_concurrent_queries
  pub max_metadata_relations : Within 1 10000 b.max_metadata_relations
  pub max_metadata_columns : Within 1 100000 b.max_metadata_columns
  pub max_columns_per_relation : Within 1 1600 b.max_columns_per_relation
  pub max_context_columns_per_relation : Within 1 200 b.max_context_columns_per_relation
  pub max_metadata_response_bytes : Within 1024 (100 * 1024 * 1024) b.max_metadata_response_bytes
  pub max_result_rows : Within 1 100000 b.max_result_rows
  pub max_result_bytes : Within 1024 (100 * 1024 * 1024) b.max_result_bytes
  pub max_sql_bytes : Within 1024 (10 * 1024 * 1024) b.max_sql_bytes
  pub max_plan_total_cost : Within 1 2147483647 b.max_plan_total_cost
  pub max_plan_rows : Within 1 2147483647 b.max_plan_rows
  pub max_plan_nodes : Within 1 100000 b.max_plan_nodes

all_admitted :
    (fields : List Field)
    → all is_admitted fields ≡ true
    → All (λ (f : Field). Within f.low f.high f.value) fields
all_admitted [] h = tt
all_admitted (f ∷ fields) h =
    let (one, others) = and-eq-true _ _ h in
    let (low, high) = and-eq-true _ _ one in
    ((leb→le _ _ low, leb→le _ _ high), all_admitted fields others)

is_budget-IsBounded :
    (name : String) (b : Budget) → is_budget b ≡ true → IsBounded (budget_profile name 2 b)
unfolding is_budget budget_fields budget_profile
is_budget-IsBounded name b h =
    let (fields, connections) = and-eq-true _ _ h in
    let a = all_admitted (budget_fields b) fields in
    record {
      second_version = refl;
      enough_connections = leb→le _ _ connections;
      metadata_statement_timeout_ms = a.0;
      query_statement_timeout_ms = a.1.0;
      query_transaction_timeout_ms = a.1.1.0;
      query_queue_timeout_ms = a.1.1.1.0;
      lock_timeout_ms = a.1.1.1.1.0;
      work_mem_kb = a.1.1.1.1.1.0;
      temp_file_limit_kb = a.1.1.1.1.1.1.0;
      max_parallel_workers_per_gather = a.1.1.1.1.1.1.1.0;
      max_pool_size = a.1.1.1.1.1.1.1.1.0;
      max_concurrent_queries = a.1.1.1.1.1.1.1.1.1.0;
      max_metadata_relations = a.1.1.1.1.1.1.1.1.1.1.0;
      max_metadata_columns = a.1.1.1.1.1.1.1.1.1.1.1.0;
      max_columns_per_relation = a.1.1.1.1.1.1.1.1.1.1.1.1.0;
      max_context_columns_per_relation = a.1.1.1.1.1.1.1.1.1.1.1.1.1.0;
      max_metadata_response_bytes = a.1.1.1.1.1.1.1.1.1.1.1.1.1.1.0;
      max_result_rows = a.1.1.1.1.1.1.1.1.1.1.1.1.1.1.1.0;
      max_result_bytes = a.1.1.1.1.1.1.1.1.1.1.1.1.1.1.1.1.0;
      max_sql_bytes = a.1.1.1.1.1.1.1.1.1.1.1.1.1.1.1.1.1.0;
      max_plan_total_cost = a.1.1.1.1.1.1.1.1.1.1.1.1.1.1.1.1.1.1.0;
      max_plan_rows = a.1.1.1.1.1.1.1.1.1.1.1.1.1.1.1.1.1.1.1.0;
      max_plan_nodes = a.1.1.1.1.1.1.1.1.1.1.1.1.1.1.1.1.1.1.1.1.0;
    }

pub load_budget_profiles-IsBounded :
    (file : Option BudgetFile) (budgets : Dict BudgetProfile) (k : String) (profile : BudgetProfile)
    → load_budget_profiles file ≡ ok budgets
    → lookup k budgets ≡ some profile
    → IsBounded profile
unfolding load_budget_profiles is_budget_file
load_budget_profiles-IsBounded file budgets k profile h at =
    let (parsed, read, made) = >>=-eq-ok (parse_model is_budget_file file) _ h in
    let (entries, version) = and-eq-true _ _ (parse_model-eq-ok is_budget_file file read) in
    let (b, found, same) =
      lookup-map (λ n b. budget_profile n parsed.version b) k profile parsed.profiles
        (subst (λ (d : Dict BudgetProfile). lookup k d ≡ some profile) (sym (ok-injective made))
          at) in
    let (named, bounded) = and-eq-true _ _ (all-lookup _ k b parsed.profiles entries found) in
    subst IsBounded (sym (same ∙ ap (λ v. budget_profile k v b) (eqb→eq _ _ version)))
      (is_budget-IsBounded k b bounded)
