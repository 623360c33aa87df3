-- ===== src/Registry/Budgets.antt =====
-- `_Budget`, `_BudgetFile` and `load_budget_profiles` (source_catalog/registry.py). A negative number is
-- below every bound, so the numbers of a budget are natural.
use query_boy.Base.{
  sym, ◌∙◌, if-false, if-true, true, ◌≡◌, inr, inl, Bool-cases, ℕ, ◌*◌, String, Bool, ◌&&◌, List,
  [], ◌∷◌, Option, none, some, all, map, leb, eqb, if◌then◌else◌,
}
use mathlib.Core.Path.{subst}
use query_boy.Base.Dict.{Dict}
use query_boy.Base.Result.{ok-injective, ok, err, ◌>>=◌}
use query_boy.Models.{BudgetProfile}
use query_boy.Registry.Failures.{Configured, invalid_configuration}
use query_boy.Registry.Names.{is_identifier}

pub record Budget : Type 0 where
  pub metadata_statement_timeout_ms : ℕ
  pub query_statement_timeout_ms : ℕ
  pub query_transaction_timeout_ms : ℕ
  pub query_queue_timeout_ms : ℕ
  pub lock_timeout_ms : ℕ
  pub work_mem_kb : ℕ
  pub temp_file_limit_kb : ℕ
  pub max_parallel_workers_per_gather : ℕ
  pub jit_enabled : Bool
  pub max_pool_size : ℕ
  pub max_concurrent_queries : ℕ
  pub max_metadata_relations : ℕ
  pub max_metadata_columns : ℕ
  pub max_columns_per_relation : ℕ
  pub max_context_columns_per_relation : ℕ
  pub max_metadata_response_bytes : ℕ
  pub max_result_rows : ℕ
  pub max_result_bytes : ℕ
  pub max_sql_bytes : ℕ
  pub max_plan_total_cost : ℕ
  pub max_plan_rows : ℕ
  pub max_plan_nodes : ℕ

-- `Field(ge=low, le=high)`
pub record Field : Type 0 where
  pub low : ℕ
  pub value : ℕ
  pub high : ℕ

abbrev pub field : ℕ → ℕ → ℕ → Field
field low high value = record { low = low; value = value; high = high }

abbrev pub is_admitted : Field → Bool
is_admitted f = leb f.low f.value && leb f.value f.high

unfoldable pub budget_fields : Budget → List Field
budget_fields b =
    field 100 30000 b.metadata_statement_timeout_ms
    ∷ field 100 60000 b.query_statement_timeout_ms
    ∷ field 100 300000 b.query_transaction_timeout_ms
    ∷ field 1 60000 b.query_queue_timeout_ms
    ∷ field 1 10000 b.lock_timeout_ms
    ∷ field 64 65536 b.work_mem_kb
    ∷ field 0 1048576 b.temp_file_limit_kb
    ∷ field 0 4 b.max_parallel_workers_per_gather
    ∷ field 1 20 b.max_pool_size
    ∷ field 1 20 b.max_concurrent_queries
    ∷ field 1 10000 b.max_metadata_relations
    ∷ field 1 100000 b.max_metadata_columns
    ∷ field 1 1600 b.max_columns_per_relation
    ∷ field 1 200 b.max_context_columns_per_relation
    ∷ field 1024 (100 * 1024 * 1024) b.max_metadata_response_bytes
    ∷ field 1 100000 b.max_result_rows
    ∷ field 1024 (100 * 1024 * 1024) b.max_result_bytes
    ∷ field 1024 (10 * 1024 * 1024) b.max_sql_bytes
    ∷ field 1 2147483647 b.max_plan_total_cost
    ∷ field 1 2147483647 b.max_plan_rows
    ∷ field 1 100000 b.max_plan_nodes
    ∷ []

-- `_Budget`: the fields, and `require_pool_capacity_for_admitted_queries`.
unfoldable pub is_budget : Budget → Bool
unfolding budget_fields
is_budget b = all is_admitted (budget_fields b) && leb b.max_concurrent_queries b.max_pool_size

pub record BudgetFile : Type 0 where
  pub version : ℕ
  pub profiles : Dict Budget

-- `_BudgetFile`
unfoldable pub is_budget_file : BudgetFile → Bool
unfolding is_identifier is_budget
is_budget_file f =
    all (λ (p : String × Budget). is_identifier p.0 && is_budget p.1) f.profiles && eqb f.version 2

-- `_parse_model`: what the file holds, if it can be read.
abbrev pub parse_model {ℓ} : {A : Type ℓ} → (A → Bool) → Option A → Configured A
parse_model valid none = err invalid_configuration
parse_model valid (some file) = if valid file then ok file else err invalid_configuration

pub parse_model-eq-ok {ℓ} :
    {A : Type ℓ} (valid : A → Bool) (file : Option A) {parsed : A}
    → parse_model valid file ≡ ok parsed
    → valid parsed ≡ true
parse_model-eq-ok valid none h = absurd (cc h)
parse_model-eq-ok valid (some file) h = elim (Bool-cases (valid file)) [
  | inl e ↦ subst (λ f. valid f ≡ true) (ok-injective (sym (if-true _ _ _ e) ∙ h)) e
  | inr e ↦ absurd (cc (sym (if-false _ _ _ e) ∙ h))
]

-- `BudgetProfile(name=name, version=version, **profile.model_dump())`
unfoldable pub budget_profile : String → ℕ → Budget → BudgetProfile
budget_profile name version b = record {
  name = name;
  version = version;
  metadata_statement_timeout_ms = b.metadata_statement_timeout_ms;
  query_statement_timeout_ms = b.query_statement_timeout_ms;
  query_transaction_timeout_ms = b.query_transaction_timeout_ms;
  query_queue_timeout_ms = b.query_queue_timeout_ms;
  lock_timeout_ms = b.lock_timeout_ms;
  work_mem_kb = b.work_mem_kb;
  temp_file_limit_kb = b.temp_file_limit_kb;
  max_parallel_workers_per_gather = b.max_parallel_workers_per_gather;
  jit_enabled = b.jit_enabled;
  max_pool_size = b.max_pool_size;
  max_concurrent_queries = b.max_concurrent_queries;
  max_metadata_relations = b.max_metadata_relations;
  max_metadata_columns = b.max_metadata_columns;
  max_columns_per_relation = b.max_columns_per_relation;
  max_context_columns_per_relation = b.max_context_columns_per_relation;
  max_metadata_response_bytes = b.max_metadata_response_bytes;
  max_result_rows = b.max_result_rows;
  max_result_bytes = b.max_result_bytes;
  max_sql_bytes = b.max_sql_bytes;
  max_plan_total_cost = b.max_plan_total_cost;
  max_plan_rows = b.max_plan_rows;
  max_plan_nodes = b.max_plan_nodes;
}

unfoldable pub load_budget_profiles : Option BudgetFile → Configured (Dict BudgetProfile)
unfolding is_budget_file budget_profile
load_budget_profiles file = do
  parsed ← parse_model is_budget_file file
  ok (map (λ (p : String × Budget). (p.0, budget_profile p.0 parsed.version p.1)) parsed.profiles)
