-- ===== src/Registry/Resolve.antt =====
-- `_resolve_source`, `_is_forbidden_schema` and `_require_unique` (source_catalog/registry.py). What Python
-- reads an integer from is a parameter.
use query_boy.Base.{
  ℕ, String, Bool, true, false, not, ◌&&◌, ◌||◌, List, [], ◌∷◌, ◌++◌, Option, none, some, any, leb,
  ltb, ◌==◌, starts_with, if◌then◌else◌,
}
use query_boy.Base.Dict.{Dict, lookup}
use query_boy.Base.Int.{ℤ, pos, negsuc}
use query_boy.Base.Sets.{all_different}
use query_boy.Base.Text.{strip, split, count_chars}
use query_boy.Base.Result.{ok, err, ◌>>=◌, raise_if, ◌>>◌}
use query_boy.Models.{
  BudgetProfile, SourceProfile, SourceEnvironment, test, production, staging, development,
  DatabaseAuthentication, password, client_certificate, view,
}
use query_boy.Registry.Failures.{
  RegistryConfigurationError, Configured, unknown_budget, unknown_database, invalid_host,
  invalid_port, duplicate_schemas, system_schema, password_outside_test, missing_variable,
}
use query_boy.Registry.Paths.{Parts, path_text}
use query_boy.Registry.Files.{
  DatabaseProfile, SourceFile, Authentication, password_env, client_certificates,
}

-- `str.casefold`, and `int` of a text, which is `none` where it raises `ValueError`.
pub record PythonText : Type 0 where
  pub casefold : String → String
  pub to_int : String → Option ℤ

-- `environment.get(name) if name is not None else None`
abbrev pub variable : Dict String → Option String → Option String
variable environment none = none
variable environment (some name) = lookup name environment

abbrev pub or_stripped : String → Option String → String
or_stripped host none = host
or_stripped host (some raw) = strip raw

unfoldable pub is_bad_part : String → Bool
unfolding strip
is_bad_part raw =
    let item = strip raw in
    item == "" || not (item == raw) || starts_with item "/" || starts_with item "@"

unfoldable pub is_bad_host : String → Bool
unfolding count_chars split is_bad_part
is_bad_host host = host == "" || ltb 253 (count_chars host) || any is_bad_part (split 44 host)

unfoldable pub resolve_host : Dict String → DatabaseProfile → Configured String
unfolding lookup strip is_bad_host
resolve_host environment database = do
  let host = or_stripped database.host (variable environment database.host_env)
  raise_if (is_bad_host host) invalid_host
  ok host

abbrev pub in_port_range : Option ℤ → Configured ℕ
in_port_range none = err invalid_port
in_port_range (some (negsuc n)) = err invalid_port
in_port_range (some (pos n)) = if leb 1 n && leb n 65535 then ok n else err invalid_port

abbrev pub port_number : PythonText → ℕ → Option String → Option ℤ
port_number py port none = some (pos port)
port_number py port (some raw) = py.to_int raw

unfoldable pub resolve_port : PythonText → Dict String → DatabaseProfile → Configured ℕ
unfolding lookup
resolve_port py environment database =
    in_port_range (port_number py database.port (variable environment database.port_env))

unfoldable pub is_forbidden_schema : PythonText → String → Bool
is_forbidden_schema py schema =
    py.casefold schema == "information_schema" || starts_with (py.casefold schema) "pg_"

unfoldable pub require_no_system_schema : PythonText → List String → Configured (Unit {0})
unfolding is_forbidden_schema
require_no_system_schema py [] = ok tt
require_no_system_schema py (schema ∷ schemas) =
    raise_if (is_forbidden_schema py schema) (system_schema schema)
    >> require_no_system_schema py schemas

unfoldable pub require_unique : List String → Configured (Unit {0})
unfolding all_different
require_unique values = raise_if (not (all_different values)) duplicate_schemas

abbrev pub is_test : SourceEnvironment → Bool
is_test test = true
is_test production = false
is_test staging = false
is_test development = false

abbrev pub password_of : String → Option String → Configured DatabaseAuthentication
password_of name none = err (missing_variable name)
password_of name (some secret) =
    if secret == "" then err (missing_variable name) else ok (password secret)

abbrev pub credential : Parts → String → String
credential directory name = path_text (directory ++ (name ∷ []))

unfoldable pub resolve_authentication :
    Parts → Dict String → SourceFile → Authentication → Configured DatabaseAuthentication
unfolding lookup path_text
resolve_authentication credentials environment parsed (password_env name) =
    raise_if (not (is_test parsed.environment)) password_outside_test
    >> password_of name (lookup name environment)
resolve_authentication credentials environment parsed client_certificates =
    let directory = credentials ++ (parsed.database_profile ∷ []) in
    ok (
      client_certificate (credential directory "ca.crt") (credential directory "client.crt")
        (credential directory "client.key"))

abbrev pub found {ℓ} : {A : Type ℓ} → RegistryConfigurationError → Option A → Configured A
found missing none = err missing
found missing (some value) = ok value

abbrev pub source_profile :
    SourceFile
    → BudgetProfile
    → DatabaseProfile
    → String
    → ℕ
    → DatabaseAuthentication
    → SourceProfile
source_profile parsed budget database host port authentication = record {
  source_id = parsed.source_id;
  name = parsed.name;
  description = parsed.description;
  connection = record {
    database_profile = parsed.database_profile;
    host = host;
    port = port;
    database = database.database;
    user = parsed.reader_user;
    sslmode = database.sslmode;
    authentication = authentication;
  };
  allowed_schemas = parsed.allowed_schemas;
  allowed_relation_kinds = view ∷ [];
  view_contract_version = parsed.view_contract_version;
  budget = budget;
  provenance = record {
    owner = parsed.owner;
    environment = parsed.environment;
    database_migration_ref = parsed.database_migration_ref;
  };
}

unfoldable pub resolve_source :
    PythonText
    → Dict BudgetProfile
    → Dict DatabaseProfile
    → Parts
    → Dict String
    → SourceFile
    → Configured SourceProfile
unfolding lookup resolve_host resolve_port require_unique require_no_system_schema
    resolve_authentication
resolve_source py budgets databases credentials environment parsed = do
  budget ← found (unknown_budget parsed.budget_profile) (lookup parsed.budget_profile budgets)
  database ←
      found (unknown_database parsed.database_profile) (lookup parsed.database_profile databases)
  host ← resolve_host environment database
  port ← resolve_port py environment database
  require_unique parsed.allowed_schemas
  require_no_system_schema py parsed.allowed_schemas
  authentication ← resolve_authentication credentials environment parsed database.authentication
  ok (source_profile parsed budget database host port authentication)
