-- ===== src/Composition/Tests.antt =====
-- A process that listens on all interfaces, with an empty variable for the policy file.
use query_boy.Base.{String, false, [], ◌∷◌, Option, none, some, ◌==◌, ◌≡◌, ◌↔◌, refl}
use query_boy.Base.Dict.{Dict, lookup}
use query_boy.Base.Result.{ok}
use query_boy.Config.{
  Environment, Libraries, RuntimeConfig, is_loopback, without_empty_token, load_runtime_config,
}
use query_boy.Access.{PolicyFile, local, authenticate}
use query_boy.Registry.Paths.{Parts}
use query_boy.Composition.{access_policy}
use query_boy.Composition.Anonymous.{ServesAnyone, load_runtime_config-local_iff}

abbrev environment_of : Option String → Option String → Environment
environment_of token file = record {
  host = "0.0.0.0";
  port = 3000;
  log_level = "info";
  api_token = token;
  source_dir = none;
  budget_file = none;
  database_file = none;
  database_credential_directory = "/run/secrets/query-man/databases";
  access_policy_file = file;
  cache_ttl_ms = 30000;
  max_stale_ms = 300000;
  retry_delay_ms = 5000;
  shutdown_grace_ms = 10000;
}

-- The variables of the two settings, and the default of all others.
abbrev py : Libraries
py = record {
  read = λ values. some (
      environment_of (lookup "QUERY_MAN_API_TOKEN" values)
        (lookup "QUERY_MAN_ACCESS_POLICY_FILE" values));
  lower = λ s. s;
  casefold = λ s. s;
  loopback_address = λ host. some (host == "127.0.0.1");
}

abbrev values : Dict String
values = ("QUERY_MAN_HOST", "0.0.0.0") ∷ ("QUERY_MAN_ACCESS_POLICY_FILE", "") ∷ []

abbrev config : RuntimeConfig
config = record {
  host = "0.0.0.0";
  port = 3000;
  log_level = "info";
  api_token = none;
  source_directory = "/" ∷ "app" ∷ "config" ∷ "sources" ∷ [];
  budget_file = "/" ∷ "app" ∷ "config" ∷ "budget-profiles.yaml" ∷ [];
  database_file = "/" ∷ "app" ∷ "config" ∷ "database-profiles.yaml" ∷ [];
  database_credential_directory = "/" ∷ "run" ∷ "secrets" ∷ "query-man" ∷ "databases" ∷ [];
  access_policy_file = none;
  metadata_cache_ttl_ms = 30000;
  metadata_max_stale_ms = 300000;
  metadata_retry_delay_ms = 5000;
  shutdown_grace_ms = 10000;
}

accepted : load_runtime_config py ("/" ∷ "app" ∷ []) values ≡ ok config
unfolding load_runtime_config
accepted = refl

all_interfaces : is_loopback py config.host ≡ false
unfolding is_loopback
all_interfaces = refl

-- No policy file is read.
abbrev no_files : Parts → PolicyFile
no_files path = record { version = 0; callers = [] }

load_runtime_config-local_iff_example :
    ServesAnyone (λ token. token) no_files [] (access_policy (λ token. token) no_files [] config)
    ↔ ((e : Environment) × (py.read (without_empty_token py values) ≡ some e)
        × (e.access_policy_file ≡ some ""))
load_runtime_config-local_iff_example =
    load_runtime_config-local_iff (λ token. token) no_files [] py ("/" ∷ "app" ∷ []) values config
      accepted all_interfaces

-- It serves the anonymous caller.
serves_anyone :
    ServesAnyone (λ token. token) no_files [] (access_policy (λ token. token) no_files [] config)
unfolding access_policy authenticate local
serves_anyone = (local, _, refl, refl)
