-- ===== src/Config.antt =====
-- runtime/config.py: the configuration of the process, read from its environment. What pydantic makes of the
-- variables, and what the address library says of a host, are parameters.
use query_boy.Base.{
  starts_with, ℕ, String, Bool, true, false, not, ◌&&◌, List, [], ◌∷◌, ◌++◌, Option, none, some,
  leb, ◌==◌, if◌then◌else◌,
}
use query_boy.Base.Dict.{Dict, lookup, erase}
use query_boy.Base.Sets.{contains}
use query_boy.Base.Text.{count_chars}
use query_boy.Base.Result.{Result, ok, err, ◌>>=◌, raise_if, ◌>>◌}
use query_boy.Registry.Paths.{Parts, parts_of}

abbrev pub retired_source_authority_settings : List String
retired_source_authority_settings =
    "QUERY_MAN_SOURCE_MODE" ∷ "QUERY_MAN_CONTROL_DSN" ∷ "QUERY_MAN_SOURCE_ENCRYPTION_KEY"
    ∷ "QUERY_MAN_REPLICA_ID" ∷ "QUERY_MAN_SOURCE_RELOAD_INTERVAL_MS" ∷ []

-- `_Environment`, with the text of the log level as it is given.
pub record Environment : Type 0 where
  pub host : String
  pub port : ℕ
  pub log_level : String
  pub api_token : Option String
  pub source_dir : Option String
  pub budget_file : Option String
  pub database_file : Option String
  pub database_credential_directory : String
  pub access_policy_file : Option String
  pub cache_ttl_ms : ℕ
  pub max_stale_ms : ℕ
  pub retry_delay_ms : ℕ
  pub shutdown_grace_ms : ℕ

-- What is used of Python and its libraries: pydantic's reading of the variables, which is `none` where a
-- variable does not have the type of its field, `str.lower`, `str.casefold`, and `is_loopback` of an
-- address, which is `none` where the host is no address.
pub record Libraries : Type 0 where
  pub read : Dict String → Option Environment
  pub lower : String → String
  pub casefold : String → String
  pub loopback_address : String → Option Bool

pub record RuntimeConfig : Type 0 where
  pub host : String
  pub port : ℕ
  pub log_level : String
  pub api_token : Option String
  pub source_directory : Parts
  pub budget_file : Parts
  pub database_file : Parts
  pub database_credential_directory : Parts
  pub access_policy_file : Option Parts
  pub metadata_cache_ttl_ms : ℕ
  pub metadata_max_stale_ms : ℕ
  pub metadata_retry_delay_ms : ℕ
  pub shutdown_grace_ms : ℕ

-- The `ValueError` of each place.
pub data ConfigurationError : Type 0 where
  retired : List String → ConfigurationError
  invalid two_authentications no_authentication : ConfigurationError

abbrev pub Configured : Type 0 → Type 0
Configured A = Result ConfigurationError A

-- The names that are in the environment.
abbrev pub present : Dict String → List String → List String
present values [] = []
present values (name ∷ names) = elim (lookup name values) [
  | none ↦ present values names
  | some value ↦ name ∷ present values names
]

abbrev pub log_levels : List String
log_levels = "critical" ∷ "fatal" ∷ "error" ∷ "warning" ∷ "warn" ∷ "info" ∷ "debug" ∷ []

abbrev pub is_token : Option String → Bool
is_token none = true
is_token (some token) = leb 32 (count_chars token) && leb (count_chars token) 512

abbrev pub is_between : ℕ → ℕ → ℕ → Bool
is_between low high n = leb low n && leb n high

module _ (py : Libraries) where
  -- The bounds of the fields and the two validators.
  unfoldable pub is_environment : Environment → Bool
  unfolding count_chars contains
  is_environment e =
      leb 1 (count_chars e.host)
      && is_between 1 65535 e.port
      && is_token e.api_token
      && leb 1 (count_chars e.database_credential_directory)
      && is_between 0 3600000 e.cache_ttl_ms
      && is_between 0 86400000 e.max_stale_ms
      && is_between 100 300000 e.retry_delay_ms
      && is_between 0 300000 e.shutdown_grace_ms
      && contains log_levels (py.lower e.log_level)
      && starts_with e.database_credential_directory "/"

  abbrev pub or_false : Option Bool → Bool
  or_false none = false
  or_false (some b) = b

  unfoldable pub is_loopback : String → Bool
  is_loopback host =
      if py.casefold host == "localhost" then true else or_false (py.loopback_address host)

  -- `values.pop("QUERY_MAN_API_TOKEN")` of an empty token.
  unfoldable pub without_empty_token : Dict String → Dict String
  unfolding lookup erase
  without_empty_token values = elim (lookup "QUERY_MAN_API_TOKEN" values) [
    | none ↦ values
    | some token ↦ if token == "" then erase "QUERY_MAN_API_TOKEN" values else values
  ]

  abbrev pub validated : Option Environment → Configured Environment
  validated none = err invalid
  validated (some e) = if is_environment e then ok e else err invalid

  abbrev pub is_given : Option String → Bool
  is_given none = false
  is_given (some s) = true

  -- `Path(s) if s else default`
  abbrev pub path_or : Parts → Option String → Parts
  path_or default none = default
  path_or default (some s) = if s == "" then default else parts_of s

  abbrev pub optional_path : Option String → Option Parts
  optional_path none = none
  optional_path (some s) = if s == "" then none else some (parts_of s)

  abbrev pub config_of : Parts → Environment → RuntimeConfig
  config_of root e = record {
    host = e.host;
    port = e.port;
    log_level = py.lower e.log_level;
    api_token = e.api_token;
    source_directory = path_or (root ++ ("config" ∷ "sources" ∷ [])) e.source_dir;
    budget_file = path_or (root ++ ("config" ∷ "budget-profiles.yaml" ∷ [])) e.budget_file;
    database_file = path_or (root ++ ("config" ∷ "database-profiles.yaml" ∷ [])) e.database_file;
    database_credential_directory = parts_of e.database_credential_directory;
    access_policy_file = optional_path e.access_policy_file;
    metadata_cache_ttl_ms = e.cache_ttl_ms;
    metadata_max_stale_ms = e.max_stale_ms;
    metadata_retry_delay_ms = e.retry_delay_ms;
    shutdown_grace_ms = e.shutdown_grace_ms;
  }

  abbrev pub refuse_retired : List String → Configured (Unit {0})
  refuse_retired [] = ok tt
  refuse_retired (name ∷ names) = err (retired (name ∷ names))

  -- `root` is the directory that the process was given, resolved.
  unfoldable pub load_runtime_config : Parts → Dict String → Configured RuntimeConfig
  unfolding lookup is_environment is_loopback without_empty_token parts_of
  load_runtime_config root values = do
    refuse_retired (present values retired_source_authority_settings)
    parsed ← validated (py.read (without_empty_token values))
    raise_if (is_given parsed.api_token && is_given parsed.access_policy_file) two_authentications
    raise_if
        (not (is_loopback parsed.host)
          && not (is_given parsed.api_token)
          && not (is_given parsed.access_policy_file))
        no_authentication
    ok (config_of root parsed)
