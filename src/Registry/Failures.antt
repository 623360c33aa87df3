-- ===== src/Registry/Failures.antt =====
-- `RegistryConfigurationError` (source_catalog/registry.py), by the place that raises it.
use query_boy.Base.{String}
use query_boy.Base.Result.{Result}

pub data RegistryConfigurationError : Type 0 where
  invalid_configuration cannot_read no_sources unexpected_entry not_a_package :
      RegistryConfigurationError
  other_source_id not_below_config other_views : RegistryConfigurationError
  unknown_budget unknown_database : String → RegistryConfigurationError
  invalid_host invalid_port duplicate_schemas : RegistryConfigurationError
  system_schema : String → RegistryConfigurationError
  password_outside_test : RegistryConfigurationError
  missing_variable : String → RegistryConfigurationError

abbrev pub Configured {ℓ} : Type ℓ → Type ℓ
Configured A = Result RegistryConfigurationError A
