-- ===== src/Registry/Files.antt =====
-- The database and source files, and the packages of sources (source_catalog/registry.py).
use query_boy.Base.{
  ℕ, String, Bool, true, false, not, ◌&&◌, ◌||◌, List, [], ◌∷◌, ◌++◌, Option, none, some, all, any,
  map, leb, eqb, length,
}
use query_boy.Base.Dict.{Dict}
use query_boy.Base.Sets.{is_subset}
use query_boy.Base.Result.{err, raise_if}
use query_boy.Models.{RelationKind, SourceEnvironment, SslMode, disable, require, verify_full}
use query_boy.Registry.Failures.{
  Configured, cannot_read, not_a_package, not_below_config, other_views,
}
use query_boy.Registry.Names.{is_text, is_identifier, is_variable_name, is_stable_slug}
use query_boy.Registry.Paths.{Parts, parts_of, paths_equal, below_config}

-- `_PasswordAuthentication` and `_ClientCertificateAuthentication`
pub data Authentication : Type 0 where
  password_env : String → Authentication
  client_certificates : Authentication

-- `_DatabaseProfile`
pub record DatabaseProfile : Type 0 where
  pub host : String
  pub host_env : Option String
  pub port : ℕ
  pub port_env : Option String
  pub database : String
  pub sslmode : SslMode
  pub authentication : Authentication

abbrev pub is_optional_variable : Option String → Bool
is_optional_variable none = true
is_optional_variable (some name) = is_variable_name name

-- The variable of the authentication, and `require_verified_tls_for_client_certificates`.
abbrev pub is_authentication : SslMode → Authentication → Bool
is_authentication sslmode (password_env name) = is_variable_name name
is_authentication verify_full client_certificates = true
is_authentication disable client_certificates = false
is_authentication require client_certificates = false

unfoldable pub is_database_profile : DatabaseProfile → Bool
unfolding is_text is_variable_name is_identifier
is_database_profile p =
    is_text 253 p.host
    && is_optional_variable p.host_env
    && (leb 1 p.port && leb p.port 65535)
    && is_optional_variable p.port_env
    && is_identifier p.database
    && is_authentication p.sslmode p.authentication

-- `_DatabaseFile`
pub record DatabaseFile : Type 0 where
  pub version : ℕ
  pub profiles : Dict DatabaseProfile

unfoldable pub is_database_file : DatabaseFile → Bool
unfolding is_stable_slug is_database_profile
is_database_file f =
    all (λ (p : String × DatabaseProfile). is_stable_slug p.0 && is_database_profile p.1) f.profiles
    && eqb f.version 1
    && not (eqb (length f.profiles) 0)

-- `_SourceFile`, with its `_Provenance`.
pub record SourceFile : Type 0 where
  pub version : ℕ
  pub source_id : String
  pub name : String
  pub description : String
  pub owner : String
  pub environment : SourceEnvironment
  pub database_migration_ref : String
  pub database_profile : String
  pub reader_user : String
  pub allowed_schemas : List String
  pub allowed_relation_kinds : List RelationKind
  pub view_contract_version : ℕ
  pub budget_profile : String

-- `reject_ascii_control_characters`
unfoldable pub has_control : String → Bool
has_control String.[] = false
has_control (String.◌∷◌ c s) =
    let k = Prim.Native.Char.code c in leb k 31 || eqb k 127 || has_control s

unfoldable pub is_source_file : SourceFile → Bool
unfolding is_text is_identifier is_stable_slug has_control
is_source_file f =
    is_stable_slug f.source_id
    && is_text 200 f.name
    && is_text 2000 f.description
    && is_stable_slug f.owner
    && not (has_control f.database_migration_ref)
    && is_text 255 f.database_migration_ref
    && is_stable_slug f.database_profile
    && is_identifier f.reader_user
    && all is_identifier f.allowed_schemas
    && (leb 1 (length f.allowed_schemas) && leb (length f.allowed_schemas) 20)
    && eqb (length f.allowed_relation_kinds) 1
    && leb 1 f.view_contract_version
    && is_identifier f.budget_profile
    && eqb f.version 6

-- An entry of a directory.
pub record PackageFile : Type 0 where
  pub name : String
  pub is_symlink : Bool
  pub is_file : Bool

abbrev pub package_names : List String
package_names = "source.yaml" ∷ "views.sql" ∷ []

abbrev pub is_package : List PackageFile → Bool
is_package files =
    let names = map (λ (f : PackageFile). f.name) files in
    is_subset names package_names
    && is_subset package_names names
    && not (any (λ (f : PackageFile). f.is_symlink || not f.is_file) files)

-- `none` is a directory that cannot be read.
unfoldable pub require_source_package : Option (List PackageFile) → Configured (Unit {0})
unfolding is_subset
require_source_package none = err cannot_read
require_source_package (some files) = raise_if (not (is_package files)) not_a_package

abbrev pub require_views : Option Parts → SourceFile → Configured (Unit {0})
require_views none parsed = err not_below_config
require_views (some below) parsed =
    raise_if
      (not (paths_equal (parts_of parsed.database_migration_ref) (below ++ ("views.sql" ∷ []))))
      other_views

unfoldable pub require_sibling_view_reference : Parts → SourceFile → Configured (Unit {0})
unfolding below_config parts_of paths_equal
require_sibling_view_reference source_path parsed = require_views (below_config source_path) parsed
