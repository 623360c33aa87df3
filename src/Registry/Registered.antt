-- ===== src/Registry/Registered.antt =====
-- `SourceRegistry` (source_catalog/registry.py). The entries of the source directory come in the order of
-- their paths, as `sorted` leaves them.
use query_boy.Base.{String, Bool, not, ◌||◌, List, [], ◌∷◌, ◌++◌, Option, none, some, map, ◌==◌}
use query_boy.Base.Dict.{Dict, lookup, insert, keys, values}
use query_boy.Base.Sorting.{sort_by}
use query_boy.Base.Result.{ok, err, ◌>>=◌, raise_if, ◌>>◌}
use query_boy.Models.{SourceProfile, BudgetProfile}
use query_boy.Registry.Failures.{
  Configured, cannot_read, no_sources, unexpected_entry, other_source_id,
}
use query_boy.Registry.Paths.{Parts}
use query_boy.Registry.Budgets.{BudgetFile, parse_model, load_budget_profiles}
use query_boy.Registry.Files.{
  DatabaseProfile, DatabaseFile, is_database_file, SourceFile, is_source_file, PackageFile,
  require_source_package, require_sibling_view_reference,
}
use query_boy.Registry.Resolve.{PythonText, resolve_source}

pub record SourceRegistry : Type 0 where
  pub sources : Dict SourceProfile

-- An entry of the source directory: its files and its manifest, where they can be read.
pub record SourceEntry : Type 0 where
  pub name : String
  pub is_symlink : Bool
  pub is_dir : Bool
  pub files : Option (List PackageFile)
  pub manifest : Option SourceFile

-- What the files and the environment hold.
pub record Configuration : Type 0 where
  pub source_directory : Parts
  pub entries : Option (List SourceEntry)
  pub budget_file : Option BudgetFile
  pub database_file : Option DatabaseFile
  pub credential_directory : Parts
  pub environment : Dict String

abbrev pub index_from : Dict SourceProfile → List SourceProfile → Dict SourceProfile
index_from sources [] = sources
index_from sources (source ∷ more) = index_from (insert source.source_id source sources) more

-- `SourceRegistry(sources)`
unfoldable pub registry_of : List SourceProfile → SourceRegistry
unfolding insert
registry_of sources = record { sources = index_from [] sources }

module _ (py : PythonText) (config : Configuration) where
  unfoldable pub load_source :
      Dict BudgetProfile → Dict DatabaseProfile → SourceEntry → Configured SourceProfile
  unfolding require_source_package is_source_file require_sibling_view_reference resolve_source
  load_source budgets databases entry = do
    raise_if (entry.is_symlink || not entry.is_dir) unexpected_entry
    require_source_package entry.files
    parsed ← parse_model is_source_file entry.manifest
    raise_if (not (entry.name == parsed.source_id)) other_source_id
    require_sibling_view_reference (config.source_directory ++ (entry.name ∷ [])) parsed
    resolve_source py budgets databases config.credential_directory config.environment parsed

  unfoldable pub load_sources :
      Dict BudgetProfile → Dict DatabaseProfile → List SourceEntry → Configured (List SourceProfile)
  unfolding load_source
  load_sources budgets databases [] = ok []
  load_sources budgets databases (entry ∷ entries) =
      load_source budgets databases entry >>= λ source.
      load_sources budgets databases entries >>= λ sources. ok (source ∷ sources)

  abbrev pub source_entries : Option (List SourceEntry) → Configured (List SourceEntry)
  source_entries none = err cannot_read
  source_entries (some []) = err no_sources
  source_entries (some (entry ∷ entries)) = ok (entry ∷ entries)

  unfoldable pub load : Configured SourceRegistry
  unfolding load_budget_profiles is_database_file load_sources registry_of
  load = do
    budgets ← load_budget_profiles config.budget_file
    databases ← parse_model is_database_file config.database_file
    entries ← source_entries config.entries
    sources ← load_sources budgets databases.profiles entries
    ok (registry_of sources)

-- What `list` shows of a source.
pub record Listed : Type 0 where
  pub source_id : String
  pub name : String
  pub description : String

abbrev pub listed : SourceProfile → Listed
listed source = record {
  source_id = source.source_id;
  name = source.name;
  description = source.description;
}

unfoldable pub list : SourceRegistry → List Listed
unfolding sort_by values
list registry = sort_by (λ (l : Listed). l.source_id) (map listed (values registry.sources))

unfoldable pub get : SourceRegistry → String → Option SourceProfile
unfolding lookup
get registry source_id = lookup source_id registry.sources

-- A set, as the list of its members.
unfoldable pub source_ids : SourceRegistry → List String
unfolding keys
source_ids registry = keys registry.sources
