-- ===== src/Registry/Published.antt =====
-- The registry that was loaded (`SourceRegistry`, source_catalog/registry.py).
use mathlib.Core.Path.{subst}
use query_boy.Base.{
  String, true, List, [], ◌∷◌, Option, none, some, map, All, ◌≡◌, refl, ◌∙◌, ap, inl, inr,
}
use query_boy.Base.Dict.{Dict, lookup, insert, keys, values}
use query_boy.Base.Keys.{lookup-insert-cases, distinct, keys-insert}
use query_boy.Base.Sets.{all_different}
use query_boy.Base.Result.{ok, >>=-eq-ok, ok-injective}
use query_boy.Models.{SourceProfile}
use query_boy.Registry.Bounded.{load_budget_profiles-IsBounded}
use query_boy.Registry.Budgets.{parse_model-eq-ok, parse_model, load_budget_profiles}
use query_boy.Registry.Files.{is_database_file}
use query_boy.Registry.Resolve.{PythonText}
use query_boy.Registry.Registered.{
  SourceRegistry, SourceEntry, Configuration, index_from, registry_of, load_sources, source_entries,
  load, get, source_ids,
}
use query_boy.Base.Sets.{sorted}
use query_boy.Base.Sorting.{map-sort_by}
use query_boy.Base.Keys.{map-values, all_different-distinct}
use query_boy.Registry.Registered.{list, Listed, listed}
use query_boy.Registry.Publishable.{
  IsPublishable, AreGood, load_sources-IsPublishable, database_profile_lem,
}

-- The registry of sources: what is found in it, and its keys.
index_from-holds {κ} :
    (P : SourceProfile → Type κ) (sources : List SourceProfile) (d : Dict SourceProfile)
    → All P sources
    → ((k : String) (s : SourceProfile) → lookup k d ≡ some s → P s × (s.source_id ≡ k))
    → (k : String) (s : SourceProfile) → lookup k (index_from d sources) ≡ some s
    → P s × (s.source_id ≡ k)
index_from-holds P [] d h before k s at = before k s at
index_from-holds P (source ∷ sources) d (p, h) before k s at =
    index_from-holds P sources (insert source.source_id source d) h
      (λ j t found. elim (lookup-insert-cases source.source_id j source t d found) [
        | inl (same, here) ↦ subst (λ (u : SourceProfile). P u × (u.source_id ≡ j)) here (p, same)
        | inr earlier ↦ before j t earlier
      ])
      k s at

keys-index_from :
    (sources : List SourceProfile) (d : Dict SourceProfile)
    → keys (index_from d sources)
      ≡ distinct (keys d) (map (λ (s : SourceProfile). s.source_id) sources)
unfolding distinct
keys-index_from [] d = refl
keys-index_from (source ∷ sources) d =
    keys-index_from sources (insert source.source_id source d)
    ∙ ap (λ seen. distinct seen (map (λ (s : SourceProfile). s.source_id) sources))
        (keys-insert source.source_id source d)

-- A registry that was loaded from its configuration.
pub record IsConfigured (py : PythonText) (config : Configuration) (registry : SourceRegistry)
    : Type 0 where
  pub entries : List SourceEntry
  pub given_entries : config.entries ≡ some entries
  pub ids : source_ids registry ≡ distinct [] (map (λ (e : SourceEntry). e.name) entries)
  pub listing : map (λ (l : Listed). l.source_id) (list registry) ≡ sorted (source_ids registry)
  pub sources :
      (source_id : String) (source : SourceProfile)
      → get registry source_id ≡ some source
      → IsPublishable py source × (source.source_id ≡ source_id)

source_entries-eq-ok :
    (py : PythonText) (config : Configuration) (o : Option (List SourceEntry))
    (entries : List SourceEntry)
    → source_entries py config o ≡ ok entries
    → o ≡ some entries
source_entries-eq-ok py config none entries h = absurd (cc h)
source_entries-eq-ok py config (some []) entries h = absurd (cc h)
source_entries-eq-ok py config (some (entry ∷ more)) entries h = ap some (ok-injective h)

map-listed :
    (sources : List SourceProfile)
    → map (λ (l : Listed). l.source_id) (map listed sources)
      ≡ map (λ (s : SourceProfile). s.source_id) sources
map-listed [] = refl
map-listed (source ∷ sources) = ap (◌∷◌ source.source_id) (map-listed sources)

-- The ids of the listing are the sorted keys, if each source stands under its id and the keys differ.
list-sorted :
    (registry : SourceRegistry)
    → all_different (source_ids registry) ≡ true
    → ((k : String) (s : SourceProfile) → get registry k ≡ some s → s.source_id ≡ k)
    → map (λ (l : Listed). l.source_id) (list registry) ≡ sorted (source_ids registry)
unfolding list source_ids get
list-sorted registry different own =
    map-sort_by (λ (l : Listed). l.source_id) (map listed (values registry.sources))
    ∙ ap sorted (
        map-listed (values registry.sources)
        ∙ map-values (λ (s : SourceProfile). s.source_id) registry.sources different own)

-- If the configuration is accepted, the registry has exactly the sources that the directory's entries
-- name, each under its own id, `list` gives the ids sorted, and whatever is found in it may be published: its
-- budget has the second version, each of its numbers is within its bounds, and it admits no more queries at
-- once than the pool has connections; its host is not empty, has at most 253 characters, and none of its parts
-- is empty, a directory or padded with spaces; its port is from 1 to 65535; it has 1 to 20 schemas that are
-- different, none of them "information_schema" or beginning with "pg_"; a password that is not empty is used
-- at test sources alone, and a client certificate over verified TLS alone.
pub load-IsConfigured :
    (py : PythonText) (config : Configuration) (registry : SourceRegistry)
    → load py config ≡ ok registry
    → IsConfigured py config registry
unfolding load registry_of get source_ids is_database_file lookup keys all_different
load-IsConfigured py config registry h =
    let (budgets, has_budgets, h1) = >>=-eq-ok (load_budget_profiles config.budget_file) _ h in
    let (databases, has_databases, h2) =
      >>=-eq-ok (parse_model is_database_file config.database_file) _ h1 in
    let (entries, has_entries, h3) = >>=-eq-ok (source_entries py config config.entries) _ h2 in
    let (sources, has_sources, h4) =
      >>=-eq-ok (load_sources py config budgets databases.profiles entries) _ h3 in
    let valid = parse_model-eq-ok is_database_file config.database_file has_databases in
    let good : AreGood py config budgets databases.profiles = record {
      budget =
          λ k b at. load_budget_profiles-IsBounded config.budget_file budgets k b has_budgets at;
      database = λ k d at. database_profile_lem databases k d valid at;
    } in
    let registry' = registry_of sources in
    let (publishable, names) =
      load_sources-IsPublishable py config budgets databases.profiles good entries sources
        has_sources in
    let holds : (k : String) (s : SourceProfile)
        → get registry' k ≡ some s
        → IsPublishable py s × (s.source_id ≡ k) =
      λ k s at.
        index_from-holds (IsPublishable py) sources [] publishable (λ j t found. absurd (cc found))
          k s at in
    let ids : source_ids registry' ≡ distinct [] (map (λ (e : SourceEntry). e.name) entries) =
      keys-index_from sources [] ∙ ap (distinct []) names in
    subst (IsConfigured py config) (ok-injective h4) (record {
      entries = entries;
      given_entries = source_entries-eq-ok py config config.entries entries has_entries;
      ids = ids;
      listing =
          list-sorted registry' (rw ids (all_different-distinct [] _ refl))
            (λ k s at. (holds k s at).1);
      sources = holds;
    })
