-- ===== src/Metadata/Evicted.antt =====
-- What a refresh that fails does to the cache (`_get_prepared`, metadata/service.py).
use query_boy.Base.{ℕ, String, List, [], ◌∷◌, Option, none, ◌≡◌, ◌∙◌, eq_refl, if-true}
use query_boy.Base.Dict.{lookup, erase, lookup-erase}
use query_boy.Base.Json.{Json}
use query_boy.Base.Result.{Result, ok, err}
use query_boy.Models.{SourceProfile, CatalogSnapshot}
use query_boy.Metadata.Service.{
  CacheEntry, Settings, MetadataState, Loaded, loaded, reader_policy_failed, catalog_invalid,
  MetadataFailure, refresh, accept_valid, publish_response, after_refresh, count,
}

-- The load told what the source publishes, or that it cannot be used.
pub data IsVerdict : Loaded → Type 0 where
  published : (snapshot : CatalogSnapshot) → IsVerdict (loaded snapshot)
  no_policy : IsVerdict reader_policy_failed
  no_catalog : IsVerdict catalog_invalid

module _ (sha256 : String → String) (sql_policy_revision : String) (settings : Settings)
    (source : SourceProfile) where
  erased : (s : MetadataState) → lookup source.source_id (erase source.source_id s.cache) ≡ none
  erased s = lookup-erase _ _ s.cache ∙ if-true _ _ _ (eq_refl source.source_id)

  publish-evicts :
      (snapshot : CatalogSnapshot) (later : ℕ) (s : MetadataState) (r : Result (List String) Json)
      (f : MetadataFailure)
      → (after_refresh sha256 sql_policy_revision settings source
          (publish_response sha256 sql_policy_revision settings source snapshot later s r)).0
        ≡ err f
      → lookup source.source_id
          (after_refresh sha256 sql_policy_revision settings source (
            publish_response sha256 sql_policy_revision settings source snapshot later s r)).1.cache
        ≡ none
  publish-evicts snapshot later s (err issues) f h = erased s
  publish-evicts snapshot later s (ok j) f h = absurd (cc h)

  accept-evicts :
      (snapshot : CatalogSnapshot) (later : ℕ) (s : MetadataState) (issues : List String)
      (f : MetadataFailure)
      → (after_refresh sha256 sql_policy_revision settings source
          (accept_valid sha256 sql_policy_revision settings source snapshot later s issues)).0
        ≡ err f
      → lookup source.source_id
          (after_refresh sha256 sql_policy_revision settings source (
            accept_valid sha256 sql_policy_revision settings source snapshot later s
              issues)).1.cache
        ≡ none
  accept-evicts snapshot later s (issue ∷ issues) f h = erased s
  accept-evicts snapshot later s [] f h = publish-evicts snapshot later s _ f h

  -- A refresh that ends with an error, when the load itself gave a verdict on the source, leaves nothing
  -- of the source in the cache.
  pub refresh-evicts :
      (cached : Option CacheEntry) (load : Loaded) (later : ℕ) (s : MetadataState)
      (f : MetadataFailure)
      → IsVerdict load
      → (refresh sha256 sql_policy_revision settings cached source load later s).0 ≡ err f
      → lookup source.source_id
          (refresh sha256 sql_policy_revision settings cached source load later s).1.cache
        ≡ none
  unfolding refresh
  refresh-evicts cached _ later s f (published snapshot) h =
      accept-evicts snapshot later (count "metadata_refresh_started" source s) _ f h
  refresh-evicts cached _ later s f no_policy h = erased s
  refresh-evicts cached _ later s f no_catalog h = erased s
