-- ===== src/Metadata/Service.antt =====
-- `MetadataService` (metadata/service.py): the cache of a source's metadata, its refresh and the time
-- that stale metadata may be served. The refresh lock of a source makes each call one step; what the
-- clock reads and what `PostgresCatalog.load` does are inputs of the step.
use query_boy.Base.{
  ℕ, ◌+◌, ◌-◌, String, Bool, true, false, ◌&&◌, List, [], ◌∷◌, ◌++◌, Option, none, some, ltb, leb,
  eqb, ◌==◌, if◌then◌else◌,
}
use query_boy.Base.Dict.{Dict, lookup, insert, erase}
use query_boy.Base.Json.{Json}
use query_boy.Base.Result.{Result, ok, err}
use query_boy.Errors.{Details, no_details, violations}
use query_boy.Operations.{
  OperationalState, increment, set_source_health, Health, healthy, stale, unavailable,
}
use query_boy.Models.{SourceProfile, CatalogSnapshot, PreparedMetadata}
use query_boy.Metadata.Revision.{create_metadata_revision, create_view_structure_signature}
use query_boy.Metadata.Context.{validate_snapshot, context_response}

pub record CacheEntry : Type 0 where
  pub value : PreparedMetadata
  pub loaded_at : ℕ
  pub expires_at : ℕ
  pub next_refresh_at : ℕ

pub record Settings : Type 0 where
  pub cache_ttl_ms : ℕ
  pub max_stale_ms : ℕ
  pub refresh_retry_ms : ℕ

-- A source and the version of its view contract.
abbrev pub SignatureKey : Type 0
SignatureKey = String × ℕ

pub record MetadataState : Type 0 where
  pub cache : Dict CacheEntry
  pub signatures : List (SignatureKey × String)
  pub operations : OperationalState

-- What `self._catalog.load(source)` does: a snapshot, a `ReaderSessionPolicyError`, a
-- `_CatalogValidationError`, any other exception, or the cancellation of the request.
pub data Loaded : Type 0 where
  loaded : CatalogSnapshot → Loaded
  reader_policy_failed catalog_invalid load_failed load_cancelled : Loaded

-- What leaves `_get_prepared` instead of metadata. The cause of the error is kept where
-- `QueryService` looks at it.
pub data MetadataFailure : Type 0 where
  refused : Details → MetadataFailure
  refused_by_reader_policy : MetadataFailure
  request_cancelled : MetadataFailure

-- The metadata, and whether it is stale.
abbrev pub Prepared : Type 0
Prepared = Result MetadataFailure (PreparedMetadata × Bool)

abbrev pub signature_key : SourceProfile → SignatureKey
signature_key source = (source.source_id, source.view_contract_version)

-- `_view_structure_signatures`
unfoldable pub signature_at : SignatureKey → List (SignatureKey × String) → Option String
signature_at key [] = none
signature_at key ((k, signature) ∷ rest) =
    if k.0 == key.0 && eqb k.1 key.1 then some signature else signature_at key rest

unfoldable pub set_signature :
    SignatureKey → String → List (SignatureKey × String) → List (SignatureKey × String)
set_signature key signature [] = (key, signature) ∷ []
set_signature key signature ((k, old) ∷ rest) =
    if k.0 == key.0 && eqb k.1 key.1
    then (k, signature) ∷ rest
    else (k, old) ∷ set_signature key signature rest

abbrev pub note : (OperationalState → OperationalState) → MetadataState → MetadataState
note f s = record s { operations = f s.operations }

abbrev pub count : String → SourceProfile → MetadataState → MetadataState
count name source s = note (increment name (some source.source_id) 1) s

abbrev pub report : Health → SourceProfile → MetadataState → MetadataState
report health source s = note (set_source_health source.source_id health) s

abbrev pub evict : SourceProfile → MetadataState → MetadataState
evict source s = record s { cache = erase source.source_id s.cache }

abbrev pub changed_structure : List String
changed_structure = "View structure changed without a view contract version change." ∷ []

-- `accepted_signature is not None and accepted_signature != structure_signature`
abbrev pub signature_issues : Option String → String → List String
signature_issues none signature = []
signature_issues (some accepted) signature = if accepted == signature then [] else changed_structure

module _ (sha256 : String → String) (sql_policy_revision : String) (settings : Settings) where
  -- All that is wrong with a loaded snapshot.
  unfoldable pub snapshot_issues : SourceProfile → CatalogSnapshot → MetadataState → List String
  unfolding signature_at
  snapshot_issues source snapshot s =
      validate_snapshot source snapshot
      ++ signature_issues (signature_at (signature_key source) s.signatures)
          (create_view_structure_signature sha256 snapshot)

  -- `_cache_value` at the time `loaded_at`.
  unfoldable pub cache_value : String → PreparedMetadata → ℕ → MetadataState → MetadataState
  unfolding insert
  cache_value source_id value loaded_at s = record s {
    cache =
        insert source_id
          (record {
            value = value;
            loaded_at = loaded_at;
            expires_at = loaded_at + settings.cache_ttl_ms;
            next_refresh_at = loaded_at + settings.cache_ttl_ms;
          })
          s.cache;
  }

  abbrev pub prepare : SourceProfile → CatalogSnapshot → PreparedMetadata
  prepare source snapshot = record {
    snapshot = snapshot;
    revision = create_metadata_revision sha256 source snapshot;
  }

  abbrev pub publish : SourceProfile → CatalogSnapshot → ℕ → MetadataState → MetadataState
  publish source snapshot loaded_at s = report healthy source (
      count "metadata_refresh_succeeded" source (
        cache_value source.source_id (prepare source snapshot) loaded_at (record s {
          signatures =
              set_signature (signature_key source) (create_view_structure_signature sha256 snapshot)
                s.signatures;
        })))

  abbrev pub Accepted : Type 0
  Accepted = Result Details PreparedMetadata × MetadataState

  -- `_load_and_validate` from its `_context_response` on.
  abbrev pub publish_response :
      SourceProfile → CatalogSnapshot → ℕ → MetadataState → Result (List String) Json → Accepted
  publish_response source snapshot loaded_at s (err issues) = (err (violations issues), s)
  publish_response source snapshot loaded_at s (ok response) =
      (ok (prepare source snapshot), publish source snapshot loaded_at s)

  -- `_load_and_validate` from its `if issues` on.
  abbrev pub accept_valid :
      SourceProfile → CatalogSnapshot → ℕ → MetadataState → List String → Accepted
  accept_valid source snapshot loaded_at s (issue ∷ issues) = (
    err (violations (issue ∷ issues)),
    report unavailable source (count "metadata_validation_rejected" source s),
  )
  accept_valid source snapshot loaded_at s [] =
      publish_response source snapshot loaded_at s
        (context_response sql_policy_revision source (prepare source snapshot) false)

  -- `_load_and_validate` after the load; the error is a `MetadataUnavailableError` with its details.
  abbrev pub accept_snapshot : SourceProfile → CatalogSnapshot → ℕ → MetadataState → Accepted
  accept_snapshot source snapshot loaded_at s =
      accept_valid source snapshot loaded_at s (snapshot_issues source snapshot s)

  -- `except MetadataUnavailableError` of `_get_prepared`.
  abbrev pub after_refresh :
      SourceProfile → Result Details PreparedMetadata × MetadataState → Prepared × MetadataState
  after_refresh source (ok prepared, s) = (ok (prepared, false), s)
  after_refresh source (err details, s) =
      (err (refused details), report unavailable source (evict source s))

  -- `except (ReaderSessionPolicyError, _CatalogValidationError)`
  abbrev pub refuse_refresh :
      MetadataFailure → SourceProfile → MetadataState → Prepared × MetadataState
  refuse_refresh failure source s = (
    err failure,
    report unavailable source (count "metadata_refresh_failed" source (evict source s)),
  )

  abbrev pub fail_refresh : SourceProfile → MetadataState → Prepared × MetadataState
  fail_refresh source s = (
    err (refused no_details),
    report unavailable source (count "metadata_refresh_failed" source s),
  )

  -- `except Exception`, at the time `failed_at`.
  abbrev pub retry_later :
      Option CacheEntry → ℕ → SourceProfile → MetadataState → Prepared × MetadataState
  retry_later none failed_at source s = fail_refresh source s
  retry_later (some cached) failed_at source s =
      if leb (failed_at - cached.loaded_at) settings.max_stale_ms
      then (
        ok (cached.value, true),
        report stale source (
            count "metadata_stale_served" source (
              count "metadata_refresh_failed" source (record s {
                cache =
                    insert source.source_id
                      (record cached { next_refresh_at = failed_at + settings.refresh_retry_ms })
                      s.cache;
              }))),
      )
      else fail_refresh source s

  -- The refresh: `load` and the second reading of the clock.
  unfoldable pub refresh :
      Option CacheEntry → SourceProfile → Loaded → ℕ → MetadataState → Prepared × MetadataState
  unfolding snapshot_issues cache_value set_signature
  refresh cached source load later s =
      let started = count "metadata_refresh_started" source s in
      elim load [
        | loaded snapshot ↦ after_refresh source (accept_snapshot source snapshot later started)
        | reader_policy_failed ↦ refuse_refresh refused_by_reader_policy source started
        | catalog_invalid ↦ refuse_refresh (refused no_details) source started
        | load_failed ↦ retry_later cached later source started
        | load_cancelled ↦ (err request_cancelled, started)
      ]

  abbrev pub serve_cached :
      CacheEntry → ℕ → SourceProfile → MetadataState → Prepared × MetadataState
  serve_cached cached now source s =
      if leb (now - cached.loaded_at) settings.max_stale_ms
      then (ok (cached.value, true), report stale source (count "metadata_stale_served" source s))
      else (err (refused no_details), report unavailable source s)

  abbrev pub with_cached :
      Option CacheEntry → SourceProfile → ℕ → Loaded → ℕ → MetadataState → Prepared × MetadataState
  with_cached none source now load later s = refresh none source load later s
  with_cached (some cached) source now load later s =
      if ltb now cached.expires_at
      then (ok (cached.value, false), report healthy source s)
      else if ltb now cached.next_refresh_at
      then serve_cached cached now source s
      else refresh (some cached) source load later s

  -- `_get_prepared`: the clock reads `now`, and `later` when a refresh has loaded or failed.
  unfoldable pub get_prepared :
      SourceProfile → ℕ → Loaded → ℕ → MetadataState → Prepared × MetadataState
  unfolding lookup refresh
  get_prepared source now load later s =
      with_cached (lookup source.source_id s.cache) source now load later s
