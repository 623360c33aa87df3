-- ===== src/Metadata/Requests.antt =====
-- Requests for metadata one after another (`MetadataService._get_prepared`, metadata/service.py): what
-- any request is served, whatever the requests before it found. The requests of other sources may
-- come between those of one source.
use query_boy.Base.{
  leb, ltb, ◌-◌, ℕ, ◌≤◌, String, Bool, true, false, List, [], ◌∷◌, Option, none, some, ◌≡◌, ◌≢◌,
  refl, sym, ◌∙◌, eq_iff, arith, if◌then◌else◌,
}
use query_boy.Base.Dict.{Dict, lookup, insert, erase, lookup-insert, lookup-erase}
use query_boy.Base.Json.{Json}
use query_boy.Base.Result.{Result, ok, err}
use query_boy.Operations.{OperationalState}
use query_boy.Models.{SourceProfile, CatalogSnapshot, PreparedMetadata}
use query_boy.Metadata.Service.{
  CacheEntry, Settings, SignatureKey, MetadataState, Loaded, loaded, reader_policy_failed,
  catalog_invalid, load_failed, load_cancelled, Prepared, signature_at, set_signature,
  snapshot_issues, cache_value, refresh, get_prepared, accept_valid, publish_response,
  after_refresh, retry_later, count, with_cached, signature_key,
}
use query_boy.Metadata.Served.{
  Loads, After, IsGood, IsServed, IsStep, later-IsGood, with_cached-IsStep,
}

module _ (sha256 : String → String) (sql_policy_revision : String) (settings : Settings) where
  abbrev request : SourceProfile → ℕ → Loaded → ℕ → MetadataState → Prepared × MetadataState
  request = get_prepared sha256 sql_policy_revision settings

  -- The states that a service can be in at a time: it starts with an empty cache, and serves a
  -- source, or another one.
  pub data IsReachable (source : SourceProfile) : ℕ → MetadataState → Type 0 where
    start :
        (operations : OperationalState)
        → IsReachable source 0 (record { cache = []; signatures = []; operations = operations })
    own :
        {t : ℕ} {s : MetadataState} (now later : ℕ) (load : Loaded)
        → IsReachable source t s
        → t ≤ now
        → now ≤ later
        → IsReachable source later (request source now load later s).1
    other :
        {t : ℕ} {s : MetadataState} (another : SourceProfile) (now later : ℕ) (load : Loaded)
        → IsReachable source t s
        → another.source_id ≢ source.source_id
        → IsReachable source t (request another now load later s).1

  -- What was loaded for the source in the requests, and when.
  unfoldable pub WasLoaded :
      (source : SourceProfile) {t : ℕ} {s : MetadataState}
      → IsReachable source t s
      → Loads sha256 sql_policy_revision settings
  WasLoaded source (start operations) value at = ⊥
  WasLoaded source (own now later load r h o) value at =
      After sha256 sql_policy_revision settings source (WasLoaded source r) load later value at
  WasLoaded source (other another now later load r h) value at = WasLoaded source r value at

  get_prepared-IsStep :
      (source : SourceProfile) (W : Loads sha256 sql_policy_revision settings) (now later : ℕ)
      (load : Loaded) (s : MetadataState)
      → now ≤ later
      → IsGood sha256 sql_policy_revision settings source W now s
      → IsStep sha256 sql_policy_revision settings source
          (After sha256 sql_policy_revision settings source W load later)
          now
          later
          (request source now load later s)
  unfolding get_prepared
  get_prepared-IsStep source W now later load s h g =
      with_cached-IsStep sha256 sql_policy_revision settings source W now later s h g _ load refl

  -- What a request for another source leaves alone.
  record IsApart (source : SourceProfile) (s : MetadataState) (r : Prepared × MetadataState)
      : Type 0 where
    cache : lookup source.source_id r.1.cache ≡ lookup source.source_id s.cache
    signature :
        signature_at (signature_key source) r.1.signatures
        ≡ signature_at (signature_key source) s.signatures

  module _ (source another : SourceProfile) (apart : another.source_id ≢ source.source_id) where
    signature_other :
        (signature : String) (signatures : List (SignatureKey × String))
        → signature_at
            (signature_key source)
            (set_signature (signature_key another) signature signatures)
          ≡ signature_at (signature_key source) signatures
    unfolding signature_at set_signature
    signature_other signature [] = ground (arith, apart, eq_iff another.source_id source.source_id)
    signature_other signature ((k, old) ∷ rest) = ground (
      arith,
      apart,
      signature_other signature rest,
      eq_iff k.0 source.source_id,
      eq_iff k.0 another.source_id,
      eq_iff another.source_id source.source_id,
    )

    inserted :
        (e : CacheEntry) (cache : Dict CacheEntry)
        → lookup source.source_id (insert another.source_id e cache) ≡ lookup source.source_id cache
    inserted e cache =
        lookup-insert _ _ _ cache ∙ ground (arith, apart, eq_iff another.source_id source.source_id)

    erased :
        (cache : Dict CacheEntry)
        → lookup source.source_id (erase another.source_id cache) ≡ lookup source.source_id cache
    erased cache =
        lookup-erase _ _ cache ∙ ground (arith, apart, eq_iff another.source_id source.source_id)

    publish-IsApart :
        (snapshot : CatalogSnapshot) (later : ℕ) (s : MetadataState) (r : Result (List String) Json)
        → IsApart source s (
            after_refresh sha256 sql_policy_revision settings another
              (publish_response sha256 sql_policy_revision settings another snapshot later s r))
    unfolding cache_value
    publish-IsApart snapshot later s (err issues) = record {
      cache = erased s.cache;
      signature = refl;
    }
    publish-IsApart snapshot later s (ok j) = record {
      cache = inserted _ s.cache;
      signature = signature_other _ s.signatures;
    }

    accept-IsApart :
        (snapshot : CatalogSnapshot) (later : ℕ) (s : MetadataState) (issues : List String)
        → IsApart source s (
            after_refresh sha256 sql_policy_revision settings another
              (accept_valid sha256 sql_policy_revision settings another snapshot later s issues))
    accept-IsApart snapshot later s (issue ∷ issues) = record {
      cache = erased s.cache;
      signature = refl;
    }
    accept-IsApart snapshot later s [] = publish-IsApart snapshot later s _

    choose :
        (c : Bool) (s : MetadataState) (x y : Prepared × MetadataState)
        → IsApart source s x
        → IsApart source s y
        → IsApart source s (if c then x else y)
    choose true s x y a b = a
    choose false s x y a b = b

    retry-IsApart :
        (o : Option CacheEntry) (later : ℕ) (s : MetadataState)
        → IsApart source s (retry_later sha256 sql_policy_revision settings o later another s)
    retry-IsApart none later s = record { cache = refl; signature = refl }
    retry-IsApart (some e) later s =
        choose (leb (later - e.loaded_at) settings.max_stale_ms) s _ _
          (record { cache = inserted _ s.cache; signature = refl })
          (record { cache = refl; signature = refl })

    refresh-IsApart :
        (o : Option CacheEntry) (load : Loaded) (later : ℕ) (s : MetadataState)
        → IsApart source s (refresh sha256 sql_policy_revision settings o another load later s)
    unfolding refresh
    refresh-IsApart o (loaded snapshot) later s =
        let started = count "metadata_refresh_started" another s in
        let result =
          accept-IsApart snapshot later started
            (snapshot_issues sha256 sql_policy_revision settings another snapshot started) in
        record { cache = result.cache; signature = result.signature }
    refresh-IsApart o reader_policy_failed later s = record {
      cache = erased s.cache;
      signature = refl;
    }
    refresh-IsApart o catalog_invalid later s = record { cache = erased s.cache; signature = refl }
    refresh-IsApart o load_failed later s =
        let result = retry-IsApart o later (count "metadata_refresh_started" another s) in
        record { cache = result.cache; signature = result.signature }
    refresh-IsApart o load_cancelled later s = record { cache = refl; signature = refl }

    with_cached-IsApart :
        (o : Option CacheEntry) (now : ℕ) (load : Loaded) (later : ℕ) (s : MetadataState)
        → IsApart source s
            (with_cached sha256 sql_policy_revision settings o another now load later s)
    with_cached-IsApart none now load later s = refresh-IsApart none load later s
    with_cached-IsApart (some e) now load later s =
        choose (ltb now e.expires_at) s _ _ (record { cache = refl; signature = refl })
          (choose (ltb now e.next_refresh_at) s _ _
            (choose (leb (now - e.loaded_at) settings.max_stale_ms) s _ _
              (record { cache = refl; signature = refl })
              (record { cache = refl; signature = refl }))
            (refresh-IsApart (some e) load later s))

  apart-IsGood :
      (source : SourceProfile) (W : Loads sha256 sql_policy_revision settings) (t : ℕ)
      (s : MetadataState) (r : Prepared × MetadataState)
      → IsApart source s r
      → IsGood sha256 sql_policy_revision settings source W t s
      → IsGood sha256 sql_policy_revision settings source W t r.1
  apart-IsGood source W t s r a g e h =
      let entry = g e (sym a.cache ∙ h) in
      record {
        published = entry.published;
        pinned = a.signature ∙ entry.pinned;
        was_loaded = entry.was_loaded;
        loaded_at = entry.loaded_at;
        expires_at = entry.expires_at;
      }

  still-IsGood :
      (source : SourceProfile) (W : Loads sha256 sql_policy_revision settings) (t now : ℕ)
      (s : MetadataState)
      → t ≤ now
      → IsGood sha256 sql_policy_revision settings source W t s
      → IsGood sha256 sql_policy_revision settings source W now s
  still-IsGood source W t now s h g =
      later-IsGood sha256 sql_policy_revision settings source W W t now s (λ value at w. w) h g

  reachable-IsGood :
      (source : SourceProfile) {t : ℕ} {s : MetadataState} (r : IsReachable source t s)
      → IsGood sha256 sql_policy_revision settings source (WasLoaded source r) t s
  unfolding get_prepared lookup WasLoaded
  reachable-IsGood source (start operations) = λ e h. absurd (cc h)
  reachable-IsGood source (own {t = t} {s = s} now later load r o p) =
      (get_prepared-IsStep source (WasLoaded source r) now later load s p
        (still-IsGood source (WasLoaded source r) t now s o (reachable-IsGood source r))).keeps
  reachable-IsGood source (other {t = t} {s = s} another now later load r apart) =
      apart-IsGood source (WasLoaded source r) t s _
        (with_cached-IsApart source another apart _ now load later s) (reachable-IsGood source r)

  -- A request for a source, after any requests for it and for other sources, that is served, is served
  -- metadata that passed all tests of a refresh and has the structure that is pinned for the version of
  -- its view contract. One of the requests for the source, or this one, has loaded the very metadata from
  -- the catalog. If it is fresh, this was less than the cache's lifetime before the request, or when the
  -- request ends; and if it is stale, it has outlived this and no more than the longest stale time.
  pub get_prepared-IsServed :
      (source : SourceProfile) (t now later : ℕ) (load : Loaded) (s : MetadataState)
      (value : PreparedMetadata) (stale : Bool) (r : IsReachable source t s) (h : t ≤ now)
      (o : now ≤ later)
      → (request source now load later s).0 ≡ ok (value, stale)
      → IsServed sha256 sql_policy_revision settings source
          (WasLoaded source (own now later load r h o))
          now
          later
          (request source now load later s).1
          value
          stale
  unfolding WasLoaded
  get_prepared-IsServed source t now later load s value stale r h o e =
      (get_prepared-IsStep source (WasLoaded source r) now later load s o
          (still-IsGood source (WasLoaded source r) t now s h (reachable-IsGood source r))).serves
        value stale e
