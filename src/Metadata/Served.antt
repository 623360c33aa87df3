-- ===== src/Metadata/Served.antt =====
-- What `MetadataService._get_prepared` (metadata/service.py) serves of a source, and what its cache
-- holds, after any requests.
use mathlib.Core.Path.{subst, subst₂}
use mathlib.Core.Option.{some-injective}
use query_boy.Base.{
  ℕ, ◌+◌, ◌-◌, ◌≤◌, ◌<◌, String, Bool, true, false, List, [], ◌∷◌, ◌++◌, Option, none, some, ◌≡◌,
  ◌⊎◌, inl, inr, refl, sym, ◌∙◌, ap, ltb, leb, eq_refl, arith, Bool-cases, if-true, if-false,
}
use query_boy.Base.Dict.{lookup, insert, erase, lookup-insert, lookup-erase}
use query_boy.Base.Json.{Json}
use query_boy.Base.Result.{Result, ok, err, ok-injective}
use query_boy.Models.{SourceProfile, CatalogSnapshot, PreparedMetadata}
use query_boy.Metadata.Revision.{create_metadata_revision, create_view_structure_signature}
use query_boy.Metadata.Context.{validate_snapshot, context_response}
use query_boy.Metadata.Service.{
  CacheEntry, Settings, SignatureKey, MetadataState, Loaded, loaded, reader_policy_failed,
  catalog_invalid, load_failed, load_cancelled, MetadataFailure, Prepared, signature_at,
  set_signature, snapshot_issues, cache_value, refresh, accept_valid, publish_response,
  after_refresh, retry_later, count, with_cached, serve_cached, signature_key, prepare, publish,
}

signature_at-set_signature :
    (key : SignatureKey) (signature : String) (signatures : List (SignatureKey × String))
    → signature_at key (set_signature key signature signatures) ≡ some signature
unfolding signature_at set_signature
signature_at-set_signature key signature [] = ground (arith, eq_refl key.0)
signature_at-set_signature key signature ((k, old) ∷ rest) =
    ground (arith, signature_at-set_signature key signature rest)

append-nil : (xs ys : List String) → xs ++ ys ≡ [] → xs ≡ []
append-nil [] ys h = refl
append-nil (x ∷ xs) ys h = cc

module _ (sha256 : String → String) (sql_policy_revision : String) (settings : Settings) where
  -- Metadata that passed every test of `_load_and_validate`.
  pub record IsPublished (source : SourceProfile) (value : PreparedMetadata) : Type 0 where
    pub valid : validate_snapshot source value.snapshot ≡ []
    pub revision : value.revision ≡ create_metadata_revision sha256 source value.snapshot
    pub fits : (j : Json) × (context_response sql_policy_revision source value false ≡ ok j)

  abbrev pub prepare_of : SourceProfile → CatalogSnapshot → PreparedMetadata
  prepare_of = prepare sha256 sql_policy_revision settings

  -- Which metadata was loaded at which times.
  abbrev pub Loads : Type 1
  Loads = PreparedMetadata → ℕ → Type 0

  -- The loads of the source after a request whose load ends at `later`.
  abbrev pub After : SourceProfile → Loads → Loaded → ℕ → Loads
  After source W load later value at =
      W value at
      ⊎ ((snapshot : CatalogSnapshot) × (load ≡ loaded snapshot)
          × (value ≡ prepare_of source snapshot)
          × (at ≡ later))

  -- An entry of the cache at a time.
  pub record IsEntry (source : SourceProfile) (W : Loads) (now : ℕ)
      (signatures : List (SignatureKey × String)) (e : CacheEntry) : Type 0 where
    pub published : IsPublished source e.value
    pub pinned :
        signature_at (signature_key source) signatures
        ≡ some (create_view_structure_signature sha256 e.value.snapshot)
    pub was_loaded : W e.value e.loaded_at
    pub loaded_at : e.loaded_at ≤ now
    pub expires_at : e.expires_at ≡ e.loaded_at + settings.cache_ttl_ms

  abbrev pub IsGood : SourceProfile → Loads → ℕ → MetadataState → Type 0
  IsGood source W now s =
      (e : CacheEntry)
      → lookup source.source_id s.cache ≡ some e
      → IsEntry source W now s.signatures e

  -- What a request for the source gets that starts at `now` and ends at `later`.
  pub record IsServed (source : SourceProfile) (W : Loads) (now later : ℕ) (s : MetadataState)
      (value : PreparedMetadata) (stale : Bool) : Type 0 where
    pub published : IsPublished source value
    pub pinned :
        signature_at (signature_key source) s.signatures
        ≡ some (create_view_structure_signature sha256 value.snapshot)
    pub loaded_at : ℕ
    pub was_loaded : W value loaded_at
    pub not_later : loaded_at ≤ later
    pub fresh : stale ≡ false → (now < loaded_at + settings.cache_ttl_ms) ⊎ (loaded_at ≡ later)
    pub stale_age :
        stale ≡ true
        → (loaded_at + settings.cache_ttl_ms ≤ now) × (now - loaded_at ≤ settings.max_stale_ms)

  -- A request keeps the cache good and gets what it should.
  pub record IsStep (source : SourceProfile) (W : Loads) (now later : ℕ)
      (r : Prepared × MetadataState) : Type 0 where
    pub keeps : IsGood source W later r.1
    pub serves :
        (value : PreparedMetadata) (stale : Bool)
        → r.0 ≡ ok (value, stale)
        → IsServed source W now later r.1 value stale

  -- A good cache stays so as time passes, and as more is loaded.
  pub later-IsGood :
      (source : SourceProfile) (W W' : Loads) (now later : ℕ) (s : MetadataState)
      → ((value : PreparedMetadata) (at : ℕ) → W value at → W' value at)
      → now ≤ later
      → IsGood source W now s
      → IsGood source W' later s
  later-IsGood source W W' now later s kept ordered good e h = record {
    published = (good e h).published;
    pinned = (good e h).pinned;
    was_loaded = kept e.value e.loaded_at (good e h).was_loaded;
    loaded_at = omega (arith, (good e h).loaded_at);
    expires_at = (good e h).expires_at;
  }

  module _ (source : SourceProfile) (W : Loads) (load : Loaded) (now later : ℕ) (s : MetadataState)
      (ordered : now ≤ later) (good : IsGood source W now s) where
    abbrev W' : Loads
    W' = After source W load later

    kept-IsGood : IsGood source W' later s
    kept-IsGood = later-IsGood source W W' now later s (λ value at h. inl h) ordered good

    evicted : IsGood source W' later (record s { cache = erase source.source_id s.cache })
    evicted e h = absurd (
        ground (
          arith,
          h,
          eq_refl source.source_id,
          lookup-erase source.source_id source.source_id s.cache,
        ))

    refused-IsStep :
        (f : MetadataFailure) (s' : MetadataState)
        → IsGood source W' later s'
        → IsStep source W' now later (err f, s')
    refused-IsStep f s' g = record { keeps = g; serves = λ value stale e. absurd (cc e) }

    publish-IsStep :
        (snapshot : CatalogSnapshot) (r : Result (List String) Json)
        → snapshot_issues sha256 sql_policy_revision settings source snapshot s ≡ []
        → load ≡ loaded snapshot
        → context_response sql_policy_revision source (prepare_of source snapshot) false ≡ r
        → IsStep source W' now later (
            after_refresh sha256 sql_policy_revision settings source
              (publish_response sha256 sql_policy_revision settings source snapshot later s r))
    unfolding snapshot_issues cache_value
    publish-IsStep snapshot (err issues) h l e = refused-IsStep _ _ evicted
    publish-IsStep snapshot (ok j) h l e = record {
      keeps = λ entry found. subst (IsEntry source W' later _) (new_entry entry found) (record {
        published = prepared;
        pinned = pinned;
        was_loaded = inr (snapshot, l, refl, refl);
        loaded_at = omega arith;
        expires_at = refl;
      });
      serves = λ value stale served.
          subst₂ (IsServed source W' now later _) (ap (λ r. r.0) (ok-injective served))
            (ap (λ r. r.1) (ok-injective served))
            (record {
              published = prepared;
              pinned = pinned;
              loaded_at = later;
              was_loaded = inr (snapshot, l, refl, refl);
              not_later = omega arith;
              fresh = λ _. inr refl;
              stale_age = λ f. absurd (cc f);
            });
    }
      where
        prepared : IsPublished source (prepare_of source snapshot)
        prepared = record { valid = append-nil _ _ h; revision = refl; fits = (j, e) }

        pinned :
            signature_at
              (signature_key source)
              (publish sha256 sql_policy_revision settings source snapshot later s).signatures
            ≡ some (create_view_structure_signature sha256 snapshot)
        pinned = signature_at-set_signature _ _ s.signatures

        new_entry :
            (entry : CacheEntry)
            → lookup source.source_id
                (publish sha256 sql_policy_revision settings source snapshot later s).cache
              ≡ some entry
            → record {
              value = prepare_of source snapshot;
              loaded_at = later;
              expires_at = later + settings.cache_ttl_ms;
              next_refresh_at = later + settings.cache_ttl_ms;
            }
              ≡ entry
        new_entry entry found =
            some-injective _ _
              (sym (lookup-insert _ _ _ s.cache ∙ if-true _ _ _ (eq_refl source.source_id)) ∙ found)

    accept-IsStep :
        (snapshot : CatalogSnapshot) (issues : List String)
        → load ≡ loaded snapshot
        → snapshot_issues sha256 sql_policy_revision settings source snapshot s ≡ issues
        → IsStep source W' now later (
            after_refresh sha256 sql_policy_revision settings source
              (accept_valid sha256 sql_policy_revision settings source snapshot later s issues))
    accept-IsStep snapshot (issue ∷ issues) l h = refused-IsStep _ _ evicted
    accept-IsStep snapshot [] l h = publish-IsStep snapshot _ h l refl

    -- An entry of the cache is served.
    cached-IsStep :
        (e : CacheEntry) (s' : MetadataState) (stale : Bool)
        → lookup source.source_id s.cache ≡ some e
        → IsGood source W' later s'
        → s'.signatures ≡ s.signatures
        → (stale ≡ false → now < e.expires_at)
        → (stale ≡ true → (e.expires_at ≤ now) × (now - e.loaded_at ≤ settings.max_stale_ms))
        → IsStep source W' now later (ok (e.value, stale), s')
    cached-IsStep e s' stale h g k f a = record {
      keeps = g;
      serves = λ value stale' served.
          subst₂ (IsServed source W' now later s') (ap (λ r. r.0) (ok-injective served))
            (ap (λ r. r.1) (ok-injective served))
            (record {
              published = (good e h).published;
              pinned = rw k (good e h).pinned;
              loaded_at = e.loaded_at;
              was_loaded = inl (good e h).was_loaded;
              not_later = omega (arith, (good e h).loaded_at);
              fresh = λ t. inl (omega (arith, f t, (good e h).expires_at));
              stale_age = λ t. (omega (arith, (a t).0, (good e h).expires_at), (a t).1);
            });
    }

    postponed :
        (e : CacheEntry) (next : ℕ)
        → lookup source.source_id s.cache ≡ some e
        → IsGood source W' later (record s {
          cache = insert source.source_id (record e { next_refresh_at = next }) s.cache;
        })
    postponed e next h entry found =
        subst (IsEntry source W' later s.signatures)
          (some-injective _ _
            (sym (lookup-insert _ _ _ s.cache ∙ if-true _ _ _ (eq_refl source.source_id)) ∙ found))
          (record {
            published = (good e h).published;
            pinned = (good e h).pinned;
            was_loaded = (kept-IsGood e h).was_loaded;
            loaded_at = (kept-IsGood e h).loaded_at;
            expires_at = (good e h).expires_at;
          })

    retry-IsStep :
        (o : Option CacheEntry)
        → lookup source.source_id s.cache ≡ o
        → ((e : CacheEntry) → o ≡ some e → e.expires_at ≤ now)
        → IsStep source W' now later
            (retry_later sha256 sql_policy_revision settings o later source s)
    retry-IsStep none h x = refused-IsStep _ _ kept-IsGood
    retry-IsStep (some e) h x =
        elim (Bool-cases (leb (later - e.loaded_at) settings.max_stale_ms)) [
          | inl t ↦ subst (IsStep source W' now later) (sym (if-true _ _ _ t)) (
              cached-IsStep e _ true h (postponed e _ h) refl (λ f. absurd (cc f))
                (λ _. (x e refl, ground (arith, t, ordered))))
          | inr f ↦
              subst (IsStep source W' now later) (sym (if-false _ _ _ f))
                (refused-IsStep _ _ kept-IsGood)
        ]

    serve-IsStep :
        (e : CacheEntry)
        → lookup source.source_id s.cache ≡ some e
        → e.expires_at ≤ now
        → IsStep source W' now later
            (serve_cached sha256 sql_policy_revision settings e now source s)
    serve-IsStep e h x = elim (Bool-cases (leb (now - e.loaded_at) settings.max_stale_ms)) [
      | inl t ↦ subst (IsStep source W' now later) (sym (if-true _ _ _ t)) (
          cached-IsStep e _ true h kept-IsGood refl (λ f. absurd (cc f))
            (λ _. (x, ground (arith, t))))
      | inr f ↦
          subst (IsStep source W' now later) (sym (if-false _ _ _ f))
            (refused-IsStep _ _ kept-IsGood)
    ]

  module _ (source : SourceProfile) (W : Loads) (now later : ℕ) (s : MetadataState)
      (ordered : now ≤ later) (good : IsGood source W now s) where
    refresh-IsStep :
        (o : Option CacheEntry) (load : Loaded)
        → lookup source.source_id s.cache ≡ o
        → ((e : CacheEntry) → o ≡ some e → e.expires_at ≤ now)
        → IsStep source
            (After source W load later)
            now
            later
            (refresh sha256 sql_policy_revision settings o source load later s)
    unfolding refresh
    refresh-IsStep o (loaded snapshot) h x =
        accept-IsStep source W (loaded snapshot) now later
          (count "metadata_refresh_started" source s) ordered good snapshot _ refl refl
    refresh-IsStep o reader_policy_failed h x =
        refused-IsStep source W reader_policy_failed now later
          (count "metadata_refresh_started" source s) ordered good _ _
          (evicted source W reader_policy_failed now later s ordered good)
    refresh-IsStep o catalog_invalid h x =
        refused-IsStep source W catalog_invalid now later
          (count "metadata_refresh_started" source s) ordered good _ _
          (evicted source W catalog_invalid now later s ordered good)
    refresh-IsStep o load_failed h x =
        retry-IsStep source W load_failed now later (count "metadata_refresh_started" source s)
          ordered good o h x
    refresh-IsStep o load_cancelled h x =
        refused-IsStep source W load_cancelled now later s ordered good _ _
          (kept-IsGood source W load_cancelled now later s ordered good)

    pub with_cached-IsStep :
        (o : Option CacheEntry) (load : Loaded)
        → lookup source.source_id s.cache ≡ o
        → IsStep source
            (After source W load later)
            now
            later
            (with_cached sha256 sql_policy_revision settings o source now load later s)
    with_cached-IsStep none load h = refresh-IsStep none load h (λ e k. absurd (cc k))
    with_cached-IsStep (some e) load h = elim (Bool-cases (ltb now e.expires_at)) [
      | inl t ↦
          subst (IsStep source (After source W load later) now later) (sym (if-true _ _ _ t)) (
            cached-IsStep source W load now later s ordered good e _ false h
              (kept-IsGood source W load now later s ordered good) refl (λ _. ground (arith, t))
              (λ f. absurd (cc f)))
      | inr f ↦
          subst (IsStep source (After source W load later) now later) (sym (if-false _ _ _ f))
            (elim (Bool-cases (ltb now e.next_refresh_at)) [
              | inl t ↦
                  subst (IsStep source (After source W load later) now later)
                    (sym (if-true _ _ _ t))
                    (serve-IsStep source W load now later s ordered good e h (ground (arith, f)))
              | inr g ↦
                  subst (IsStep source (After source W load later) now later)
                    (sym (if-false _ _ _ g))
                    (refresh-IsStep (some e) load h
                      (λ e' k. ground (arith, f, ap (λ r. r.expires_at) (some-injective _ _ k))))
            ])
    ]
