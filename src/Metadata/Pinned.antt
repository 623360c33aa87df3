-- ===== src/Metadata/Pinned.antt =====
-- The structure of a source's views while the version of its view contract stays
-- (`_view_structure_signatures`, metadata/service.py).
use mathlib.Core.Option.{some-injective}
use query_boy.Base.{
  ℕ, ◌≤◌, String, Bool, true, false, List, [], ◌∷◌, ◌++◌, Option, none, some, ◌≡◌, refl, sym, ◌∙◌,
  ap, leb, ltb, ◌-◌, ◌==◌, ◌&&◌, eqb, eq_iff, arith, if◌then◌else◌, Bool-cases, inl, inr,
}
use query_boy.Base.Json.{Json}
use query_boy.Base.Result.{Result, ok, err}
use query_boy.Models.{SourceProfile, CatalogSnapshot, PreparedMetadata}
use query_boy.Metadata.Revision.{create_view_structure_signature}
use query_boy.Metadata.Service.{
  CacheEntry, Settings, SignatureKey, MetadataState, Loaded, loaded, reader_policy_failed,
  catalog_invalid, load_failed, load_cancelled, Prepared, signature_at, set_signature,
  signature_issues, snapshot_issues, cache_value, refresh, get_prepared, accept_valid,
  publish_response, after_refresh, retry_later, count, with_cached, signature_key,
}
use query_boy.Metadata.Requests.{IsReachable, get_prepared-IsServed}

abbrev is_same : SignatureKey → SignatureKey → Bool
is_same k key = k.0 == key.0 && eqb k.1 key.1

signature_at-set_signature_any :
    (key k : SignatureKey) (signature : String) (signatures : List (SignatureKey × String))
    → signature_at key (set_signature k signature signatures)
      ≡ (if is_same k key then some signature else signature_at key signatures)
unfolding signature_at set_signature
signature_at-set_signature_any key k signature [] = refl
signature_at-set_signature_any key k signature ((j, old) ∷ rest) = ground (
  arith,
  eq_iff j.0 k.0,
  eq_iff j.0 key.0,
  eq_iff k.0 key.0,
  signature_at-set_signature_any key k signature rest,
)

signature_at-same :
    (key k : SignatureKey) (signatures : List (SignatureKey × String))
    → is_same k key ≡ true
    → signature_at k signatures ≡ signature_at key signatures
unfolding signature_at
signature_at-same key k [] h = refl
signature_at-same key k ((j, old) ∷ rest) h =
    ground
      (arith, h, eq_iff j.0 k.0, eq_iff j.0 key.0, eq_iff k.0 key.0, signature_at-same key k rest h)

append-nil_right : (xs ys : List String) → xs ++ ys ≡ [] → ys ≡ []
append-nil_right [] ys h = h
append-nil_right (x ∷ xs) ys h = absurd (cc h)

no_issues : (old signature : String) → signature_issues (some old) signature ≡ [] → old ≡ signature
no_issues old signature h = ground (arith, h, eq_iff old signature)

module _ (sha256 : String → String) (sql_policy_revision : String) (settings : Settings) where
  abbrev request : SourceProfile → ℕ → Loaded → ℕ → MetadataState → Prepared × MetadataState
  request = get_prepared sha256 sql_policy_revision settings

  module _ (key : SignatureKey) (old : String) where
    -- The signature stays.
    record Stays (r : Prepared × MetadataState) : Type 0 where
      stays : signature_at key r.1.signatures ≡ some old

    choose :
        (c : Bool) (x y : Prepared × MetadataState) → Stays x → Stays y → Stays (if c then x else y)
    choose true x y a b = a
    choose false x y a b = b

    module _ (another : SourceProfile) (s : MetadataState)
        (h : signature_at key s.signatures ≡ some old) where
      same_signature :
          (snapshot : CatalogSnapshot)
          → snapshot_issues sha256 sql_policy_revision settings another snapshot s ≡ []
          → is_same (signature_key another) key ≡ true
          → old ≡ create_view_structure_signature sha256 snapshot
      unfolding snapshot_issues
      same_signature snapshot i e = no_issues _ _ (
          ap (λ o. signature_issues o (create_view_structure_signature sha256 snapshot))
            (sym (signature_at-same key (signature_key another) s.signatures e ∙ h))
          ∙ append-nil_right _ _ i)

      publish-Stays :
          (snapshot : CatalogSnapshot) (later : ℕ) (r : Result (List String) Json)
          → snapshot_issues sha256 sql_policy_revision settings another snapshot s ≡ []
          → Stays (
              after_refresh sha256 sql_policy_revision settings another
                (publish_response sha256 sql_policy_revision settings another snapshot later s r))
      unfolding cache_value
      publish-Stays snapshot later (err issues) i = record { stays = h }
      publish-Stays snapshot later (ok j) i = record {
        stays =
            signature_at-set_signature_any key (signature_key another) _ s.signatures
            ∙ elim (Bool-cases (is_same (signature_key another) key)) [
              | inl e ↦ rw e (ap some (sym (same_signature snapshot i e)))
              | inr f ↦ rw f h
            ];
      }

      accept-Stays :
          (snapshot : CatalogSnapshot) (later : ℕ) (issues : List String)
          → snapshot_issues sha256 sql_policy_revision settings another snapshot s ≡ issues
          → Stays (
              after_refresh sha256 sql_policy_revision settings another
                (accept_valid sha256 sql_policy_revision settings another snapshot later s issues))
      accept-Stays snapshot later (issue ∷ issues) e = record { stays = h }
      accept-Stays snapshot later [] e = publish-Stays snapshot later _ e

      retry-Stays :
          (o : Option CacheEntry) (later : ℕ)
          → Stays (retry_later sha256 sql_policy_revision settings o later another s)
      retry-Stays none later = record { stays = h }
      retry-Stays (some e) later =
          choose (leb (later - e.loaded_at) settings.max_stale_ms) _ _ (record { stays = h })
            (record { stays = h })

    module _ (another : SourceProfile) (s : MetadataState)
        (h : signature_at key s.signatures ≡ some old) where
      refresh-Stays :
          (o : Option CacheEntry) (load : Loaded) (later : ℕ)
          → Stays (refresh sha256 sql_policy_revision settings o another load later s)
      unfolding refresh
      refresh-Stays o (loaded snapshot) later =
          accept-Stays another (count "metadata_refresh_started" another s) h snapshot later _ refl
      refresh-Stays o reader_policy_failed later = record { stays = h }
      refresh-Stays o catalog_invalid later = record { stays = h }
      refresh-Stays o load_failed later =
          retry-Stays another (count "metadata_refresh_started" another s) h o later
      refresh-Stays o load_cancelled later = record { stays = h }

      with_cached-Stays :
          (o : Option CacheEntry) (now : ℕ) (load : Loaded) (later : ℕ)
          → Stays (with_cached sha256 sql_policy_revision settings o another now load later s)
      with_cached-Stays none now load later = refresh-Stays none load later
      with_cached-Stays (some e) now load later =
          choose (ltb now e.expires_at) _ _ (record { stays = h })
            (choose (ltb now e.next_refresh_at) _ _
              (choose (leb (now - e.loaded_at) settings.max_stale_ms) _ _ (record { stays = h })
                (record { stays = h }))
              (refresh-Stays (some e) load later))

  -- The states that any requests lead to.
  pub data IsAfter (s : MetadataState) : MetadataState → Type 0 where
    here : IsAfter s s
    requested :
        {s' : MetadataState} (another : SourceProfile) (now : ℕ) (load : Loaded) (later : ℕ)
        → IsAfter s s'
        → IsAfter s (request another now load later s').1

  signature-stays :
      (key : SignatureKey) (old : String) (s s' : MetadataState)
      → signature_at key s.signatures ≡ some old
      → IsAfter s s'
      → signature_at key s'.signatures ≡ some old
  unfolding get_prepared
  signature-stays key old s _ h here = h
  signature-stays key old s _ h (requested {s' = s'} another now load later a) =
      (with_cached-Stays key old another s' (signature-stays key old s s' h a) _ now load
        later).stays

  -- Once a request for a source was served, each later request for it, with the same profile, that is
  -- served, whatever requests come between, is served metadata with the same fingerprint of the views'
  -- structure.
  pub get_prepared-same_structure :
      (source : SourceProfile) (t now later t' now' later' : ℕ) (load load' : Loaded)
      (s s' : MetadataState) (value value' : PreparedMetadata) (stale stale' : Bool)
      → IsReachable sha256 sql_policy_revision settings source t s
      → t ≤ now
      → now ≤ later
      → (request source now load later s).0 ≡ ok (value, stale)
      → IsAfter (request source now load later s).1 s'
      → IsReachable sha256 sql_policy_revision settings source t' s'
      → t' ≤ now'
      → now' ≤ later'
      → (request source now' load' later' s').0 ≡ ok (value', stale')
      → create_view_structure_signature sha256 value'.snapshot
        ≡ create_view_structure_signature sha256 value.snapshot
  get_prepared-same_structure source t now later t' now' later' load load' s s' value value' stale
        stale' r h o e a r' h' o' e' =
      let first =
        get_prepared-IsServed sha256 sql_policy_revision settings source t now later load s value
          stale r h o e in
      let second =
        get_prepared-IsServed sha256 sql_policy_revision settings source t' now' later' load' s'
          value' stale' r' h' o' e' in
      some-injective _ _ (
        sym second.pinned
        ∙ signature-stays (signature_key source) _ _ _ first.pinned
            (requested source now' load' later' a))
