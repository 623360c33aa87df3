-- ===== src/Registry/Publishable.antt =====
-- The sources of a registry that was loaded (`SourceRegistry.load`, source_catalog/registry.py).
use mathlib.Core.Path.{subst}
use query_boy.Base.{
  ◌≢◌, not-eq-false, eq_iff, String, true, not, ◌||◌, List, [], ◌∷◌, ◌++◌, some, map, All, length,
  and-eq-true, ◌≤◌, ◌==◌, ◌≡◌, refl, sym, ◌∙◌, ap, arith,
}
use query_boy.Base.Dict.{Dict, lookup}
use query_boy.Base.Keys.{all-lookup}
use query_boy.Base.Sets.{all_different}
use query_boy.Base.Result.{ok, >>=-eq-ok, ok-injective, passed_raise, raise-tested}
use query_boy.Models.{
  test, BudgetProfile, SourceProfile, SslMode, disable, require, verify_full,
  DatabaseAuthentication, password, client_certificate, SourceEnvironment,
}
use query_boy.Registry.Budgets.{parse_model-eq-ok, parse_model}
use query_boy.Registry.Files.{
  DatabaseProfile, DatabaseFile, is_database_profile, is_database_file, is_authentication,
  SourceFile, is_source_file, Authentication, client_certificates, password_env,
  require_source_package, require_sibling_view_reference,
}
use query_boy.Registry.Resolve.{PythonText}
use query_boy.Registry.Bounded.{IsBounded}
use query_boy.Registry.Resolved.{
  IsProperHost, AreUserSchemas, FitsEnvironment, IsResolved, resolve_source-IsResolved,
}
use query_boy.Registry.Registered.{SourceEntry, Configuration, load_source, load_sources}

-- How the reader may log in: by a password only at a test source, by a certificate only over verified TLS.
abbrev pub IsLogin : SourceEnvironment → SslMode → DatabaseAuthentication → Type 0
IsLogin environment sslmode (password secret) = (environment ≡ test) × ((secret ≢ ""))
IsLogin environment sslmode (client_certificate root certificate key) = sslmode ≡ verify_full

certificates-verified :
    (sslmode : SslMode) (wanted : Authentication)
    → is_authentication sslmode wanted ≡ true
    → wanted ≡ client_certificates
    → sslmode ≡ verify_full
certificates-verified verify_full wanted h e = refl
certificates-verified disable client_certificates h e = absurd (cc h)
certificates-verified require client_certificates h e = absurd (cc h)
certificates-verified disable (password_env name) h e = absurd (cc e)
certificates-verified require (password_env name) h e = absurd (cc e)

fits-IsLogin :
    (parsed : SourceFile) (database : DatabaseProfile) (a : DatabaseAuthentication)
    → is_authentication database.sslmode database.authentication ≡ true
    → FitsEnvironment parsed database.authentication a
    → IsLogin parsed.environment database.sslmode a
fits-IsLogin parsed database (password secret) valid h = h
fits-IsLogin parsed database (client_certificate root certificate key) valid h =
    certificates-verified database.sslmode database.authentication valid h

-- A source that may be published.
pub record IsPublishable (py : PythonText) (source : SourceProfile) : Type 0 where
  pub bounded : IsBounded source.budget
  pub proper_host : IsProperHost source.connection.host
  pub proper_port : (1 ≤ source.connection.port) × (source.connection.port ≤ 65535)
  pub login :
      IsLogin source.provenance.environment source.connection.sslmode
        source.connection.authentication
  pub different : all_different source.allowed_schemas ≡ true
  pub user_schemas : AreUserSchemas py source.allowed_schemas
  pub some_schemas : (1 ≤ length source.allowed_schemas) × (length source.allowed_schemas ≤ 20)

-- The parts of a valid source file that a source relies on.
is_source_file-schemas :
    (f : SourceFile)
    → is_source_file f ≡ true
    → (1 ≤ length f.allowed_schemas) × (length f.allowed_schemas ≤ 20)
unfolding is_source_file
is_source_file-schemas f h = ground arith

is_database_profile-login :
    (p : DatabaseProfile)
    → is_database_profile p ≡ true
    → is_authentication p.sslmode p.authentication ≡ true
unfolding is_database_profile
is_database_profile-login p h = ground arith

pub database_profile_lem :
    (f : DatabaseFile) (k : String) (d : DatabaseProfile)
    → is_database_file f ≡ true
    → lookup k f.profiles ≡ some d
    → is_database_profile d ≡ true
unfolding is_database_file
database_profile_lem f k d valid at =
    let (entries, version) = and-eq-true _ _ (and-eq-true _ _ valid).0 in
    (and-eq-true _ _ (all-lookup _ k d f.profiles entries at)).1

module _ (py : PythonText) (config : Configuration) where
  -- What holds of the profiles that the sources are resolved from.
  pub record AreGood (budgets : Dict BudgetProfile) (databases : Dict DatabaseProfile)
      : Type 0 where
    pub budget : (k : String) (b : BudgetProfile) → lookup k budgets ≡ some b → IsBounded b
    pub database :
        (k : String) (d : DatabaseProfile)
        → lookup k databases ≡ some d
        → is_database_profile d ≡ true

  module _ (budgets : Dict BudgetProfile) (databases : Dict DatabaseProfile)
      (good : AreGood budgets databases) where
    resolved-IsPublishable :
        (parsed : SourceFile) (source : SourceProfile)
        → is_source_file parsed ≡ true
        → IsResolved py budgets databases config.credential_directory config.environment parsed
            source
        → IsPublishable py source
    resolved-IsPublishable parsed source valid r = subst (IsPublishable py) (sym r.built) (record {
      bounded = good.budget _ r.budget r.known_budget;
      proper_host = r.proper_host;
      proper_port = r.proper_port;
      login =
          fits-IsLogin parsed r.database r.authentication
            (is_database_profile-login r.database (good.database _ r.database r.known_database))
            r.fits;
      different = r.different;
      user_schemas = r.user_schemas;
      some_schemas = is_source_file-schemas parsed valid;
    })

    load_source-IsPublishable :
        (entry : SourceEntry) (source : SourceProfile)
        → load_source py config budgets databases entry ≡ ok source
        → IsPublishable py source × (source.source_id ≡ entry.name)
    unfolding load_source
    load_source-IsPublishable entry source h =
        let h1 = passed_raise (entry.is_symlink || not entry.is_dir) _ _ h in
        let (files, packed, h2) = >>=-eq-ok (require_source_package entry.files) _ h1 in
        let (parsed, read, h3) = >>=-eq-ok (parse_model is_source_file entry.manifest) _ h2 in
        let other = not (entry.name == parsed.source_id) in
        let h4 = passed_raise other _ _ h3 in
        let (views, sibling, h5) =
          >>=-eq-ok
            (require_sibling_view_reference (config.source_directory ++ (entry.name ∷ [])) parsed) _
            h4 in
        let r =
          resolve_source-IsResolved py budgets databases config.credential_directory
            config.environment parsed source h5 in
        (
          resolved-IsPublishable parsed source
              (parse_model-eq-ok is_source_file entry.manifest read) r,
          ap (λ (s : SourceProfile). s.source_id) r.built
              ∙ sym ((eq_iff _ _).0 (not-eq-false _ (raise-tested other _ _ h3))),
        )

    pub load_sources-IsPublishable :
        (entries : List SourceEntry) (sources : List SourceProfile)
        → load_sources py config budgets databases entries ≡ ok sources
        → All (IsPublishable py) sources
          × (map (λ (s : SourceProfile). s.source_id) sources
              ≡ map (λ (e : SourceEntry). e.name) entries)
    unfolding load_sources
    load_sources-IsPublishable [] sources h =
        subst
          (λ (ss : List SourceProfile).
            All (IsPublishable py) ss × (map (λ (s : SourceProfile). s.source_id) ss ≡ []))
          (ok-injective h) (tt, refl)
    load_sources-IsPublishable (entry ∷ entries) sources h =
        let (source, one, h1) = >>=-eq-ok (load_source py config budgets databases entry) _ h in
        let (more, others, h2) =
          >>=-eq-ok (load_sources py config budgets databases entries) _ h1 in
        let (good_one, name) = load_source-IsPublishable entry source one in
        let (good_more, names) = load_sources-IsPublishable entries more others in
        subst
          (λ (ss : List SourceProfile).
            All (IsPublishable py) ss
            × (map (λ (s : SourceProfile). s.source_id) ss
                ≡ map (λ (e : SourceEntry). e.name) (entry ∷ entries)))
          (ok-injective h2)
          (
            (good_one, good_more),
            ap (λ n. n ∷ map (λ (s : SourceProfile). s.source_id) more) name
                ∙ ap (◌∷◌ entry.name) names,
          )
