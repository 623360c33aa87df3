-- ===== src/Registry/Resolved.antt =====
-- A source that is resolved from its file (`_resolve_source`, source_catalog/registry.py).
use mathlib.Core.Path.{subst}
use query_boy.Base.{
  arith, eq_iff, any, starts_with, ◌≢◌, or-eq-false, ℕ, String, true, false, not, ◌&&◌, List, [],
  ◌∷◌, Option, none, some, All, leb, leb→le, not-eq-false, and-eq-true, ◌≤◌, ◌==◌, ◌≡◌, refl, sym,
  ◌∙◌, ap, if-true, if-false, Bool-cases, inl, inr,
}
use query_boy.Base.Dict.{Dict, lookup}
use query_boy.Base.Int.{ℤ, pos, negsuc}
use query_boy.Base.Text.{strip, split, count_chars}
use query_boy.Base.Sets.{all_different}
use query_boy.Base.Result.{ok, >>=-eq-ok, ok-injective, passed_test, passed_raise, raise-tested}
use query_boy.Models.{
  SourceEnvironment, test, production, staging, development, BudgetProfile, SourceProfile,
  DatabaseAuthentication, password, client_certificate,
}
use query_boy.Registry.Failures.{RegistryConfigurationError, unknown_budget, unknown_database}
use query_boy.Registry.Paths.{Parts}
use query_boy.Registry.Files.{
  DatabaseProfile, SourceFile, Authentication, password_env, client_certificates,
}
use query_boy.Registry.Resolve.{
  PythonText, is_bad_part, or_stripped, variable, is_bad_host, resolve_host, in_port_range,
  port_number, resolve_port, is_forbidden_schema, require_no_system_schema, require_unique, is_test,
  password_of, resolve_authentication, found, source_profile, resolve_source,
}

found-eq-ok {ℓ} :
    {A : Type ℓ} (missing : RegistryConfigurationError) (o : Option A) {a : A}
    → found missing o ≡ ok a
    → o ≡ some a
found-eq-ok missing none h = absurd (cc h)
found-eq-ok missing (some value) h = ap some (ok-injective h)

in_port_range-eq-ok :
    (o : Option ℤ) (port : ℕ) → in_port_range o ≡ ok port → (1 ≤ port) × (port ≤ 65535)
in_port_range-eq-ok none port h = absurd (cc h)
in_port_range-eq-ok (some (negsuc n)) port h = absurd (cc h)
in_port_range-eq-ok (some (pos n)) port h =
    let (inside, same) =
      elim (Bool-cases (leb 1 n && leb n 65535))
        as (λ x. (leb 1 n && leb n 65535 ≡ true) × (n ≡ port)) [
          | inl e ↦ (e, ok-injective (sym (if-true _ _ _ e) ∙ h))
          | inr e ↦ absurd (cc (sym (if-false _ _ _ e) ∙ h))
        ] in
    let (low, high) = and-eq-true _ _ inside in
    subst (λ p. (1 ≤ p) × (p ≤ 65535)) same (leb→le _ _ low, leb→le _ _ high)

-- No schema is one of PostgreSQL's own, in any case of its letters.
abbrev pub AreUserSchemas : PythonText → List String → Type 0
AreUserSchemas py schemas =
    All
      (λ schema.
        (py.casefold schema ≢ "information_schema")
        × (starts_with (py.casefold schema) "pg_" ≡ false))
      schemas

-- One host of a list: neither empty nor a directory of sockets, with no space around it.
abbrev pub IsProperPart : String → Type 0
IsProperPart part =
    (part ≢ "")
    × (strip part ≡ part)
    × (starts_with part "/" ≡ false)
    × (starts_with part "@" ≡ false)

abbrev pub IsProperHost : String → Type 0
IsProperHost host = (host ≢ "") × (count_chars host ≤ 253) × All IsProperPart (split 44 host)

is_bad_part-IsProperPart : (part : String) → is_bad_part part ≡ false → IsProperPart part
unfolding is_bad_part
is_bad_part-IsProperPart part h =
    let (rest, abstract) = or-eq-false _ (starts_with (strip part) "@") h in
    let (rest', path) = or-eq-false _ (starts_with (strip part) "/") rest in
    let (nonempty, stripped) = or-eq-false (strip part == "") _ rest' in
    let same : strip part ≡ part = (eq_iff (strip part) part).0 (not-eq-false _ stripped) in
    (
      λ e. absurd (cc (sym nonempty ∙ ap (λ p. p == "") (same ∙ e))),
      same,
      ap (λ p. starts_with p "/") (sym same) ∙ path,
      ap (λ p. starts_with p "@") (sym same) ∙ abstract,
    )

are_proper_parts : (parts : List String) → any is_bad_part parts ≡ false → All IsProperPart parts
are_proper_parts [] h = tt
are_proper_parts (part ∷ parts) h =
    let (one, others) = or-eq-false (is_bad_part part) _ h in
    (is_bad_part-IsProperPart part one, are_proper_parts parts others)

is_bad_host-IsProperHost : (host : String) → is_bad_host host ≡ false → IsProperHost host
unfolding is_bad_host
is_bad_host-IsProperHost host h =
    let (rest, parts) = or-eq-false _ (any is_bad_part (split 44 host)) h in
    let (nonempty, short) = or-eq-false (host == "") _ rest in
    (
      λ e. absurd (cc (sym nonempty ∙ ap (λ p. p == "") e)),
      ground (arith, short),
      are_proper_parts (split 44 host) parts,
    )

is_forbidden_schema-eq-false :
    (py : PythonText) (schema : String)
    → is_forbidden_schema py schema ≡ false
    → (py.casefold schema ≢ "information_schema") × (starts_with (py.casefold schema) "pg_" ≡ false)
unfolding is_forbidden_schema
is_forbidden_schema-eq-false py schema h =
    let (other, user) = or-eq-false (py.casefold schema == "information_schema") _ h in
    (λ e. absurd (cc (sym other ∙ ap (λ p. p == "information_schema") e)), user)

require_no_system_schema-eq-ok :
    (py : PythonText) (schemas : List String) {u : Unit {0}}
    → require_no_system_schema py schemas ≡ ok u
    → AreUserSchemas py schemas
unfolding require_no_system_schema
require_no_system_schema-eq-ok py [] h = tt
require_no_system_schema-eq-ok py (schema ∷ schemas) h =
    let bad = is_forbidden_schema py schema in
    (
      is_forbidden_schema-eq-false py schema (raise-tested bad _ _ h),
      require_no_system_schema-eq-ok py schemas (passed_raise bad _ _ h),
    )

-- A password is not empty and only a test source has one; a client certificate comes of a profile with them.
abbrev pub FitsEnvironment : SourceFile → Authentication → DatabaseAuthentication → Type 0
FitsEnvironment parsed wanted (password secret) = (parsed.environment ≡ test) × (secret ≢ "")
FitsEnvironment parsed wanted (client_certificate root certificate key) =
    wanted ≡ client_certificates

is_test-eq : (environment : SourceEnvironment) → is_test environment ≡ true → environment ≡ test
is_test-eq test h = refl
is_test-eq production h = absurd (cc h)
is_test-eq staging h = absurd (cc h)
is_test-eq development h = absurd (cc h)

password_of-eq-ok :
    (parsed : SourceFile) (wanted : Authentication) (name : String) (o : Option String)
    (a : DatabaseAuthentication)
    → is_test parsed.environment ≡ true
    → password_of name o ≡ ok a
    → FitsEnvironment parsed wanted a
password_of-eq-ok parsed wanted name none a t h = absurd (cc h)
password_of-eq-ok parsed wanted name (some secret) a t h =
    let (nonempty, made) = passed_test (secret == "") _ _ h in
    subst (FitsEnvironment parsed wanted) (ok-injective made)
      (is_test-eq parsed.environment t, λ e. absurd (cc (sym nonempty ∙ ap (λ p. p == "") e)))

resolve_authentication-FitsEnvironment :
    (credentials : Parts) (environment : Dict String) (parsed : SourceFile)
    (wanted : Authentication) (a : DatabaseAuthentication)
    → resolve_authentication credentials environment parsed wanted ≡ ok a
    → FitsEnvironment parsed wanted a
unfolding resolve_authentication
resolve_authentication-FitsEnvironment credentials environment parsed (password_env name) a h =
    let outside = not (is_test parsed.environment) in
    password_of-eq-ok parsed (password_env name) name (lookup name environment) a
      (not-eq-false _ (raise-tested outside _ _ h)) (passed_raise outside _ _ h)
resolve_authentication-FitsEnvironment credentials environment parsed client_certificates a h =
    subst (FitsEnvironment parsed client_certificates) (ok-injective h) refl

module _ (py : PythonText) (budgets : Dict BudgetProfile) (databases : Dict DatabaseProfile)
    (credentials : Parts) (environment : Dict String) (parsed : SourceFile) where
  -- What a resolved source is made of.
  pub record IsResolved (source : SourceProfile) : Type 0 where
    pub budget : BudgetProfile
    pub database : DatabaseProfile
    pub host : String
    pub port : ℕ
    pub authentication : DatabaseAuthentication
    pub known_budget : lookup parsed.budget_profile budgets ≡ some budget
    pub known_database : lookup parsed.database_profile databases ≡ some database
    pub proper_host : IsProperHost host
    pub proper_port : (1 ≤ port) × (port ≤ 65535)
    pub different : all_different parsed.allowed_schemas ≡ true
    pub user_schemas : AreUserSchemas py parsed.allowed_schemas
    pub fits : FitsEnvironment parsed database.authentication authentication
    pub built : source ≡ source_profile parsed budget database host port authentication

  pub resolve_source-IsResolved :
      (source : SourceProfile)
      → resolve_source py budgets databases credentials environment parsed ≡ ok source
      → IsResolved source
  unfolding resolve_source resolve_host resolve_port require_unique
  resolve_source-IsResolved source h =
      let (budget, has_budget, h1) =
        >>=-eq-ok
          (found (unknown_budget parsed.budget_profile) (lookup parsed.budget_profile budgets)) _
          h in
      let (database, has_database, h2) =
        >>=-eq-ok
          (found (unknown_database parsed.database_profile)
            (lookup parsed.database_profile databases))
          _ h1 in
      let (host, has_host, h3) = >>=-eq-ok (resolve_host environment database) _ h2 in
      let (port, has_port, h4) = >>=-eq-ok (resolve_port py environment database) _ h3 in
      let repeated = not (all_different parsed.allowed_schemas) in
      let h5 = passed_raise repeated _ _ h4 in
      let (checked, has_schemas, h6) =
        >>=-eq-ok (require_no_system_schema py parsed.allowed_schemas) _ h5 in
      let (authentication, has_authentication, h7) =
        >>=-eq-ok (resolve_authentication credentials environment parsed database.authentication) _
          h6 in
      let raw = or_stripped database.host (variable environment database.host_env) in
      let bad = is_bad_host raw in
      record {
        budget = budget;
        database = database;
        host = host;
        port = port;
        authentication = authentication;
        known_budget = found-eq-ok _ _ has_budget;
        known_database = found-eq-ok _ _ has_database;
        proper_host =
            subst IsProperHost (ok-injective (passed_raise bad _ _ has_host))
              (is_bad_host-IsProperHost raw (raise-tested bad _ _ has_host));
        proper_port =
            in_port_range-eq-ok
              (port_number py database.port (variable environment database.port_env)) port has_port;
        different = not-eq-false _ (raise-tested repeated _ _ h4);
        user_schemas = require_no_system_schema-eq-ok py _ has_schemas;
        fits =
            resolve_authentication-FitsEnvironment credentials environment parsed
              database.authentication authentication has_authentication;
        built = sym (ok-injective h7);
      }
