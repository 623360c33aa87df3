-- ===== src/Composition/Anonymous.antt =====
-- When a process that listens beyond the loopback interface serves callers without authentication
-- (`load_runtime_config`, runtime/config.py, and `build_app`, runtime/composition.py).
use mathlib.Core.Option.{some-injective}
use query_boy.Base.{
  [], String, false, not, ◌&&◌, Option, none, some, ◌==◌, eq_iff, Bool-cases, if-true, if-false,
  ◌≡◌, ◌↔◌, inl, inr, refl, sym, ◌∙◌, ap, arith,
}
use query_boy.Base.Dict.{Dict}
use query_boy.Base.Result.{ok, >>=-eq-ok, ok-injective, passed_raise, raise-tested}
use query_boy.Registry.Paths.{Parts, parts_of}
use query_boy.Config.{
  Environment, Libraries, RuntimeConfig, present, retired_source_authority_settings, refuse_retired,
  is_environment, is_loopback, without_empty_token, validated, is_given, optional_path, config_of,
  load_runtime_config,
}
use query_boy.Access.{
  CallerContext, PolicyFile, AccessPolicy, Configured, valid_policy, load_callers, load, local,
  legacy, authenticate,
}
use query_boy.Composition.{
  PolicySource, from_file, from_token, anonymous_local, choose_policy, policy_source, policy_from,
  access_policy,
}

module _ (py : Libraries) where
  validated-eq-ok : (o : Option Environment) {e : Environment} → validated py o ≡ ok e → o ≡ some e
  validated-eq-ok none h = absurd (cc h)
  validated-eq-ok (some e) h = elim (Bool-cases (is_environment py e)) [
    | inl valid ↦ ap some (ok-injective (sym (if-true _ _ _ valid) ∙ h))
    | inr bad ↦ absurd (cc (sym (if-false _ _ _ bad) ∙ h))
  ]

  -- What is known of a configuration that is accepted.
  record IsAccepted (root : Parts) (values : Dict String) (config : RuntimeConfig) : Type 0 where
    parsed : Environment
    read : py.read (without_empty_token py values) ≡ some parsed
    not_both : (is_given py parsed.api_token && is_given py parsed.access_policy_file) ≡ false
    guarded :
        (not (is_loopback py parsed.host)
          && not (is_given py parsed.api_token)
          && not (is_given py parsed.access_policy_file))
        ≡ false
    built : config_of py root parsed ≡ config

  load_runtime_config-IsAccepted :
      (root : Parts) (values : Dict String) (config : RuntimeConfig)
      → load_runtime_config py root values ≡ ok config
      → IsAccepted root values config
  unfolding load_runtime_config
  load_runtime_config-IsAccepted root values config h =
      let (done, fresh, h1) =
        >>=-eq-ok (refuse_retired py (present values retired_source_authority_settings)) _ h in
      let (parsed, read, h2) =
        >>=-eq-ok (validated py (py.read (without_empty_token py values))) _ h1 in
      let both = is_given py parsed.api_token && is_given py parsed.access_policy_file in
      let h3 = passed_raise both _ _ h2 in
      let unguarded =
        not (is_loopback py parsed.host)
        && not (is_given py parsed.api_token)
        && not (is_given py parsed.access_policy_file) in
      record {
        parsed = parsed;
        read = validated-eq-ok _ read;
        not_both = raise-tested both _ _ h2;
        guarded = raise-tested unguarded _ _ h3;
        built = ok-injective (passed_raise unguarded _ _ h3);
      }

  -- The choice is the local policy if there is no token and no file with a name.
  local_lem :
      (token file : Option String)
      → (is_given py token && is_given py file) ≡ false
      → (not (is_given py token) && not (is_given py file)) ≡ false
      → (choose_policy (optional_path py file) token ≡ anonymous_local) ↔ (file ≡ some "")
  local_lem none none both neither = absurd (cc neither)
  local_lem (some token) none both neither =
      (λ chosen. absurd (cc chosen), λ empty. absurd (cc empty))
  local_lem (some token) (some file) both neither = absurd (cc both)
  local_lem none (some file) both neither = elim (Bool-cases (file == "")) [
    | inl empty ↦ (λ chosen. ap some ((eq_iff file "").0 empty), λ same. rw empty refl)
    | inr named ↦ (
      λ chosen. absurd (
          cc (
            sym (
              ap (λ f. choose_policy f none)
                (if-false (file == "") none (some (parts_of file)) named))
            ∙ chosen)),
      λ same. absurd (cc (sym named ∙ ap (λ f. f == "") (some-injective file "" same))),
    )
  ]

  policy_source-local_iff :
      (root : Parts) (values : Dict String) (config : RuntimeConfig)
      → load_runtime_config py root values ≡ ok config
      → is_loopback py config.host ≡ false
      → (policy_source config ≡ anonymous_local) ↔ (
          (e : Environment) × (py.read (without_empty_token py values) ≡ some e)
          × (e.access_policy_file ≡ some ""))
  unfolding policy_source
  policy_source-local_iff root values config h outside =
      let accepted = load_runtime_config-IsAccepted root values config h in
      let e = accepted.parsed in
      let host = ap (λ (c : RuntimeConfig). is_loopback py c.host) accepted.built ∙ outside in
      let neither : (not (is_given py e.api_token) && not (is_given py e.access_policy_file))
          ≡ false =
        ground (arith, host, accepted.guarded) in
      let (forth, back) = local_lem e.api_token e.access_policy_file accepted.not_both neither in
      let choice = ap policy_source (sym accepted.built) in
      (
        λ chosen. (e, accepted.read, forth (sym choice ∙ chosen)),
        λ (e', read, empty).
            let same = some-injective e e' (sym accepted.read ∙ read) in
            choice ∙ back (ap (λ (f : Environment). f.access_policy_file) same ∙ empty),
      )

module _ (digest : String → String) (files : Parts → PolicyFile) (environment : Dict String) where
  -- The process has a policy by which a request without a token has a caller.
  abbrev pub ServesAnyone : Configured AccessPolicy → Type 0
  ServesAnyone built =
      (policy : AccessPolicy) × (who : CallerContext) × (built ≡ ok policy)
      × (authenticate digest policy none ≡ some who)

  load-anonymous :
      (file : PolicyFile) (policy : AccessPolicy)
      → load digest environment file ≡ ok policy
      → policy.anonymous ≡ none
  unfolding load
  load-anonymous file policy h =
      let (parsed, valid, h1) = >>=-eq-ok (valid_policy file) _ h in
      let (credentials, loaded, h2) =
        >>=-eq-ok (load_callers digest environment parsed.callers []) _ h1 in
      ap (λ (p : AccessPolicy). p.anonymous) (sym (ok-injective h2))

  ServesAnyone-iff :
      (chosen : PolicySource)
      → ServesAnyone (policy_from digest files environment chosen) ↔ (chosen ≡ anonymous_local)
  unfolding authenticate local legacy
  ServesAnyone-iff (from_file file) = (
    λ (policy, who, built, answer).
        absurd (cc (sym (load-anonymous (files file) policy built) ∙ answer)),
    λ same. absurd (cc same),
  )
  ServesAnyone-iff (from_token token) = (
    λ (policy, who, built, answer).
        absurd (cc (ap (λ (p : AccessPolicy). p.anonymous) (ok-injective built) ∙ answer)),
    λ same. absurd (cc same),
  )
  ServesAnyone-iff anonymous_local = (λ served. refl, λ same. (local, _, refl, refl))

  -- If the configuration is accepted and its host is no loopback host, then the process is built with a
  -- policy that gives a request without a token a caller, exactly if the variable for the policy file was
  -- read as an empty text; this holds whatever the policy files hold.
  pub load_runtime_config-local_iff :
      (py : Libraries) (root : Parts) (values : Dict String) (config : RuntimeConfig)
      → load_runtime_config py root values ≡ ok config
      → is_loopback py config.host ≡ false
      → ServesAnyone (access_policy digest files environment config) ↔ (
          (e : Environment) × (py.read (without_empty_token py values) ≡ some e)
          × (e.access_policy_file ≡ some ""))
  unfolding access_policy
  load_runtime_config-local_iff py root values config h outside =
      let (forth, back) = policy_source-local_iff py root values config h outside in
      let (chosen, serves) = ServesAnyone-iff (policy_source config) in
      (λ served. forth (chosen served), λ empty. serves (back empty))
