-- ===== src/Access/Callers.antt =====
-- Who is authenticated by an access policy that was loaded (delivery/access.py).
use mathlib.Core.Option.{some-injective}
use query_boy.Base.{
  length, ◌&&◌, leb, ◌⊎◌, eqb, String, Bool, true, false, not, List, [], ◌∷◌, ◌++◌, Option, none,
  some, map, ◌==◌, ◌≡◌, refl, sym, ◌∙◌, ap, arith, All, All-map, eq_iff, eq_refl, Bool-cases, inl,
  inr, if◌then◌else◌, if-true, if-false,
}
use query_boy.Base.Dict.{Dict}
use query_boy.Base.Sets.{all_different, contains, add, contains-add}
use query_boy.Base.Result.{ok, passed_raise, >>=-eq-ok, ok-injective, passed_test}
use query_boy.Access.{
  CallerContext, Credential, Caller, PolicyFile, AccessPolicy, valid_policy, is_token,
  caller_context, token_of, credential_of, load_callers, load, match_credential, authenticate,
}

module _ (digest : String → String) (environment : Dict String) where
  abbrev digest_of : Caller → String
  digest_of c = digest (token_of environment c)

  -- The digests differ.
  abbrev Apart : List Caller → Type 0
  Apart [] = Unit
  Apart (c ∷ cs) = All (λ d. (digest_of c == digest_of d) ≡ false) cs × Apart cs

  record IsLoaded (callers : List Caller) (seen : List String) (credentials : List Credential)
      : Type 0 where
    made : credentials ≡ map (credential_of digest environment) callers
    tokens : All (λ c. is_token (token_of environment c) ≡ true) callers
    unseen : All (λ c. contains seen (digest_of c) ≡ false) callers
    apart : Apart callers

  load_callers-IsLoaded :
      (callers : List Caller) (seen : List String) (credentials : List Credential)
      → load_callers digest environment callers seen ≡ ok credentials
      → IsLoaded callers seen credentials
  unfolding load_callers
  load_callers-IsLoaded [] seen credentials h = record {
    made = sym (ok-injective h);
    tokens = tt;
    unseen = tt;
    apart = tt;
  }
  load_callers-IsLoaded (c ∷ callers) seen credentials h =
      let (t, h') = passed_test (not (is_token (token_of environment c))) _ _ h in
      let (u, h'') = passed_test (contains seen (digest_of c)) _ _ h' in
      let (rest, r, e) =
        >>=-eq-ok (load_callers digest environment callers (add (digest_of c) seen)) _ h'' in
      let tail = load_callers-IsLoaded callers (add (digest_of c) seen) rest r in
      record {
        made = sym (ok-injective e) ∙ ap (λ cs. credential_of digest environment c ∷ cs) tail.made;
        tokens = (ground (arith, t), tail.tokens);
        unseen = (
          u,
          All-map (λ d f. ground (arith, f, contains-add (digest_of c) (digest_of d) seen)) callers
              tail.unseen,
        );
        apart = (
          All-map (λ d f. ground (arith, f, contains-add (digest_of c) (digest_of d) seen)) callers
              tail.unseen,
          tail.apart,
        );
      }

  abbrev after : String → List Caller → Option CallerContext → Option CallerContext
  after received callers matched =
      match_credential received (map (credential_of digest environment) callers) matched

  -- No other credential matches.
  unmatched :
      (received : String) (callers : List Caller) (matched : Option CallerContext)
      → All (λ c. (received == digest_of c) ≡ false) callers
      → after received callers matched ≡ matched
  unfolding match_credential
  unmatched received [] matched h = refl
  unmatched received (c ∷ callers) matched (f, h) =
      unmatched received callers _ h ∙ if-false _ _ _ f

  matched_each :
      (callers : List Caller)
      → Apart callers
      → (matched : Caller → Option CallerContext)
      → All (λ c. after (digest_of c) callers (matched c) ≡ some (caller_context c)) callers
  unfolding match_credential
  matched_each [] h matched = tt
  matched_each (c ∷ callers) (f, h) matched = (
    unmatched (digest_of c) callers _ f ∙ if-true _ _ _ (eq_refl (digest_of c)),
    matched_each callers h
        (λ d. if digest_of d == digest_of c then some (caller_context c) else matched d),
  )

  matched_from :
      (received : String) (callers : List Caller) (matched : Option CallerContext)
      (who : CallerContext)
      → after received callers matched ≡ some who
      → (matched ≡ some who)
        ⊎ ((before : List Caller) × (c : Caller) × (rest : List Caller) × (callers
              ≡ before ++ c ∷ rest)
            × ((received == digest_of c) ≡ true)
            × (who ≡ caller_context c))
  unfolding match_credential
  matched_from received [] matched who h = inl h
  matched_from received (c ∷ callers) matched who h = elim (matched_from received callers _ who h) [
    | inr (before, d, rest, e, m, w) ↦ inr (c ∷ before, d, rest, ap (λ cs. c ∷ cs) e, m, w)
    | inl e ↦ elim (Bool-cases (received == digest_of c)) [
      | inl m ↦ inr ([], c, callers, refl, m, some-injective _ _ (sym e ∙ if-true _ _ _ m))
      | inr f ↦ inl (sym (if-false _ _ _ f) ∙ e)
    ]
  ]

  valid_policy_lem : (file parsed : PolicyFile) → valid_policy file ≡ ok parsed → parsed ≡ file
  unfolding valid_policy
  valid_policy_lem file parsed h =
      let ids = not (all_different (map (λ (c : Caller). c.caller_id) file.callers)) in
      let count = not (leb 1 (length file.callers) && leb (length file.callers) 1000) in
      let envs = not (all_different (map (λ (c : Caller). c.token_env) file.callers)) in
      sym (
        ok-injective (
          passed_raise envs _ _ (
            passed_raise ids _ _
              (passed_raise (not (eqb file.version 2)) _ _ (passed_raise count _ _ h)))))

  load_lem :
      (file : PolicyFile) (policy : AccessPolicy)
      → load digest environment file ≡ ok policy
      → IsLoaded file.callers [] policy.credentials
  unfolding load
  load_lem file policy h =
      let (parsed, p, h') = >>=-eq-ok (valid_policy file) _ h in
      let (credentials, c, e) =
        >>=-eq-ok (load_callers digest environment parsed.callers []) _ h' in
      load_callers-IsLoaded file.callers [] policy.credentials (
        ap (λ f. load_callers digest environment f.callers [])
          (sym (valid_policy_lem file parsed p))
        ∙ c
        ∙ ap (λ q. ok q.credentials) (ok-injective e))

  authenticated :
      (callers : List Caller) (policy : AccessPolicy)
      → policy.credentials ≡ map (credential_of digest environment) callers
      → (cs : List Caller) → All (λ c. is_token (token_of environment c) ≡ true) cs
      → All (λ c. after (digest_of c) callers none ≡ some (caller_context c)) cs
      → All
          (λ c.
            authenticate digest policy (some (token_of environment c)) ≡ some (caller_context c))
          cs
  unfolding authenticate
  authenticated callers policy made [] t m = tt
  authenticated callers policy made (c ∷ cs) (t, ts) (m, ms) = (
    if-false _ _ _ (ap not t) ∙ ap (λ xs. match_credential (digest_of c) xs none) made ∙ m,
    authenticated callers policy made cs ts ms,
  )

  -- Each caller of a policy file that loads is authenticated, as itself, by its own token.
  pub load-authenticate :
      (file : PolicyFile) (policy : AccessPolicy)
      → load digest environment file ≡ ok policy
      → All
          (λ c.
            authenticate digest policy (some (token_of environment c)) ≡ some (caller_context c))
          file.callers
  unfolding authenticate
  load-authenticate file policy h =
      let loaded = load_lem file policy h in
      authenticated file.callers policy loaded.made file.callers loaded.tokens
        (matched_each file.callers loaded.apart (λ c. none))

  accepted :
      (bad : Bool) (m : Option CallerContext) {who : CallerContext}
      → (if bad then none else m) ≡ some who
      → (bad ≡ false) × (m ≡ some who)
  accepted true m h = absurd (cc h)
  accepted false m h = (refl, h)

  -- A token that a loaded policy authenticates has the same digest as the token of a caller of the
  -- file, and this caller is the one it is authenticated as.
  pub authenticate-load :
      (file : PolicyFile) (policy : AccessPolicy) (token : String) (who : CallerContext)
      → load digest environment file ≡ ok policy
      → authenticate digest policy (some token) ≡ some who
      → (before : List Caller) × (c : Caller) × (rest : List Caller) × (file.callers
          ≡ before ++ c ∷ rest)
        × (digest token ≡ digest (token_of environment c))
        × (who ≡ caller_context c)
  unfolding authenticate
  authenticate-load file policy token who h a =
      let (_, a') = accepted (not (is_token token)) _ a in
      let found = matched_from (digest token) file.callers none who (
        ap (λ xs. match_credential (digest token) xs none) (sym (load_lem file policy h).made)
        ∙ a') in
      elim found [
        | inl e ↦ absurd (cc e)
        | inr (before, c, rest, e, m, w) ↦
            (before, c, rest, e, ground (arith, m, eq_iff (digest token) (digest_of c)), w)
      ]
