-- ===== src/App/Admitted.antt =====
-- Which requests reach a route (delivery/app.py).
use Prim.Native.Char.{code}
use text.Mathlib.TextEquality.{Char-path}
use text.Mathlib.TextLemmas.{cons-append, nil-append}
use mathlib.Core.Path.{subst}
use mathlib.Core.Option.{some-injective}
use query_boy.Base.{
  String, ◌<>◌, false, ◌||◌, List, [], ◌∷◌, Option, none, some, eqb, eqb→eq, ◌==◌, Bool-cases,
  Option-cases, or-eq-false, if-true, if-false, ◌≡◌, ◌⊎◌, inl, inr, refl, sym, ◌∙◌, ap,
}
use query_boy.Base.Text.{has_space}
use query_boy.Catalog.Comments.{after_literal}
use query_boy.Access.{AccessPolicy, CallerContext, authenticate}
use query_boy.Operations.{OperationalState, public_status}
use query_boy.App.Responses.{Response}
use query_boy.App.Admission.{
  Request, token_after, bearer_token, is_open, shutting_down_response, unauthorized_response,
  is_shutting_down, caller_of, admit,
}

after_literal-eq-some :
    (p s : String) {rest : String} → after_literal p s ≡ some rest → s ≡ p <> rest
unfolding after_literal
after_literal-eq-some String.[] s h = some-injective _ _ h ∙ sym (nil-append _)
after_literal-eq-some (String.◌∷◌ c p) String.[] h = absurd (cc h)
after_literal-eq-some (String.◌∷◌ c p) (String.◌∷◌ d s) {rest = rest} h =
    elim (Bool-cases (eqb (code c) (code d))) [
      | inl same ↦
          let more =
            after_literal-eq-some p s (sym (if-true _ (after_literal p s) none same) ∙ h) in
          ap (λ e. String.◌∷◌ e s) (sym (Char-path c d (eqb→eq _ _ same)))
          ∙ ap (String.◌∷◌ c) more
          ∙ sym (cons-append c p rest)
      | inr other ↦ absurd (cc (sym (if-false _ (after_literal p s) none other) ∙ h))
    ]

-- The header holds a token: behind "Bearer ", and with no space.
pub record IsBearer (authorization token : String) : Type 0 where
  pub header : authorization ≡ "Bearer " <> token
  pub some_token : (token == "") ≡ false
  pub no_space : has_space token ≡ false

bearer_token-IsBearer :
    (authorization token : String)
    → bearer_token (some authorization) ≡ some token
    → IsBearer authorization token
unfolding bearer_token
bearer_token-IsBearer authorization token h =
    elim (Option-cases (after_literal "Bearer " authorization)) [
      | inl missing ↦ absurd (cc (sym (ap token_after missing) ∙ h))
      | inr (rest, found) ↦ elim (Bool-cases (rest == "" || has_space rest)) [
        | inl bad ↦ absurd (cc (sym (ap token_after found ∙ if-true _ _ _ bad) ∙ h))
        | inr good ↦
            let same =
              some-injective rest token (sym (ap token_after found ∙ if-false _ _ _ good) ∙ h) in
            let (nonempty, tight) = or-eq-false _ _ good in
            subst (IsBearer authorization) same (record {
              header = after_literal-eq-some "Bearer " authorization found;
              some_token = nonempty;
              no_space = tight;
            })
      ]
    ]

module _ (digest : String → String) (policy : AccessPolicy) (request : Request) where
  -- The request names a caller by its one authorization header.
  pub record IsAuthenticated (caller : CallerContext) : Type 0 where
    pub authorization : String
    pub token : String
    pub only : request.authorizations ≡ authorization ∷ []
    pub bearer : IsBearer authorization token
    pub known : authenticate digest policy (some token) ≡ some caller

  caller_of-IsAuthenticated :
      (headers : List String) (caller : CallerContext)
      → policy.anonymous ≡ none
      → request.authorizations ≡ headers
      → caller_of digest policy headers ≡ some caller
      → IsAuthenticated caller
  unfolding authenticate
  caller_of-IsAuthenticated [] caller closed same h = absurd (cc (sym closed ∙ h))
  caller_of-IsAuthenticated (authorization ∷ []) caller closed same h =
      elim (Option-cases (bearer_token (some authorization))) [
        | inl missing ↦ absurd (cc (sym closed ∙ sym (ap (authenticate digest policy) missing) ∙ h))
        | inr (token, found) ↦ record {
          authorization = authorization;
          token = token;
          only = same;
          bearer = bearer_token-IsBearer authorization token found;
          known = sym (ap (authenticate digest policy) found) ∙ h;
        }
      ]
  caller_of-IsAuthenticated (first ∷ second ∷ more) caller closed same h = absurd (cc h)

  -- Unless a route is "/health" or "/ready", it is reached only by a request that is authenticated: it has
  -- exactly one authorization header, which is "Bearer " and a token without spaces that the policy knows,
  -- and the route is given the caller of this token. Every other request is answered with a response that
  -- does not depend on the routes. The policy is one without an anonymous caller.
  pub admit-IsAuthenticated :
      (s : OperationalState)
      → policy.anonymous ≡ none
      → is_open request.path ≡ false
      → ((caller : CallerContext) × IsAuthenticated caller
          × ((call_next : Option CallerContext → Response)
              → admit digest policy s request call_next ≡ call_next (some caller)))
        ⊎ ((response : Response) × ((call_next : Option CallerContext → Response)
              → admit digest policy s request call_next ≡ response))
  unfolding admit
  admit-IsAuthenticated s closed guarded = elim (Bool-cases (is_shutting_down (public_status s))) [
    | inl stopping ↦ inr (shutting_down_response, λ call_next. rw (stopping, guarded) refl)
    | inr running ↦ elim (Option-cases (caller_of digest policy request.authorizations)) [
      | inl unknown_caller ↦
          inr (unauthorized_response, λ call_next. rw (running, guarded, unknown_caller) refl)
      | inr (caller, known) ↦ inl (
        caller,
        caller_of-IsAuthenticated request.authorizations caller closed refl known,
        λ call_next. rw (running, guarded, known) refl,
      )
    ]
  ]
