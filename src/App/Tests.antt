-- ===== src/App/Tests.antt =====
-- Requests at a policy with one token.
use query_boy.Base.{
  String, ◌<>◌, false, List, [], ◌∷◌, Option, none, some, All, length, ◌≤◌, ◌≡◌, ◌⊎◌, refl,
}
use query_boy.Base.Int.{pos, negsuc}
use query_boy.Access.{AccessPolicy, CallerContext}
use query_boy.Operations.{reset}
use query_boy.App.Details.{Issue, key, index, bounded_validation_details}
use query_boy.App.Bounded.{IsHarmless, bounded_validation_details-IsHarmless}
use query_boy.App.Responses.{Response}
use query_boy.App.Admission.{Request, admit}
use query_boy.App.Admitted.{IsAuthenticated, admit-IsAuthenticated}

abbrev digest : String → String
digest s = "#" <> s

abbrev alice : CallerContext
alice = record { caller_id = "alice"; tenant_id = "shop"; operator = false }

abbrev policy : AccessPolicy
policy = record {
  credentials = record { token_digest = "#0123456789abcdef0123456789abcdef"; caller = alice } ∷ [];
  anonymous = none;
}

abbrev request : Request
request = record {
  path = "/query";
  authorizations = "Bearer 0123456789abcdef0123456789abcdef" ∷ [];
}

admit-IsAuthenticated_example :
    ((caller : CallerContext) × IsAuthenticated digest policy request caller
      × ((call_next : Option CallerContext → Response)
          → admit digest policy reset request call_next ≡ call_next (some caller)))
    ⊎ ((response : Response) × ((call_next : Option CallerContext → Response)
          → admit digest policy reset request call_next ≡ response))
admit-IsAuthenticated_example = admit-IsAuthenticated digest policy request reset refl refl

-- The query is answered for alice.
alice_served :
    (call_next : Option CallerContext → Response)
    → admit digest policy reset request call_next ≡ call_next (some alice)
unfolding admit
alice_served call_next = refl

abbrev issues : List Issue
issues =
    record {
      loc = key "body" ∷ key "sql" ∷ index (pos 3) ∷ key "käse" ∷ index (negsuc 0) ∷ [];
      kind = some "extra_forbidden";
    }
    ∷ record { loc = []; kind = none }
    ∷ []

bounded_validation_details-IsHarmless_example :
    (length (bounded_validation_details issues) ≤ 32)
    × All IsHarmless (bounded_validation_details issues)
bounded_validation_details-IsHarmless_example = bounded_validation_details-IsHarmless issues
