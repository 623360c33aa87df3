-- ===== src/App/Admission.antt =====
-- The middleware `authenticate`, `_bearer_token` and `_require_operator` (delivery/app.py).
use query_boy.Base.{
  String, Bool, true, false, not, ◌&&◌, ◌||◌, List, [], ◌∷◌, Option, none, some, ◌==◌,
  if◌then◌else◌,
}
use query_boy.Base.Result.{Result, ok, err}
use query_boy.Base.Text.{has_space}
use query_boy.Base.Json.{string}
use query_boy.Catalog.Comments.{after_literal}
use query_boy.Access.{AccessPolicy, CallerContext, authenticate}
use query_boy.Errors.{AppError, operator_required_error}
use query_boy.Operations.{OperationalState, PublicStatus, shutting_down, public_status}
use query_boy.Metadata.Revision.{members}
use query_boy.App.Responses.{Response, error_content}

-- What the middleware reads of a request.
pub record Request : Type 0 where
  pub path : String
  pub authorizations : List String

abbrev pub token_after : Option String → Option String
token_after none = none
token_after (some token) = if token == "" || has_space token then none else some token

unfoldable pub bearer_token : Option String → Option String
unfolding after_literal has_space
bearer_token none = none
bearer_token (some authorization) = token_after (after_literal "Bearer " authorization)

abbrev pub is_open : String → Bool
is_open path = path == "/health" || path == "/ready"

unfoldable pub shutting_down_response : Response
unfolding members
shutting_down_response = record {
  status_code = 503;
  headers = [];
  content = error_content (
      ("code", string "SERVICE_SHUTTING_DOWN")
      ∷ ("message", string "The service is shutting down.")
      ∷ []);
}

unfoldable pub unauthorized_response : Response
unfolding members
unauthorized_response = record {
  status_code = 401;
  headers = ("WWW-Authenticate", "Bearer error=\"invalid_token\"") ∷ [];
  content = error_content (
      ("code", string "UNAUTHORIZED")
      ∷ ("message", string "A valid bearer token is required.")
      ∷ []);
}

abbrev pub is_shutting_down : PublicStatus → Bool
is_shutting_down shutting_down = true
is_shutting_down _ = false

module _ (digest : String → String) (policy : AccessPolicy) where
  -- The caller that the authorization headers name.
  abbrev pub caller_of : List String → Option CallerContext
  caller_of [] = authenticate digest policy none
  caller_of (authorization ∷ []) = authenticate digest policy (bearer_token (some authorization))
  caller_of (first ∷ second ∷ more) = none

  abbrev pub with_caller : Option CallerContext → (Option CallerContext → Response) → Response
  with_caller none call_next = unauthorized_response
  with_caller (some caller) call_next = call_next (some caller)

  -- `call_next` is given the caller that `request.state` has.
  unfoldable pub admit : OperationalState → Request → (Option CallerContext → Response) → Response
  unfolding public_status bearer_token authenticate shutting_down_response unauthorized_response
  admit s request call_next =
      if is_shutting_down (public_status s) && not (is_open request.path)
      then shutting_down_response
      else if not (is_open request.path)
      then with_caller (caller_of request.authorizations) call_next
      else call_next none

unfoldable pub require_operator : CallerContext → Result AppError CallerContext
unfolding operator_required_error
require_operator caller = if not caller.operator then err operator_required_error else ok caller
