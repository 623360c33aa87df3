-- ===== src/App/Responses.antt =====
-- The responses of the HTTP application (delivery/app.py).
use query_boy.Base.{
  ℕ, String, Bool, true, false, List, [], ◌∷◌, Option, none, some, map, ltb, if◌then◌else◌,
}
use query_boy.Base.Dict.{Dict}
use query_boy.Base.Json.{boolean, Json, string, array, elements}
use query_boy.Errors.{
  AppError, ErrorClass, Details, no_details, rejection, correction, violations, operator_required,
}
use query_boy.Metadata.Revision.{dict_json, members, strings}
use query_boy.Operations.{
  OperationalState, PublicStatus, shutting_down, ready, degraded, public_status,
}
use query_boy.App.Details.{Issue, Detail, bounded_validation_details}

pub record Response : Type 0 where
  pub status_code : ℕ
  pub headers : Dict String
  pub content : Json

-- `{"error": body}`
abbrev pub error_content : Dict Json → Json
error_content body = dict_json (("error", dict_json body) ∷ [])

unfoldable pub unexpected_error_response : Response
unfolding members
unexpected_error_response = record {
  status_code = 500;
  headers = [];
  content =
      error_content (
        ("code", string "INTERNAL_ERROR") ∷ ("message", string "An internal error occurred.") ∷ []);
}

abbrev pub detail_json : Detail → Json
detail_json d =
    dict_json
      (("path", string d.path) ∷ ("code", string d.code_text) ∷ ("message", string d.message) ∷ [])

-- The handler of `RequestValidationError`.
unfoldable pub validation_error : List Issue → Response
unfolding bounded_validation_details members elements
validation_error issues = record {
  status_code = 400;
  headers = [];
  content = error_content (
      ("code", string "INVALID_REQUEST")
      ∷ ("message", string "The request body is invalid.")
      ∷ ("details", array (elements (map detail_json (bounded_validation_details issues))))
      ∷ []);
}

-- `error.details` of each class; `none` is Python's `None`.
unfoldable pub details_json : Details → Option Json
unfolding members
details_json no_details = none
details_json (rejection reason none) = some (dict_json (("reason_code", string reason) ∷ []))
details_json (rejection reason (some construct)) =
    some
      (dict_json (("reason_code", string reason) ∷ ("rejected_construct", string construct) ∷ []))
details_json (correction reason action retryable) = some (
    dict_json (
      ("reason_code", string reason)
      ∷ ("action", string action)
      ∷ ("retryable", boolean retryable)
      ∷ []))
details_json (violations issues) = some (strings issues)

abbrev pub shown_details : Option Json → Dict Json
shown_details none = []
shown_details (some details) = ("details", details) ∷ []

abbrev pub scope_header : ErrorClass → Dict String
scope_header operator_required = ("WWW-Authenticate", "Bearer error=\"insufficient_scope\"") ∷ []
scope_header _ = []

-- The handler of `AppError`.
unfoldable pub app_error : AppError → Response
unfolding details_json members
app_error error = record {
  status_code = error.status_code;
  headers = scope_header error.kind;
  content = error_content (
      ("code", string error.code)
      ∷ ("message", string error.message)
      ∷ (if ltb error.status_code 500 then shown_details (details_json error.details) else []));
}

abbrev pub status_text : PublicStatus → String
status_text shutting_down = "shutting_down"
status_text PublicStatus.initializing = "initializing"
status_text PublicStatus.unavailable = "unavailable"
status_text degraded = "degraded"
status_text ready = "ready"

abbrev pub is_serving : PublicStatus → Bool
is_serving ready = true
is_serving degraded = true
is_serving _ = false

-- The routes "/health" and "/ready".
unfoldable pub health : Response
unfolding members
health = record {
  status_code = 200;
  headers = [];
  content = dict_json (("status", string "ok") ∷ []);
}

unfoldable pub readiness : OperationalState → Response
unfolding public_status members
readiness s = record {
  status_code = if is_serving (public_status s) then 200 else 503;
  headers = [];
  content = dict_json (("status", string (status_text (public_status s))) ∷ []);
}
