-- ===== src/Errors.antt =====
-- errors.py: the errors that a client may see.
use query_boy.Base.{true, Bool, ℕ, String, List, [], ◌∷◌, Option, none, some, if◌then◌else◌}
use query_boy.Base.Dict.{Dict, lookup}
use query_boy.Base.Sets.{contains}

abbrev pub public_rejected_constructs : List String
public_rejected_constructs =
    "BETWEEN" ∷ "BETWEEN SYMMETRIC" ∷ "NOT BETWEEN" ∷ "NOT BETWEEN SYMMETRIC" ∷ "OPERATOR" ∷ []

abbrev pub query_invalid_messages : Dict String
query_invalid_messages =
    (
      "QUERY_DIVISION_BY_ZERO",
      "The query can divide by zero. Guard the denominator with NULLIF or exclude zero values, then retry once.",
    )
    ∷ (
      "QUERY_FUNCTION_SIGNATURE_MISMATCH",
      "A function or operator call has unsupported argument types or count. Use a supported built-in signature and only advertised casts, then retry once.",
    )
    ∷ (
      "QUERY_INVALID_CAST",
      "The query casts a value to an incompatible type. Use an advertised compatible cast or filter invalid values, then retry once.",
    )
    ∷ (
      "QUERY_INVALID_FUNCTION_ARGUMENT",
      "A function argument has an invalid value. Correct the argument while preserving the requested calculation, then retry once.",
    )
    ∷ (
      "QUERY_INVALID_FUNCTION_USAGE",
      "An aggregate or window function is used in an unsupported form. Use its supported call form, then retry once.",
    )
    ∷ (
      "QUERY_INVALID_LIMIT",
      "LIMIT and OFFSET must use non-negative values. Correct them and retry once.",
    )
    ∷ (
      "QUERY_INVALID_REGULAR_EXPRESSION",
      "The regular expression is invalid. Correct its pattern or flags, then retry once.",
    )
    ∷ (
      "QUERY_NUMERIC_VALUE_OUT_OF_RANGE",
      "A numeric value is outside its supported range. For percentile fractions use a value from 0 through 1, then retry once.",
    )
    ∷ (
      "QUERY_UNDEFINED_COLUMN",
      "The query references a column PostgreSQL cannot resolve. Use a returned column sql_name or an alias declared in the query, then retry once.",
    )
    ∷ []

-- The `details` of an error.
pub data Details : Type 0 where
  no_details : Details
  rejection : String → Option String → Details
  correction : String → String → Bool → Details
  violations : List String → Details

-- The subclasses of `AppError`.
pub data ErrorClass : Type 0 where
  source_not_found metadata_unavailable metadata_revision_mismatch query_rejected query_invalid :
      ErrorClass
  query_overloaded query_timeout query_unavailable operator_required : ErrorClass

pub record AppError : Type 0 where
  pub kind : ErrorClass
  pub status_code : ℕ
  pub code : String
  pub message : String
  pub details : Details

unfoldable pub source_not_found_error : AppError
source_not_found_error = record {
  kind = source_not_found;
  status_code = 404;
  code = "SOURCE_NOT_FOUND";
  message = "The requested source was not found.";
  details = no_details;
}

unfoldable pub metadata_unavailable_error : Details → AppError
metadata_unavailable_error details = record {
  kind = metadata_unavailable;
  status_code = 503;
  code = "METADATA_UNAVAILABLE";
  message = "Metadata is temporarily unavailable for the requested source.";
  details = details;
}

unfoldable pub metadata_revision_mismatch_error : AppError
metadata_revision_mismatch_error = record {
  kind = metadata_revision_mismatch;
  status_code = 409;
  code = "METADATA_REVISION_MISMATCH";
  message =
      "Metadata or SQL policy changed after this SQL was generated. Fetch context and try again.";
  details = no_details;
}

-- A construct is shown only if it is one of the public ones.
abbrev public_construct : Option String → Option String
public_construct none = none
public_construct (some construct) =
    if contains public_rejected_constructs construct then some construct else none

unfoldable pub query_rejected_error : String → Option String → AppError
unfolding contains
query_rejected_error reason rejected_construct = record {
  kind = query_rejected;
  status_code = 400;
  code = "QUERY_REJECTED";
  message = "The query is not allowed by the source policy.";
  details = rejection reason (public_construct rejected_construct);
}

-- The error with its message; `none` is the `ValueError` for a reason that is not public.
abbrev pub query_invalid_with : String → Option String → Option AppError
query_invalid_with reason none = none
query_invalid_with reason (some message) = some (record {
  kind = query_invalid;
  status_code = 400;
  code = "QUERY_INVALID";
  message = message;
  details = correction reason "CORRECT_SQL" true;
})

unfoldable pub query_invalid_error : String → Option AppError
unfolding lookup
query_invalid_error reason = query_invalid_with reason (lookup reason query_invalid_messages)

unfoldable pub query_overloaded_error : AppError
query_overloaded_error = record {
  kind = query_overloaded;
  status_code = 429;
  code = "QUERY_OVERLOADED";
  message = "The source is currently at its query limit.";
  details = no_details;
}

unfoldable pub query_timeout_error : AppError
query_timeout_error = record {
  kind = query_timeout;
  status_code = 408;
  code = "QUERY_TIMEOUT";
  message = "The query exceeded its execution deadline.";
  details = no_details;
}

unfoldable pub query_unavailable_error : AppError
query_unavailable_error = record {
  kind = query_unavailable;
  status_code = 503;
  code = "QUERY_UNAVAILABLE";
  message = "The query could not be completed.";
  details = no_details;
}

unfoldable pub operator_required_error : AppError
operator_required_error = record {
  kind = operator_required;
  status_code = 403;
  code = "OPERATOR_REQUIRED";
  message = "Operator permission is required.";
  details = no_details;
}
