-- ===== src/App/Details.antt =====
-- `_bounded_validation_details` (delivery/app.py): what a client is told of an invalid body. The issues are
-- pydantic's.
use Prim.Native.Char.{Char, code}
use query_boy.Base.{
  String, ◌<>◌, Bool, true, false, ◌&&◌, ◌||◌, List, [], ◌∷◌, Option, none, some, map, take, leb,
  eqb, ◌==◌, if◌then◌else◌,
}
use query_boy.Base.Int.{ℤ, pos, negsuc}
use query_boy.Base.Digits.{show_nat}
use query_boy.Base.Text.{count_chars}
use query_boy.Catalog.Comments.{is_digit, take_chars}

-- A part of a location is a key or an index.
pub data LocationPart : Type 0 where
  key : String → LocationPart
  index : ℤ → LocationPart

-- An issue; `none` is a type that is no text.
pub record Issue : Type 0 where
  pub loc : List LocationPart
  pub kind : Option String

pub record Detail : Type 0 where
  pub path : String
  pub code_text : String
  pub message : String

-- `character.isascii() and (character.isalnum() or character in {"_", "-"})`
abbrev pub is_name_char : Char → Bool
is_name_char c =
    let k = code c in
    is_digit c || (leb 65 k && leb k 90) || (leb 97 k && leb k 122) || eqb k 95 || eqb k 45

unfoldable pub all_chars : (Char → Bool) → String → Bool
all_chars p String.[] = true
all_chars p (String.◌∷◌ c s) = p c && all_chars p s

abbrev pub is_short : String → Bool
is_short s = leb 1 (count_chars s) && leb (count_chars s) 64

unfoldable pub safe_part : LocationPart → String
unfolding all_chars count_chars show_nat
safe_part (index (pos n)) = if leb n 1000000 then show_nat n else "value"
safe_part (index (negsuc n)) = "value"
safe_part (key part) = if is_short part && all_chars is_name_char part then part else "value"

abbrev pub is_body : LocationPart → Bool
is_body (key part) = part == "body"
is_body (index n) = false

abbrev pub without_body : List LocationPart → List LocationPart
without_body [] = []
without_body (part ∷ parts) = if is_body part then without_body parts else part ∷ without_body parts

-- `location[-1] = "extra"`
abbrev pub end_with_extra : List LocationPart → List LocationPart
end_with_extra [] = []
end_with_extra (part ∷ []) = key "extra" ∷ []
end_with_extra (part ∷ next ∷ parts) = part ∷ end_with_extra (next ∷ parts)

abbrev pub is_extra : Option String → Bool
is_extra none = false
is_extra (some kind) = kind == "extra_forbidden"

unfoldable pub location_of : Issue → List LocationPart
location_of issue =
    if is_extra issue.kind then end_with_extra (without_body issue.loc) else without_body issue.loc

-- `".".join(parts)`
unfoldable pub dotted : List String → String
dotted [] = ""
dotted (part ∷ []) = part
dotted (part ∷ next ∷ parts) = part <> ("." <> dotted (next ∷ parts))

abbrev pub or_request : String → String
or_request path = if path == "" then "request" else path

abbrev pub is_ascii : Char → Bool
is_ascii c = leb (code c) 127

unfoldable pub code_of : Option String → String
unfolding all_chars count_chars
code_of none = "value_error"
code_of (some kind) = if is_short kind && all_chars is_ascii kind then kind else "value_error"

unfoldable pub detail_of : Issue → Detail
unfolding safe_part location_of dotted code_of take_chars
detail_of issue = record {
  path = or_request (take_chars 256 (dotted (map safe_part (location_of issue))));
  code_text = code_of issue.kind;
  message = "Invalid request value.";
}

unfoldable pub bounded_validation_details : List Issue → List Detail
unfolding detail_of
bounded_validation_details issues = map detail_of (take 32 issues)
