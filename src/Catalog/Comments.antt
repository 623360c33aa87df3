-- ===== src/Catalog/Comments.antt =====
-- `_sanitize_comment`, `_VIEW_CONTRACT_MARKER` and `_parse_view_comment` (metadata/catalog.py).
use Prim.Native.Char.{Char, code}
use query_boy.Base.{
  ℕ, zero, suc, ◌+◌, ◌-◌, ◌*◌, String, Bool, true, false, not, ◌&&◌, ◌||◌, Option, none, some, eqb,
  leb, ltb, ◌==◌, if◌then◌else◌,
}
use query_boy.Base.Text.{strip, count_chars}
use query_boy.Base.Result.{Result, ok, err}
use query_boy.Catalog.Failures.{CatalogFailure, invalid, value_error}

-- `[\x00-\x08\x0b\x0c\x0e-\x1f\x7f]`
abbrev pub is_control : Char → Bool
is_control ch =
    let c = code ch in leb c 8 || eqb c 11 || eqb c 12 || (leb 14 c && leb c 31) || eqb c 127

unfoldable pub blank_controls : String → String
blank_controls String.[] = ""
blank_controls (String.◌∷◌ c s) = String.◌∷◌ (if is_control c then " " else c) (blank_controls s)

-- `s[:n]`
unfoldable pub take_chars : ℕ → String → String
take_chars zero s = ""
take_chars (suc n) String.[] = ""
take_chars (suc n) (String.◌∷◌ c s) = String.◌∷◌ c (take_chars n s)

-- `s or None`
abbrev pub or_none : String → Option String
or_none s = if s == "" then none else some s

unfoldable pub sanitize_comment : Option String → Option String
unfolding blank_controls take_chars strip
sanitize_comment none = none
sanitize_comment (some value) = or_none (take_chars 2000 (strip (blank_controls value)))

-- `s.partition(k)` at a character: what stands before it, and what stands behind it if it is there.
unfoldable pub partition : ℕ → String → String × Option String
partition k String.[] = ("", none)
partition k (String.◌∷◌ c s) =
    let (before, behind) = partition k s in
    if eqb (code c) k then ("", some s) else (String.◌∷◌ c before, behind)

-- `if first_line.endswith("\r"): first_line = first_line[:-1]`
unfoldable pub drop_return : String → String
drop_return String.[] = ""
drop_return (String.◌∷◌ c s) =
    let rest = drop_return s in if s == "" && eqb (code c) 13 then "" else String.◌∷◌ c rest

-- The text behind a literal of the regular expression.
unfoldable pub after_literal : String → String → Option String
after_literal String.[] s = some s
after_literal (String.◌∷◌ p ps) String.[] = none
after_literal (String.◌∷◌ p ps) (String.◌∷◌ c s) =
    let rest = after_literal ps s in if eqb (code p) (code c) then rest else none

abbrev pub is_digit : Char → Bool
is_digit c = leb 48 (code c) && leb (code c) 57

abbrev pub is_slug_char : Char → Bool
is_slug_char c = (leb 97 (code c) && leb (code c) 122) || is_digit c

abbrev pub is_dash : Char → Bool
is_dash c = eqb (code c) 45

-- `[a-z0-9]+(-[a-z0-9]+)*`; a part must follow at the start and behind a dash.
unfoldable pub is_parts : Bool → String → Bool
is_parts part_wanted String.[] = not part_wanted
is_parts part_wanted (String.◌∷◌ c s) =
    (is_slug_char c && is_parts false s) || (is_dash c && not part_wanted && is_parts true s)

unfoldable pub is_slug : String → Bool
unfolding is_parts
is_slug s = is_parts true s

unfoldable pub all_digits : String → Bool
all_digits String.[] = true
all_digits (String.◌∷◌ c s) = is_digit c && all_digits s

-- `[1-9][0-9]*`
unfoldable pub is_version : String → Bool
unfolding all_digits
is_version String.[] = false
is_version (String.◌∷◌ c s) = leb 49 (code c) && is_digit c && all_digits s

-- `int(s)` of digits, behind a number that was read.
unfoldable pub decimal_value : ℕ → String → ℕ
decimal_value n String.[] = n
decimal_value n (String.◌∷◌ c s) = decimal_value (n * 10 + (code c - 48)) s

-- Python refuses to convert more digits.
abbrev pub max_int_digits : ℕ
max_int_digits = 4300

-- The groups "source" and "version" of a match. A source has no semicolon.
abbrev pub Groups : Type 0
Groups = Option (String × String)

abbrev pub version_group : String → Option String → Groups
version_group source none = none
version_group source (some version) =
    if is_slug source && is_version version then some (source, version) else none

abbrev pub source_group : String × Option String → Groups
source_group (source, none) = none
source_group (source, some tail) = version_group source (after_literal "view-contract=" tail)

abbrev pub groups_behind : Option String → Groups
groups_behind none = none
groups_behind (some rest) = source_group (partition 59 rest)

-- `_VIEW_CONTRACT_MARKER.fullmatch`
unfoldable pub match_marker : String → Groups
unfolding partition after_literal is_slug is_version
match_marker line = groups_behind (after_literal "query-man:source=" line)

abbrev pub Parsed : Type 0
Parsed = Result CatalogFailure (Option String × Option ℕ × Option String)

abbrev pub with_description : String → String → Option String → Parsed
with_description source version none = err (invalid "View comment requires a human description")
with_description source version (some description) =
    if ltb max_int_digits (count_chars version)
    then err value_error
    else ok (some source, some (decimal_value 0 version), some description)

abbrev pub with_groups : Groups → Option String → Parsed
with_groups none description = err (invalid "View comment has an invalid contract marker")
with_groups (some (source, version)) description =
    with_description source version (sanitize_comment description)

unfoldable pub parse_view_comment : Option String → Parsed
unfolding partition drop_return match_marker sanitize_comment decimal_value count_chars
parse_view_comment none = ok (none, none, none)
parse_view_comment (some value) =
    let (first_line, description) = partition 10 value in
    with_groups (match_marker (drop_return first_line)) description
