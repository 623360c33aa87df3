-- ===== src/Registry/Names.antt =====
-- The patterns and lengths of names (source_catalog/registry.py).
use Prim.Native.Char.{Char, code}
use query_boy.Base.{ℕ, String, Bool, true, false, ◌&&◌, ◌||◌, leb, eqb}
use query_boy.Base.Text.{count_chars}
use query_boy.Catalog.Comments.{is_digit, is_slug}

-- `len(s) <= limit` of a text that is not empty.
unfoldable pub is_text : ℕ → String → Bool
unfolding count_chars
is_text limit s = leb 1 (count_chars s) && leb (count_chars s) limit

abbrev pub is_letter : Char → Bool
is_letter c = let k = code c in (leb 65 k && leb k 90) || (leb 97 k && leb k 122) || eqb k 95

-- Letters, digits and underscores, and dollars if they are allowed.
unfoldable pub all_name_chars : Bool → String → Bool
all_name_chars dollars String.[] = true
all_name_chars dollars (String.◌∷◌ c s) =
    (is_letter c || is_digit c || (dollars && eqb (code c) 36)) && all_name_chars dollars s

abbrev starts_name : Bool → String → Bool
starts_name dollars String.[] = false
starts_name dollars (String.◌∷◌ c s) = is_letter c && all_name_chars dollars s

-- `Identifier`
unfoldable pub is_identifier : String → Bool
unfolding all_name_chars count_chars
is_identifier s = starts_name true s && leb (count_chars s) 63

-- `EnvironmentVariableName`
unfoldable pub is_variable_name : String → Bool
unfolding all_name_chars count_chars
is_variable_name s = starts_name false s && leb (count_chars s) 128

-- `StableSlug`
unfoldable pub is_stable_slug : String → Bool
unfolding is_slug count_chars
is_stable_slug s = is_slug s && leb (count_chars s) 80
