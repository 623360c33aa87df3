-- ===== src/Base/Json.antt =====
-- The JSON values that the source writes, and `json.dumps(value, ensure_ascii=False,
-- separators=(",", ":"))`.
use Prim.Native.Nat.{ℕ, ◌/◌, ◌%◌}
use Prim.Native.Char.{Char, code}
use Prim.Native.String.{String, ◌++◌ as ◌<>◌}
use mathlib.Core.Bool.{Bool, true, false}
use mathlib.Core.List.{List, [], ◌∷◌}
use query_boy.Base.Tests.{ltb, eqb, if◌then◌else◌}
use query_boy.Base.Int.{ℤ}
use query_boy.Base.Digits.{show_int}

mutual
  pub data Json : Type 0 where
    null : Json
    boolean : Bool → Json
    number : ℤ → Json
    string : String → Json
    array : Elements → Json
    object : Members → Json

  pub data Elements : Type 0 where
    nil : Elements
    cons : Json → Elements → Elements

  pub data Members : Type 0 where
    end : Members
    member : String → Json → Members → Members

-- The elements of a list.
unfoldable pub elements : List Json → Elements
elements [] = nil
elements (j ∷ js) = cons j (elements js)

abbrev hex_digit : ℕ → String
hex_digit d =
    if eqb d 0
    then "0"
    else if eqb d 1
    then "1"
    else if eqb d 2
    then "2"
    else if eqb d 3
    then "3"
    else if eqb d 4
    then "4"
    else if eqb d 5
    then "5"
    else if eqb d 6
    then "6"
    else if eqb d 7
    then "7"
    else if eqb d 8
    then "8"
    else if eqb d 9
    then "9"
    else if eqb d 10
    then "a"
    else if eqb d 11
    then "b"
    else if eqb d 12
    then "c"
    else if eqb d 13
    then "d"
    else if eqb d 14
    then "e"
    else "f"

-- How a character stands in a JSON string.
abbrev escape : Char → String
escape ch =
    let c = code ch in
    if eqb c 34
    then "\\\""
    else if eqb c 92
    then "\\\\"
    else if eqb c 10
    then "\\n"
    else if eqb c 13
    then "\\r"
    else if eqb c 9
    then "\\t"
    else if eqb c 12
    then "\\f"
    else if eqb c 8
    then "\\b"
    else if ltb c 32
    then "\\u00" <> hex_digit (c / 16) <> hex_digit (c % 16)
    else String.◌∷◌ ch ""

escaped : String → String
escaped String.[] = ""
escaped (String.◌∷◌ c s) = escape c <> escaped s

unfoldable pub quoted : String → String
unfolding escaped
quoted s = "\"" <> escaped s <> "\""

unfoldable mutual
  pub dumps : Json → String
  dumps null = "null"
  dumps (boolean true) = "true"
  dumps (boolean false) = "false"
  dumps (number n) = show_int n
  dumps (string s) = quoted s
  dumps (array es) = "[" <> dumps_elements es <> "]"
  dumps (object ms) = "{" <> dumps_members ms <> "}"

  pub dumps_elements : Elements → String
  dumps_elements nil = ""
  dumps_elements (cons j es) = dumps j <> dumps_more es

  -- What follows an element.
  pub dumps_more : Elements → String
  dumps_more nil = ""
  dumps_more (cons j es) = "," <> dumps j <> dumps_more es

  pub dumps_members : Members → String
  dumps_members end = ""
  dumps_members (member k v ms) = quoted k <> ":" <> dumps v <> dumps_more_members ms

  pub dumps_more_members : Members → String
  dumps_more_members end = ""
  dumps_more_members (member k v ms) = "," <> quoted k <> ":" <> dumps v <> dumps_more_members ms
