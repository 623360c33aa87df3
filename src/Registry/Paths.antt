-- ===== src/Registry/Paths.antt =====
-- The paths of Python's pathlib, as their parts.
use query_boy.Base.{
  String, ◌<>◌, Bool, true, false, ◌||◌, List, [], ◌∷◌, ◌++◌, Option, none, some, ◌==◌,
  if◌then◌else◌,
}
use query_boy.Base.Text.{split}

abbrev pub Parts : Type 0
Parts = List String

-- Empty parts and "." are no parts.
unfoldable pub proper_parts : List String → Parts
proper_parts [] = []
proper_parts (part ∷ parts) =
    let rest = proper_parts parts in if part == "" || part == "." then rest else part ∷ rest

-- The root of a path: "/" or, of exactly two slashes, "//".
abbrev pub root : List String → Parts
root (String.[] ∷ String.[] ∷ String.[] ∷ part ∷ parts) = "/" ∷ []
root (String.[] ∷ String.[] ∷ part ∷ parts) = "//" ∷ []
root (String.[] ∷ part ∷ parts) = "/" ∷ []
root _ = []

-- `PurePosixPath(s).parts`
unfoldable pub parts_of : String → Parts
unfolding split proper_parts
parts_of s = let parts = split 47 s in root parts ++ proper_parts parts

abbrev same_parts : Parts → Parts → Bool
same_parts [] [] = true
same_parts (p ∷ ps) (q ∷ qs) = if p == q then same_parts ps qs else false
same_parts _ _ = false

-- `path == other`
unfoldable pub paths_equal : Parts → Parts → Bool
paths_equal p q = same_parts p q

-- The parts from the last "config" on.
unfoldable pub below_config : Parts → Option Parts
below_config [] = none
below_config (part ∷ parts) =
    let below = below_config parts in
    elim below [
      | some found ↦ some found
      | none ↦ if part == "config" then some (part ∷ parts) else none
    ]

abbrev joined : Parts → String
joined [] = ""
joined (part ∷ []) = part
joined (part ∷ next ∷ parts) = part <> ("/" <> joined (next ∷ parts))

-- `str(path)`
unfoldable pub path_text : Parts → String
path_text [] = "."
path_text (part ∷ []) = part
path_text (part ∷ next ∷ parts) =
    if part == "/" || part == "//"
    then part <> joined (next ∷ parts)
    else joined (part ∷ next ∷ parts)
