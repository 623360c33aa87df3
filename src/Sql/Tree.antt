-- ===== src/Sql/Tree.antt =====
-- The values of a statement's tree, as `statement(skip_none=True)` of pglast gives them, and the two
-- readers at the end of guarded_query/sql_validation.py, `_walk_nodes` and `_string_parts`.
use query_boy.Base.{String, Bool, true, false, ◌&&◌, ◌||◌, List, [], ◌∷◌, ◌++◌, Option, none, some}
use query_boy.Base.{◌==◌, if◌then◌else◌}
use query_boy.Base.Int.{ℤ, is_nonzero}

mutual
  pub data Value : Type 0 where
    nothing : Value
    truth : Bool → Value
    integer : ℤ → Value
    text : String → Value
    items : Items → Value
    mapping : Fields → Value

  pub data Items : Type 0 where
    nil : Items
    cons : Value → Items → Items

  pub data Fields : Type 0 where
    end : Fields
    field : String → Value → Fields → Fields

-- What the checks use of Python and leave to it: `str.casefold`, and `str` of a value that is no text.
pub record Python : Type 0 where
  pub casefold : String → String
  pub repr : Value → String

-- `fields.get(key, default)`
unfoldable pub get_or : String → Value → Fields → Value
get_or key default end = default
get_or key default (field k v rest) = if k == key then v else get_or key default rest

-- `fields.get(key)`
abbrev pub get : String → Fields → Value
get key fields = get_or key nothing fields

-- `key in fields`
unfoldable pub has_key : String → Fields → Bool
has_key key end = false
has_key key (field k v rest) = k == key || has_key key rest

abbrev pub is_mapping : Value → Bool
is_mapping (mapping fields) = true
is_mapping _ = false

-- `value == word` for a text `word`
abbrev pub equals_text : Value → String → Bool
equals_text (text s) word = s == word
equals_text _ word = false

abbrev pub is_nothing : Value → Bool
is_nothing nothing = true
is_nothing _ = false

-- `bool(value)`
abbrev pub is_truthy : Value → Bool
is_truthy nothing = false
is_truthy (truth b) = b
is_truthy (integer n) = is_nonzero n
is_truthy (text s) = if s == "" then false else true
is_truthy (items nil) = false
is_truthy (items (cons v vs)) = true
is_truthy (mapping end) = false
is_truthy (mapping (field k v rest)) = true

-- `str(value)`
abbrev pub to_text : Python → Value → String
to_text py (text s) = s
to_text py v = py.repr v

-- `_walk_nodes`: every mapping with a key "@", a mapping before what it holds.
unfoldable mutual
  pub walk_nodes : Value → List Fields
  walk_nodes nothing = []
  walk_nodes (truth b) = []
  walk_nodes (integer n) = []
  walk_nodes (text s) = []
  walk_nodes (items vs) = walk_items vs
  walk_nodes (mapping fields) =
      if has_key "@" fields then fields ∷ walk_fields fields else walk_fields fields

  pub walk_items : Items → List Fields
  walk_items nil = []
  walk_items (cons v vs) = walk_nodes v ++ walk_items vs

  pub walk_fields : Fields → List Fields
  walk_fields end = []
  walk_fields (field k v rest) = walk_nodes v ++ walk_fields rest

-- The test and the value of the comprehension in `_string_parts`.
abbrev string_part : Python → Value → Option String
string_part py (mapping fields) =
    if equals_text (get "@" fields) "String" && has_key "sval" fields
    then some (to_text py (get "sval" fields))
    else none
string_part py _ = none

parts_of_items : Python → Items → List String
parts_of_items py nil = []
parts_of_items py (cons v vs) =
    let rest = parts_of_items py vs in elim (string_part py v) [ none ↦ rest | some s ↦ s ∷ rest ]

-- `_string_parts`
unfoldable pub string_parts : Python → Value → List String
unfolding parts_of_items
string_parts py (items vs) = parts_of_items py vs
string_parts py _ = []
