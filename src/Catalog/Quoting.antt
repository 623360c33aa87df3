-- ===== src/Catalog/Quoting.antt =====
-- `_quote_identifier` (metadata/catalog.py) against the documented rules by which PostgreSQL reads a quoted
-- identifier. PostgreSQL's lexer is a parameter.
use Prim.Native.Char.{Char, code}
use text.Mathlib.TextLemmas.{append_assoc, cons-append, nil-append}
use query_boy.Base.Text.{byte_length}
use query_boy.Base.{
  ◌≤◌, ◌≢◌, String, ◌<>◌, Bool, true, false, Option, none, some, ◌≡◌, ◌∙◌, ap, eqb, if◌then◌else◌,
  Bool-cases, inl, inr,
}

abbrev pub is_quote : Char → Bool
is_quote c = eqb (code c) 34

-- `value.replace(chr(34), chr(34) * 2)`
unfoldable pub doubled : String → String
doubled String.[] = ""
doubled (String.◌∷◌ c s) =
    let rest = doubled s in
    if is_quote c then String.◌∷◌ c (String.◌∷◌ c rest) else String.◌∷◌ c rest

unfoldable pub quote_identifier : String → String
unfolding doubled
quote_identifier value = "\"" <> (doubled value <> "\"")

-- The name that is read, and the text behind it.
abbrev pub Read : Type 0
Read = Option (String × String)

abbrev pub prepend : Char → Read → Read
prepend c none = none
prepend c (some (name, rest)) = some (String.◌∷◌ c name, rest)

-- What may stand behind an identifier: no further quotation mark.
abbrev pub EndsName : String → Type 0
EndsName String.[] = Unit {0}
EndsName (String.◌∷◌ c s) = is_quote c ≡ false

-- The quotation mark in front of a text.
quote-cons : (s : String) → "\"" <> s ≡ String.◌∷◌ "\"" s
quote-cons s = cons-append "\"" "" s ∙ ap (String.◌∷◌ "\"") (nil-append s)

-- Every character is one that a name may have: none is NUL.
abbrev pub NoNul : String → Type 0
NoNul String.[] = Unit {0}
NoNul (String.◌∷◌ c s) = (eqb (code c) 0 ≡ false) × NoNul s

-- The documented rules of PostgreSQL. `scan` reads what stands behind the opening quotation mark, `read` a
-- whole quoted identifier: a doubled quotation mark stands for one, a single one ends the name, any other
-- character but NUL stands for itself, and a name that is not empty and has at most 63 bytes is kept as
-- it is.
pub record IsLexer (read scan : String → Read) : Type 0 where
  pub opens :
      (s name rest : String)
      → scan s ≡ some (name, rest)
      → name ≢ ""
      → byte_length name ≤ 63
      → read (String.◌∷◌ "\"" s) ≡ some (name, rest)
  pub doubles :
      (c : Char) (s : String)
      → is_quote c ≡ true
      → scan (String.◌∷◌ c (String.◌∷◌ c s)) ≡ prepend c (scan s)
  pub keeps :
      (c : Char) (s : String)
      → is_quote c ≡ false
      → eqb (code c) 0 ≡ false
      → scan (String.◌∷◌ c s) ≡ prepend c (scan s)
  pub ends : (s : String) → EndsName s → scan (String.◌∷◌ "\"" s) ≡ some ("", s)

module _ (read scan : String → Read) (lexer : IsLexer read scan) where
  read_doubled :
      (value rest : String)
      → NoNul value
      → EndsName rest
      → scan (doubled value <> ("\"" <> rest)) ≡ some (value, rest)
  unfolding doubled
  read_doubled String.[] rest n h = rw (nil-append, quote-cons) (lexer.ends rest h)
  read_doubled (String.◌∷◌ c s) rest (one, n) h = elim (Bool-cases (is_quote c)) [
    | inl q ↦
        rw (q, cons-append, cons-append)
          (lexer.doubles c (doubled s <> ("\"" <> rest)) q
            ∙ ap (prepend c) (read_doubled s rest n h))
    | inr p ↦
        rw (p, cons-append)
          (lexer.keeps c (doubled s <> ("\"" <> rest)) p one
            ∙ ap (prepend c) (read_doubled s rest n h))
  ]

  -- PostgreSQL, by its documented rules, reads a quoted name back as the very name, whatever quotation marks
  -- and other characters but NUL it has, if it is not empty and has at most 63 bytes; and it reads nothing of
  -- the text behind it unless this begins with a quotation mark.
  pub read-quote_identifier :
      (value rest : String)
      → value ≢ ""
      → byte_length value ≤ 63
      → NoNul value
      → EndsName rest
      → read (quote_identifier value <> rest) ≡ some (value, rest)
  unfolding quote_identifier
  read-quote_identifier value rest nonempty short plain h =
      rw (append_assoc, append_assoc, quote-cons)
        (lexer.opens (doubled value <> ("\"" <> rest)) value rest (read_doubled value rest plain h)
          nonempty short)
