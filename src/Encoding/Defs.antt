-- ===== src/Encoding/Defs.antt =====
-- `_require_supported_result_oids` and `encode_result_value` (guarded_query/result_encoding.py). The
-- decimals, datetimes and dates of Python's library are a parameter.
use query_boy.Base.{ℕ, String, ◌<>◌, Bool, true, false, not, List, [], ◌∷◌, eqb, any, if◌then◌else◌}
use query_boy.Base.Int.{ℤ, pos, negsuc}
use query_boy.Base.Json.{Json, null, boolean, number, string, object, Members, end, member}
use query_boy.Base.Result.{Result, ok, err, ◌>>=◌}

-- The methods that the encoder calls. `aware` is `utcoffset() is not None`, and `to_utc` is
-- `astimezone(UTC)`: the session of a query is in UTC, so the datetimes of its result are in UTC already, and
-- the conversion does not leave the range of datetimes.
pub record Library : Type 1 where
  pub Decimal : Type 0
  pub DateTime : Type 0
  pub Date : Type 0
  pub decimal_text : Decimal → String
  pub aware : DateTime → Bool
  pub to_utc : DateTime → DateTime
  pub isoformat : DateTime → String
  pub date_isoformat : Date → String

-- A `ResultEncodingError` with its message.
pub data ResultEncodingError : Type 0 where
  encoding_error : String → ResultEncodingError

-- A type code of a result column: an `int`, or something else.
pub data Oid : Type 0 where
  int_oid : ℤ → Oid
  other_oid : Oid

abbrev pub result_oid_pairs : List (String × ℕ)
result_oid_pairs =
    ("int8", 20)
    ∷ ("int2", 21)
    ∷ ("int4", 23)
    ∷ ("text", 25)
    ∷ ("date", 1082)
    ∷ ("timestamptz", 1184)
    ∷ ("numeric", 1700)
    ∷ []

abbrev pub result_oid_policy_error : String
result_oid_policy_error = "Unsupported PostgreSQL result type"

abbrev pub is_allowed_oid : Oid → Bool
is_allowed_oid (int_oid (pos n)) = any (λ pair. eqb n pair.1) result_oid_pairs
is_allowed_oid (int_oid (negsuc n)) = false
is_allowed_oid other_oid = false

unfoldable pub require_supported_result_oids : List Oid → Result ResultEncodingError (Unit {0})
require_supported_result_oids [] = err (encoding_error result_oid_policy_error)
require_supported_result_oids (oid ∷ oids) =
    if any (λ o. not (is_allowed_oid o)) (oid ∷ oids)
    then err (encoding_error result_oid_policy_error)
    else ok tt

module _ (lib : Library) where
  open lib use {Decimal, DateTime, Date, decimal_text, aware, to_utc, isoformat, date_isoformat}

  -- A value of a result row; `unsupported` has the name of its type.
  mutual
    pub data Cell : Type 0 where
      nothing : Cell
      truth : Bool → Cell
      integer : ℤ → Cell
      text : String → Cell
      decimal : Decimal → Cell
      datetime : DateTime → Cell
      date : Date → Cell
      mapping : Entries → Cell
      unsupported : String → Cell

    -- A key that is a text, or another one.
    pub data Entries : Type 0 where
      finish : Entries
      entry : String → Cell → Entries → Entries
      odd_entry : Cell → Cell → Entries → Entries

  abbrev pub has_odd_key : Entries → Bool
  has_odd_key finish = false
  has_odd_key (entry k v es) = has_odd_key es
  has_odd_key (odd_entry k v es) = true

  unfoldable mutual
    pub encode_result_value : Cell → Result ResultEncodingError Json
    encode_result_value nothing = ok null
    encode_result_value (truth b) = ok (boolean b)
    encode_result_value (integer n) = ok (number n)
    encode_result_value (text s) = ok (string s)
    encode_result_value (decimal d) = ok (string (decimal_text d))
    encode_result_value (datetime t) =
        ok (string (if aware t then isoformat (to_utc t) else isoformat t))
    encode_result_value (date d) = ok (string (date_isoformat d))
    encode_result_value (mapping es) =
        let items = encode_entries es in
        if has_odd_key es
        then err (encoding_error "PostgreSQL result objects require string keys")
        else items >>= (λ ms. ok (object ms))
    encode_result_value (unsupported name) =
        err (encoding_error ("Unsupported PostgreSQL result type: " <> name))

    pub encode_entries : Entries → Result ResultEncodingError Members
    encode_entries finish = ok end
    encode_entries (entry k v es) =
        encode_result_value v >>= (λ j. encode_entries es >>= (λ ms. ok (member k j ms)))
    encode_entries (odd_entry k v es) = encode_entries es
