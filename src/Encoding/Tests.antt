-- ===== src/Encoding/Tests.antt =====
-- Values run through guarded_query/result_encoding.py, with texts for the types of Python's library.
use query_boy.Base.{[], ◌∷◌, ◌≢◌, All, String, ◌<>◌, true, ◌≡◌, ◌↔◌, refl}
use query_boy.Base.Int.{pos}
use query_boy.Base.Json.{Json, string, object, member, end}
use query_boy.Base.Result.{ok}
use query_boy.Encoding.{
  int_oid, require_supported_result_oids, Library, Cell, nothing, integer, decimal, datetime,
  mapping, finish, entry, encode_result_value,
}
use query_boy.Encoding.Laws.{
  Encodable, IsResultType, encode_result_value_iff, require_supported_result_oids_iff,
}

abbrev lib : Library
lib = record {
  Decimal = String;
  DateTime = String;
  Date = String;
  decimal_text = λ s. s;
  aware = λ s. true;
  to_utc = λ s. s <> "+00:00";
  isoformat = λ s. s;
  date_isoformat = λ s. s;
}

abbrev order_row : Cell lib
order_row = mapping (
    entry "id" (integer (pos 7)) (
      entry "price" (decimal "1.50")
        (entry "at" (datetime "2024-01-02T03:04:05") (entry "note" nothing finish))))

encode_order_row :
    encode_result_value lib (mapping (entry "price" (decimal "1.50") finish))
    ≡ ok (object (member "price" (string "1.50") end))
unfolding encode_result_value
encode_order_row = refl

encode_result_value_iff_example :
    ((j : Json) × (encode_result_value lib order_row ≡ ok j)) ↔ Encodable lib order_row
encode_result_value_iff_example = encode_result_value_iff lib order_row

require_supported_result_oids_iff_example :
    (require_supported_result_oids (int_oid (pos 20) ∷ int_oid (pos 25) ∷ []) ≡ ok tt) ↔ (
      ((int_oid (pos 20) ∷ int_oid (pos 25) ∷ []) ≢ [])
      × All IsResultType (int_oid (pos 20) ∷ int_oid (pos 25) ∷ []))
require_supported_result_oids_iff_example =
    require_supported_result_oids_iff (int_oid (pos 20) ∷ int_oid (pos 25) ∷ [])
