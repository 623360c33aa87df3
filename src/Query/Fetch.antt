-- ===== src/Query/Fetch.antt =====
-- The loop of `_execute_connection` that fetches the result in batches, within the limits on rows and
-- bytes (guarded_query/query.py). The cursor of psycopg is a parameter.
use query_boy.Base.{
  ℕ, zero, suc, ◌+◌, ◌-◌, Bool, true, false, List, [], ◌∷◌, ◌++◌, Option, none, some, ltb, leb, min,
  length, if◌then◌else◌,
}
use query_boy.Base.Text.{byte_length}
use query_boy.Base.Json.{Json, dumps}
use query_boy.Base.Result.{Result, ok, err, ◌>>=◌}
use query_boy.Encoding.{Library, Cell, encode_result_value}
use query_boy.Query.Failures.{Failure, encoding}

abbrev pub result_fetch_batch_rows : ℕ
result_fetch_batch_rows = 16

-- The variables of the loop.
pub record Fetched : Type 0 where
  pub rows : List Json
  pub result_bytes : ℕ
  pub truncated : Bool

abbrev pub no_rows : Fetched
no_rows = record { rows = []; result_bytes = 2; truncated = false }

abbrev pub is_nonempty : List Json → Bool
is_nonempty [] = false
is_nonempty (j ∷ js) = true

abbrev pub encode_row : (lib : Library) → Cell lib → Result Failure Json
encode_row lib row = elim (encode_result_value lib row) [ ok j ↦ ok j | err e ↦ err (encoding e) ]

-- The bytes of a separator and of the row.
abbrev pub row_bytes : Fetched → Json → ℕ
row_bytes s encoded_row = (if is_nonempty s.rows then 1 else 0) + byte_length (dumps encoded_row)

module _ (lib : Library) (max_result_rows max_result_bytes : ℕ) where
  -- `for row in batch`
  unfoldable pub consume : List (Cell lib) → Fetched → Result Failure Fetched
  consume [] s = ok s
  consume (row ∷ batch) s =
      let rest = λ (encoded_row : Json). consume batch (record s {
        rows = s.rows ++ encoded_row ∷ [];
        result_bytes = s.result_bytes + row_bytes s encoded_row;
      }) in
      if leb max_result_rows (length s.rows)
      then ok (record s { truncated = true })
      else encode_row lib row >>= (λ encoded_row.
        if ltb max_result_bytes (s.result_bytes + row_bytes s encoded_row)
        then ok (record s { truncated = true })
        else rest encoded_row)

  module _ {Cursor : Type 0}
      (fetchmany : ℕ → Cursor → Result Failure (List (Cell lib) × Cursor)) where
    abbrev pub Loop : Type 0
    Loop = Cursor → Fetched → Option (Result Failure Fetched)

    abbrev pub go_on : Loop → Cursor → Result Failure Fetched → Option (Result Failure Fetched)
    go_on rest cursor (err e) = some (err e)
    go_on rest cursor (ok s) = rest cursor s

    -- `if not batch: break`, and the loop over the batch.
    abbrev pub after_batch :
        Loop → Fetched → Result Failure (List (Cell lib) × Cursor) → Option (Result Failure Fetched)
    after_batch rest s (err e) = some (err e)
    after_batch rest s (ok ([], cursor)) = some (ok s)
    after_batch rest s (ok (row ∷ batch, cursor)) = go_on rest cursor (consume (row ∷ batch) s)

    -- `while not truncated`, on fuel: `none` means that the fuel ran out.
    unfoldable pub fetch_rows : ℕ → Loop
    fetch_rows zero cursor s = none
    fetch_rows (suc fuel) cursor s =
        let rest = fetch_rows fuel in
        let remaining_with_sentinel = max_result_rows + 1 - length s.rows in
        if s.truncated
        then some (ok s)
        else after_batch rest s
            (fetchmany (min result_fetch_batch_rows remaining_with_sentinel) cursor)
