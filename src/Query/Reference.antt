-- ===== src/Query/Reference.antt =====
-- What the rows of a result are, independently of how they are fetched: the longest prefix that the
-- two limits allow (the loop of `_execute_connection`, guarded_query/query.py).
use Prim.Native.String.{len}
use text.Mathlib.TextPositions.{len-append}
use mathlib.Core.Path.{subst}
use mathlib.Core.List.{append_assoc}
use query_boy.Base.{
  ℕ, ◌+◌, ◌≤◌, ◌<◌, ◌≡◌, refl, inl, inr, true, false, List, [], ◌∷◌, ◌++◌, ltb, leb, length,
  length-append, if◌then◌else◌, arith, Bool-cases, ◌<>◌,
}
use query_boy.Base.Text.{byte_length}
use query_boy.Base.Json.{Json, array, elements, dumps, dumps_more}
use query_boy.Base.Result.{ok, >>=-eq-ok, ok-injective}
use query_boy.Encoding.{Library, Cell}
use query_boy.Query.Fetch.{Fetched, no_rows, is_nonempty, encode_row, row_bytes, consume}

-- The bytes of the JSON array of the rows.
abbrev pub array_bytes : List Json → ℕ
array_bytes rows = byte_length (dumps (array (elements rows)))

more_bytes :
    (js : List Json) (j : Json)
    → len (dumps_more (elements (js ++ j ∷ [])))
      ≡ len (dumps_more (elements js)) + 1 + len (dumps j)
unfolding dumps elements
more_bytes [] j = omega (arith, len-append "," (dumps j <> ""), len-append (dumps j) "")
more_bytes (i ∷ js) j = omega (
  arith,
  more_bytes js j,
  len-append "," (dumps i <> dumps_more (elements (js ++ j ∷ []))),
  len-append (dumps i) (dumps_more (elements (js ++ j ∷ []))),
  len-append "," (dumps i <> dumps_more (elements js)),
  len-append (dumps i) (dumps_more (elements js)),
)

-- A row adds its own bytes, and a comma if it is not the first.
array_bytes-append :
    (js : List Json) (j : Json)
    → array_bytes (js ++ j ∷ [])
      ≡ array_bytes js + ((if is_nonempty js then 1 else 0) + len (dumps j))
unfolding dumps elements
array_bytes-append [] j = omega (
  arith,
  len-append "[" ((dumps j <> "") <> "]"),
  len-append (dumps j <> "") "]",
  len-append (dumps j) "",
)
array_bytes-append (i ∷ js) j = omega (
  arith,
  more_bytes js j,
  len-append "[" ((dumps i <> dumps_more (elements (js ++ j ∷ []))) <> "]"),
  len-append (dumps i <> dumps_more (elements (js ++ j ∷ []))) "]",
  len-append (dumps i) (dumps_more (elements (js ++ j ∷ []))),
  len-append "[" ((dumps i <> dumps_more (elements js)) <> "]"),
  len-append (dumps i <> dumps_more (elements js)) "]",
  len-append (dumps i) (dumps_more (elements js)),
)

module _ (lib : Library) (max_result_rows max_result_bytes : ℕ) where
  -- The values of the rows are these.
  abbrev pub Encoded : List (Cell lib) → List Json → Type 0
  Encoded [] [] = Unit
  Encoded [] (j ∷ js) = ⊥
  Encoded (c ∷ cs) [] = ⊥
  Encoded (c ∷ cs) (j ∷ js) = (encode_row lib c ≡ ok j) × Encoded cs js

  Encoded-concat :
      (cs : List (Cell lib)) (js : List Json) (c : Cell lib) (j : Json)
      → Encoded cs js
      → encode_row lib c ≡ ok j
      → Encoded (cs ++ c ∷ []) (js ++ j ∷ [])
  Encoded-concat [] [] c j h e = (e, tt)
  Encoded-concat [] (i ∷ js) c j h e = absurd h
  Encoded-concat (d ∷ cs) [] c j h e = absurd h
  Encoded-concat (d ∷ cs) (i ∷ js) c j (g, h) e = (g, Encoded-concat cs js c j h e)

  -- No more rows may follow `rows` when `rest` are left.
  pub data IsCut (rows : List Json) : List (Cell lib) → Type 0 where
    rows_full :
        (c : Cell lib) (rest : List (Cell lib))
        → length rows ≡ max_result_rows
        → IsCut rows (c ∷ rest)
    bytes_full :
        (c : Cell lib) (rest : List (Cell lib)) (j : Json)
        → encode_row lib c ≡ ok j
        → max_result_bytes < array_bytes (rows ++ j ∷ [])
        → IsCut rows (c ∷ rest)

  -- `s` holds rows that were kept of the result `all`.
  pub record IsSelection (all : List (Cell lib)) (s : Fetched) : Type 0 where
    pub kept : List (Cell lib)
    pub rest : List (Cell lib)
    pub split : all ≡ kept ++ rest
    pub encoded : Encoded kept s.rows
    pub bytes : s.result_bytes ≡ array_bytes s.rows
    pub row_limit : length s.rows ≤ max_result_rows
    pub byte_limit : s.result_bytes ≤ max_result_bytes
    pub complete : s.truncated ≡ false → rest ≡ []
    pub cut : s.truncated ≡ true → IsCut s.rows rest

  -- While nothing is cut, all that was read is kept.
  record Keeps (done : List (Cell lib)) (s : Fetched) : Type 0 where
    encoded : Encoded done s.rows
    bytes : s.result_bytes ≡ array_bytes s.rows
    row_limit : length s.rows ≤ max_result_rows
    byte_limit : s.result_bytes ≤ max_result_bytes
    going : s.truncated ≡ false

  consume-IsSelection_from :
      (batch done : List (Cell lib)) (s t : Fetched)
      → Keeps done s
      → consume lib max_result_rows max_result_bytes batch s ≡ ok t
      → IsSelection (done ++ batch) t
  unfolding consume
  consume-IsSelection_from [] done s t k h =
      subst (IsSelection (done ++ [])) (ok-injective h) (record {
        kept = done;
        rest = [];
        split = refl;
        encoded = k.encoded;
        bytes = k.bytes;
        row_limit = k.row_limit;
        byte_limit = k.byte_limit;
        complete = λ _. refl;
        cut = λ c. cc (c, k.going);
      })
  consume-IsSelection_from (row ∷ batch) done s t k h =
      elim (Bool-cases (leb max_result_rows (length s.rows))) [
        | inl full ↦
            subst (IsSelection (done ++ row ∷ batch)) (ok-injective (rw full at h)) (record {
              kept = done;
              rest = row ∷ batch;
              split = refl;
              encoded = k.encoded;
              bytes = k.bytes;
              row_limit = k.row_limit;
              byte_limit = k.byte_limit;
              complete = λ c. cc;
              cut = λ _. rows_full row batch (ground (arith, k.row_limit));
            })
        | inr room ↦
            let (j, p, q) = >>=-eq-ok (encode_row lib row) _ (rw room at h) in
            elim (Bool-cases (ltb max_result_bytes (s.result_bytes + row_bytes s j))) [
              | inl big ↦
                  subst (IsSelection (done ++ row ∷ batch)) (ok-injective (rw big at q)) (record {
                    kept = done;
                    rest = row ∷ batch;
                    split = refl;
                    encoded = k.encoded;
                    bytes = k.bytes;
                    row_limit = k.row_limit;
                    byte_limit = k.byte_limit;
                    complete = λ c. cc;
                    cut = λ _.
                        bytes_full row batch j p (rw array_bytes-append (ground (arith, k.bytes)));
                  })
              | inr small ↦
                  subst (λ all. IsSelection all t) (append_assoc done (row ∷ []) batch)
                    (consume-IsSelection_from batch (done ++ row ∷ []) _ t
                      (record {
                        encoded = Encoded-concat done s.rows row j k.encoded p;
                        bytes = ground (arith, array_bytes-append s.rows j, k.bytes);
                        row_limit = rw length-append (ground (arith, k.row_limit));
                        byte_limit = ground (arith, k.byte_limit);
                        going = k.going;
                      })
                      (rw small at q))
            ]
      ]

  -- The rows that are kept of a result are a prefix of it, encoded, within the limit on rows; the
  -- byte count is that of their JSON array and within its limit; all rows are kept unless the result
  -- is marked truncated, and then the row limit is reached or the next row would pass the byte limit.
  pub consume-IsSelection :
      (all : List (Cell lib)) (t : Fetched)
      → 2 ≤ max_result_bytes
      → consume lib max_result_rows max_result_bytes all no_rows ≡ ok t
      → IsSelection all t
  consume-IsSelection all t h k =
      consume-IsSelection_from all [] no_rows t
        (unfold dumps elements in
          record {
            encoded = tt;
            bytes = refl;
            row_limit = omega arith;
            byte_limit = h;
            going = refl;
          })
        k
