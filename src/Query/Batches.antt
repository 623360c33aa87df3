-- ===== src/Query/Batches.antt =====
-- Fetching in batches gives what one pass over the whole result gives (`_execute_connection`,
-- guarded_query/query.py), and the loop ends.
use mathlib.Core.Path.{subst}
use query_boy.Base.{
  ℕ, zero, suc, ◌+◌, ◌-◌, ◌≤◌, ◌<◌, ◌≡◌, ◌≢◌, refl, sym, ◌∙◌, if-true, if-false, ap, inl, inr, true,
  false, List, [], ◌∷◌, ◌++◌, some, ltb, leb, min, length, length-append, if◌then◌else◌, arith, All,
  Bool-cases,
}
use mathlib.Core.Option.{some-injective}
use query_boy.Base.Json.{Json}
use query_boy.Base.Result.{Result, ok, err, ◌>>=◌, >>=-eq-ok, ok-injective}
use query_boy.Encoding.{Library, Cell}
use query_boy.Encoding.Laws.{Encodable, encode_result_value_iff}
use query_boy.Query.Failures.{Failure}
use query_boy.Query.Fetch.{
  Fetched, no_rows, encode_row, row_bytes, consume, fetch_rows, Loop, go_on, after_batch,
  result_fetch_batch_rows,
}
use query_boy.Query.Reference.{IsSelection, consume-IsSelection}

-- What psycopg documents of `fetchmany`: it gives the next rows in order, at least one if any is
-- left. A cursor that fails while it fetches is not lawful.
pub record IsCursor (lib : Library) {Cursor : Type 0}
    (fetchmany : ℕ → Cursor → Result Failure (List (Cell lib) × Cursor))
    (left : Cursor → List (Cell lib)) : Type 0 where
  pub fetchmany_next :
      (n : ℕ) (c : Cursor)
      → 0 < n
      → (batch : List (Cell lib)) × (c' : Cursor) × (fetchmany n c ≡ ok (batch, c'))
        × (left c ≡ batch ++ left c')
        × (batch ≡ [] → left c ≡ [])

module _ (lib : Library) (max_result_rows max_result_bytes : ℕ) where
  -- Go on unless the result was cut.
  abbrev unless_cut : List (Cell lib) → Fetched → Result Failure Fetched
  unless_cut more t =
      if t.truncated then ok t else consume lib max_result_rows max_result_bytes more t

  consume-append :
      (xs ys : List (Cell lib)) (s : Fetched)
      → s.truncated ≡ false
      → consume lib max_result_rows max_result_bytes (xs ++ ys) s
        ≡ (consume lib max_result_rows max_result_bytes xs s >>= unless_cut ys)
  unfolding consume
  consume-append [] ys s e = rw e
  consume-append (x ∷ xs) ys s e = elim (Bool-cases (leb max_result_rows (length s.rows))) [
    | inl full ↦ rw full
    | inr room ↦ rw room (after (encode_row lib x) (λ j. consume-append xs ys (next j) e))
  ]
    where
      next : Json → Fetched
      next j = record s { rows = s.rows ++ j ∷ []; result_bytes = s.result_bytes + row_bytes s j }

      step : List (Cell lib) → Json → Result Failure Fetched
      step more j =
          if ltb max_result_bytes (s.result_bytes + row_bytes s j)
          then ok (record s { truncated = true })
          else consume lib max_result_rows max_result_bytes more (next j)

      at :
          (j : Json)
          → consume lib max_result_rows max_result_bytes (xs ++ ys) (next j)
            ≡ (consume lib max_result_rows max_result_bytes xs (next j) >>= unless_cut ys)
          → step (xs ++ ys) j ≡ (step xs j >>= unless_cut ys)
      at j ih = elim (Bool-cases (ltb max_result_bytes (s.result_bytes + row_bytes s j))) [
        | inl big ↦ rw big
        | inr small ↦ rw small ih
      ]

      after :
          (r : Result Failure Json)
          → ((j : Json)
              → consume lib max_result_rows max_result_bytes (xs ++ ys) (next j)
                ≡ (consume lib max_result_rows max_result_bytes xs (next j) >>= unless_cut ys))
          → (r >>= step (xs ++ ys)) ≡ ((r >>= step xs) >>= unless_cut ys)
      after (err e) ih = refl
      after (ok j) ih = at j (ih j)

  -- The rows stay within their limit.
  consume-row_limit :
      (xs : List (Cell lib)) (s t : Fetched)
      → length s.rows ≤ max_result_rows
      → consume lib max_result_rows max_result_bytes xs s ≡ ok t
      → length t.rows ≤ max_result_rows
  unfolding consume
  consume-row_limit [] s t h k = subst (λ u. length u.rows ≤ max_result_rows) (ok-injective k) h
  consume-row_limit (x ∷ xs) s t h k = elim (Bool-cases (leb max_result_rows (length s.rows))) [
    | inl full ↦ subst (λ u. length u.rows ≤ max_result_rows) (ok-injective (rw full at k)) h
    | inr room ↦
        let (j, p, q) = >>=-eq-ok (encode_row lib x) _ (rw room at k) in
        elim (Bool-cases (ltb max_result_bytes (s.result_bytes + row_bytes s j))) [
          | inl big ↦ subst (λ u. length u.rows ≤ max_result_rows) (ok-injective (rw big at q)) h
          | inr small ↦ consume-row_limit xs _ t (rw length-append (ground arith)) (rw small at q)
        ]
  ]

  module _ {Cursor : Type 0} (fetchmany : ℕ → Cursor → Result Failure (List (Cell lib) × Cursor))
      (left : Cursor → List (Cell lib)) (lawful : IsCursor lib fetchmany left) where
    resume :
        (rest : Loop lib max_result_rows max_result_bytes fetchmany) (c' : Cursor)
        → ((t : Fetched)
            → length t.rows ≤ max_result_rows
            → rest c' t ≡ some (unless_cut (left c') t))
        → (r : Result Failure Fetched)
        → ((t : Fetched) → r ≡ ok t → length t.rows ≤ max_result_rows)
        → go_on lib max_result_rows max_result_bytes fetchmany rest c' r
          ≡ some (r >>= unless_cut (left c'))
    resume rest c' ih (err e) limit = refl
    resume rest c' ih (ok t) limit = ih t (limit t refl)

    batch_lem :
        (rest : Loop lib max_result_rows max_result_bytes fetchmany) (c c' : Cursor) (s : Fetched)
        (batch : List (Cell lib))
        → (batch ≢ []
            → (t : Fetched) → length t.rows ≤ max_result_rows
            → rest c' t ≡ some (unless_cut (left c') t))
        → length s.rows ≤ max_result_rows
        → s.truncated ≡ false
        → left c ≡ batch ++ left c'
        → (batch ≡ [] → left c ≡ [])
        → after_batch lib max_result_rows max_result_bytes fetchmany rest s (ok (batch, c'))
          ≡ some (consume lib max_result_rows max_result_bytes (left c) s)
    batch_lem rest c c' s [] ih h going split last = rw (last refl) (unfold consume in refl)
    batch_lem rest c c' s (row ∷ batch) ih h going split last =
        rw (split, consume-append (row ∷ batch) (left c') s going)
          (resume rest c' (ih (λ e. cc)) _ (λ t e. consume-row_limit (row ∷ batch) s t h e))

    shorter :
        (c c' : Cursor) (batch : List (Cell lib)) (fuel : ℕ)
        → length (left c) < suc fuel
        → left c ≡ batch ++ left c'
        → batch ≢ []
        → length (left c') < fuel
    shorter c c' [] fuel f split n = absurd (n refl)
    shorter c c' (row ∷ batch) fuel f split n =
        omega (arith, ap length split, length-append batch (left c'))

    loop_step :
        (fuel : ℕ) (c : Cursor) (s : Fetched) (r : Result Failure (List (Cell lib) × Cursor))
        → s.truncated ≡ false
        → fetchmany (min result_fetch_batch_rows (max_result_rows + 1 - length s.rows)) c ≡ r
        → fetch_rows lib max_result_rows max_result_bytes fetchmany (suc fuel) c s
          ≡ after_batch lib max_result_rows max_result_bytes fetchmany
              (fetch_rows lib max_result_rows max_result_bytes fetchmany fuel)
              s
              r
    unfolding fetch_rows
    loop_step fuel c s r going p =
        if-false s.truncated _ _ going
        ∙ ap
            (after_batch lib max_result_rows max_result_bytes fetchmany
              (fetch_rows lib max_result_rows max_result_bytes fetchmany fuel) s)
            p

    loop_cut :
        (fuel : ℕ) (c : Cursor) (s : Fetched)
        → s.truncated ≡ true
        → fetch_rows lib max_result_rows max_result_bytes fetchmany (suc fuel) c s ≡ some (ok s)
    unfolding fetch_rows
    loop_cut fuel c s cut = if-true s.truncated _ _ cut

    -- With more fuel than rows are left the loop ends, and has what one pass over all of them gives.
    fetch_rows_lem :
        (fuel : ℕ) (c : Cursor) (s : Fetched)
        → length (left c) < fuel
        → length s.rows ≤ max_result_rows
        → fetch_rows lib max_result_rows max_result_bytes fetchmany fuel c s
          ≡ some (unless_cut (left c) s)
    fetch_rows_lem zero c s f h = elim f [ ]
    fetch_rows_lem (suc fuel) c s f h = elim (Bool-cases s.truncated) [
      | inl cut ↦ loop_cut fuel c s cut ∙ ap some (sym (if-true s.truncated _ _ cut))
      | inr going ↦
          let (batch, c', p, split, last) =
            lawful.fetchmany_next
              (min result_fetch_batch_rows (max_result_rows + 1 - length s.rows)) c (omega arith) in
          loop_step fuel c s (ok (batch, c')) going p
          ∙ batch_lem _ c c' s batch
              (λ n t limit. fetch_rows_lem fuel c' t (shorter c c' batch fuel f split n) limit) h
              going split last
          ∙ ap some (sym (if-false s.truncated _ _ going))
    ]

  -- Rows of supported values are read without an error.
  consume_total :
      (xs : List (Cell lib)) (s : Fetched)
      → All (Encodable lib) xs
      → (t : Fetched) × (consume lib max_result_rows max_result_bytes xs s ≡ ok t)
  unfolding consume
  consume_total [] s h = (s, refl)
  consume_total (x ∷ xs) s (e, h) = elim (Bool-cases (leb max_result_rows (length s.rows))) [
    | inl full ↦ (_, if-true _ _ _ full)
    | inr room ↦
        let (j, p) = (encode_result_value_iff lib x).1 e in
        elim (Bool-cases (ltb max_result_bytes (s.result_bytes + row_bytes s j))) [
          | inl big ↦ (record s { truncated = true }, rw (room, encode_row, p, big))
          | inr small ↦
              let (t, q) =
                consume_total xs
                  (record s {
                    rows = s.rows ++ j ∷ [];
                    result_bytes = s.result_bytes + row_bytes s j;
                  })
                  h in
              (t, rw (room, encode_row, p, small) q)
        ]
  ]

  module _ {Cursor : Type 0} (fetchmany : ℕ → Cursor → Result Failure (List (Cell lib) × Cursor))
      (left : Cursor → List (Cell lib)) (lawful : IsCursor lib fetchmany left) where
    -- Of a lawful cursor, however it cuts the result into batches, with more fuel than there are rows
    -- and a byte limit of at least 2: what the loop returns without an error is the longest prefix of
    -- the result that the two limits allow.
    pub fetch_rows-IsSelection :
        (fuel : ℕ) (c : Cursor) (t : Fetched)
        → length (left c) < fuel
        → 2 ≤ max_result_bytes
        → fetch_rows lib max_result_rows max_result_bytes fetchmany fuel c no_rows ≡ some (ok t)
        → IsSelection lib max_result_rows max_result_bytes (left c) t
    fetch_rows-IsSelection fuel c t f h e =
        consume-IsSelection lib max_result_rows max_result_bytes (left c) t h (
          some-injective _ _
            (sym (fetch_rows_lem fetchmany left lawful fuel c no_rows f (omega arith)) ∙ e))

    -- Of a lawful cursor, with more fuel than there are rows and a byte limit of at least 2: if every row
    -- is encodable, the loop ends without an error and returns the longest prefix of the result that
    -- the two limits allow.
    pub fetch_rows_total :
        (fuel : ℕ) (c : Cursor)
        → length (left c) < fuel
        → 2 ≤ max_result_bytes
        → All (Encodable lib) (left c)
        → (t : Fetched) × (fetch_rows lib max_result_rows max_result_bytes fetchmany fuel c no_rows
            ≡ some (ok t))
          × IsSelection lib max_result_rows max_result_bytes (left c) t
    fetch_rows_total fuel c f h a =
        let (t, e) = consume_total (left c) no_rows a in
        let run = fetch_rows_lem fetchmany left lawful fuel c no_rows f (omega arith) ∙ ap some e in
        (t, run, fetch_rows-IsSelection fuel c t f h run)
