-- ===== src/Query/Samples.antt =====
-- A result and a plan for the tests, with a list for the cursor and natural numbers for the floats.
use query_boy.Base.{
  ℕ, String, true, false, List, [], ◌∷◌, none, some, ◌+◌, sym, refl, take, drop, take-append-drop,
  take-empty, ltb,
}
use query_boy.Base.Int.{pos, negsuc}
use query_boy.Base.Json.{Json, number, object, end, member}
use query_boy.Base.Result.{Result, ok}
use query_boy.Encoding.{Library, Cell, integer, mapping, entry, finish}
use query_boy.Query.Failures.{Failure}
use query_boy.Query.Batches.{IsCursor}
use query_boy.Query.Plan.{
  Floats, integer, real, list, dict, Fields, end, field, nil, cons, PlanSummary,
}

abbrev pub lib : Library
lib = record {
  Decimal = String;
  DateTime = String;
  Date = String;
  decimal_text = λ s. s;
  aware = λ s. true;
  to_utc = λ s. s;
  isoformat = λ s. s;
  date_isoformat = λ s. s;
}

abbrev pub row : ℕ → Cell lib
row n = mapping (entry "id" (integer (pos n)) finish)

-- A cursor over a list of rows.
abbrev pub next_rows : ℕ → List (Cell lib) → Result Failure (List (Cell lib) × List (Cell lib))
next_rows n rows = ok (take n rows, drop n rows)

pub next_rows-IsCursor : IsCursor lib next_rows (λ rows. rows)
next_rows-IsCursor = record {
  fetchmany_next = λ n rows h.
      (take n rows, drop n rows, refl, sym (take-append-drop n rows), take-empty n rows h);
}

abbrev pub three_rows : List (Cell lib)
three_rows = row 1 ∷ row 2 ∷ row 3 ∷ []

abbrev pub row_json : ℕ → Json
row_json n = object (member "id" (number (pos n)) end)

abbrev pub counts : Floats
counts = record {
  Float = ℕ;
  of_int = λ n. elim n [ pos k ↦ some k | negsuc k ↦ none ];
  is_finite = λ x. true;
  is_negative = λ x. false;
  to_nat = λ x. x;
  exceeds = λ x n. ltb n x;
}

abbrev pub scan : ℕ → Fields counts
scan n = field "Total Cost" (real (n + 1)) (field "Plan Rows" (integer (pos n)) end)

-- A join of two scans.
abbrev pub join : Fields counts
join = field "Total Cost" (real 90) (
    field "Plan Rows" (integer (pos 40))
      (field "Plans" (list (cons (dict (scan 70)) (cons (dict (scan 5)) nil))) end))

abbrev pub join_summary : PlanSummary counts
join_summary = record { total_cost = 90; max_rows = 70; node_count = 3 }
