-- ===== src/Query/Tests.antt =====
-- Results and plans run through guarded_query/query.py, with a list for the cursor and natural numbers
-- for the floats.
use query_boy.Base.{ℕ, true, false, [], ◌∷◌, some, ◌≡◌, refl, arith, All}
use query_boy.Base.Json.{dumps, quoted}
use query_boy.Base.Digits.{show_int}
use query_boy.Encoding.Laws.{Encodable}
use query_boy.Base.Result.{Result, ok, err}
use query_boy.Encoding.{encode_result_value}
use query_boy.Base.Dict.{lookup}
use query_boy.Operations.{reset}
use query_boy.Query.Failures.{Failure, query_canceled, database}
use query_boy.Query.Execution.{
  query_invalid_reason_by_sqlstate, raise_query_invalid_for_user_sql, acquired, execute,
}
use query_boy.Query.Execution.Outcomes.{
  Leaves, execute-Leaves, IsShownReason, raise_query_invalid_for_user_sql-IsShownReason,
}
use query_boy.Query.Fetch.{Fetched, no_rows, consume, fetch_rows}
use query_boy.Query.Reference.{IsSelection}
use query_boy.Query.Batches.{fetch_rows-IsSelection, fetch_rows_total}
use query_boy.Query.Plan.{PlanLimits, PlanSummary, visit, extend, summarize_plan, admit_plan}
use query_boy.Query.Samples.{
  lib, next_rows, next_rows-IsCursor, three_rows, row_json, counts, join, join_summary,
}
use query_boy.Query.Plan.Limits.{IsWithin, summarize_plan_total, admit_plan-IsWithin}

abbrev first_two : Fetched
first_two = record { rows = row_json 1 ∷ row_json 2 ∷ []; result_bytes = 19; truncated = true }

fetch_three : fetch_rows lib 2 100 next_rows 4 three_rows no_rows ≡ some (ok first_two)
unfolding fetch_rows consume encode_result_value dumps quoted show_int
fetch_three = refl

fetch_rows-IsSelection_example : IsSelection lib 2 100 three_rows first_two
fetch_rows-IsSelection_example =
    fetch_rows-IsSelection lib 2 100 next_rows (λ rows. rows) next_rows-IsCursor 4 three_rows
      first_two (omega arith) (omega arith) fetch_three

three_rows-Encodable : All (Encodable lib) three_rows
unfolding Encodable
three_rows-Encodable = ((tt, tt), ((tt, tt), ((tt, tt), tt)))

fetch_rows_total_example :
    (t : Fetched) × (fetch_rows lib 2 100 next_rows 4 three_rows no_rows ≡ some (ok t))
    × IsSelection lib 2 100 three_rows t
fetch_rows_total_example =
    fetch_rows_total lib 2 100 next_rows (λ rows. rows) next_rows-IsCursor 4 three_rows
      (omega arith) (omega arith) three_rows-Encodable

summarize_join : summarize_plan counts join ≡ some (ok join_summary)
unfolding summarize_plan visit extend
summarize_join = refl

abbrev limits : PlanLimits
limits = record { max_plan_total_cost = 100; max_plan_rows = 70; max_plan_nodes = 3 }

admit_join : admit_plan counts limits join_summary ≡ ok tt
unfolding admit_plan
admit_join = refl

summarize_plan_total_example :
    (r : Result Failure (PlanSummary counts)) × (summarize_plan counts join ≡ some r)
summarize_plan_total_example = summarize_plan_total counts join

admit_plan-IsWithin_example : IsWithin counts join limits join_summary
admit_plan-IsWithin_example =
    admit_plan-IsWithin counts join limits join_summary summarize_join admit_join

-- The database cancels a query whose deadline has passed.
execute-Leaves_example :
    Leaves ℕ true
      (execute true true (acquired 3) false "sales" (λ s. (err query_canceled, s)) reset).0
execute-Leaves_example =
    execute-Leaves ℕ true true (acquired 3) false "sales" (λ s. (err query_canceled, s)) reset

division_by_zero : lookup "22012" query_invalid_reason_by_sqlstate ≡ some "QUERY_DIVISION_BY_ZERO"
unfolding lookup
division_by_zero = refl

raise_query_invalid_for_user_sql-IsShownReason_example :
    IsShownReason "QUERY_DIVISION_BY_ZERO"
      (raise_query_invalid_for_user_sql (database (some "22012")) "sales" reset).0
raise_query_invalid_for_user_sql-IsShownReason_example =
    raise_query_invalid_for_user_sql-IsShownReason "22012" "QUERY_DIVISION_BY_ZERO" "sales" reset
      division_by_zero
