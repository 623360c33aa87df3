-- ===== src/Query/Connection/Tests.antt =====
-- A query that is answered.
use query_boy.Base.{◌⊎◌, true, false, [], ◌∷◌, some, ◌≡◌, refl, arith}
use query_boy.Base.Int.{pos}
use query_boy.Base.Json.{dumps, quoted}
use query_boy.Base.Digits.{show_int}
use query_boy.Catalog.Comments.{after_literal}
use query_boy.Base.Result.{ok, err}
use query_boy.Encoding.{int_oid, encode_result_value}
use query_boy.Metadata.Samples.{sales}
use query_boy.Operations.{reset}
use query_boy.Sql.Validate.{ValidatedSql}
use query_boy.Query.Failures.{interface}
use query_boy.Query.Fetch.{Fetched, consume, no_rows, fetch_rows}
use query_boy.Query.Plan.{PlanSummary, visit, extend, dict, list, cons, nil, field, end}
use query_boy.Query.Reference.{IsSelection}
use query_boy.Query.Samples.{lib, next_rows, next_rows-IsCursor, three_rows, row_json, counts, join}
use query_boy.Query.Session.{Session}
use query_boy.Query.Session.Steps.{is_sql, is_execution, sends}
use query_boy.Query.Connection.{Database, Response, execute_connection}
use query_boy.Query.Connection.Guarded.{IsAdmitted}
use query_boy.Query.Lease.{Lease, lease_connection}
use query_boy.Query.Connection.Confirmed.{IsConfirmed}
use query_boy.Query.Lease.Sent.{HasConnectionPolicy, leased_session, lease_connection-sends}
use query_boy.Query.Connection.Answered.{IsAnswered, execute_connection-IsAnswered}

abbrev three : Fetched
three = record {
  rows = row_json 1 ∷ row_json 2 ∷ row_json 3 ∷ [];
  result_bytes = 28;
  truncated = false;
}

abbrev answers : Database counts lib
answers = record {
  begun = ok tt;
  timezone = ok tt;
  settings = ok tt;
  policy = ok (some (("read_only", true) ∷ []));
  functions = ok (record { object_name = "lower"; is_safe = true } ∷ []);
  operators = ok [];
  plan_row = ok (some (list (cons (dict (field "Plan" (dict join) end)) nil) ∷ []));
  executed = ok (record { name = some "id"; type_code = int_oid (pos 20) } ∷ []);
  fetched = ok three;
  cursor_closed = err interface;
  committed = ok tt;
  cancel_sent = ok tt;
  rolled_back = ok tt;
  elapsed_ms = 7;
}

abbrev validated : ValidatedSql
validated = record {
  fingerprint = "50fd";
  relations = "sales.orders" ∷ [];
  functions = "pg_catalog.lower" ∷ [];
  operators = [];
}

abbrev start : Session
start = record { operations = reset; statements = [] }

-- A connection without TLS, as the source wants it.
abbrev lease : Lease
lease = record {
  pool = ok tt;
  leased = ok (record {
    server_version = 180001;
    server_encoding = some "UTF8";
    client_encoding = some "UTF8";
    encoding = "utf-8";
    ssl_in_use = false;
  });
  closed = ok tt;
  expired = false;
}

abbrev leased : Session
leased = leased_session counts lib answers sales validated lease "r1" 3 "q1" reset

sent : sends is_sql leased ≡ true
unfolding lease_connection after_literal visit extend
sent = refl

lease_connection-sends_example :
    HasConnectionPolicy lease sales
    × IsConfirmed counts lib answers sales validated
    × ((sends is_execution leased ≡ false)
        ⊎ ((plan : PlanSummary counts) × IsAdmitted counts lib answers sales validated plan))
lease_connection-sends_example =
    lease_connection-sends counts lib answers sales validated lease "r1" 3 "q1" reset sent

three_fetched :
    fetch_rows lib sales.budget.max_result_rows sales.budget.max_result_bytes next_rows 4 three_rows
      no_rows
    ≡ some answers.fetched
unfolding fetch_rows consume encode_result_value dumps quoted show_int
three_fetched = refl

abbrev last : Session
last = (execute_connection counts lib answers sales "r1" validated 3 "q1" start).1

abbrev response : Response counts lib
response = record {
  query_id = "q1";
  metadata_revision = "r1";
  fingerprint = "50fd";
  columns = "id" ∷ [];
  rows = three.rows;
  row_count = 3;
  result_bytes = 28;
  truncated = false;
  queue_ms = 3;
  elapsed_ms = 7;
  plan_summary = record { total_cost = 90; max_rows = 70; node_count = 3 };
}

answered :
    execute_connection counts lib answers sales "r1" validated 3 "q1" start ≡ (ok response, last)
unfolding execute_connection after_literal visit extend
answered = refl

execute_connection-IsAnswered_example :
    (fetched : Fetched) × IsAnswered counts lib answers sales validated response fetched
    × IsSelection lib sales.budget.max_result_rows sales.budget.max_result_bytes three_rows fetched
execute_connection-IsAnswered_example =
    execute_connection-IsAnswered counts lib answers sales validated next_rows (λ rows. rows)
      next_rows-IsCursor 4 three_rows "r1" 3 "q1" start response last (omega arith) (omega arith)
      three_fetched answered
