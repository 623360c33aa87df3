-- ===== src/Query/Service/Tests.antt =====
-- A query of a source (`QueryService.query`, guarded_query/query.py).
use query_boy.Base.{ℕ, true, false, [], ◌∷◌, some, ◌≡◌, refl}
use query_boy.Base.Result.{ok}
use query_boy.Base.Dict.{Dict}
use query_boy.Sql.Tree.{Python, field, end, text}
use query_boy.Sql.Validate.{Parser, select}
use query_boy.Base.Sets.{contains, add, sorted}
use query_boy.Base.Text.{strip, ends_with}
use query_boy.Base.Digits.{show_int}
use query_boy.Base.Json.{dumps, quoted, elements}
use query_boy.Sql.Tree.{walk_nodes, has_key, get_or}
use query_boy.Sql.Handlers.{validate_nodes, validate_node, run_handler, validate_select_stmt}
use query_boy.Sql.Scope.{validate_select_scope}
use query_boy.Sql.Validate.{validate}
use query_boy.Metadata.Revision.{create_metadata_revision}
use query_boy.Metadata.Context.{validate_snapshot, context_response, context_json}
use query_boy.Models.{SourceProfile}
use query_boy.Metadata.Service.{loaded}
use query_boy.Metadata.Samples.{sales, snapshot, sha256, settings, fresh_state}
use query_boy.Query.Execution.{acquired}
use query_boy.Query.Service.{Run, QueryResult, query}
use query_boy.Query.Service.Guards.{IsGuarded, query-IsGuarded}

abbrev py : Python
py = record { casefold = λ s. s; repr = λ v. "?" }

-- SELECT with nothing to select.
abbrev pg : Parser
pg = record {
  parse_sql = λ sql. some (select (field "@" (text "SelectStmt") end) ∷ []);
  fingerprint = λ sql. some "50fde20626009aba";
}

-- The metadata is loaded for this query, and the work gives the number 7.
abbrev run : Run ℕ
run = record {
  now = 10;
  load = loaded snapshot;
  later = 12;
  accepting = true;
  still_accepting = true;
  queue = acquired 3;
  shutdown = false;
  work = λ revision validated s. (ok 7, s);
}

abbrev registry : Dict SourceProfile
registry = ("sales", sales) ∷ []

abbrev seven : QueryResult ℕ
seven = record { result = 7; sql_policy_revision = "sha256:00" }

select_nothing :
    (query sha256 "sha256:00" settings py pg run registry "sales" "SELECT" "sha256:e3b0" "sha256:00"
      fresh_state).0
    ≡ ok seven
unfolding query validate_snapshot context_response dumps context_json quoted
    create_metadata_revision elements sorted show_int strip validate validate_nodes walk_nodes
    has_key validate_node ends_with get_or run_handler validate_select_stmt contains add
    validate_select_scope
select_nothing = refl

query-IsGuarded_example :
    IsGuarded sha256 "sha256:00" settings py pg ℕ run registry "sales" "SELECT" "sha256:e3b0"
      "sha256:00" fresh_state seven
query-IsGuarded_example =
    query-IsGuarded sha256 "sha256:00" settings py pg ℕ run registry "sales" "SELECT" "sha256:e3b0"
      "sha256:00" fresh_state seven select_nothing
