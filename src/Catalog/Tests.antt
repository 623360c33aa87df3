-- ===== src/Catalog/Tests.antt =====
-- Runs of the catalog's reader at concrete rows.
use query_boy.Base.{
  ◌∙◌, if-true, eq_iff, if-false, if◌then◌else◌, ltb, ◌||◌, ◌==◌, Bool, ℕ, String, ◌<>◌, true,
  false, List, [], ◌∷◌, none, some, map, ◌≡◌, refl, arith,
}
use query_boy.Base.Text.{count_chars, byte_length}
use query_boy.Base.Digits.{show_nat}
use query_boy.Base.Result.{ok, err}
use query_boy.Models.{view, unknown, CatalogSnapshot}
use query_boy.Metadata.Samples.{sales}
use query_boy.Catalog.Failures.{database}
use query_boy.Catalog.Quoting.{
  is_quote, quote_identifier, Read, prepend, EndsName, IsLexer, read-quote_identifier,
}
use query_boy.Catalog.Comments.{sanitize_comment, parse_view_comment, is_slug}
use query_boy.Catalog.Markers.{marker, parse_view_comment-marker}
use query_boy.Catalog.Rows.{Row, CatalogRelationBuilder, freeze, rows_to_relations}
use query_boy.Catalog.Grouping.{AreGroups, rows_to_relations-AreGroups}
use query_boy.Catalog.Loading.{Database, load}
use query_boy.Catalog.Loaded.{IsLoaded, load-IsLoaded, HasSessionPolicy, HasConnectionPolicy}
use query_boy.Catalog.Asked.{asks_rows, load-asks_rows}

-- A lexer by the rules for quoted identifiers. `pending` says that a quotation mark was read.
unfoldable scan_name : Bool → String → Read
scan_name true String.[] = some ("", "")
scan_name false String.[] = none
scan_name true (String.◌∷◌ c s) =
    let more = prepend c (scan_name false s) in
    if is_quote c then more else some ("", String.◌∷◌ c s)
scan_name false (String.◌∷◌ c s) =
    let ended = scan_name true s in
    let more = prepend c (scan_name false s) in if is_quote c then ended else more

-- A name that is empty or too long is not read.
abbrev whole_name : Read → Read
whole_name none = none
whole_name (some (name, rest)) =
    if name == "" || ltb 63 (byte_length name) then none else some (name, rest)

abbrev read_name : String → Read
read_name String.[] = none
read_name (String.◌∷◌ c s) = if is_quote c then whole_name (scan_name false s) else none

ends_name : (s : String) → EndsName s → scan_name true s ≡ some ("", s)
unfolding scan_name
ends_name String.[] h = refl
ends_name (String.◌∷◌ c s) h = if-false (is_quote c) _ _ h

read_name-IsLexer : IsLexer read_name (scan_name false)
unfolding scan_name
read_name-IsLexer = record {
  opens = λ s name rest scanned nonempty short. rw scanned (
      if-false (name == "" || ltb 63 (byte_length name)) _ _
        (ground (arith, eq_iff name "", nonempty, short)));
  doubles = λ c s q. if-true (is_quote c) _ _ q ∙ if-true (is_quote c) _ _ q;
  keeps = λ c s p n. if-false (is_quote c) _ _ p;
  ends = λ s h. ends_name s h;
}

read-quote_identifier_example :
    read_name (quote_identifier "we\"ird" <> ".x") ≡ some ("we\"ird", ".x")
read-quote_identifier_example =
    read-quote_identifier read_name (scan_name false) read_name-IsLexer "we\"ird" ".x" (λ e. cc)
      (omega arith) (refl, (refl, (refl, (refl, (refl, (refl, tt)))))) refl

clean_orders : sanitize_comment (some " One row\tfor each order ") ≡ some "One row\tfor each order"
unfolding sanitize_comment
clean_orders = refl

parse_view_comment-marker_example :
    parse_view_comment (some (marker "shop-1" 12 <> ("\n" <> " One row\tfor each order ")))
    ≡ ok (some "shop-1", some 12, some "One row\tfor each order")
unfolding is_slug count_chars show_nat
parse_view_comment-marker_example =
    parse_view_comment-marker "shop-1" 12 refl (omega arith) " One row\tfor each order "
      "One row\tfor each order" (omega arith) clean_orders

abbrev row : String → ℕ → String → Row
row relation_name ordinal column_name = record {
  schema_name = "sales";
  relation_name = relation_name;
  relation_kind = "v";
  relation_comment = none;
  view_definition_hash = some "50fd";
  security_invoker = true;
  security_barrier = false;
  ordinal = ordinal;
  column_name = column_name;
  data_type = "bigint";
  type_kind = "b";
  column_comment = none;
}

-- The rows of two relations, mixed.
abbrev three_rows : List Row
three_rows = row "orders" 1 "id" ∷ row "customers" 1 "id" ∷ row "orders" 2 "total" ∷ []

abbrev relation : String → List (ℕ × String) → CatalogRelationBuilder
relation name columns = record {
  schema = "sales";
  name = name;
  qualified_name = "sales." <> name;
  sql_name = "\"sales\".\"" <> (name <> "\"");
  kind = view;
  comment = none;
  definition_hash = some "50fd";
  view_contract_source = none;
  view_contract_version = none;
  security_invoker = true;
  security_barrier = false;
  columns =
      map
        (λ (c : ℕ × String). record {
          name = c.1;
          sql_name = "\"" <> (c.1 <> "\"");
          ordinal = c.0;
          data_type = "bigint";
          nullable = unknown;
          comment = none;
        })
        columns;
}

abbrev two_relations : List CatalogRelationBuilder
two_relations =
    relation "customers" ((1, "id") ∷ []) ∷ relation "orders" ((1, "id") ∷ (2, "total") ∷ []) ∷ []

grouped : rows_to_relations three_rows ≡ ok two_relations
unfolding rows_to_relations
grouped = refl

rows_to_relations-AreGroups_example : AreGroups three_rows two_relations
rows_to_relations-AreGroups_example = rows_to_relations-AreGroups three_rows two_relations grouped

-- A connection without TLS, as the source `sales` wants it.
abbrev postgres : Database
postgres = record {
  connection = ok (record {
    server_version = 180001;
    server_encoding = some "UTF8";
    client_encoding = some "UTF8";
    encoding = "utf-8";
    ssl_in_use = false;
  });
  begun = ok tt;
  timezone = ok tt;
  budget = ok tt;
  policy = ok (some (("read_only", true) ∷ []));
  rows = ok three_rows;
  committed = ok tt;
  rolled_back = err database;
  closed = ok tt;
}

abbrev two_frozen : CatalogSnapshot
two_frozen = record { relations = map freeze two_relations }

loaded : (load postgres sales).result ≡ ok two_frozen
unfolding load
loaded = refl

load-IsLoaded_example : IsLoaded postgres sales two_frozen
load-IsLoaded_example = load-IsLoaded postgres sales two_frozen loaded

asked : asks_rows (load postgres sales).statements ≡ true
unfolding load
asked = refl

load-asks_rows_example : HasConnectionPolicy postgres sales × HasSessionPolicy postgres
load-asks_rows_example = load-asks_rows postgres sales asked
