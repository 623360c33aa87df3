-- ===== src/Sql/Allowlists.antt =====
-- The allowlists and the rejected constructs of guarded_query/sql_validation.py.
use query_boy.Base.{String, List, [], ◌∷◌}
use query_boy.Base.Dict.{Dict}

abbrev pub default_allowed_functions : List String
default_allowed_functions =
    "abs" ∷ "age" ∷ "array_agg" ∷ "avg" ∷ "bit_and" ∷ "bit_or" ∷ "bool_and" ∷ "bool_or" ∷ "btrim"
    ∷ "ceil" ∷ "ceiling" ∷ "char_length" ∷ "concat" ∷ "concat_ws" ∷ "corr" ∷ "count" ∷ "covar_pop"
    ∷ "covar_samp" ∷ "date_part" ∷ "date_trunc" ∷ "dense_rank" ∷ "every" ∷ "extract" ∷ "floor"
    ∷ "json_agg" ∷ "json_array_length" ∷ "json_extract_path_text" ∷ "json_object_agg" ∷ "jsonb_agg"
    ∷ "jsonb_array_length" ∷ "jsonb_build_object" ∷ "jsonb_extract_path_text" ∷ "jsonb_object_agg"
    ∷ "lag" ∷ "lead" ∷ "left" ∷ "length" ∷ "lower" ∷ "ltrim" ∷ "max" ∷ "min" ∷ "mod"
    ∷ "octet_length" ∷ "power" ∷ "position" ∷ "percentile_cont" ∷ "rank" ∷ "regr_avgx" ∷ "regr_avgy"
    ∷ "regr_count" ∷ "regr_intercept" ∷ "regr_r2" ∷ "regr_slope" ∷ "replace" ∷ "regexp_replace"
    ∷ "right" ∷ "row_number" ∷ "round" ∷ "rtrim" ∷ "split_part" ∷ "sqrt" ∷ "stddev" ∷ "stddev_pop"
    ∷ "stddev_samp" ∷ "string_agg" ∷ "substr" ∷ "substring" ∷ "sum" ∷ "to_char" ∷ "to_jsonb"
    ∷ "trunc" ∷ "upper" ∷ "variance" ∷ "var_pop" ∷ "var_samp" ∷ []

abbrev pub default_allowed_operators : List String
default_allowed_operators =
    "!=" ∷ "!~" ∷ "!~*" ∷ "!~~" ∷ "!~~*" ∷ "%" ∷ "&" ∷ "*" ∷ "+" ∷ "-" ∷ "/" ∷ "<" ∷ "<<" ∷ "<="
    ∷ "<>" ∷ "=" ∷ ">" ∷ ">=" ∷ ">>" ∷ "#>" ∷ "#>>" ∷ "^" ∷ "|" ∷ "||" ∷ "~" ∷ "~*" ∷ "~~" ∷ "~~*"
    ∷ "->" ∷ "->>" ∷ "#-" ∷ "@>" ∷ "<@" ∷ "?" ∷ "?|" ∷ "?&" ∷ "@@" ∷ "@?" ∷ []

abbrev pub default_allowed_types : List String
default_allowed_types =
    "bit" ∷ "bool" ∷ "bpchar" ∷ "bytea" ∷ "date" ∷ "float4" ∷ "float8" ∷ "inet" ∷ "int2" ∷ "int4"
    ∷ "int8" ∷ "interval" ∷ "json" ∷ "jsonb" ∷ "numeric" ∷ "text" ∷ "time" ∷ "timestamp"
    ∷ "timestamptz" ∷ "timetz" ∷ "uuid" ∷ "varbit" ∷ "varchar" ∷ []

abbrev pub default_allowed_unqualified_types : List String
default_allowed_unqualified_types = "date" ∷ "text" ∷ []

abbrev pub allowed_sql_value_functions : List String
allowed_sql_value_functions =
    "SVFOP_CURRENT_DATE" ∷ "SVFOP_CURRENT_TIME" ∷ "SVFOP_CURRENT_TIME_N" ∷ "SVFOP_CURRENT_TIMESTAMP"
    ∷ "SVFOP_CURRENT_TIMESTAMP_N" ∷ "SVFOP_LOCALTIME" ∷ "SVFOP_LOCALTIME_N" ∷ "SVFOP_LOCALTIMESTAMP"
    ∷ "SVFOP_LOCALTIMESTAMP_N" ∷ []

abbrev pub forbidden_node_codes : Dict String
forbidden_node_codes =
    ("ParamRef", "SQL_PARAMETER_NOT_ALLOWED")
    ∷ ("RangeFunction", "SQL_TABLE_FUNCTION_NOT_ALLOWED")
    ∷ ("RangeTableFunc", "SQL_TABLE_FUNCTION_NOT_ALLOWED")
    ∷ ("RangeTableSample", "SQL_TABLESAMPLE_NOT_ALLOWED")
    ∷ []

abbrev pub rejected_a_expr_constructs : Dict String
rejected_a_expr_constructs =
    ("AEXPR_NOT_BETWEEN", "NOT BETWEEN")
    ∷ ("AEXPR_BETWEEN_SYM", "BETWEEN SYMMETRIC")
    ∷ ("AEXPR_NOT_BETWEEN_SYM", "NOT BETWEEN SYMMETRIC")
    ∷ []

abbrev pub allowed_node_tags : List String
allowed_node_tags =
    "A_ArrayExpr" ∷ "A_Const" ∷ "A_Expr" ∷ "A_Indices" ∷ "A_Indirection" ∷ "A_Star" ∷ "Alias"
    ∷ "BitString" ∷ "Boolean" ∷ "BooleanTest" ∷ "BoolExpr" ∷ "CaseExpr" ∷ "CaseWhen"
    ∷ "CoalesceExpr" ∷ "CollateClause" ∷ "ColumnRef" ∷ "CommonTableExpr" ∷ "Float" ∷ "FuncCall"
    ∷ "GroupingFunc" ∷ "GroupingSet" ∷ "Integer" ∷ "JoinExpr" ∷ "MinMaxExpr" ∷ "NamedArgExpr"
    ∷ "Null" ∷ "NullTest" ∷ "ParamRef" ∷ "RangeFunction" ∷ "RangeSubselect" ∷ "RangeTableFunc"
    ∷ "RangeTableSample" ∷ "RangeVar" ∷ "ResTarget" ∷ "RowExpr" ∷ "SelectStmt" ∷ "SortBy"
    ∷ "SQLValueFunction" ∷ "String" ∷ "SubLink" ∷ "TypeCast" ∷ "TypeName" ∷ "WindowDef"
    ∷ "WithClause" ∷ []
