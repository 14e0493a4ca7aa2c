-- ===== src/Compile/Tests.antt =====
-- internal/adapters/postgres_compile.go at a concrete query: paid orders per month, with their buyer.
use topbase.Prelude.{true, none, ◌≡◌, refl, ℕ, ◌<◌, ◌≤◌, ◌++◌, false, [], ◌∷◌, some, ok}
use topbase.Text.{
  Text, codes, one_of, text_eq, lower, lower_rune, upper, upper_rune, has_prefix, has_rune, split,
  join, replace_rune, trim_left, trim_space, is_blank, lookup, contains,
}
use topbase.Text.Decimal.{show, show_from}
use topbase.QueryIr.{
  Filter, Query, Source, TableRef, Join, JoinCondition, leaf, Filters, nil, cons, filter,
}
use topbase.QueryIr.Values.{Number, num, pos, str, sprint, is_missing}
use topbase.QueryIr.Validate.{check_filter, validate}
use topbase.Compile.Scan.{scan, normal}
use topbase.Compile.Select.{Error}
use topbase.Compile.Statement.{Compiled, Limits, compile, compile_postgres, interactive}
use topbase.Compile.Filters.{postgres_filter}
use topbase.Compile.Total.{compile_total}
use topbase.Compile.Safe.{compile-scan}
use topbase.Compile.Limit.{compile_postgres-limit, IsLimitOf}

abbrev paid_orders : Query
paid_orders = record {
  version = pos 1;
  source = record {
    database_id = codes "shop";
    table = some (record { schema = codes "public"; name = codes "orders" });
    model_id = [];
    question_id = [];
    metric_id = [];
    alias = [];
  };
  joins =
      record {
        type = codes "left";
        alias = codes "buyer";
        table = some (record { schema = codes "public"; name = codes "users" });
        conditions =
            record { left = codes "orders.user_id"; right = codes "buyer.id"; op = [] } ∷ [];
        implicit = false;
      }
      ∷ [];
  expressions = [];
  fields = [];
  filters =
      cons (leaf (codes "status") (codes "eq") (str (codes "paid")))
        (cons (leaf (codes "buyer.name") (codes "contains") (str (codes "o'neil"))) nil);
  aggregations = record { fn = codes "count"; field = []; alias = [] } ∷ [];
  group_by =
      record {
        field = codes "created_at";
        temporal = codes "month";
        bin_width = record { negative = false; whole = 0; fraction = [] };
      }
      ∷ [];
  having = nil;
  order_by = record { field = codes "created_at"; dir = codes "desc" } ∷ [];
  limit = pos 50;
  parameters = [];
}

abbrev paid_sql : Text
paid_sql =
    codes
      "SELECT date_trunc('month', \"created_at\") AS \"created_at_month\", count(*) AS \"count\" FROM \"public\".\"orders\" AS \"orders\" LEFT JOIN \"public\".\"users\" AS \"buyer\" ON \"orders\".\"user_id\" = \"buyer\".\"id\" WHERE \"status\" = $1 AND \"buyer\".\"name\" ILIKE '%' || $2 || '%' GROUP BY date_trunc('month', \"created_at\") ORDER BY \"created_at\" DESC LIMIT 50"

abbrev paid_statement : Compiled
paid_statement = record { sql = paid_sql; args = str (codes "paid") ∷ str (codes "o'neil") ∷ [] }

paid_compiles : compile interactive paid_orders ≡ ok paid_statement
unfolding compile validate is_blank topbase.QueryIr.Identifier.is_ident
    topbase.QueryIr.Validate.check_join one_of lower topbase.QueryIr.Identifier.is_path
    topbase.QueryIr.Validate.check_filters topbase.QueryIr.Validate.check_condition is_missing
    sprint topbase.QueryIr.Validate.check_aggregation topbase.QueryIr.Validate.check_breakout
    topbase.QueryIr.Validate.check_order topbase.Compile.Statement.compile_table
    topbase.Compile.Statement.join_texts topbase.Compile.Select.postgres_join
    topbase.Compile.Select.postgres_conditions topbase.Compile.Filters.add_part
    topbase.Compile.Filters.bind_one topbase.Compile.Filters.conjunction
    topbase.Compile.Filters.filter_parts topbase.Compile.Filters.placeholder
    topbase.Compile.Filters.postgres_condition topbase.Compile.Filters.postgres_filters
    topbase.Compile.Select.aggregate_call topbase.Compile.Select.breakout_alias
    topbase.Compile.Select.join_kind topbase.Compile.Select.join_text
    topbase.Compile.Select.postgres_agg topbase.Compile.Select.postgres_breakout
    topbase.Compile.Select.table_name topbase.Compile.Statement.clause
    topbase.Compile.Statement.effective_limit topbase.Compile.Statement.group_text
    topbase.Compile.Statement.limit_text topbase.Compile.Statement.order_item
    topbase.Compile.Statement.order_text topbase.Compile.Statement.select_list
    topbase.Compile.Statement.source_text topbase.Compile.Statement.statement
    topbase.Compile.Statement.unlimited topbase.QueryIr.Identifier.path_tail
    topbase.QueryIr.Identifier.quote topbase.QueryIr.Identifier.quote_path
    topbase.QueryIr.Validate.check_ident topbase.QueryIr.Validate.check_path
    topbase.QueryIr.Validate.validate_body topbase.QueryIr.Validate.validate_columns
    topbase.QueryIr.Validate.validate_source show show_from has_rune topbase.Text.is_space join
    lookup lower_rune replace_rune split text_eq trim_left trim_space upper upper_rune
paid_compiles = refl

compile-scan_example : scan normal 0 paid_sql ≡ some 2
compile-scan_example = compile-scan interactive paid_orders paid_statement paid_compiles

compile_postgres-limit_example :
    (n : ℕ) × (front : Text) × (paid_sql ≡ front ++ (codes " LIMIT " ++ show n))
    × (0 < n)
    × (n ≤ 10000)
    × IsLimitOf n (pos 50)
unfolding compile_postgres compile
compile_postgres-limit_example = compile_postgres-limit paid_orders paid_statement paid_compiles

-- What the scanner makes of a comment, and of minus signs that open none.
comment_tests :
    (scan normal 0 (codes "SELECT 1 -- 2") ≡ none)
    × (scan normal 0 (codes "SELECT 1 /* 2 */") ≡ none)
    × (scan normal 0 (codes "SELECT $1--2") ≡ none)
    × (scan normal 0 (codes "SELECT '--' - -2 / 3") ≡ some 0)
unfolding scan topbase.Compile.Scan.step topbase.Compile.Scan.finish
comment_tests = (refl, refl, refl, refl)

sprint_number_tests :
    (sprint (num (record { negative = true; whole = 1500000000000000000000; fraction = [] }))
      ≡ codes "-1.5e+21")
    × (sprint (num (record { negative = false; whole = 0; fraction = 0 ∷ 0 ∷ 0 ∷ 0 ∷ 2 ∷ 5 ∷ [] }))
        ≡ codes "2.5e-05")
    × (sprint (num (record { negative = false; whole = 20; fraction = 5 ∷ [] })) ≡ codes "20.5")
unfolding sprint topbase.QueryIr.Values.sprint_number topbase.Text.Decimal.show
sprint_number_tests = (refl, refl, refl)

paid_valid : validate paid_orders ≡ ok tt
unfolding validate is_blank topbase.QueryIr.Identifier.is_ident topbase.QueryIr.Validate.check_join
    one_of lower topbase.QueryIr.Identifier.is_path topbase.QueryIr.Validate.check_filters
    topbase.QueryIr.Validate.check_condition is_missing sprint
    topbase.QueryIr.Validate.check_aggregation topbase.QueryIr.Validate.check_breakout
    topbase.QueryIr.Validate.check_order
paid_valid = refl

compile_total_example : (c : Compiled) × (compile interactive paid_orders ≡ ok c)
unfolding one_of
compile_total_example =
    compile_total interactive paid_orders
      (record { schema = codes "public"; name = codes "orders" }) paid_valid refl refl
