-- ===== src/Charts/Tests.antt =====
-- internal/app/viz/infer.go: charts of concrete queries.
use topbase.Prelude.{◌≡◌, refl, false, [], ◌∷◌, some}
use topbase.Text.{Text, codes, lower, replace_rune}
use topbase.QueryIr.{Query, Breakout, nil}
use topbase.QueryIr.Values.{pos}
use topbase.Compile.Select.{breakout_alias}
use topbase.Compile.Statement.{Compiled}
use topbase.Charts.{infer, infer_by}

abbrev monthly : Text → Breakout
monthly field = record {
  field = field;
  temporal = codes "month";
  bin_width = record { negative = false; whole = 0; fraction = [] };
}

abbrev revenue_by : Text → Query
revenue_by field = record {
  version = pos 1;
  source = record {
    database_id = codes "shop";
    table = some (record { schema = codes "public"; name = codes "orders" });
    model_id = [];
    question_id = [];
    metric_id = [];
    alias = [];
  };
  joins = [];
  expressions = [];
  fields = [];
  filters = nil;
  aggregations = record { fn = codes "sum"; field = codes "amount"; alias = [] } ∷ [];
  group_by = monthly field ∷ [];
  having = nil;
  order_by = [];
  limit = pos 0;
  parameters = [];
}

abbrev revenue_statement : Compiled
revenue_statement = record {
  sql =
      codes
        "SELECT date_trunc('month', \"paid_at\") AS \"paid_at_month\", sum(\"amount\") AS \"sum\" FROM \"public\".\"orders\" GROUP BY date_trunc('month', \"paid_at\") LIMIT 1000";
  args = [];
}

-- A dotted field: the chart's X is not the column's name.
dotted_x : (infer (revenue_by (codes "orders.paid_at"))).x ≡ codes "orders.paid_at_month"
unfolding infer infer_by lower
dotted_x = refl

dotted_column : breakout_alias (monthly (codes "orders.paid_at")) ≡ codes "orders_paid_at_month"
unfolding breakout_alias replace_rune lower
dotted_column = refl
