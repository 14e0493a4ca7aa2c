-- ===== src/QueryIr/Tests.antt =====
-- internal/core/queryir at concrete names and queries.
use topbase.Prelude.{◌≡◌, refl, false, List, [], ◌∷◌, ◌++◌, none, some, ok}
use topbase.Text.{Text, codes, split}
use topbase.QueryIr.{Query, Breakout, nil}
use topbase.QueryIr.Values.{pos, null}
use topbase.QueryIr.Identifier.{quote_path}
use topbase.QueryIr.Quoting.{read_path, read-quote_path}
use topbase.QueryIr.Drill.{DrillRequest, drill}
use topbase.QueryIr.Drilling.{IsZoomOf, drill-zoom_time}

-- A name that tries to end its quotes.
abbrev sly_name : Text
sly_name = codes "id\"; DROP TABLE users"

read-quote_path_example :
    read_path 2 (quote_path (codes "users.na\"me") ++ codes " = 1")
    ≡ some (codes "users" ∷ codes "na\"me" ∷ [], codes " = 1")
unfolding split
read-quote_path_example = read-quote_path (codes "users.na\"me") (codes " = 1") refl refl

abbrev per : Text → List Breakout
per unit =
    record {
      field = codes "created_at";
      temporal = unit;
      bin_width = record { negative = false; whole = 0; fraction = [] };
    }
    ∷ []

abbrev by_month : Query
by_month = record {
  version = pos 1;
  source = record {
    database_id = codes "shop";
    table = none;
    model_id = codes "orders";
    question_id = [];
    metric_id = [];
    alias = [];
  };
  joins = [];
  expressions = [];
  fields = [];
  filters = nil;
  aggregations = [];
  group_by = per (codes "Month");
  having = nil;
  order_by = [];
  limit = pos 0;
  parameters = [];
}

abbrev zoom : DrillRequest
zoom = record {
  kind = codes "zoom_time";
  field = [];
  value = null;
  values = [];
  temporal = [];
  join = none;
}

zooms : drill by_month zoom ≡ ok (record by_month { group_by = per (codes "week") })
unfolding drill topbase.Text.text_eq topbase.Text.lower
zooms = refl

drill-zoom_time_example :
    (bs : List Breakout) × (record by_month { group_by = per (codes "week") }
      ≡ record by_month { group_by = bs })
    × IsZoomOf (per (codes "Month")) bs
unfolding topbase.Text.lower
drill-zoom_time_example =
    drill-zoom_time by_month (record by_month { group_by = per (codes "week") }) zoom refl refl
      zooms
