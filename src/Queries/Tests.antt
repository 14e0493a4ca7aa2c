-- ===== src/Queries/Tests.antt =====
-- Statements, a query and a card at work, with an executor that answers one row.
use topbase.Prelude.{◌≡◌, refl, false, [], ◌∷◌, none, some, ok, err}
use topbase.Text.{Text, codes}
use topbase.QueryIr.{Query}
use topbase.QueryIr.Values.{Number, str, null, pos, end}
use topbase.Compile.Statement.{compile_postgres}
use topbase.Dashboards.{Card, Dashboard}
use topbase.Collections.{Question, Shelf}
use topbase.Charts.{chart}
use topbase.Queries.{
  QueryResult, Call, check_statement, multiple_statements, not_read_only, write_operation,
}
use topbase.Queries.Dataset.{
  DatasetService, run_query, visual_request_to_query, export_csv, export_query,
}
use topbase.Queries.Cards.{native_values, run_dashboard_card}
use topbase.Queries.Sent.{AtMostOne, Sent, run_query-Sent}

abbrev db : Text
db = codes "db"

check_statement_tests :
    (check_statement db (codes " SELECT 1 ") ≡ ok tt)
    × (check_statement db (codes "select 1; drop table t") ≡ err multiple_statements)
    × (check_statement db (codes "truncate t") ≡ err not_read_only)
    × (check_statement db (codes "with x as (Delete from t) select 1") ≡ err write_operation)
    × (check_statement db (codes "select updated from t") ≡ ok tt)
unfolding check_statement topbase.Text.is_blank topbase.Text.has_rune topbase.Text.lower
    topbase.Text.has_prefix
check_statement_tests = (refl, refl, refl, refl, refl)

-- What the checks let through may write.
into_test : check_statement db (codes "SELECT * INTO copied FROM t") ≡ ok tt
unfolding check_statement topbase.Text.is_blank topbase.Text.has_rune topbase.Text.lower
    topbase.Text.has_prefix
into_test = refl

-- A quoted name or a literal is refused for what it says.
quoted_tests :
    (check_statement db (codes "select \"call\" from t") ≡ err write_operation)
    × (check_statement db (codes "select ';'") ≡ err multiple_statements)
unfolding check_statement topbase.Text.is_blank topbase.Text.has_rune topbase.Text.lower
    topbase.Text.has_prefix
quoted_tests = (refl, refl)

abbrev answer : QueryResult
answer = record { columns = codes "id" ∷ []; rows = (str (codes "7") ∷ null ∷ []) ∷ []; meta = [] }

abbrev service : DatasetService
service = record { execute = λ call. ok answer; compile = some compile_postgres; expand = none }

abbrev orders : Query
orders = record {
  version = pos 0;
  source = record {
    database_id = db;
    table = some (record { schema = codes "public"; name = codes "orders" });
    model_id = [];
    question_id = [];
    metric_id = [];
    alias = [];
  };
  joins = [];
  expressions = [];
  fields = codes "id" ∷ [];
  filters = topbase.QueryIr.nil;
  aggregations = [];
  group_by = [];
  having = topbase.QueryIr.nil;
  order_by = [];
  limit = pos 5;
  parameters = [];
}

-- The database gets what the compiler makes of the query, and the result tells its version.
abbrev constant : DatasetService
constant = record service {
  compile = some (λ q. ok (record { sql = codes "SELECT 1"; args = [] }));
}

orders_test :
    (run_query constant [] orders).1
    ≡ record { database_id = db; sql = codes "SELECT 1"; args = [] } ∷ []
unfolding run_query topbase.Queries.run_args topbase.Text.is_blank topbase.Text.has_rune
    topbase.Text.lower topbase.Text.has_prefix
orders_test = refl

export_test : (export_csv constant [] (λ rows. ok (codes "csv")) orders).0 ≡ ok (codes "csv")
unfolding export_csv topbase.Queries.run_args topbase.Text.is_blank topbase.Text.has_rune
    topbase.Text.lower topbase.Text.has_prefix
export_test = refl

run_query-Sent_example : AtMostOne (Sent service orders) ((run_query service [] orders).1)
run_query-Sent_example = run_query-Sent service [] orders

abbrev four : Number
four = record { negative = false; whole = 4; fraction = [] }

abbrev card : Card
card = record {
  id = codes "c";
  dashboard_id = codes "d";
  tab_id = [];
  type = codes "question";
  question_id = codes "q";
  title = [];
  body = [];
  config = end;
  click = none;
  layout = record { x = four; y = four; w = four; h = four };
}

abbrev board : Dashboard
board = record {
  id = codes "d";
  collection_id = [];
  name = codes "orders";
  description = [];
  auto_refresh_seconds = 0;
  appearance = end;
  tabs = [];
  cards = card ∷ [];
  filters =
      record {
        id = codes "f";
        dashboard_id = codes "d";
        name = codes "city";
        type = codes "text";
        config = end;
        mappings = record { card_id = []; field = codes "city" } ∷ [];
      }
      ∷ [];
  archived_at = none;
  created_by = [];
  created_at = 0;
  public_uuid = [];
  public_embed_enabled = false;
}

abbrev question : Question
question = record {
  id = codes "q";
  collection_id = [];
  dashboard_id = [];
  name = codes "orders";
  description = [];
  query_ir = none;
  native_sql = codes "SELECT 1 WHERE city = {{city}}";
  chart_spec = none;
  query_type = codes "native";
  database_id = db;
  created_by = [];
  created_at = 0;
  archived_at = none;
  parameters = [];
}

abbrev shelf : Shelf
shelf = record { collections = []; questions = question ∷ []; drawn = 0 }

card_test :
    (run_dashboard_card
      (λ json. chart json [] [])
      (λ value. none)
      (λ days. [])
      service
      []
      board
      (codes "c")
      ((codes "f", str (codes "Oslo")) ∷ [])
      shelf).1
    ≡ record {
      database_id = db;
      sql = codes "SELECT 1 WHERE city = $1";
      args = str (codes "Oslo") ∷ [];
    }
      ∷ []
unfolding run_dashboard_card topbase.Text.text_eq topbase.Queries.Dataset.then_call
    topbase.Collections.question_by_id topbase.Params.Native.apply_native topbase.Text.trim_space
    topbase.Params.Native.substitute topbase.Params.Tokens.tokens
    topbase.Params.Native.without_blocks topbase.Params.Tokens.pieces topbase.Params.Native.hole_sql
    topbase.Params.Native.by_name topbase.Params.Native.last_named topbase.Params.Native.plain_sql
    topbase.Text.lookup topbase.Queries.Cards.mapped_values topbase.Queries.Dataset.passed_on
    topbase.Queries.run_args check_statement topbase.Queries.Cards.native_values
    topbase.Params.Native.bind topbase.Text.Decimal.show topbase.Text.is_blank topbase.Text.has_rune
    topbase.Text.lower topbase.Text.has_prefix
card_test = refl
