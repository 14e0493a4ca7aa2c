-- ===== src/Queries/Dataset.antt =====
-- internal/app/query/dataset.go and internal/app/query/export.go: running the query of the visual
-- editor, and exporting what it gives.
use topbase.Prelude.{
  Bool, true, false, ◌&&◌, ◌||◌, not, List, [], ◌∷◌, map, if◌then◌else◌, Option, none, some, ltb,
  ◌+◌, is_empty, Result, ok, err, map_err,
}
use topbase.Text.{Text, codes}
use topbase.QueryIr.{Query, Breakout, nil, single, leaf}
use topbase.QueryIr.Values.{ℤ, pos, negsuc, is_zero, Number, Value, null, str, num, sprint}
use topbase.Compile.Statement.{Compiled}
use topbase.Charts.{ChartSpec, infer}
use topbase.Expand.Segments
use topbase.Compile.Select
use topbase.Queries.{QueryResult, Call, QueryError, Traced, run_args}

pub record DatasetResult : Type 0 where
  pub sql : Text
  pub columns : List Text
  pub rows : List (List Value)
  pub meta : List (Text × Value)
  pub chart_spec : ChartSpec

pub data DatasetError : Type 0 where
  no_compiler table_required : DatasetError
  not_expanded : Segments.Error → DatasetError
  not_compiled : Select.Error → DatasetError
  not_run : QueryError → DatasetError
  not_written : Text → DatasetError

-- DatasetService, with the executor of its QueryService.
pub record DatasetService : Type 0 where
  pub execute : Call → Result Text QueryResult
  pub compile : Option (Query → Result Select.Error Compiled)
  pub expand : Option (Query → Result Segments.Error Query)

-- An int as a number.
abbrev pub whole_number : ℤ → Number
whole_number (pos n) = record { negative = false; whole = n; fraction = [] }
whole_number (negsuc n) = record { negative = true; whole = n + 1; fraction = [] }

unfoldable pub versioned : Query → Query
versioned q = if is_zero q.version then record q { version = pos 1 } else q

unfoldable pub expanded :
    Option (Query → Result Segments.Error Query) → Query → Result DatasetError Query
expanded none q = ok q
expanded (some expand) q = map_err not_expanded (expand q)

unfoldable pub compiled_by :
    Option (Query → Result Select.Error Compiled) → Query → Result DatasetError Compiled
compiled_by none q = err no_compiler
compiled_by (some compile) q = map_err not_compiled (compile q)

unfoldable pub dressed : Query → Compiled → QueryResult → DatasetResult
dressed q compiled result = record {
  sql = compiled.sql;
  columns = result.columns;
  rows = result.rows;
  meta = (codes "queryir_version", num (whole_number q.version)) ∷ result.meta;
  chart_spec = infer q;
}

-- The result of a call, as a caller passes it on.
unfoldable pub passed_on {ℓ κ μ ν} :
    {E : Type ℓ} {F : Type κ} {A : Type μ} {B : Type ν}
    → (E → F)
    → (A → B)
    → Traced E A
    → Traced F B
passed_on f g (err why, calls) = (err (f why), calls)
passed_on f g (ok value, calls) = (ok (g value), calls)

-- What follows a step that makes no call.
unfoldable pub then_call {ℓ κ μ} :
    {E : Type ℓ} {A : Type κ} {B : Type μ} → Result E A → (A → Traced E B) → Traced E B
then_call (err why) next = (err why, [])
then_call (ok value) next = next value

module _ (s : DatasetService) (now : Text) where
  unfoldable pub run_compiled : Query → Compiled → Traced DatasetError DatasetResult
  unfolding passed_on dressed
  run_compiled q compiled =
      passed_on not_run (dressed q compiled)
        (run_args s.execute now q.source.database_id compiled.sql compiled.args)

  unfoldable pub run_query : Query → Traced DatasetError DatasetResult
  unfolding then_call versioned expanded compiled_by run_compiled
  run_query q =
      then_call (expanded s.expand (versioned q))
        (λ full. then_call (compiled_by s.compile full) (λ compiled. run_compiled full compiled))

  -- ExportCSV: the limit that is set, and the cells; `write` is encoding/csv.
  unfoldable pub export_query : Query → Query
  export_query q = if is_zero q.limit || over q.limit then record q { limit = pos 10000 } else q
    where
      over : ℤ → Bool
      over (pos n) = ltb 10000 n
      over (negsuc n) = false

  unfoldable pub csv_cell : Value → Text
  csv_cell null = []
  csv_cell v = sprint v

  unfoldable pub export_csv :
      (List (List Text) → Result Text Text) → Query → Traced DatasetError Text
  unfolding csv_cell run_query export_query
  export_csv write q = written (run_query (export_query q))
    where
      written : Traced DatasetError DatasetResult → Traced DatasetError Text
      written (err why, calls) = (err why, calls)
      written (ok result, calls) =
          (map_err not_written (write (result.columns ∷ map (map csv_cell) result.rows)), calls)

-- VisualRequestToQuery.
unfoldable pub visual_request_to_query :
    Text → Text → Text → List Text → Text → Text → Text → Text → Result DatasetError Query
visual_request_to_query database schema table fields aggregation aggregation_field filter_field
      filter_value =
    if is_empty schema || is_empty table
    then err table_required
    else ok (record {
      version = pos 1;
      source = record {
        database_id = database;
        table = some (record { schema = schema; name = table });
        model_id = [];
        question_id = [];
        metric_id = [];
        alias = [];
      };
      joins = [];
      expressions = [];
      fields = fields;
      filters =
          if not (is_empty filter_field) && not (is_empty filter_value)
          then single (leaf filter_field (codes "eq") (str filter_value))
          else nil;
      aggregations =
          if is_empty aggregation
          then []
          else record { fn = aggregation; field = aggregation_field; alias = [] } ∷ [];
      group_by = if is_empty aggregation then [] else map plain_breakout fields;
      having = nil;
      order_by = [];
      limit = pos 1000;
      parameters = [];
    })
  where
    plain_breakout : Text → Breakout
    plain_breakout field = record {
      field = field;
      temporal = [];
      bin_width = record { negative = false; whole = 0; fraction = [] };
    }
