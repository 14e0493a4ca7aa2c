-- ===== src/Queries/Cards.antt =====
-- internal/app/query/dashboard.go: the result of a dashboard's card.
--
-- The calendar and the decoding of JSON are parameters: `chart_of` reads the chart that a question
-- keeps as JSON, `chart_in` the value that a card's configuration has for one.
use topbase.Prelude.{
  Bool, true, false, ◌&&◌, ◌||◌, not, List, [], ◌∷◌, ◌++◌, if◌then◌else◌, find, Option, none, some,
  is_empty, err, map_err,
}
use topbase.Text.{Text, codes, text_eq, lookup}
use topbase.QueryIr.{Query, Parameter}
use topbase.QueryIr.Values.{ℤ, Value}
use topbase.Params.Dates.{DateError, value_at}
use topbase.Params.Mapped.{MappedValue, apply_mapped_filters}
use topbase.Params.Native.{Assignment, is_given, apply_native}
use topbase.Params.Native
use topbase.Charts.{ChartSpec, chart, merge}
use topbase.Dashboards.{Card, FilterMapping, DashboardFilter, Dashboard}
use topbase.Collections
use topbase.Collections.{Question, Shelf, question_by_id}
use topbase.Queries.{QueryResult, QueryError, Traced, run_args}
use topbase.Queries.Dataset.{
  DatasetResult, DatasetError, DatasetService, passed_on, then_call, run_query,
}

pub data CardError : Type 0 where
  card_not_found not_a_question no_query : CardError
  no_such_question : Collections.Error → CardError
  not_native : Native.Error → CardError
  bad_filter : DateError → CardError
  not_executed : QueryError → CardError
  not_a_dataset : DatasetError → CardError

unfoldable pub mapping_values :
    Text → DashboardFilter → Value → List FilterMapping → List MappedValue
mapping_values card filter value [] = []
mapping_values card filter value (m ∷ ms) =
    let rest = mapping_values card filter value ms in
    if not (is_empty m.card_id) && not (text_eq m.card_id card)
    then rest
    else record { field = m.field; type = filter.type; value = value } ∷ rest

unfoldable pub filter_mapped : Text → DashboardFilter → Option Value → List MappedValue
unfolding mapping_values
filter_mapped card filter none = []
filter_mapped card filter (some value) = mapping_values card filter value filter.mappings

unfoldable pub mapped_values : List DashboardFilter → Text → Assignment → List MappedValue
unfolding filter_mapped
mapped_values [] card values = []
mapped_values (filter ∷ filters) card values =
    filter_mapped card filter (lookup filter.id values) ++ mapped_values filters card values

-- The three loops of nativeValues, each over what the last one gave.
unfoldable pub with_mapped : List MappedValue → Assignment → Assignment
with_mapped [] values = values
with_mapped (m ∷ ms) values = with_mapped ms ((m.field, m.value) ∷ values)

unfoldable pub with_raw : Assignment → Assignment → Assignment
with_raw [] values = values
with_raw ((name, value) ∷ raw) values =
    with_raw raw (if is_given (lookup name values) then values else (name, value) ∷ values)

abbrev set_given : Text → Option Value → Assignment → Assignment
set_given name none values = values
set_given name (some value) values = (name, value) ∷ values

unfoldable pub with_params : List Parameter → Assignment → Assignment → Assignment
with_params [] raw values = values
with_params (p ∷ ps) raw values = with_params ps raw (set_given p.name (lookup p.name raw) values)

unfoldable pub native_values : List MappedValue → Assignment → List Parameter → Assignment
unfolding with_mapped with_raw with_params
native_values mapped raw params = with_params params raw (with_raw raw (with_mapped mapped []))

abbrev pub table_chart : ChartSpec
table_chart = chart (codes "table") [] []

module _ (chart_of : Text → ChartSpec) (chart_in : Value → Option ChartSpec) where
  abbrev question_chart : Option Text → Option ChartSpec
  question_chart none = none
  question_chart (some json) = some (chart_of json)

  abbrev override_chart : Option Value → ChartSpec → ChartSpec
  override_chart none spec = spec
  override_chart (some value) spec = elim (chart_in value) [
    | none ↦ spec
    | some override ↦ merge (some override) spec
  ]

  unfoldable pub apply_chart_spec : Question → Card → DatasetResult → DatasetResult
  apply_chart_spec question card result =
      let inferred = if is_empty result.chart_spec.type then table_chart else result.chart_spec in
      record result {
        chart_spec =
            override_chart (value_at (codes "chartspec") card.config)
              (merge (question_chart question.chart_spec) inferred);
      }

  module _ (days_before : ℤ → Text) (s : DatasetService) (now : Text) where
    unfoldable pub native_result : Text → QueryResult → DatasetResult
    native_result sql result = record {
      sql = sql;
      columns = result.columns;
      rows = result.rows;
      meta = result.meta;
      chart_spec = table_chart;
    }

    unfoldable pub run_native_card :
        Question → Card → List MappedValue → Assignment → Traced CardError DatasetResult
    unfolding native_result native_values
    run_native_card question card mapped values =
        then_call
          (map_err not_native (
            apply_native days_before question.native_sql question.parameters
              (native_values mapped values question.parameters)))
          (λ (sql, args).
            passed_on not_executed
              (λ result. apply_chart_spec question card (native_result sql result))
              (run_args s.execute now question.database_id sql args))

    unfoldable pub run_query_card :
        Question → Card → List MappedValue → Option Query → Traced CardError DatasetResult
    run_query_card question card mapped none = (err no_query, [])
    run_query_card question card mapped (some base) =
        then_call (map_err bad_filter (apply_mapped_filters days_before base mapped))
          (λ q. passed_on not_a_dataset (apply_chart_spec question card) (run_query s now q))

    unfoldable pub run_question_card :
        Dashboard → Card → Assignment → Question → Traced CardError DatasetResult
    unfolding run_native_card run_query_card
    run_question_card board card values question =
        let mapped = mapped_values board.filters card.id values in
        if text_eq question.query_type (codes "native")
          || (is_none question.query_ir && not (is_empty question.native_sql))
        then run_native_card question card mapped values
        else run_query_card question card mapped question.query_ir
      where
        is_none : Option Query → Bool
        is_none none = true
        is_none (some q) = false

    unfoldable pub run_found_card :
        Dashboard → Assignment → Shelf → Option Card → Traced CardError DatasetResult
    unfolding run_question_card
    run_found_card board values shelf none = (err card_not_found, [])
    run_found_card board values shelf (some card) =
        if not (text_eq card.type (codes "question")) || is_empty card.question_id
        then (err not_a_question, [])
        else then_call (map_err no_such_question (question_by_id card.question_id shelf))
            (run_question_card board card values)

    unfoldable pub run_dashboard_card :
        Dashboard → Text → Assignment → Shelf → Traced CardError DatasetResult
    unfolding run_found_card
    run_dashboard_card board card values shelf =
        run_found_card board values shelf (find (λ c. text_eq c.id card) board.cards)
