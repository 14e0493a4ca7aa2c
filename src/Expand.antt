-- ===== src/Expand.antt =====
-- internal/app/query/expand.go: a query over a model, an analysis or a metric becomes one over a
-- table; segments are replaced by their filters; joins along foreign keys are added.
--
-- The stores are functions; a store that is not configured is `none`. The map `needed` is the list of
-- its keys, and `visit` is the order in which Go's range takes them.
pub mod Segments
pub mod Joins
pub mod Coverage
pub mod Filling
mod Tests
use topbase.Prelude.{
  Bool, true, false, not, ◌&&◌, ◌||◌, List, [], ◌∷◌, ◌++◌, Option, none, some, if◌then◌else◌,
  is_empty, Result, ok, err, ◌>>=◌,
}
use topbase.Text.{Text}
use topbase.QueryIr.{Query, TableRef, Filters, Aggregation, append}
use Segments.{replace_segments, Error, store_failed, no_query}
use Joins.{FieldMeta, join_needed, fill_joins, needed_tables}

pub record Metric : Type 0 where
  pub schema : Text
  pub table : Text
  pub aggregation : Aggregation
  pub filters : Filters

abbrev pub Find : Type 0 → Type 0
Find A = Option (Text → Result Error A)

-- Expander: ListDatabaseFields, and ByID of the other stores, with the QueryIR of what is found.
pub record Expander : Type 0 where
  pub fields : Find (List FieldMeta)
  pub models : Find (Option Query)
  pub metrics : Find Metric
  pub segments : Find Filters
  pub questions : Find (Option Query)

-- `if id != "" && store != nil`.
abbrev when_given :
    {A : Type 0} → Text → Find A → (A → Query → Result Error Query) → Query → Result Error Query
when_given id none f q = ok q
when_given id (some find) f q = if is_empty id then ok q else find id >>= λ a. f a q

unfoldable pub on_model : Option Query → Query → Result Error Query
on_model none q = err no_query
on_model (some base) q = ok (record q {
  source = base.source;
  joins = base.joins ++ q.joins;
  filters = append base.filters q.filters;
  fields = if is_empty q.fields then base.fields else q.fields;
})

unfoldable pub on_question : Option Query → Query → Result Error Query
on_question none q = err no_query
on_question (some base) q = ok (record q {
  source = base.source;
  joins = base.joins ++ q.joins;
  filters = append base.filters q.filters;
})

unfoldable pub on_metric : Metric → Query → Result Error Query
on_metric m q = ok (record q {
  source = record q.source { table = some (record { schema = m.schema; name = m.table }) };
  aggregations = m.aggregation ∷ q.aggregations;
  filters = append m.filters q.filters;
})

-- expandSegments, which leaves Having as it is.
unfoldable pub expand_segments : Expander → Query → Result Error Query
expand_segments e q = segments_in e.segments
  where
    segments_in : Find Filters → Result Error Query
    segments_in none = ok q
    segments_in (some find) = do
      filters ← replace_segments find q.filters
      ok (record q { filters = filters })

-- expandImplicitJoins.
unfoldable pub expand_implicit_joins :
    (List Text → List Text) → Expander → Query → Result Error Query
expand_implicit_joins visit e q = joins_in e.fields q.source.table
  where
    joins_in : Find (List FieldMeta) → Option TableRef → Result Error Query
    joins_in none from = ok q
    joins_in (some list) none = ok q
    joins_in (some list) (some from) = do
      fields ← list q.source.database_id
      joins ← join_needed from fields (visit (needed_tables q from)) q.joins
      filled ← fill_joins from fields joins
      ok (record q { joins = filled })

-- Expand, for an expander that is not nil.
unfoldable pub expand : (List Text → List Text) → Expander → Query → Result Error Query
expand visit e q = do
  over_model ← when_given q.source.model_id e.models on_model q
  over_question ← when_given over_model.source.question_id e.questions on_question over_model
  over_metric ← when_given over_question.source.metric_id e.metrics on_metric over_question
  plain ← expand_segments e over_metric
  expand_implicit_joins visit e plain
