-- ===== src/QueryIr/Validate.antt =====
-- internal/core/queryir/validate.go: which queries are accepted. An error is told by its kind.
use topbase.Prelude.{
  Bool, true, false, not, ◌||◌, List, [], ◌∷◌, ◌++◌, Option, none, some, ◌==◌, if◌then◌else◌,
  length, is_empty, Result, ok, err, ◌>>◌, guard, each,
}
use topbase.Text.{Text, codes, text_eq, one_of, lower, is_blank}
use topbase.QueryIr.{
  TableRef, JoinCondition, Join, Expression, Condition, Filter, Filters, filter, nil, cons,
  Aggregation, Breakout, Order, Query,
}
use topbase.QueryIr.Values.{ℤ, pos, negsuc, is_neg, number_neg, is_missing, filter_values}
use topbase.QueryIr.Identifier.{is_ident, is_path}

pub data Error : Type 0 where
  unsupported_version : Error
  database_required table_required join_table_required : Error
  unsupported_join unsupported_expression unsupported_filter : Text → Error
  unsupported_aggregation unsupported_temporal unsupported_direction : Text → Error
  between_values : Error
  needs_values needs_value : Text → Error
  negative_width negative_limit : Error
  invalid : (label value : Text) → Error

abbrev Check : Type 0
Check = Result Error (Unit {0})

abbrev pub aggregations : List Text
aggregations =
    codes "count"
    ∷ codes "sum"
    ∷ codes "avg"
    ∷ codes "min"
    ∷ codes "max"
    ∷ codes "distinct"
    ∷ codes "stddev"
    ∷ codes "variance"
    ∷ []

abbrev pub filter_ops : List Text
filter_ops =
    codes "eq"
    ∷ codes "neq"
    ∷ codes "gt"
    ∷ codes "gte"
    ∷ codes "lt"
    ∷ codes "lte"
    ∷ codes "contains"
    ∷ codes "not_contains"
    ∷ codes "starts_with"
    ∷ codes "ends_with"
    ∷ codes "is_null"
    ∷ codes "not_null"
    ∷ codes "between"
    ∷ codes "is_empty"
    ∷ codes "not_empty"
    ∷ codes "in"
    ∷ codes "not_in"
    ∷ []

abbrev pub temporals : List Text
temporals =
    []
    ∷ codes "minute"
    ∷ codes "hour"
    ∷ codes "day"
    ∷ codes "week"
    ∷ codes "month"
    ∷ codes "quarter"
    ∷ codes "year"
    ∷ []

abbrev pub join_types : List Text
join_types = codes "inner" ∷ codes "left" ∷ codes "right" ∷ codes "full" ∷ [] ∷ []

abbrev pub expr_ops : List Text
expr_ops = codes "add" ∷ codes "sub" ∷ codes "mul" ∷ codes "div" ∷ codes "concat" ∷ []

unfoldable pub check_ident : Text → Text → Check
check_ident label value = guard (is_ident value) (invalid label value)

unfoldable pub check_path : Text → Text → Check
check_path label value = guard (is_path value) (invalid label value)

check_operand : Condition → Check
check_operand c =
    let op = lower c.op in
    if one_of (codes "is_null" ∷ codes "not_null" ∷ codes "is_empty" ∷ codes "not_empty" ∷ []) op
    then ok tt
    else if text_eq op (codes "between")
    then guard (length (filter_values c.value) == 2) between_values
    else if one_of (codes "in" ∷ codes "not_in" ∷ []) op
    then guard (not (is_empty (filter_values c.value))) (needs_values c.op)
    else guard (not (is_missing c.value)) (needs_value c.field)

-- The body of the loop of validateFilters behind the two recursive calls.
unfoldable pub check_condition : Text → Condition → Check
unfolding check_operand check_ident check_path
check_condition label c =
    if is_empty c.segment_id
    then (do
      check_path (label ++ codes " field") c.field
      guard (one_of filter_ops (lower c.op)) (unsupported_filter c.op)
      check_operand c)
    else check_ident (codes "segment") c.segment_id

-- validateFilters.
unfoldable mutual
  pub check_filters : Text → Filters → Check
  check_filters label nil = ok tt
  check_filters label (cons f fs) = check_filter label f >> check_filters label fs

  pub check_filter : Text → Filter → Check
  check_filter label (filter c (cons f fs) ors) = check_filters label (cons f fs)
  check_filter label (filter c nil (cons f fs)) = check_filters label (cons f fs)
  check_filter label (filter c nil nil) = check_condition label c

check_table : Text → Text → TableRef → Check
unfolding check_ident
check_table schema table t = do check_ident schema t.schema; check_ident table t.name

check_source_table : Option TableRef → Check
unfolding check_table
check_source_table none = ok tt
check_source_table (some t) = check_table (codes "schema") (codes "table") t

unfoldable pub check_join_table : Option TableRef → Check
unfolding check_table
check_join_table none = err join_table_required
check_join_table (some t) = check_table (codes "join schema") (codes "join table") t

check_join_condition : JoinCondition → Check
unfolding check_path
check_join_condition c = do
  check_path (codes "join left") c.left
  check_path (codes "join right") c.right

unless_empty : Text → Check → Check
unless_empty t check = if is_empty t then ok tt else check

unfoldable pub check_join : Join → Check
unfolding check_join_table check_join_condition check_ident unless_empty
check_join j = do
  guard (one_of join_types (lower j.type)) (unsupported_join j.type)
  check_join_table j.table
  unless_empty j.alias (check_ident (codes "join alias") j.alias)
  each check_join_condition j.conditions

unfoldable pub check_expression : Expression → Check
unfolding check_ident check_path
check_expression e = do
  check_ident (codes "expression alias") e.alias
  guard (one_of expr_ops (lower e.op)) (unsupported_expression e.op)
  check_path (codes "expression left") e.left

unfoldable pub check_aggregation : Aggregation → Check
unfolding check_ident check_path unless_empty
check_aggregation a = do
  guard (one_of aggregations (lower a.fn)) (unsupported_aggregation a.fn)
  if text_eq (lower a.fn) (codes "count")
      then ok tt
      else check_path (codes "aggregation field") a.field
  unless_empty a.alias (check_ident (codes "aggregation alias") a.alias)

unfoldable pub check_breakout : Breakout → Check
unfolding check_path
check_breakout b = do
  check_path (codes "group_by field") b.field
  guard (one_of temporals (lower b.temporal)) (unsupported_temporal b.temporal)
  guard (not (number_neg b.bin_width)) negative_width

unfoldable pub check_order : Order → Check
unfolding check_path
check_order o = do
  check_path (codes "order_by field") o.field
  guard (one_of ([] ∷ codes "asc" ∷ codes "desc" ∷ []) (lower o.dir)) (unsupported_direction o.dir)

version_known : ℤ → Bool
version_known (pos n) = n == 0 || n == 1
version_known (negsuc n) = false

table_given : Option TableRef → Bool
table_given none = false
table_given (some t) = true

source_given : Query → Bool
unfolding table_given
source_given q =
    table_given q.source.table
    || not (is_empty q.source.model_id)
    || not (is_empty q.source.question_id)
    || not (is_empty q.source.metric_id)

-- The checks of Query.Validate before, between and behind those that other modules need.
unfoldable pub validate_source : Query → Check
unfolding version_known source_given check_source_table
validate_source q = do
  guard (version_known q.version) unsupported_version
  guard (not (is_blank q.source.database_id)) database_required
  guard (source_given q) table_required
  check_source_table q.source.table

unfoldable pub validate_columns : Query → Check
validate_columns q = do
  each check_aggregation q.aggregations
  each check_breakout q.group_by
  each check_order q.order_by
  guard (not (is_neg q.limit)) negative_limit

unfoldable pub validate_body : Query → Check
unfolding validate_columns
validate_body q = do
  each check_expression q.expressions
  each (check_path (codes "field")) q.fields
  check_filters (codes "filter") q.filters
  check_filters (codes "having") q.having
  validate_columns q

-- Query.Validate.
unfoldable pub validate : Query → Check
unfolding validate_source validate_body
validate q = do validate_source q; each check_join q.joins; validate_body q
