-- ===== src/Warehouse/Source.antt =====
-- internal/app/warehouse/service.go: sourceQuestion, compile and applyWatermarkSQL, the SQL that a run
-- writes the rows of.
--
-- `compile_query` is Service.Compile, if there is one. `find_question` and `find_model` are the stores'
-- ByID.
use topbase.Prelude.{
  ℕ, ◌+◌, Bool, true, false, not, ◌&&◌, ◌||◌, List, [], ◌∷◌, ◌++◌, map, leb, if◌then◌else◌, Option,
  none, some, Result, ok, err, ◌>>=◌, ◌>>◌, length, is_empty,
}
use topbase.Text.{Text, codes, text_eq}
use topbase.Text.Decimal.{show}
use topbase.QueryIr.{Query, Condition, Filter, filter, Filters, nil, cons}
use topbase.QueryIr.Values.{ℤ, Value, str}
use topbase.QueryIr.Identifier.{quote}
use topbase.Params.Native
use topbase.Compile.Statement.{Compiled}
use topbase.Warehouse.{Error, no_query, no_compiler, native_error, Schedule, Question, Model}
use topbase.Warehouse.Target.{check_ident}

-- strings.EqualFold with a word of ASCII letters but k and s, which no other rune folds to.
abbrev fold : ℕ → ℕ
fold c = if leb b'A' c && leb c b'Z' then c + 32 else c

unfoldable pub equal_fold : Text → Text → Bool
equal_fold t word = text_eq (map fold t) word

abbrev pub grows : Schedule → Text → Bool
grows schedule watermark =
    equal_fold schedule.strategy (codes "incremental") && not (is_empty watermark)

-- SQL, its arguments and the database it is for.
abbrev pub Statement : Type 0
Statement = Text × List Value × Text

abbrev pub of_model : Model → Question
of_model m = record {
  id = m.id;
  name = m.name;
  query_type = codes "queryir";
  database_id = m.database_id;
  query_ir = m.query_ir;
  native_sql = m.native_sql;
  parameters = [];
}

abbrev pub or_first : Text → Text → Text
or_first a b = if is_empty a then b else a

unfoldable pub with_watermark : Schedule → Text → Text → List Value → Text → Result Error Statement
with_watermark schedule watermark sql args database =
    if grows schedule watermark
    then check_ident (codes "watermark") schedule.watermark_field
      >> ok (
        codes "SELECT * FROM ("
            ++ (sql
                ++ (codes ") AS _wh WHERE "
                    ++ (quote schedule.watermark_field
                        ++ (codes " > $" ++ show (length args + 1))))),
        args ++ str watermark ∷ [],
        database,
      )
    else ok (sql, args, database)

-- append(q.Filters, f).
unfoldable pub add_filter : Filters → Filter → Filters
add_filter nil f = cons f nil
add_filter (cons g gs) f = cons g (add_filter gs f)

-- The filter on the watermark.
abbrev after_watermark : Schedule → Text → Condition
after_watermark schedule watermark = record {
  field = schedule.watermark_field;
  op = codes "gt";
  value = str watermark;
  segment_id = [];
}

module _ (compile_query : Option (Query → Result Error Compiled)) where
  compiled_by : Option (Query → Result Error Compiled) → Query → Text → Result Error Statement
  compiled_by none q database = err no_compiler
  compiled_by (some compiler) q database =
      compiler q >>= λ c. ok (c.sql, c.args, or_first database q.source.database_id)

  of_query : Schedule → Text → Text → Option Query → Result Error Statement
  unfolding compiled_by
  of_query schedule watermark database none = err no_query
  of_query schedule watermark database (some q) =
      let filters =
        if grows schedule watermark
        then add_filter q.filters (filter (after_watermark schedule watermark) nil nil)
        else q.filters in
      compiled_by compile_query (record q { filters = filters }) database

  of_native : Schedule → Text → Text → Result Native.Error Native.Bound → Result Error Statement
  of_native schedule watermark database (err why) = err (native_error why)
  of_native schedule watermark database (ok (sql, args)) =
      with_watermark schedule watermark sql args database

  abbrev without_query : Option Query → Bool
  without_query none = true
  without_query (some q) = false

  -- compile; `days_before` is not used, since no parameter has a value.
  unfoldable pub compile : (ℤ → Text) → Question → Schedule → Text → Result Error Statement
  unfolding of_query of_native
  compile days_before question schedule watermark =
      let database = or_first schedule.database_id question.database_id in
      if text_eq question.query_type (codes "native")
        || (without_query question.query_ir && not (is_empty question.native_sql))
      then of_native schedule watermark database
          (Native.apply_native days_before question.native_sql question.parameters [])
      else of_query schedule watermark database question.query_ir
