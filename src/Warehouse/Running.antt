-- ===== src/Warehouse/Running.antt =====
-- internal/app/warehouse/service.go: Run and fail, with the stores of internal/adapters/appdb/w4.go, whose
-- writes succeed.
--
-- `writer` is Service.Writer, if there is one, and `compiler` Service.Compile. A `Turn` holds the ids
-- and the times that the call draws.
use topbase.Prelude.{
  ℕ, Bool, not, ◌&&◌, List, [], ◌∷◌, ◌++◌, map, keep, find, if◌then◌else◌, Option, none, some,
  Result, ok, err, ◌>>=◌, ◌>>◌, guard, is_empty,
}
use topbase.Text.{Text, codes, text_eq, one_of}
use topbase.QueryIr.{Query}
use topbase.QueryIr.Values.{ℤ}
use topbase.Compile.Statement.{Compiled}
use topbase.Warehouse.{
  Error, already_running, confirm_required, no_writer, Schedule, Question, Run, running, succeeded,
  failed, MaterializedTable, from_question, from_schedule, MaterializeSpec, MaterializeResult,
}
use topbase.Warehouse.Target.{parse_target}
use topbase.Warehouse.Source.{Statement, compile}
use topbase.Warehouse.Create.{Stores, schedule_by_id, source_question, may_write}

pub record Turn : Type 0 where
  pub run_id : Text
  pub table_id : Text
  pub started_at : ℕ
  pub finished_at : ℕ

-- Runs.Create and Runs.Update.
abbrev pub add_run : Run → Stores → Stores
add_run run s = record s { runs = s.runs ++ run ∷ [] }

unfoldable pub put_run : Run → List Run → List Run
put_run run runs = map (λ r. if text_eq r.id run.id then run else r) runs

-- Schedules.Update: all fields but those of the creation.
unfoldable pub put_schedule : Schedule → List Schedule → List Schedule
put_schedule item items =
    map
      (λ s.
        if text_eq s.id item.id
        then record item { created_by = s.created_by; created_at = s.created_at }
        else s)
      items

-- Tables.ByTarget.
abbrev pub same_target : Text → Text → Text → MaterializedTable → Bool
same_target database schema name t =
    text_eq t.database_id database && text_eq t.schema schema && text_eq t.name name

-- Tables.Upsert, which keeps the id of a table that is there.
unfoldable pub upsert : MaterializedTable → List MaterializedTable → List MaterializedTable
upsert t [] = t ∷ []
upsert t (u ∷ us) =
    let rest = upsert t us in
    if same_target t.database_id t.schema t.name u then record t { id = u.id } ∷ us else u ∷ rest

-- What a run knows before it is recorded.
pub record Plan : Type 0 where
  pub schedule : Schedule
  pub question : Question
  pub schema : Text
  pub table : Text
  pub statement : Result Error Statement

-- The watermark, and the schedule with the database of the table that was there.
unfoldable pub resumed : Schedule → Option MaterializedTable → Text × Schedule
resumed schedule none = ([], schedule)
resumed schedule (some t) = (
  t.watermark,
  record schedule {
    database_id = if is_empty schedule.database_id then t.database_id else schedule.database_id;
  },
)

-- What a call returns: no run, or a run with the error that ended it.
pub data Outcome : Type 0 where
  refused : Error → Outcome
  ended : Run → Option Error → Outcome

abbrev sql_of : Result Error Statement → Text
sql_of (err why) = []
sql_of (ok (sql, args, database)) = sql

-- The run that is stored first: "running".
unfoldable pub begun : Turn → Plan → Run
begun turn p = record {
  id = turn.run_id;
  schedule_id = p.schedule.id;
  status = running;
  sql_compiled = sql_of p.statement;
  row_count = 0;
  error = none;
  started_at = turn.started_at;
  finished_at = none;
}

abbrev pub ran : Turn → Schedule → Schedule
ran turn schedule = record schedule { last_run_at = some turn.finished_at }

-- fail.
unfoldable pub fail : Turn → Run → Schedule → Error → Stores → Outcome × Stores
fail turn run schedule why s =
    let over = record run {
      status = failed;
      error = some why;
      finished_at = some turn.finished_at;
    } in
    (
      ended over (some why),
      record s {
        runs = put_run over s.runs;
        schedules = put_schedule (ran turn schedule) s.schedules;
      },
    )

abbrev pub dotted : Text → Text → Text
dotted schema table = schema ++ (codes "." ++ table)

-- The table that a run has written.
unfoldable pub written : Turn → Plan → Text → MaterializeResult → MaterializedTable
written turn p database result = record {
  id = turn.table_id;
  database_id = database;
  schema = p.schema;
  name = p.table;
  schedule_id = p.schedule.id;
  question_id = p.question.id;
  last_run_at = turn.finished_at;
  row_count = result.row_count;
  watermark = result.watermark;
}

-- What Run does when the writer has succeeded.
unfoldable pub succeed : Turn → Run → Plan → Text → MaterializeResult → Stores → Outcome × Stores
succeed turn run p database result s =
    let over = record run {
      status = succeeded;
      row_count = result.row_count;
      finished_at = some turn.finished_at;
    } in
    (
      ended over none,
      record s {
        runs = put_run over s.runs;
        schedules = put_schedule (ran turn p.schedule) s.schedules;
        tables = upsert (written turn p database result) s.tables;
        edges =
            s.edges
            ++ from_question p.question.id (dotted p.schema p.table)
              ∷ from_schedule p.schedule.id (dotted p.schema p.table)
              ∷ [];
      },
    )

unfoldable pub spec_of : Plan → Statement → MaterializeSpec
spec_of p (sql, args, database) = record {
  database_id = database;
  schema = p.schema;
  table = p.table;
  strategy = p.schedule.strategy;
  sql = sql;
  args = args;
  watermark_field = p.schedule.watermark_field;
}

-- The call of the writer and what follows it.
unfoldable pub write :
    Option (MaterializeSpec → Result Error MaterializeResult)
    → Turn
    → Run
    → Plan
    → Result Error Statement
    → Stores
    → Outcome × Stores
write w turn run p (err why) s = fail turn run p.schedule why s
write none turn run p (ok statement) s = fail turn run p.schedule no_writer s
write (some w) turn run p (ok statement) s = elim (w (spec_of p statement)) [
  | err why ↦ fail turn run p.schedule why s
  | ok result ↦ succeed turn run p statement.2 result s
]

abbrev pub enter : Text → Stores → Stores
enter id s = record s { active = id ∷ s.active }

-- running.Delete.
abbrev pub leave : Text → Outcome × Stores → Outcome × Stores
leave id (out, s) = (out, record s { active = keep (λ other. not (text_eq id other)) s.active })

module _ (days_before : ℤ → Text) (compiler : Option (Query → Result Error Compiled)) where
  unfoldable pub plan_for : Stores → Schedule → Question → Text × Text → Plan
  plan_for s schedule question (schema, table) =
      let (watermark, item) =
        resumed schedule (find (same_target schedule.database_id schema table) s.tables) in
      record {
        schedule = item;
        question = question;
        schema = schema;
        table = table;
        statement = compile compiler days_before question item watermark;
      }

  -- The checks of Run, from the last one to the first.
  abbrev pub confirmed : Stores → Schedule → Question → Text × Text → Result Error Plan
  confirmed s schedule question target =
      guard (may_write target.0 schedule.confirm_source_write) confirm_required
      >> ok (plan_for s schedule question target)

  abbrev pub targeted : Stores → Schedule → Question → Result Error Plan
  targeted s schedule question =
      parse_target schedule.materialize_to >>= confirmed s schedule question

  abbrev pub sourced : Stores → Schedule → Result Error Plan
  sourced s schedule = source_question s schedule >>= targeted s schedule

  unfoldable pub plan : Stores → Text → Result Error Plan
  plan s id = schedule_by_id id s.schedules >>= sourced s

module _ (days_before : ℤ → Text) (compiler : Option (Query → Result Error Compiled))
    (writer : Option (MaterializeSpec → Result Error MaterializeResult)) where
  unfoldable pub run_body : Turn → Text → Stores → Outcome × Stores
  run_body turn id s = elim (plan days_before compiler s id) [
    | err why ↦ (refused why, s)
    | ok p ↦ write writer turn (begun turn p) p p.statement (add_run (begun turn p) s)
  ]

  -- Run.
  unfoldable pub run_schedule : Turn → Text → Stores → Outcome × Stores
  run_schedule turn id s =
      if one_of s.active id
      then (refused already_running, s)
      else leave id (run_body turn id (enter id s))
