-- ===== src/Warehouse/Writer.antt =====
-- internal/adapters/warehouse.go: Materialize.
--
-- The database is a parameter: `Db` is its state inside the transaction, `exec` runs a statement
-- in a schema, whose text is `sql_text` and whose arguments are `args_of`, `exists` is the query of information_schema, `count` and `max_of` are
-- the last two queries, and `commit` gives the error of a commit that fails. `engine` is the engine of a
-- database that there is a connection to. A transaction that ends with an error leaves the
-- database as it was.
use topbase.Prelude.{
  ℕ, Bool, not, ◌||◌, List, [], ◌∷◌, ◌++◌, if◌then◌else◌, Option, none, some, Result, ok, ◌>>=◌,
  ◌>>◌, guard, is_empty,
}
use topbase.Text.{Text, codes, text_eq, lower, contains, has_prefix, trim_space}
use topbase.QueryIr.Values.{Value}
use topbase.QueryIr.Identifier.{quote}
use topbase.Warehouse.{
  Error, not_select, many_statements, other_engine, MaterializeSpec, MaterializeResult,
}
use topbase.Warehouse.Target.{check_ident}

-- The statements that Materialize runs in a schema, by the names of their tables.
pub data Statement : Type 0 where
  create_schema : Statement
  drop_if_exists drop truncate : Text → Statement
  create_as : Text → Text → List Value → Statement
  insert_from rename : Text → Text → Statement

abbrev pub qualified : Text → Text → Text
qualified schema table = quote schema ++ (codes "." ++ quote table)

-- Their texts.
unfoldable pub sql_text : Text → Statement → Text
sql_text schema create_schema = codes "CREATE SCHEMA IF NOT EXISTS " ++ quote schema
sql_text schema (drop_if_exists t) = codes "DROP TABLE IF EXISTS " ++ qualified schema t
sql_text schema (drop t) = codes "DROP TABLE " ++ qualified schema t
sql_text schema (truncate t) = codes "TRUNCATE TABLE " ++ qualified schema t
sql_text schema (create_as t sql args) =
    codes "CREATE TABLE " ++ (qualified schema t ++ (codes " AS " ++ sql))
sql_text schema (insert_from t u) =
    codes "INSERT INTO " ++ (qualified schema t ++ (codes " SELECT * FROM " ++ qualified schema u))
sql_text schema (rename t u) =
    codes "ALTER TABLE " ++ (qualified schema t ++ (codes " RENAME TO " ++ quote u))

unfoldable pub args_of : Statement → List Value
args_of (create_as t sql args) = args
args_of st = []

-- The switch over the strategy, by whether the target is there.
unfoldable pub statements : Text → Bool → Text → Text → List Statement
statements strategy there table tmp =
    let replaced = drop_if_exists table ∷ rename tmp table ∷ [] in
    let renamed = rename tmp table ∷ [] in
    if text_eq strategy (codes "create_only")
    then (if there then drop tmp ∷ [] else renamed)
    else if text_eq strategy (codes "truncate_insert")
    then (if there then truncate table ∷ insert_from table tmp ∷ drop tmp ∷ [] else renamed)
    else if text_eq strategy (codes "incremental")
    then (if there then insert_from table tmp ∷ drop tmp ∷ [] else renamed)
    else replaced

-- What is checked before the connection is opened.
unfoldable pub check_source : Text → Result Error (Unit {0})
check_source sql =
    guard (has_prefix (codes "select") (lower sql) || has_prefix (codes "with") (lower sql))
      not_select
    >> guard (not (contains (codes ";") sql)) many_statements

abbrev pub temporary : Text → Text
temporary table = table ++ codes "__new"

unfoldable pub check_spec : MaterializeSpec → Result Error (Unit {0})
check_spec spec =
    check_ident (codes "schema") spec.schema
    >> (check_ident (codes "table") spec.table
        >> (check_ident (codes "temp table") (temporary spec.table)
            >> check_source (trim_space spec.sql)))

abbrev pub or_none : Option Text → Text
or_none none = []
or_none (some t) = t

module _ {Db : Type 0} (engine : Text → Result Error Text)
    (exec : Text → Statement → Db → Result Error Db) (exists : Text → Text → Db → Bool)
    (count : Text → Text → Db → Result Error ℕ) (max_of : Text → Text → Text → Db → Option Text)
    (commit : Db → Result Error (Unit {0})) where
  unfoldable pub run : Text → Statement → Db → Result Error Db
  run schema st db = exec schema st db

  unfoldable pub run_all : Text → List Statement → Db → Result Error Db
  run_all schema [] db = ok db
  run_all schema (st ∷ sts) db = run schema st db >>= λ next. run_all schema sts next

  unfoldable pub watermark_of : MaterializeSpec → Db → Result Error Text
  watermark_of spec db =
      if is_empty spec.watermark_field
      then ok []
      else check_ident (codes "watermark") spec.watermark_field
        >> ok (or_none (max_of spec.schema spec.table spec.watermark_field db))

  -- The end of the transaction.
  unfoldable pub committed : MaterializeSpec → Db → Result Error (MaterializeResult × Db)
  committed spec db = count spec.schema spec.table db >>= λ n. watermark_of spec db >>= λ watermark.
      commit db >> ok (record { row_count = n; watermark = watermark }, db)

  -- The rows of the source, in the temporary table.
  unfoldable pub loaded : MaterializeSpec → Db → Result Error Db
  loaded spec db =
      run_all spec.schema
        (create_schema
          ∷ drop_if_exists (temporary spec.table)
          ∷ create_as (temporary spec.table) (trim_space spec.sql) spec.args
          ∷ [])
        db

  -- The switch, on the database that has the temporary table.
  unfoldable pub moved : MaterializeSpec → Db → Result Error Db
  moved spec db =
      run_all spec.schema
        (statements (lower spec.strategy) (exists spec.schema spec.table db) spec.table
          (temporary spec.table))
        db

  unfoldable pub materialize : MaterializeSpec → Db → Result Error (MaterializeResult × Db)
  materialize spec db =
      check_spec spec
      >> (engine spec.database_id >>= λ name.
          guard (text_eq name (codes "postgres")) (other_engine name)
          >> (loaded spec db >>= λ full. moved spec full >>= committed spec))
