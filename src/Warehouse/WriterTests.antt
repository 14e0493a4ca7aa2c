-- ===== src/Warehouse/WriterTests.antt =====
-- internal/adapters/warehouse.go: Materialize on a concrete database, whose rows are numbers.
use topbase.Prelude.{
  ℕ, ◌≡◌, refl, sym, ap, ◌&&◌, Bool, List, [], ◌∷◌, if◌then◌else◌, Option, none, some, Result, ok,
  ok-injective, length,
}
use topbase.Text.{
  Text, codes, text_eq, lower, lower_rune, trim_space, trim_left, is_space, contains, has_prefix,
}
use topbase.QueryIr.Values.{Value}
use topbase.QueryIr.Identifier.{is_ident}
use topbase.Warehouse.{Error, MaterializeSpec, MaterializeResult}
use topbase.Warehouse.Writer.{
  Statement, create_schema, drop_if_exists, create_as, insert_from, drop, temporary, materialize,
  check_spec, check_source, loaded, run_all, run, moved, statements, committed, watermark_of,
}
use topbase.Warehouse.Strategies.{Tables, set_table, rows_or_none, effect, kept_rows, is_there}
use topbase.Warehouse.Materialized.{materialize-kept_rows}

abbrev Db : Type 0
Db = Text → Tables ℕ

abbrev postgres_only : Text → Result Error Text
postgres_only id = ok (codes "postgres")

abbrev two_rows : Db → Text → List Value → List ℕ
two_rows db sql args = 1 ∷ 2 ∷ []

exec : Text → Statement → Db → Result Error Db
exec schema st db =
    ok (λ other. if text_eq other schema then effect (two_rows db) st (db other) else db other)

abbrev exists : Text → Text → Db → Bool
exists schema table db = is_there (db schema table)

abbrev count : Text → Text → Db → Result Error ℕ
count schema table db = ok (length (rows_or_none (db schema table)))

abbrev max_of : Text → Text → Text → Db → Option Text
max_of schema table field db = none

abbrev commit : Db → Result Error (Unit {0})
commit db = ok tt

abbrev rows : Text → Db → Tables ℕ
rows schema db = db schema

abbrev growing : MaterializeSpec
growing = record {
  database_id = codes "db";
  schema = codes "warehouse";
  table = codes "t";
  strategy = codes "incremental";
  sql = codes "SELECT 1";
  args = [];
  watermark_field = [];
}

abbrev start : Db
start schema t =
    if text_eq schema (codes "warehouse") && text_eq t (codes "t") then some (7 ∷ []) else none

acts :
    (schema other : Text) (st : Statement) (db next : Db)
    → exec schema st db ≡ ok next
    → rows other next
      ≡ (if text_eq other schema then effect (two_rows db) st (rows other db) else rows other db)
unfolding exec
acts schema other st db next e = ap (λ d. d other) (sym (ok-injective e))

sees : (schema table : Text) (db : Db) → exists schema table db ≡ is_there (rows schema db table)
sees schema table db = refl

-- The database behind some statements.
abbrev behind : List Statement → Db → Db
behind [] db = db
behind (st ∷ sts) db = behind sts (λ other.
    if text_eq other (codes "warehouse") then effect (two_rows db) st (db other) else db other)

abbrev grown : MaterializeResult × Db
grown = (
  record { row_count = 3; watermark = [] },
  behind
      (create_schema
        ∷ drop_if_exists (codes "t__new")
        ∷ create_as (codes "t__new") (codes "SELECT 1") []
        ∷ insert_from (codes "t") (codes "t__new")
        ∷ drop (codes "t__new")
        ∷ [])
      start,
)

grow : materialize postgres_only exec exists count max_of commit growing start ≡ ok grown
unfolding materialize check_spec is_ident check_source has_prefix lower trim_space contains text_eq
    loaded run_all run exec moved statements effect committed is_space lower_rune trim_left
    watermark_of
grow = refl

materialize-kept_rows_example :
    (source : Db) × ((other : Text)
      → rows other source ≡ (
          if text_eq other growing.schema
          then set_table (temporary growing.table) none (rows other start)
          else rows other start))
    × (rows growing.schema grown.1 growing.table
        ≡ some (
            kept_rows
              (lower growing.strategy)
              (rows growing.schema start growing.table)
              (two_rows source (trim_space growing.sql) growing.args)))
    × (rows growing.schema grown.1 (temporary growing.table) ≡ none)
materialize-kept_rows_example =
    materialize-kept_rows postgres_only exec exists count max_of commit rows two_rows acts sees
      growing start grown grow
