-- ===== src/Warehouse/Tests.antt =====
-- internal/app/warehouse: schedules and runs on concrete stores.
use topbase.Prelude.{
  ◌≡◌, refl, sym, subst, inl, inr, if◌then◌else◌, true, false, [], ◌∷◌, none, some, Result, ok, err,
}
use topbase.Text.{Text, codes, text_eq}
use topbase.QueryIr.Values.{ℤ}
use topbase.QueryIr.Identifier.{is_ident}
use topbase.Warehouse.{
  Error, no_writer, Schedule, Question, Run, succeeded, MaterializeSpec, MaterializeResult,
}
use topbase.Warehouse.Target.{parse_target}
use topbase.Warehouse.Cron.{Local, due}
use topbase.Warehouse.Propose.{parse_hour, slug}
use topbase.Warehouse.Create.{Stores, schedule_by_id, check_input}
use topbase.Warehouse.Running.{Turn, run_schedule}
use topbase.Warehouse.Confirmed.{Allowed, run_schedule-Allowed}
use topbase.Warehouse.Settled.{IsSettled, run_schedule-IsSettled}

target_orders : parse_target (codes " mart.orders ") ≡ ok (codes "mart", codes "wh_orders")
unfolding parse_target topbase.Text.trim_space topbase.Warehouse.Target.checked is_ident
    topbase.Text.Parts.split_last topbase.Warehouse.Target.prefixed topbase.Text.has_prefix
target_orders = refl

abbrev nine : Local
nine = record { year = 2026; year_day = 10; month = 1; day = 10; weekday = 6; hour = 9; minute = 0 }

due_at_nine : due (codes "0 9 * * *") nine none ≡ true
unfolding due topbase.Warehouse.Cron.parse_cron topbase.Text.Parts.fields topbase.Text.trim_space
    topbase.Warehouse.Cron.matches topbase.Warehouse.Cron.match_field topbase.Text.text_eq
    topbase.Text.split topbase.Params.Dates.atoi topbase.Text.Parts.digits
    topbase.Text.Decimal.read_from
due_at_nine = refl

due_once : due (codes "0 9 * * *") nine (some nine) ≡ false
unfolding due topbase.Warehouse.Cron.parse_cron topbase.Text.Parts.fields topbase.Text.trim_space
    topbase.Warehouse.Cron.same_minute
due_once = refl

hour_in_words : parse_hour (codes "每天 8 点") ≡ some 8
unfolding parse_hour topbase.Warehouse.Propose.find_hour topbase.Warehouse.Propose.hour_here
    topbase.Warehouse.Propose.o_clock topbase.Text.has_prefix topbase.Text.Decimal.read_from
hour_in_words = refl

slug_of_name : slug (λ c. false) (codes "Daily Orders-2026") ≡ codes "daily_orders_2026"
unfolding slug topbase.Warehouse.Propose.trim_low topbase.Warehouse.Propose.trim_low_left
    topbase.Warehouse.Propose.slug_runes topbase.Text.lower
slug_of_name = refl

abbrev sales : Question
sales = record {
  id = codes "q1";
  name = codes "sales";
  query_type = codes "native";
  database_id = codes "db";
  query_ir = none;
  native_sql = codes "SELECT 1";
  parameters = [];
}

abbrev nightly : Schedule
nightly = record {
  id = codes "s1";
  name = codes "nightly";
  question_id = codes "q1";
  model_id = [];
  database_id = codes "db";
  cron = codes "0 2 * * *";
  timezone = codes "Asia/Shanghai";
  materialize_to = codes "sales";
  strategy = codes "replace";
  watermark_field = [];
  confirm_source_write = false;
  enabled = true;
  last_run_at = none;
  created_by = codes "u1";
  created_at = 1;
}

abbrev shop : Stores
shop = record {
  schedules = nightly ∷ [];
  questions = sales ∷ [];
  models = [];
  runs = [];
  tables = [];
  edges = [];
  active = [];
}

nightly_is_accepted : check_input shop nightly ≡ ok tt
unfolding check_input topbase.Text.is_blank topbase.Warehouse.Cron.parse_cron
    topbase.Text.Parts.fields parse_target topbase.Warehouse.Target.checked is_ident
    topbase.Text.Parts.split_last topbase.Warehouse.Target.prefixed topbase.Text.has_prefix
    topbase.Text.text_eq topbase.Warehouse.Create.question_by_id
    topbase.Warehouse.Create.check_strategy topbase.Text.one_of topbase.Text.lower
nightly_is_accepted = refl

abbrev first_turn : Turn
first_turn = record { run_id = codes "r1"; table_id = codes "m1"; started_at = 5; finished_at = 6 }

abbrev no_days : ℤ → Text
no_days n = []

abbrev counts : MaterializeSpec → Result Error MaterializeResult
counts spec = ok (record { row_count = 3; watermark = [] })

-- A writer that counts only in the schema "warehouse".
abbrev counts_at_home : MaterializeSpec → Result Error MaterializeResult
counts_at_home spec = if text_eq spec.schema (codes "warehouse") then counts spec else err no_writer

abbrev Confirms : Result Error Schedule → Type 0
Confirms (ok schedule) = schedule.confirm_source_write ≡ true
Confirms (err why) = ⊥

nightly_writes_at_home :
    (spec : MaterializeSpec) → Allowed shop (codes "s1") spec → counts spec ≡ counts_at_home spec
unfolding schedule_by_id text_eq
nightly_writes_at_home spec (schedule, there, named, target, inl home) = rw home refl
nightly_writes_at_home spec (schedule, there, named, target, inr sure) =
    cc (subst Confirms (sym there) sure)

run_schedule-Allowed_example :
    run_schedule no_days none (some counts) first_turn (codes "s1") shop
    ≡ run_schedule no_days none (some counts_at_home) first_turn (codes "s1") shop
run_schedule-Allowed_example =
    run_schedule-Allowed no_days none counts counts_at_home first_turn (codes "s1") shop
      nightly_writes_at_home

run_schedule-IsSettled_example :
    IsSettled shop (run_schedule no_days none (some counts) first_turn (codes "s1") shop)
run_schedule-IsSettled_example =
    run_schedule-IsSettled no_days none (some counts) first_turn (codes "s1") shop tt
