-- ===== src/Warehouse/Create.antt =====
-- internal/app/warehouse/service.go: Create and sourceQuestion, with the stores of internal/adapters/appdb/w4.go,
-- whose writes succeed.
use topbase.Prelude.{
  ℕ, Bool, true, not, ◌&&◌, ◌||◌, List, [], ◌∷◌, ◌++◌, if◌then◌else◌, find, Option, none, some,
  Result, ok, err, ◌>>=◌, ◌>>◌, guard, is_empty,
}
use topbase.Text.{Text, codes, text_eq, is_blank, lower, one_of}
use topbase.Warehouse.{
  Error, names_required, source_required, confirm_required, watermark_required,
  unsupported_strategy, not_found, Schedule, Question, Model, Run, MaterializedTable, Lineage,
}
use topbase.Warehouse.Target.{check_ident, parse_target}
use topbase.Warehouse.Cron.{parse_cron}
use topbase.Warehouse.Source.{of_model}

-- What the service works on: its stores, and `running`.
pub record Stores : Type 0 where
  pub schedules : List Schedule
  pub questions : List Question
  pub models : List Model
  pub runs : List Run
  pub tables : List MaterializedTable
  pub edges : List Lineage
  pub active : List Text

abbrev pub or_not_found {ℓ} : {A : Type ℓ} → Text → Option A → Result Error A
or_not_found id none = err (not_found id)
or_not_found id (some a) = ok a

unfoldable pub schedule_by_id : Text → List Schedule → Result Error Schedule
schedule_by_id id items = or_not_found id (find (λ s. text_eq s.id id) items)

unfoldable pub question_by_id : Text → List Question → Result Error Question
question_by_id id items = or_not_found id (find (λ q. text_eq q.id id) items)

unfoldable pub model_by_id : Text → List Model → Result Error Model
model_by_id id items = or_not_found id (find (λ m. text_eq m.id id) items)

-- sourceQuestion.
unfoldable pub source_question : Stores → Schedule → Result Error Question
source_question s schedule =
    if not (is_empty schedule.model_id)
    then (model_by_id schedule.model_id s.models >>= λ m. ok (of_model m))
    else if is_empty schedule.question_id
    then err source_required
    else question_by_id schedule.question_id s.questions

-- An id that is "" is not looked up.
abbrev unless_blank : Text → Result Error (Unit {0}) → Result Error (Unit {0})
unless_blank id check = if is_empty id then ok tt else check

abbrev found {ℓ} : {A : Type ℓ} → Result Error A → Result Error (Unit {0})
found r = r >>= λ a. ok tt

-- The switch over the strategy.
unfoldable pub check_strategy : Text → Text → Result Error (Unit {0})
check_strategy strategy watermark_field =
    if one_of (codes "replace" ∷ codes "truncate_insert" ∷ codes "create_only" ∷ [])
      (lower strategy)
    then ok tt
    else if text_eq (lower strategy) (codes "incremental")
    then guard (not (is_blank watermark_field)) watermark_required
      >> check_ident (codes "watermark") watermark_field
    else err (unsupported_strategy strategy)

abbrev pub or_value : Text → Text → Text
or_value t fallback = if is_empty t then fallback else t

-- The database of the question, where it was found.
abbrev database_of : Result Error Question → Text
database_of (err why) = []
database_of (ok q) = q.database_id

abbrev pub may_write : Text → Bool → Bool
may_write schema confirmed = text_eq schema (codes "warehouse") || confirmed

-- The schedule that is stored, with the id, the user and the time of the call.
unfoldable pub completed : Stores → Text → Text → ℕ → Schedule → Schedule
completed s id user now input = record input {
  id = id;
  database_id =
      if is_empty input.database_id && not (is_empty input.question_id)
      then database_of (question_by_id input.question_id s.questions)
      else input.database_id;
  timezone = or_value input.timezone (codes "Asia/Shanghai");
  strategy = or_value input.strategy (codes "replace");
  enabled = true;
  created_by = user;
  created_at = now;
}

unfoldable pub check_input : Stores → Schedule → Result Error (Unit {0})
check_input s input =
    guard (not (is_blank input.name || is_blank input.cron)) names_required
    >> (guard (not (is_blank input.question_id && is_blank input.model_id)) source_required
        >> (found (parse_cron input.cron)
            >> ((parse_target input.materialize_to >>= λ (schema, table).
                  guard (may_write schema input.confirm_source_write) confirm_required)
                >> (unless_blank input.question_id
                      (found (question_by_id input.question_id s.questions))
                    >> (unless_blank input.model_id (found (model_by_id input.model_id s.models))
                        >> check_strategy (or_value input.strategy (codes "replace"))
                            input.watermark_field)))))

-- Create.
unfoldable pub create : Stores → Text → Text → ℕ → Schedule → Result Error (Schedule × Stores)
create s id user now input = check_input s input >>= λ passed.
    let item = completed s id user now input in
    ok (item, record s { schedules = s.schedules ++ item ∷ [] })
