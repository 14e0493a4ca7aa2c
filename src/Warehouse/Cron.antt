-- ===== src/Warehouse/Cron.antt =====
-- internal/app/warehouse/cron.go.
--
-- `local` is a time in a zone, as the package time computes it from the moment and the zone's name.
use topbase.Prelude.{
  ℕ, Bool, true, false, ◌&&◌, List, [], ◌∷◌, ◌==◌, if◌then◌else◌, any, Option, none, some, Result,
  ok, err,
}
use topbase.Text.{Text, codes, text_eq, split, trim_space}
use topbase.Text.Parts.{fields}
use topbase.QueryIr.Values.{ℤ, pos, negsuc}
use topbase.Params.Dates.{atoi}
use topbase.Warehouse.{Error, cron_fields}

pub record CronExpr : Type 0 where
  pub minute : Text
  pub hour : Text
  pub day : Text
  pub month : Text
  pub weekday : Text

abbrev five : List Text → Result Error CronExpr
five (a ∷ b ∷ c ∷ d ∷ e ∷ []) =
    ok (record { minute = a; hour = b; day = c; month = d; weekday = e })
five parts = err cron_fields

unfoldable pub parse_cron : Text → Result Error CronExpr
parse_cron expr = five (fields (trim_space expr))

abbrev is_number : ℕ → Option ℤ → Bool
is_number value none = false
is_number value (some (negsuc n)) = false
is_number value (some (pos n)) = n == value

unfoldable pub match_field : Text → ℕ → Bool
match_field field value =
    if text_eq field (codes "*")
    then true
    else any (λ part. is_number value (atoi part)) (split b',' field)

-- What Due reads of a time in a zone.
pub record Local : Type 0 where
  pub year : ℕ
  pub year_day : ℕ
  pub month : ℕ
  pub day : ℕ
  pub weekday : ℕ
  pub hour : ℕ
  pub minute : ℕ

-- The same minute.
unfoldable pub same_minute : Local → Local → Bool
same_minute a b =
    a.year == b.year && a.year_day == b.year_day && a.hour == b.hour && a.minute == b.minute

abbrev ran_in : Option Local → Local → Bool
ran_in none now = false
ran_in (some last) now = same_minute last now

unfoldable pub matches : CronExpr → Local → Bool
matches c now =
    match_field c.minute now.minute
    && match_field c.hour now.hour
    && match_field c.day now.day
    && match_field c.month now.month
    && match_field c.weekday now.weekday

-- Due, with the time now and that of the last run in the zone.
unfoldable pub due : Text → Local → Option Local → Bool
due expr now last = elim (parse_cron expr) [
  | err why ↦ false
  | ok c ↦ if ran_in last now then false else matches c now
]
