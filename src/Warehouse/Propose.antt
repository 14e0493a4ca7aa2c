-- ===== src/Warehouse/Propose.antt =====
-- internal/app/warehouse/propose.go: the schedule proposed for a question and a description.
--
-- `other_digit` is unicode.IsDigit beyond ASCII.
use mathlib.Core.List.{reverse}
use topbase.Prelude.{
  ℕ, Bool, true, false, ◌&&◌, ◌||◌, [], ◌∷◌, ◌++◌, leb, ltb, ◌==◌, if◌then◌else◌, Option, none,
  some, is_empty,
}
use topbase.Text.{Text, codes, contains, has_prefix, lower, trim_space}
use topbase.Text.Parts.{is_digit}
use topbase.Text.Decimal.{show, read_from}
use topbase.Warehouse.{Question}

pub record ScheduleProposal : Type 0 where
  pub name : Text
  pub question_id : Text
  pub cron : Text
  pub timezone : Text
  pub materialize_to : Text
  pub strategy : Text
  pub watermark_field : Text
  pub requires_confirm : Bool
  pub rationale : Text

-- `\s*点`.
abbrev blank : ℕ → Bool
blank c = c == 9 || c == 10 || c == 12 || c == 13 || c == 32

unfoldable pub o_clock : Text → Bool
o_clock [] = false
o_clock (c ∷ t) = let rest = o_clock t in if blank c then rest else has_prefix (codes "点") (c ∷ t)

-- hourPattern at the start of a text: the digits of its group.
unfoldable pub hour_here : Text → Option Text
hour_here [] = none
hour_here (c ∷ []) = none
hour_here (c ∷ d ∷ t) =
    if is_digit c && is_digit d
    then (if o_clock t then some (c ∷ d ∷ []) else none)
    else if is_digit c && o_clock (d ∷ t)
    then some (c ∷ [])
    else none

-- hourPattern.FindStringSubmatch.
unfoldable pub find_hour : Text → Option Text
find_hour [] = none
find_hour (c ∷ t) =
    let later = find_hour t in elim (hour_here (c ∷ t)) [ some digits ↦ some digits | none ↦ later ]

-- parseHour, where -1 is none.
abbrev up_to_23 : ℕ → Option ℕ
up_to_23 n = if leb n 23 then some n else none

abbrev hour_of : Option Text → Option ℕ
hour_of none = none
hour_of (some digits) = up_to_23 (read_from 0 digits)

unfoldable pub parse_hour : Text → Option ℕ
parse_hour message = hour_of (find_hour message)

unfoldable pub daily : Option ℕ → Text × Text
daily none = (codes "0 9 * * *", codes "默认每天 09:00（Asia/Shanghai）写入数仓。")
daily (some hour) = (
  codes "0 " ++ (show hour ++ codes " * * *"),
  codes "按描述改为每天 " ++ (show hour ++ codes ":00 运行。"),
)

-- The cron expression and the rationale for a message.
unfoldable pub cron_for : Text → Text × Text
cron_for msg =
    if contains (codes "每小时") msg
    then (codes "0 * * * *", codes "按描述改为每小时整点运行。")
    else if contains (codes "每周") msg
    then (codes "0 9 * * 1", codes "按描述改为每周一 09:00 运行。")
    else daily (parse_hour msg)

-- strings.Trim of underscores.
unfoldable pub trim_low_left : Text → Text
trim_low_left [] = []
trim_low_left (c ∷ t) = let rest = trim_low_left t in if c == b'_' then rest else c ∷ t

unfoldable pub trim_low : Text → Text
trim_low t = reverse (trim_low_left (reverse (trim_low_left t)))

module _ (other_digit : ℕ → Bool) where
  abbrev unicode_digit : ℕ → Bool
  unicode_digit c = if ltb c 128 then is_digit c else other_digit c

  abbrev ascii_letter : ℕ → Bool
  ascii_letter c = (leb b'A' c && leb c b'Z') || (leb b'a' c && leb c b'z')

  -- The loop of slug.
  unfoldable pub slug_runes : Text → Text
  slug_runes [] = []
  slug_runes (c ∷ t) =
      let rest = slug_runes t in
      if ascii_letter c || unicode_digit c
      then c ∷ rest
      else if c == b' ' || c == b'-' || c == b'_'
      then b'_' ∷ rest
      else rest

  unfoldable pub slug : Text → Text
  slug name =
      let out = trim_low (slug_runes (lower name)) in if is_empty out then codes "result" else out

  unfoldable pub propose : Question → Text → ScheduleProposal
  propose question message =
      let msg = trim_space message in
      let (cron, rationale) = cron_for msg in
      let table = slug question.name in
      let growing = contains (codes "增量") msg in
      record {
        name = question.name ++ codes " 数仓";
        question_id = question.id;
        cron = cron;
        timezone = codes "Asia/Shanghai";
        materialize_to = codes "warehouse.wh_" ++ (if is_empty table then codes "query" else table);
        strategy = if growing then codes "incremental" else codes "replace";
        watermark_field = if growing then codes "created_at" else [];
        requires_confirm = true;
        rationale = if growing then rationale ++ codes " 使用 created_at 增量写入。" else rationale;
      }
