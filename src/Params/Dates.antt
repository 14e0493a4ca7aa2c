-- ===== src/Params/Dates.antt =====
-- internal/core/queryir/apply.go: parseDateValue and asInt, with strconv.Atoi.
--
-- `days_before n` is now.AddDate(0, 0, -n).Format("2006-01-02"), which the package time computes.
use topbase.Prelude.{
  ℕ, ◌-◌, ◌&&◌, [], ◌∷◌, leb, ltb, ◌==◌, if◌then◌else◌, Option, none, some, Result, ok, err,
}
use topbase.Text.{Text, codes, text_eq, has_prefix}
use topbase.Text.Parts.{trim_prefix, has_suffix, trim_suffix, digits}
use topbase.Text.Decimal.{read_from}
use topbase.QueryIr.Values.{ℤ, pos, negsuc, Value, str, num, obj, Entries, end, entry}

pub data DateError : Type 0 where
  invalid_relative_date unsupported_date_value : DateError

-- -n.
abbrev pub negated : ℕ → ℤ
negated n = if n == 0 then pos 0 else negsuc (n - 1)

-- strconv.Atoi, whose int has 64 bits.
unsigned : Text → (ℕ → Option ℤ) → Option ℤ
unsigned t k = if digits t then k (read_from 0 t) else none

unfoldable pub atoi : Text → Option ℤ
unfolding unsigned
atoi [] = none
atoi (c ∷ t) =
    if c == b'-'
    then unsigned t (λ n. if leb n 9223372036854775808 then some (negated n) else none)
    else if c == b'+'
    then unsigned t (λ n. if ltb n 9223372036854775808 then some (pos n) else none)
    else unsigned (c ∷ t) (λ n. if ltb n 9223372036854775808 then some (pos n) else none)

-- v[key], and v[key].(string) with "" where that is no text.
unfoldable pub value_at : Text → Entries → Option Value
value_at key end = none
value_at key (entry k v es) = let rest = value_at key es in if text_eq key k then some v else rest

text_in : Option Value → Text
text_in (some (str t)) = t
text_in o = []

-- asInt: a float64 is cut off to an int.
unfoldable pub as_int : Option Value → Option ℤ
as_int (some (num x)) = some (if x.negative then negated x.whole else pos x.whole)
as_int o = none

module _ (days_before : ℤ → Text) where
  relative : Option ℤ → Result DateError (Text × Text)
  relative none = err invalid_relative_date
  relative (some n) = ok (days_before n, days_before (pos 0))

  span : Text → Text → Option ℤ → Text × Text
  span start stop none = (start, stop)
  span start stop (some n) = (days_before n, days_before (pos 0))

  -- parseDateValue: the first and the last day, "" where there is none.
  unfoldable pub parse_date_value : Value → Result DateError (Text × Text)
  unfolding relative span text_in
  parse_date_value (str t) =
      if has_prefix (codes "past_") t && has_suffix (codes "_days") t
      then relative (atoi (trim_suffix (codes "_days") (trim_prefix (codes "past_") t)))
      else ok (t, t)
  parse_date_value (obj es) = ok (
      span (text_in (value_at (codes "start") es)) (text_in (value_at (codes "end") es))
        (as_int (value_at (codes "relative_days") es)))
  parse_date_value v = err unsupported_date_value
