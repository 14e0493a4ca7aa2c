-- ===== src/Params/Native.antt =====
-- internal/core/queryir/native.go: ApplyNative and nativeFieldSQL.
--
-- `days_before` is the calendar: that of the moment of the call, in UTC.
pub mod Opaque
use topbase.Prelude.{
  ℕ, ◌+◌, Bool, true, false, not, ◌&&◌, ◌||◌, List, [], ◌∷◌, ◌++◌, all, if◌then◌else◌, Option, none,
  some, Result, ok, err, length, is_empty,
}
use topbase.Text.{Text, codes, text_eq, lower, lookup, trim_space}
use topbase.Text.Decimal.{show}
use topbase.QueryIr.{Parameter}
use topbase.QueryIr.Values.{ℤ, Value, null, str}
use topbase.QueryIr.Identifier.{is_path, quote_path}
use topbase.Params.Dates.{DateError, parse_date_value}
use topbase.Params.Tokens.{Piece, rune, block, pieces, Token, literal, hole, tokens, holes}

pub data Error : Type 0 where
  sql_required : Error
  missing_parameter invalid_field : Text → Error
  bad_date : DateError → Error

-- A map[string]any.
abbrev pub Assignment : Type 0
Assignment = List (Text × Value)

abbrev pub is_given : Option Value → Bool
is_given none = false
is_given (some v) = true

-- What takes the place of optional blocks: the inside, or nothing if a name in it has no value.
unfoldable pub keep_block : Assignment → Text → Text
keep_block values inside =
    if all (λ name. is_given (lookup name values)) (holes (tokens inside)) then inside else []

unfoldable pub without_blocks : Assignment → List Piece → Text
without_blocks values [] = []
without_blocks values (rune c ∷ ps) = c ∷ without_blocks values ps
without_blocks values (block inside ∷ ps) = keep_block values inside ++ without_blocks values ps

-- byName[name]: the last parameter of that name, or the zero Parameter.
unfoldable pub last_named : Text → List Parameter → Option Parameter
last_named name [] = none
last_named name (p ∷ ps) = elim (last_named name ps) [
  | some later ↦ some later
  | none ↦ if text_eq p.name name then some p else none
]

abbrev or_zero : Option Parameter → Parameter
or_zero none = record { name = []; type = []; field = [] }
or_zero (some p) = p

unfoldable pub by_name : Text → List Parameter → Parameter
by_name name ps = or_zero (last_named name ps)

-- SQL with the arguments bound so far.
abbrev pub Bound : Type 0
Bound = Text × List Value

-- ` op $n`, with the value as the n-th argument.
unfoldable pub bind : Text → Value → List Value → Bound
bind before value args = (before ++ (b'$' ∷ show (length args + 1)), args ++ value ∷ [])

abbrev pub closed : Bound → Bound
closed (sql, out) = (codes "(" ++ (sql ++ codes ")"), out)

abbrev pub bind_behind : Text → Value → Bound → Bound
bind_behind before value (sql, out) = bind (sql ++ (codes " AND " ++ before)) value out

-- A range of dates; the flags tell whether the first and the last day are left out.
unfoldable pub date_range : Text → Bool → Bool → Text → Text → List Value → Bound
date_range quoted true true first last args = (codes "TRUE", args)
date_range quoted true false first last args =
    closed (bind (quoted ++ codes " <= ") (str last) args)
date_range quoted false true first last args =
    closed (bind (quoted ++ codes " >= ") (str first) args)
date_range quoted false false first last args = closed (
    bind_behind (quoted ++ codes " <= ") (str last)
      (bind (quoted ++ codes " >= ") (str first) args))

unfoldable pub dated : Text → Result DateError (Text × Text) → List Value → Result Error Bound
dated quoted (err why) args = err (bad_date why)
dated quoted (ok (first, last)) args =
    ok (date_range quoted (is_empty first) (is_empty last) first last args)

abbrev pub is_nil : Value → Bool
is_nil null = true
is_nil v = false

unfoldable pub plain_sql : Text → Option Value → List Value → Result Error Bound
plain_sql name none args = err (missing_parameter name)
plain_sql name (some value) args = ok (bind [] value args)

abbrev pub in_front : Text → Result Error Bound → Result Error Bound
in_front before (ok (sql, args)) = ok (before ++ sql, args)
in_front before (err why) = err why

abbrev pub and_then : Result Error Bound → (List Value → Result Error Bound) → Result Error Bound
and_then (ok (sql, args)) rest = in_front sql (rest args)
and_then (err why) rest = err why

abbrev pub trimmed : Result Error Bound → Result Error Bound
trimmed (ok (sql, args)) = ok (trim_space sql, args)
trimmed (err why) = err why

module _ (days_before : ℤ → Text) where
  -- nativeFieldSQL, for a value that is not nil.
  unfoldable pub field_sql : Text → Text → Value → List Value → Result Error Bound
  field_sql quoted type value args =
      if text_eq (lower type) (codes "date")
      then dated quoted (parse_date_value days_before value) args
      else ok (bind (quoted ++ codes " = ") value args)

  -- values[name], where a name that is not a key gives nil.
  unfoldable pub native_field_sql : Text → Text → Option Value → List Value → Result Error Bound
  native_field_sql field type none args = ok (codes "TRUE", args)
  native_field_sql field type (some value) args =
      if is_nil value then ok (codes "TRUE", args) else field_sql (quote_path field) type value args

  -- What takes the place of {{name}}.
  unfoldable pub hole_sql : Parameter → Text → Option Value → List Value → Result Error Bound
  hole_sql p name value args =
      let field = if is_empty p.field then name else p.field in
      if text_eq p.type (codes "field") || not (is_empty p.field)
      then (if is_path field
          then native_field_sql field p.type value args
          else err (invalid_field field))
      else plain_sql name value args

  unfoldable pub substitute :
      List Parameter → Assignment → List Token → List Value → Result Error Bound
  substitute ps values [] args = ok ([], args)
  substitute ps values (literal c ∷ ts) args = in_front (c ∷ []) (substitute ps values ts args)
  substitute ps values (hole name ∷ ts) args =
      and_then (hole_sql (by_name name ps) name (lookup name values) args) (substitute ps values ts)

  unfoldable pub apply_native : Text → List Parameter → Assignment → Result Error Bound
  apply_native sql ps values =
      if is_empty (trim_space sql)
      then err sql_required
      else trimmed
          (substitute ps values (tokens (without_blocks values (pieces (trim_space sql)))) [])
