-- ===== src/Rows/Scan.antt =====
-- internal/adapters/query_limits.go: the limits from the environment, boundedQueryValue and
-- scanQueryRows.
--
-- What database/sql hands out is a list: each item is a row, or the error of its Scan; `last` is what
-- rows.Err returns after the loop. A time, and a value of a type that has no case of its own, hold what
-- Format or fmt.Sprint makes of them, in the package time's and the package fmt's words.
use topbase.Prelude.{
  ℕ, ◌+◌, Bool, false, ◌||◌, List, [], ◌∷◌, ◌++◌, leb, ltb, ◌==◌, if◌then◌else◌, Option, none, some,
  Result, ok, err, ◌>>=◌, length, is_empty,
}
use topbase.Text.{Text, trim_space}
use topbase.QueryIr.Values.{ℤ, pos, negsuc}
use topbase.Params.Dates.{atoi}
use topbase.Rows.Utf8.{Bytes, bounded_utf8}

abbrev pub default_rows : ℕ
default_rows = 1000

abbrev pub default_result_bytes : ℕ
default_result_bytes = 16777216

abbrev pub default_cell_bytes : ℕ
default_cell_bytes = 1048576

-- queryLimits, of which none is negative.
pub record QueryLimits : Type 0 where
  pub rows : ℕ
  pub result_bytes : ℕ
  pub cell_bytes : ℕ

-- positiveEnvInt and boundedPositiveEnvInt, of the variable's text.
abbrev positive_or : ℕ → Option ℤ → ℕ
positive_or fallback none = fallback
positive_or fallback (some (negsuc n)) = fallback
positive_or fallback (some (pos n)) = if n == 0 then fallback else n

unfoldable pub positive_env_int : Text → ℕ → ℕ
positive_env_int value fallback =
    let raw = trim_space value in if is_empty raw then fallback else positive_or fallback (atoi raw)

unfoldable pub bounded_env_int : Text → ℕ → ℕ → ℕ
bounded_env_int raw fallback maximum =
    let value = positive_env_int raw fallback in
    if ltb 0 maximum then (if ltb maximum value then maximum else value) else value

-- queryLimitsFromEnv, with the texts of its two variables.
unfoldable pub limits_from_env : Text → Text → QueryLimits
limits_from_env result_var cell_var =
    let result = bounded_env_int result_var default_result_bytes 268435456 in
    let cell = bounded_env_int cell_var default_cell_bytes 16777216 in
    record {
      rows = default_rows;
      result_bytes = result;
      cell_bytes = if ltb result cell then result else cell;
    }

pub data Cell : Type 0 where
  null : Cell
  bytes string : Bytes → Cell
  time other : Bytes → Cell
  bool : Bool → Cell
  number : Bytes → Cell

abbrev pub Row : Type 0
Row = List Cell

-- A cell as it is kept, its size, and whether it was cut.
abbrev pub Bounded : Type 0
Bounded = Cell × ℕ × Bool

abbrev of_text : Bytes × Bool → Bounded
of_text (text, cut) = (string text, length text, cut)

unfoldable pub bounded_query_value : Cell → ℕ → Bounded
bounded_query_value null max = (null, 0, false)
bounded_query_value (bytes value) max = of_text (bounded_utf8 value max)
bounded_query_value (string value) max = of_text (bounded_utf8 value max)
bounded_query_value (time shown) max = (string shown, length shown, false)
bounded_query_value (bool b) max = (bool b, 1, false)
bounded_query_value (number n) max = (number n, 8, false)
bounded_query_value (other shown) max = (other shown, length shown, false)

-- The loop over a row's values.
unfoldable pub bounded_row : ℕ → Row → Row × ℕ × Bool
bounded_row max [] = ([], 0, false)
bounded_row max (v ∷ vs) =
    let (cell, size, cut) = bounded_query_value v max in
    let (cells, sizes, cuts) = bounded_row max vs in (cell ∷ cells, size + sizes, cut || cuts)

pub data Reason : Type 0 where
  row_limit result_byte_limit cell_byte_limit : Reason

-- The result while it grows: its rows, `retainedBytes`, `cellTruncated` and "truncation_reason", which
-- is there exactly if "truncated" is.
pub record Scanned : Type 0 where
  pub rows : List Row
  pub retained_bytes : ℕ
  pub cell_truncated : Bool
  pub reason : Option Reason

abbrev pub stopped : Reason → Scanned → Scanned
stopped why s = record s { reason = some why }

abbrev pub noted : Bool → Scanned → Scanned
noted cut s = record s { cell_truncated = s.cell_truncated || cut }

abbrev pub kept : Row → ℕ → Scanned → Scanned
kept row size s = record s { rows = s.rows ++ row ∷ []; retained_bytes = s.retained_bytes + size }

-- A break, or the next turn.
pub data Turn : Type 0 where
  stop more : Scanned → Turn

unfoldable pub add_row : QueryLimits → Scanned → Row × ℕ × Bool → Turn
add_row limits s (cells, size, cut) =
    if ltb limits.result_bytes (s.retained_bytes + size)
    then stop (stopped result_byte_limit (noted cut s))
    else more (kept cells size (noted cut s))

abbrev pub or_default : ℕ → ℕ → ℕ
or_default limit fallback = if leb limit 0 then fallback else limit

unfoldable pub or_defaults : QueryLimits → QueryLimits
or_defaults limits = record {
  rows = or_default limits.rows default_rows;
  result_bytes = or_default limits.result_bytes default_result_bytes;
  cell_bytes = or_default limits.cell_bytes default_cell_bytes;
}

abbrev pub nothing_scanned : Scanned
nothing_scanned = record { rows = []; retained_bytes = 0; cell_truncated = false; reason = none }

abbrev pub named : Option Reason → Option Reason
named none = some cell_byte_limit
named (some why) = some why

module _ {E : Type 0} where
  -- One turn of the loop `for rows.Next()`: the result to break with, or to go on with.
  unfoldable pub next_row : QueryLimits → Scanned → Result E Row → Result E Turn
  next_row limits s item =
      if leb limits.rows (length s.rows)
      then ok (stop (stopped row_limit s))
      else item >>= λ values. ok (add_row limits s (bounded_row limits.cell_bytes values))

  abbrev pub after_turn : Result E Turn → (Scanned → Result E Scanned) → Result E Scanned
  after_turn (err why) go_on = err why
  after_turn (ok (stop s)) go_on = ok s
  after_turn (ok (more s)) go_on = go_on s

  unfoldable pub scan_loop : QueryLimits → List (Result E Row) → Scanned → Result E Scanned
  scan_loop limits [] s = ok s
  scan_loop limits (item ∷ feed) s =
      after_turn (next_row limits s item) (λ r. scan_loop limits feed r)

  -- What follows the loop, with what rows.Err returns.
  abbrev pub finished : Option E → Scanned → Result E Scanned
  finished (some why) s = err why
  finished none s = ok (record s { reason = if s.cell_truncated then named s.reason else s.reason })

  abbrev pub then_finished : Option E → Result E Scanned → Result E Scanned
  then_finished last (err why) = err why
  then_finished last (ok s) = finished last s

  unfoldable pub scan_query_rows : QueryLimits → List (Result E Row) → Option E → Result E Scanned
  scan_query_rows limits feed last =
      then_finished last (scan_loop (or_defaults limits) feed nothing_scanned)
