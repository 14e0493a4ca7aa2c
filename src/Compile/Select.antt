-- ===== src/Compile/Select.antt =====
-- internal/adapters/postgres_compile.go: the pieces of the SELECT, GROUP BY and JOIN parts.
use topbase.Prelude.{
  ℕ, Bool, false, not, ◌&&◌, ◌||◌, List, [], ◌∷◌, ◌++◌, none, some, leb, ◌==◌, if◌then◌else◌, all,
  is_empty, Result, ok, err, ◌>>=◌, ◌>>◌, guard,
}
use topbase.Text.{Text, codes, one_of, lower, upper, lookup, split, join, replace_rune, has_rune}
use topbase.QueryIr.{TableRef, JoinCondition, Join, Expression, Aggregation, Breakout}
use topbase.QueryIr.Values.{Value, str, num, show_number, sprint_number, number_pos, sprint}
use topbase.QueryIr.Identifier.{quote, quote_path}
use topbase.QueryIr.Validate

pub data Error : Type 0 where
  refused : Validate.Error → Error
  table_required conditions_required : Error
  unsupported_join_op : Text → Error
  -- A dereference of a nil pointer.
  nil_table : Error

abbrev pub units : List Text
units =
    codes "minute"
    ∷ codes "hour"
    ∷ codes "day"
    ∷ codes "week"
    ∷ codes "month"
    ∷ codes "year"
    ∷ codes "quarter"
    ∷ []

unfoldable pub postgres_breakout : Breakout → Text
postgres_breakout b =
    let field = quote_path b.field in
    let w = show_number b.bin_width in
    if number_pos b.bin_width
    then codes "floor(" ++ (field ++ ((codes " / " ++ (w ++ codes ") * ")) ++ w))
    else if one_of units (lower b.temporal)
    then (codes "date_trunc('" ++ (lower b.temporal ++ codes "', ")) ++ (field ++ codes ")")
    else field

unfoldable pub breakout_alias : Breakout → Text
breakout_alias b =
    let name = replace_rune b'.' (codes "_") b.field in
    if number_pos b.bin_width
    then name ++ codes "_bin"
    else if is_empty b.temporal
    then name
    else name ++ (codes "_" ++ lower b.temporal)

abbrev letter : ℕ → Bool
letter c = (leb b'A' c && leb c b'Z') || (leb b'a' c && leb c b'z') || c == b'_'

path_part : Text → Bool
path_part [] = false
path_part (c ∷ t) =
    letter c && all (λ d. letter d || (leb b'0' d && leb d b'9') || d == b'$') (c ∷ t)

-- identPathMatch.
unfoldable pub path_match : Text → Bool
unfolding path_part
path_match value =
    not (is_empty value)
    && all path_part (split b'.' value)
    && not (has_rune b' ' value || has_rune 0x27 value || has_rune b'"' value)

unfoldable pub quote_literal : Text → Text
quote_literal value = 0x27 ∷ (replace_rune 0x27 (codes "''") value ++ codes "'")

unfoldable pub postgres_operand : Value → Text
postgres_operand (str s) = if path_match s then quote_path s else quote_literal s
postgres_operand (num x) = sprint_number x
postgres_operand v = quote_literal (sprint v)

-- What stands before, between and behind the two operands.
abbrev pub expression_forms : List (Text × (Text × Text × Text))
expression_forms =
    (codes "add", (codes "(", codes " + ", codes ")"))
    ∷ (codes "sub", (codes "(", codes " - ", codes ")"))
    ∷ (codes "mul", (codes "(", codes " * ", codes ")"))
    ∷ (codes "div", (codes "(", codes " / NULLIF(", codes ", 0))"))
    ∷ []

unfoldable pub postgres_expr : Expression → Text
postgres_expr e =
    let left = quote_path e.left in
    let right = postgres_operand e.right in
    elim (lookup (lower e.op) expression_forms) [
      | none ↦ codes "concat(" ++ (left ++ (codes ", " ++ (right ++ codes ")")))
      | some (before, between, behind) ↦ before ++ (left ++ (between ++ (right ++ behind)))
    ]

abbrev pub aggregate_calls : List (Text × Text)
aggregate_calls =
    (codes "sum", codes "sum(")
    ∷ (codes "avg", codes "avg(")
    ∷ (codes "min", codes "min(")
    ∷ (codes "max", codes "max(")
    ∷ (codes "distinct", codes "count(DISTINCT ")
    ∷ (codes "stddev", codes "stddev_samp(")
    ∷ (codes "variance", codes "var_samp(")
    ∷ []

unfoldable pub aggregate_call : Text → Text → Text
aggregate_call fn field = elim (lookup fn aggregate_calls) [
  | none ↦ codes "count(*)"
  | some call ↦ call ++ (quote_path field ++ codes ")")
]

unfoldable pub postgres_agg : Aggregation → Text
unfolding aggregate_call
postgres_agg a =
    let fn = lower a.fn in
    aggregate_call fn a.field ++ (codes " AS " ++ quote (if is_empty a.alias then fn else a.alias))

abbrev pub condition_text : JoinCondition → Text → Text
condition_text c op = quote_path c.left ++ (codes " " ++ (op ++ (codes " " ++ quote_path c.right)))

-- The loop over join.Conditions.
unfoldable pub postgres_conditions : List JoinCondition → Result Error (List Text)
postgres_conditions [] = ok []
postgres_conditions (c ∷ cs) = do
  let op = if is_empty c.op then codes "=" else c.op
  guard (one_of (codes "=" ∷ codes "<>" ∷ []) op) (unsupported_join_op op)
  rest ← postgres_conditions cs
  ok (condition_text c op ∷ rest)

unfoldable pub join_kind : Text → Text
join_kind type = let kind = upper type in if is_empty kind then codes "LEFT" else kind

unfoldable pub table_name : TableRef → Text
table_name t = quote t.schema ++ (codes "." ++ quote t.name)

unfoldable pub join_text : Join → TableRef → List Text → Text
join_text j t on =
    join_kind j.type
    ++ (codes " JOIN "
        ++ (table_name t
            ++ (codes " AS "
                ++ (quote (if is_empty j.alias then t.name else j.alias)
                    ++ (codes " ON " ++ join (codes " AND ") on)))))

-- postgresJoin, which hands the arguments through as they are.
unfoldable pub postgres_join : Join → Result Error Text
postgres_join j = elim j.table [
  | none ↦ err nil_table
  | some t ↦ do
    guard (not (is_empty j.conditions)) conditions_required
    on ← postgres_conditions j.conditions
    ok (join_text j t on)
]
