-- ===== src/Compile/Solid.antt =====
-- internal/adapters/postgres_compile.go: the pieces of the SELECT, GROUP BY and JOIN parts hold no
-- parameter, leave every quotation closed and do not end the statement.
use topbase.Prelude.{
  ℕ, ◌≡◌, refl, true, ◌++◌, Option, none, some, All, all, Bool-cases, inl, inr, if◌then◌else◌,
  if_either,
}
use topbase.Text.{Text, codes, lower, lookup, one_of}
use topbase.Text.Laws.{OnSome, lookup-OnSome, one_of-elim}
use topbase.Text.Decimal.{show}
use topbase.QueryIr.{Expression, Aggregation, Breakout, TableRef}
use topbase.QueryIr.Values.{
  Value, null, str, num, bool, items, texts, obj, show_number, number_pos, sprint,
}
use topbase.QueryIr.Identifier.{quote, quote_path}
use topbase.Compile.Scan.{
  IsSolid, append-IsSolid, plain-IsSolid, is_plain, IsPlain, literal-IsSolid, before-IsSolid,
  behind-IsSolid, scan, step,
}
use topbase.Compile.Plain.{show-IsPlain, show_number-IsSolid, sprint_number-IsSolid}
use topbase.Compile.Operators.{quote-IsSolid, quote_path-IsSolid}
use topbase.Compile.Select.{
  units, postgres_breakout, path_match, quote_literal, postgres_operand, expression_forms,
  postgres_expr, aggregate_calls, aggregate_call, postgres_agg, table_name,
}

pub show-IsSolid : (n : ℕ) → IsSolid (show n)
show-IsSolid n = plain-IsSolid (show-IsPlain n)

-- `name)`, which ends a call.
closed-IsSolid : (t : Text) → IsSolid t → IsSolid (t ++ codes ")")
closed-IsSolid t h = behind-IsSolid t (codes ")") h refl

truncated-IsSolid :
    (unit : Text)
    → one_of units unit ≡ true
    → IsSolid (codes "date_trunc('" ++ (unit ++ codes "', "))
unfolding scan step
truncated-IsSolid unit e =
    one_of-elim P units unit
      (
        record { runs = λ n rest. refl },
        (
          record { runs = λ n rest. refl },
          (
            record { runs = λ n rest. refl },
            (
              record { runs = λ n rest. refl },
              (
                record { runs = λ n rest. refl },
                (record { runs = λ n rest. refl }, (record { runs = λ n rest. refl }, tt)),
              ),
            ),
          ),
        ),
      )
      e
  where
    P : Text → Type 0
    P u = IsSolid (codes "date_trunc('" ++ (u ++ codes "', "))

wide_breakout-IsSolid :
    (field w : Text)
    → IsSolid field
    → IsSolid w
    → IsSolid (codes "floor(" ++ (field ++ ((codes " / " ++ (w ++ codes ") * ")) ++ w)))
unfolding scan step
wide_breakout-IsSolid field w h k = before-IsSolid (codes "floor(") _ refl (
    append-IsSolid field _ h (
      append-IsSolid (codes " / " ++ (w ++ codes ") * ")) w
        (append-IsSolid (codes " / ") _ (record { runs = λ n rest. refl })
          (behind-IsSolid w (codes ") * ") k refl))
        k))

unit_breakout-IsSolid :
    (b : Breakout)
    → IsSolid (
        if one_of units (lower b.temporal)
        then (codes "date_trunc('" ++ (lower b.temporal ++ codes "', "))
          ++ (quote_path b.field ++ codes ")")
        else quote_path b.field)
unit_breakout-IsSolid b = elim (Bool-cases (one_of units (lower b.temporal))) [
  | inl unit ↦ rw unit (
      append-IsSolid (codes "date_trunc('" ++ (lower b.temporal ++ codes "', ")) _
        (truncated-IsSolid (lower b.temporal) unit)
        (closed-IsSolid (quote_path b.field) (quote_path-IsSolid b.field)))
  | inr plain ↦ rw plain (quote_path-IsSolid b.field)
]

pub breakout-IsSolid : (b : Breakout) → IsSolid (postgres_breakout b)
unfolding postgres_breakout
breakout-IsSolid b =
    if_either IsSolid (number_pos b.bin_width) _ _
      (wide_breakout-IsSolid (quote_path b.field) (show_number b.bin_width)
        (quote_path-IsSolid b.field) (show_number-IsSolid b.bin_width))
      (unit_breakout-IsSolid b)

quote_literal-IsSolid : (t : Text) → IsSolid (quote_literal t)
unfolding quote_literal
quote_literal-IsSolid t = literal-IsSolid t

pub operand-IsSolid : (v : Value) → IsSolid (postgres_operand v)
unfolding postgres_operand
operand-IsSolid (str s) =
    if_either IsSolid (path_match s) _ _ (quote_path-IsSolid s) (quote_literal-IsSolid s)
operand-IsSolid (num x) = sprint_number-IsSolid x
operand-IsSolid null = quote_literal-IsSolid (sprint null)
operand-IsSolid (bool b) = quote_literal-IsSolid (sprint (bool b))
operand-IsSolid (items vs) = quote_literal-IsSolid (sprint (items vs))
operand-IsSolid (texts ts) = quote_literal-IsSolid (sprint (texts ts))
operand-IsSolid (obj es) = quote_literal-IsSolid (sprint (obj es))

-- Two operands with plain words round them.
surrounded-IsSolid :
    (before between behind left right : Text)
    → all is_plain before ≡ true
    → IsSolid between
    → all is_plain behind ≡ true
    → IsSolid left
    → IsSolid right
    → IsSolid (before ++ (left ++ (between ++ (right ++ behind))))
surrounded-IsSolid before between behind left right h k e l r =
    before-IsSolid before _ h
      (append-IsSolid left _ l (append-IsSolid between _ k (behind-IsSolid right behind r e)))

IsForm : Text × Text × Text → Type 0
IsForm f = (all is_plain f.0 ≡ true) × IsSolid f.1 × (all is_plain f.2 ≡ true)

form-IsSolid :
    (o : Option (Text × Text × Text)) (left right : Text)
    → OnSome IsForm o
    → IsSolid left
    → IsSolid right
    → IsSolid (elim o [
      | none ↦ codes "concat(" ++ (left ++ (codes ", " ++ (right ++ codes ")")))
      | some (before, between, behind) ↦ before ++ (left ++ (between ++ (right ++ behind)))
    ])
unfolding IsForm
form-IsSolid none left right h l r =
    surrounded-IsSolid (codes "concat(") (codes ", ") (codes ")") left right refl
      (plain-IsSolid (record { holds = refl })) refl l r
form-IsSolid (some (before, between, behind)) left right h l r =
    surrounded-IsSolid before between behind left right h.0 h.1 h.2 l r

pub expr-IsSolid : (e : Expression) → IsSolid (postgres_expr e)
unfolding postgres_expr IsForm scan step
expr-IsSolid e =
    form-IsSolid (lookup (lower e.op) expression_forms) _ _
      (lookup-OnSome IsForm (lower e.op) expression_forms (
        (refl, record { runs = λ n rest. refl }, refl),
        (
          (refl, record { runs = λ n rest. refl }, refl),
          (
            (refl, record { runs = λ n rest. refl }, refl),
            ((refl, record { runs = λ n rest. refl }, refl), tt),
          ),
        ),
      ))
      (quote_path-IsSolid e.left) (operand-IsSolid e.right)

call-IsSolid :
    (o : Option Text) (field : Text)
    → OnSome IsPlain o
    → IsSolid
        (elim o [ none ↦ codes "count(*)" | some call ↦ call ++ (quote_path field ++ codes ")") ])
call-IsSolid none field h = plain-IsSolid (record { holds = refl })
call-IsSolid (some call) field h =
    before-IsSolid call _ h.holds (closed-IsSolid (quote_path field) (quote_path-IsSolid field))

calls-IsPlain : All (λ entry. IsPlain entry.1) aggregate_calls
calls-IsPlain = (
  record { holds = refl },
  (
    record { holds = refl },
    (
      record { holds = refl },
      (
        record { holds = refl },
        (record { holds = refl }, (record { holds = refl }, (record { holds = refl }, tt))),
      ),
    ),
  ),
)

-- A column and its name.
pub named-IsSolid : (t name : Text) → IsSolid t → IsSolid (t ++ (codes " AS " ++ quote name))
named-IsSolid t name h =
    append-IsSolid t _ h (before-IsSolid (codes " AS ") (quote name) refl (quote-IsSolid name))

pub agg-IsSolid : (a : Aggregation) → IsSolid (postgres_agg a)
unfolding postgres_agg aggregate_call
agg-IsSolid a = named-IsSolid (aggregate_call (lower a.fn) a.field) _ (
    call-IsSolid (lookup (lower a.fn) aggregate_calls) a.field
      (lookup-OnSome IsPlain (lower a.fn) aggregate_calls calls-IsPlain))

pub table_name-IsSolid : (t : TableRef) → IsSolid (table_name t)
unfolding table_name
table_name-IsSolid t =
    append-IsSolid (quote t.schema) _ (quote-IsSolid t.schema)
      (before-IsSolid (codes ".") (quote t.name) refl (quote-IsSolid t.name))
