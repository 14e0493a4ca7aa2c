-- ===== src/Compile/Filters.antt =====
-- internal/adapters/postgres_compile.go: postgresFilters and postgresFilter. The arguments bound so
-- far are passed through; `none` is a filter that is left out, whose arguments are dropped.
use topbase.Prelude.{
  ℕ, ◌+◌, List, [], ◌∷◌, ◌++◌, Option, none, some, if◌then◌else◌, length, is_empty,
}
use topbase.Text.{Text, codes, lower, join, lookup}
use topbase.Text.Decimal.{show}
use topbase.QueryIr.{Condition, Filter, Filters, filter, nil, cons}
use topbase.QueryIr.Values.{Value, str, sprint, filter_values}
use topbase.QueryIr.Identifier.{quote_path}

-- $n.
unfoldable pub placeholder : ℕ → Text
placeholder n = b'$' ∷ show n

abbrev pub Bound : Type 0
Bound = Option (Text × List Value)

-- Binds one value and puts its placeholder between two texts.
unfoldable pub bind_one : Text → Text → Value → List Value → Bound
bind_one before after value args =
    some (before ++ (placeholder (length args + 1) ++ after), args ++ value ∷ [])

-- The placeholders of the values of an IN, and the arguments with these behind them.
unfoldable pub bind_each : List Value → List Value → List Text × List Value
bind_each [] args = ([], args)
bind_each (v ∷ vs) args =
    let (parts, out) = bind_each vs (args ++ v ∷ []) in (placeholder (length args + 1) ∷ parts, out)

unfoldable pub bind_two : Text → List Value → List Value → Bound
bind_two field (low ∷ high ∷ []) args = some (
  field
      ++ (codes " BETWEEN "
          ++ (placeholder (length args + 1) ++ (codes " AND " ++ placeholder (length args + 2)))),
  args ++ (low ∷ high ∷ []),
)
bind_two field _ args = none

unfoldable pub bind_list : Text → Text → List Value → List Value → Bound
unfolding bind_each
bind_list field op [] args = none
bind_list field op (v ∷ vs) args =
    let (parts, out) = bind_each (v ∷ vs) args in
    some
      (field ++ (codes " " ++ (op ++ (codes " (" ++ (join (codes ", ") parts ++ codes ")")))), out)

-- A case of the switch over the operator, given the quoted field, the value and the arguments.
abbrev pub Operator : Type 0
Operator = Text → Value → List Value → Bound

-- Compares the field with the value as it is; matches it with the text of the value; binds nothing.
abbrev pub compared : Text → Operator
compared sign field value args = bind_one (field ++ sign) [] value args

abbrev pub matched : Text → Text → Operator
matched before after field value args = bind_one (field ++ before) after (str (sprint value)) args

abbrev pub tested : Text → Operator
tested test field value args = some (field ++ test, args)

abbrev pub tested_twice : Text → Text → Operator
tested_twice middle last field value args =
    some (codes "(" ++ (field ++ (middle ++ (field ++ last))), args)

-- The switch over the operator.
abbrev pub operators : List (Text × Operator)
operators =
    (codes "eq", compared (codes " = "))
    ∷ (codes "neq", compared (codes " <> "))
    ∷ (codes "gt", compared (codes " > "))
    ∷ (codes "gte", compared (codes " >= "))
    ∷ (codes "lt", compared (codes " < "))
    ∷ (codes "lte", compared (codes " <= "))
    ∷ (codes "contains", matched (codes " ILIKE '%' || ") (codes " || '%'"))
    ∷ (codes "not_contains", matched (codes " NOT ILIKE '%' || ") (codes " || '%'"))
    ∷ (codes "starts_with", matched (codes " ILIKE ") (codes " || '%'"))
    ∷ (codes "ends_with", matched (codes " ILIKE '%' || ") [])
    ∷ (codes "is_null", tested (codes " IS NULL"))
    ∷ (codes "not_null", tested (codes " IS NOT NULL"))
    ∷ (codes "is_empty", tested_twice (codes " IS NULL OR ") (codes " = '')"))
    ∷ (codes "not_empty", tested_twice (codes " IS NOT NULL AND ") (codes " <> '')"))
    ∷ (codes "between", λ field value args. bind_two field (filter_values value) args)
    ∷ (codes "in", λ field value args. bind_list field (codes "IN") (filter_values value) args)
    ∷ (
      codes "not_in",
      λ field value args. bind_list field (codes "NOT IN") (filter_values value) args,
    )
    ∷ []

-- postgresFilter behind And and Or; an operator that is not known leaves the filter out.
unfoldable pub postgres_condition : Condition → List Value → Bound
postgres_condition c args = elim (lookup (lower c.op) operators) [
  | none ↦ none
  | some operator ↦ operator (quote_path c.field) c.value args
]

-- What an And makes of its parts, and an Or.
unfoldable pub conjunction : List Text × List Value → Bound
conjunction (parts, out) =
    let inner = join (codes " AND ") parts in
    if is_empty inner then none else some (codes "(" ++ (inner ++ codes ")"), out)

unfoldable pub disjunction : List Text × List Value → Bound
disjunction (parts, out) =
    if is_empty parts
    then none
    else some (codes "(" ++ (join (codes " OR ") parts ++ codes ")"), out)

-- A round of the loop: the filter's part, and the rest of the loop from the arguments then bound.
unfoldable pub add_part :
    Bound → List Value → (List Value → List Text × List Value) → List Text × List Value
add_part none args rest = rest args
add_part (some (part, next)) args rest = let (parts, out) = rest next in (part ∷ parts, out)

unfoldable mutual
  -- The loop of postgresFilters, also that over the children of an Or.
  pub filter_parts : Filters → List Value → List Text × List Value
  filter_parts nil args = ([], args)
  filter_parts (cons f fs) args = add_part (postgres_filter f args) args (filter_parts fs)

  pub postgres_filter : Filter → List Value → Bound
  postgres_filter (filter c (cons f fs) ors) args = conjunction (filter_parts (cons f fs) args)
  postgres_filter (filter c nil (cons f fs)) args = disjunction (filter_parts (cons f fs) args)
  postgres_filter (filter c nil nil) args = postgres_condition c args

-- postgresFilters.
unfoldable pub postgres_filters : Filters → List Value → Text × List Value
postgres_filters fs args =
    let (parts, out) = filter_parts fs args in (join (codes " AND ") parts, out)
