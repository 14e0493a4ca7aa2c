-- ===== src/Charts/Columns.antt =====
-- internal/app/viz/infer.go, internal/adapters/postgres_compile.go: the chart names the columns of the
-- statement.
use topbase.Prelude.{◌≡◌, ap, ◌∙◌, List, [], ◌∷◌, ◌++◌, map, append_assoc, not, any, keep}
use topbase.Text.{Text, codes, lower}
use topbase.QueryIr.{Query, Breakout, Aggregation}
use topbase.QueryIr.Identifier.{quote}
use topbase.QueryIr.Identifier.{quote_path}
use topbase.Compile.Select.{aggregate_call}
use topbase.Compile.Statement.{covers, breakout_column, expression_column}

-- Columns of a statement, each with its name.
abbrev pub named_columns : List Text → List Text → List Text
named_columns (call ∷ calls) (name ∷ names) =
    (call ++ (codes " AS " ++ quote name)) ∷ named_columns calls names
named_columns calls names = []

abbrev pub calls_of : List Aggregation → List Text
calls_of aggs = map (λ a. aggregate_call (lower a.fn) a.field) aggs

-- The columns between those of the first breakout and of the aggregations.
abbrev between : Query → List Breakout → List Text
between q bs =
    map breakout_column bs
    ++ (map quote_path (keep (λ field. not (any (covers field) q.group_by)) q.fields)
        ++ map expression_column q.expressions)

regrouped :
    (a s f t c l sql : Text)
    → sql ≡ ((a ++ (s ++ (f ++ t))) ++ c) ++ l
    → (rest : Text) × (sql ≡ a ++ (s ++ (f ++ rest)))
regrouped a s f t c l sql h = (
  t ++ (c ++ l),
  h
      ∙ append_assoc (a ++ (s ++ (f ++ t))) c l
      ∙ append_assoc a (s ++ (f ++ t)) (c ++ l)
      ∙ ap (λ u. a ++ u)
          (append_assoc s (f ++ t) (c ++ l) ∙ ap (λ u. s ++ u) (append_assoc f t (c ++ l))),
)
