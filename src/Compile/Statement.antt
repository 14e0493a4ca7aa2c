-- ===== src/Compile/Statement.antt =====
-- internal/adapters/postgres_compile.go: compilePostgres, the whole statement.
use topbase.Prelude.{
  ℕ, Bool, not, ◌&&◌, List, [], ◌∷◌, ◌++◌, map, Option, none, some, ltb, ◌==◌, if◌then◌else◌, any,
  is_empty, keep, Result, ok, err, ◌>>=◌,
}
use topbase.Text.{Text, codes, text_eq, lower, join}
use topbase.Text.Decimal.{show}
use topbase.QueryIr.{TableRef, Join, Expression, Breakout, Order, Query}
use topbase.QueryIr.Values.{ℤ, pos, negsuc, Value, number_zero}
use topbase.QueryIr.Identifier.{quote, quote_path}
use topbase.QueryIr.Validate.{validate}
use topbase.Compile.Filters.{postgres_filters}
use topbase.Compile.Select.{
  Error, refused, table_required, postgres_breakout, breakout_alias, postgres_expr, postgres_agg,
  postgres_join, table_name,
}

-- compileLimits; 0 is no limit.
pub record Limits : Type 0 where
  pub default_limit : ℕ
  pub max_limit : ℕ

pub record Compiled : Type 0 where
  pub sql : Text
  pub args : List Value

-- A plain breakout by the same field.
unfoldable pub covers : Text → Breakout → Bool
covers field b = text_eq b.field field && is_empty b.temporal && number_zero b.bin_width

unfoldable pub breakout_column : Breakout → Text
breakout_column b = postgres_breakout b ++ (codes " AS " ++ quote (breakout_alias b))

unfoldable pub expression_column : Expression → Text
expression_column e = postgres_expr e ++ (codes " AS " ++ quote e.alias)

unfoldable pub columns : Query → List Text
unfolding covers breakout_column expression_column
columns q =
    map breakout_column q.group_by
    ++ (map quote_path (keep (λ field. not (any (covers field) q.group_by)) q.fields)
        ++ (map expression_column q.expressions ++ map postgres_agg q.aggregations))

unfoldable pub select_list : Query → Text
unfolding columns
select_list q = if is_empty (columns q) then codes "*" else join (codes ", ") (columns q)

source_alias : Query → TableRef → Text
source_alias q t =
    if is_empty q.source.alias && not (is_empty q.joins) then t.name else q.source.alias

unfoldable pub source_text : Query → TableRef → Text
unfolding source_alias
source_text q t =
    table_name t
    ++ (if is_empty (source_alias q t) then [] else codes " AS " ++ quote (source_alias q t))

-- The loop over q.Joins: what they add to the FROM part.
unfoldable pub join_texts : List Join → Result Error Text
join_texts [] = ok []
join_texts (j ∷ js) = do
  text ← postgres_join j
  rest ← join_texts js
  ok (codes " " ++ (text ++ rest))

unfoldable pub group_text : Query → Text
group_text q =
    if not (is_empty q.aggregations) && not (is_empty q.group_by)
    then codes " GROUP BY " ++ join (codes ", ") (map postgres_breakout q.group_by)
    else if not (is_empty q.aggregations) && not (is_empty q.fields)
    then codes " GROUP BY " ++ join (codes ", ") (map quote_path q.fields)
    else []

unfoldable pub order_item : Order → Text
order_item o =
    quote_path o.field
    ++ (if text_eq (lower o.dir) (codes "desc") then codes " DESC" else codes " ASC")

unfoldable pub order_text : List Order → Text
unfolding order_item
order_text [] = []
order_text (o ∷ os) = codes " ORDER BY " ++ join (codes ", ") (map order_item (o ∷ os))

-- The limit that is applied; 0 is none.
unfoldable pub effective_limit : Limits → ℤ → ℕ
effective_limit l (pos n) =
    let limit = if n == 0 then l.default_limit else n in
    if ltb 0 l.max_limit && ltb l.max_limit limit then l.max_limit else limit
effective_limit l (negsuc n) = 0

unfoldable pub limit_text : ℕ → Text
limit_text n = if ltb 0 n then codes " LIMIT " ++ show n else []

-- `if t != "" { sql += word + t }`.
unfoldable pub clause : Text → Text → Text
clause word t = if is_empty t then [] else word ++ t

-- The statement up to its LIMIT, and the arguments.
unfoldable pub unlimited : Query → TableRef → Text → Compiled
unlimited q t joins =
    let (wheres, bound) = postgres_filters q.filters [] in
    let (having, args) = postgres_filters q.having bound in
    record {
      sql =
          (codes "SELECT " ++ (select_list q ++ (codes " FROM " ++ (source_text q t ++ joins))))
          ++ (clause (codes " WHERE ") wheres
              ++ (group_text q ++ (clause (codes " HAVING ") having ++ order_text q.order_by)));
      args = args;
    }

unfoldable pub statement : Limits → Query → TableRef → Text → Compiled
unfolding unlimited
statement l q t joins =
    let c = unlimited q t joins in
    record { sql = c.sql ++ limit_text (effective_limit l q.limit); args = c.args }

unfoldable pub compile_table : Limits → Query → Option TableRef → Result Error Compiled
compile_table l q none = err table_required
compile_table l q (some t) = do joins ← join_texts q.joins; ok (statement l q t joins)

-- compilePostgres.
unfoldable pub compile : Limits → Query → Result Error Compiled
compile l q = elim (validate q) [
  | err e ↦ err (refused e)
  | ok done ↦ compile_table l q q.source.table
]

abbrev pub interactive : Limits
interactive = record { default_limit = 1000; max_limit = 10000 }

-- CompilePostgres and CompilePostgresWarehouse.
unfoldable pub compile_postgres : Query → Result Error Compiled
compile_postgres q = compile interactive q

unfoldable pub compile_warehouse : Query → Result Error Compiled
compile_warehouse q = compile (record { default_limit = 0; max_limit = 0 }) q
