-- ===== src/Compile/Limit.antt =====
-- internal/adapters/postgres_compile.go: the LIMIT of an interactive query, and what cannot happen.
use topbase.Prelude.{
  ℕ, ◌<◌, ◌≤◌, ◌≡◌, ◌∙◌, ap, ◌⊎◌, Bool, true, false, not, ◌++◌, arith, lt→ltb, ok, ◌>>◌, >>-eq-ok,
  guard-eq-ok, each,
}
use topbase.Text.{Text, codes}
use topbase.Text.Decimal.{show}
use topbase.QueryIr.{TableRef, Query}
use topbase.QueryIr.Values.{ℤ, pos, negsuc, is_neg}
use topbase.QueryIr.Validate.{
  validate, validate_source, validate_body, validate_columns, check_join, check_expression,
  check_path, check_filters, check_aggregation, check_breakout, check_order, negative_limit,
}
use topbase.Compile.Safe.{compiled_cases}
use topbase.Compile.Statement.{
  Compiled, limit_text, effective_limit, unlimited, statement, compile_postgres, interactive,
}

pub limit_checked : (q : Query) → validate q ≡ ok tt → is_neg q.limit ≡ false
unfolding validate validate_body validate_columns
limit_checked q e =
    let (_, a) = >>-eq-ok (validate_source q) (each check_join q.joins >> validate_body q) e in
    let (_, b) = >>-eq-ok (each check_join q.joins) (validate_body q) a in
    let (_, c) = >>-eq-ok (each check_expression q.expressions) _ b in
    let (_, d) = >>-eq-ok (each (check_path (codes "field")) q.fields) _ c in
    let (_, f) = >>-eq-ok (check_filters (codes "filter") q.filters) _ d in
    let (_, g) = >>-eq-ok (check_filters (codes "having") q.having) (validate_columns q) f in
    let (_, h) = >>-eq-ok (each check_aggregation q.aggregations) _ g in
    let (_, i) = >>-eq-ok (each check_breakout q.group_by) _ h in
    let (_, j) = >>-eq-ok (each check_order q.order_by) _ i in
    not-eq-true (guard-eq-ok (not (is_neg q.limit)) negative_limit j)
  where
    not-eq-true : {b : Bool} → not b ≡ true → b ≡ false
    not-eq-true {b} k = ground arith

-- An int that is not negative, as a number.
abbrev pub amount : ℤ → ℕ
amount (pos n) = n
amount (negsuc n) = 0

-- The limit that the query asks for where it lies in range, else the default or the maximum.
abbrev pub IsLimitOf : ℕ → ℤ → Type 0
IsLimitOf n limit =
    (n ≡ amount limit) ⊎ ((amount limit ≡ 0) × (n ≡ 1000)) ⊎ ((10000 < amount limit) × (n ≡ 10000))

interactive_limit :
    (limit : ℤ)
    → is_neg limit ≡ false
    → (0 < effective_limit interactive limit)
      × (effective_limit interactive limit ≤ 10000)
      × IsLimitOf (effective_limit interactive limit) limit
unfolding effective_limit
interactive_limit (negsuc n) h = cc
interactive_limit (pos n) h = (ground arith, ground arith, ground arith)

limit_text_pos : (n : ℕ) → 0 < n → limit_text n ≡ codes " LIMIT " ++ show n
unfolding limit_text
limit_text_pos n h = rw (lt→ltb 0 n h)

-- Every interactive statement ends in a LIMIT of 1 to 10000 rows: the one that the query asks for,
-- 1000 if it asks for none, or 10000 if it asks for more.
pub compile_postgres-limit :
    (q : Query) (c : Compiled)
    → compile_postgres q ≡ ok c
    → (n : ℕ) × (front : Text) × (c.sql ≡ front ++ (codes " LIMIT " ++ show n))
      × (0 < n)
      × (n ≤ 10000)
      × IsLimitOf n q.limit
unfolding compile_postgres statement
compile_postgres-limit q c e =
    let (v, (t, joins, s, same)) = compiled_cases interactive q c e in
    let n = effective_limit interactive q.limit in
    let (low, high, which) = interactive_limit q.limit (limit_checked q v) in
    (
      n,
      (unlimited q t joins).sql,
      ap (λ (d : Compiled). d.sql) same ∙ limited t joins low,
      low,
      high,
      which,
    )
  where
    limited :
        (t : TableRef) (joins : Text)
        → 0 < effective_limit interactive q.limit
        → (statement interactive q t joins).sql
          ≡ (unlimited q t joins).sql
            ++ (codes " LIMIT " ++ show (effective_limit interactive q.limit))
    limited t joins low = ap (λ t'. (unlimited q t joins).sql ++ t') (limit_text_pos _ low)
