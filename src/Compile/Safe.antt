-- ===== src/Compile/Safe.antt =====
-- internal/adapters/postgres_compile.go: what holds of every statement that compilePostgres writes.
use topbase.Prelude.{
  ℕ, ◌≡◌, refl, sym, subst, ok-injective, [], ◌++◌, Option, none, some, append-nil, Result, ok, err,
  ◌>>◌, >>=-eq-ok, >>-eq-ok, ok-transport, Result-cases, inl, inr, each, length,
}
use topbase.Text.{Text, codes}
use topbase.QueryIr.{TableRef, Query}
use topbase.QueryIr.Validate
use topbase.QueryIr.Validate.{validate, validate_source, validate_body, check_join}
use topbase.Compile.Scan.{IsSolid, append-IsSolid, before-IsSolid, scan, finish, normal}
use topbase.Compile.Clauses.{
  select_list-IsSolid, source_text-IsSolid, group_text-IsPiece, order_text-IsPiece,
  limit_text-IsPiece, clause-IsPiece,
}
use topbase.Compile.Joins.{join_texts-IsSolid}
use topbase.Compile.Numbering.{filters-IsPiece}
use topbase.Compile.Fragments.{IsPiece, append-IsPiece, solid-IsPiece}
use topbase.Compile.Filters.{postgres_filters}
use topbase.Compile.Select.{Error, refused}
use topbase.Compile.Statement.{
  Limits, Compiled, select_list, source_text, join_texts, effective_limit, unlimited, statement,
  compile_table, compile,
}

head-IsSolid :
    (q : Query) (t : TableRef) (joins : Text)
    → IsSolid joins
    → IsSolid (codes "SELECT " ++ (select_list q ++ (codes " FROM " ++ (source_text q t ++ joins))))
head-IsSolid q t joins h = before-IsSolid (codes "SELECT ") _ refl (
    append-IsSolid (select_list q) _ (select_list-IsSolid q) (
      before-IsSolid (codes " FROM ") _ refl
        (append-IsSolid (source_text q t) joins (source_text-IsSolid q t) h)))

unlimited-IsPiece :
    (q : Query) (t : TableRef) (joins : Text)
    → IsSolid joins
    → IsPiece 0 (unlimited q t joins).sql (length (unlimited q t joins).args)
unfolding unlimited
unlimited-IsPiece q t joins h =
    let bound = (postgres_filters q.filters []).1 in
    let n = length bound in
    let m = length (postgres_filters q.having bound).1 in
    append-IsPiece 0 0 m _ _ (solid-IsPiece 0 _ refl (head-IsSolid q t joins h)) (
      append-IsPiece 0 n m _ _
        (clause-IsPiece (codes " WHERE ") _ 0 n refl refl (filters-IsPiece q.filters []))
        (append-IsPiece n n m _ _ (group_text-IsPiece q n) (
          append-IsPiece n m m _ _
            (clause-IsPiece (codes " HAVING ") _ n m refl refl (filters-IsPiece q.having bound))
            (order_text-IsPiece q.order_by m))))

statement-IsPiece :
    (l : Limits) (q : Query) (t : TableRef) (joins : Text)
    → IsSolid joins
    → IsPiece 0 (statement l q t joins).sql (length (statement l q t joins).args)
unfolding statement
statement-IsPiece l q t joins h =
    append-IsPiece 0 _ _ (unlimited q t joins).sql _ (unlimited-IsPiece q t joins h)
      (limit_text-IsPiece (effective_limit l q.limit) _)

piece_scan : (t : Text) (n : ℕ) → IsPiece 0 t n → scan normal 0 t ≡ some n
unfolding scan finish
piece_scan t n h = rw (append-nil t) at (h.runs [] refl)

joins_checked : (q : Query) → validate q ≡ ok tt → each check_join q.joins ≡ ok tt
unfolding validate
joins_checked q e =
    let (_, rest) = >>-eq-ok (validate_source q) (each check_join q.joins >> validate_body q) e in
    (>>-eq-ok (each check_join q.joins) (validate_body q) rest).0

table-scan :
    (l : Limits) (q : Query) (o : Option TableRef) (c : Compiled)
    → each check_join q.joins ≡ ok tt
    → compile_table l q o ≡ ok c
    → scan normal 0 c.sql ≡ some (length c.args)
unfolding compile_table
table-scan l q none c h e = cc
table-scan l q (some t) c h e =
    let (joins, r, same) = >>=-eq-ok (join_texts q.joins) _ e in
    ok-transport (λ c. scan normal 0 c.sql ≡ some (length c.args)) same
      (piece_scan _ _ (statement-IsPiece l q t joins (join_texts-IsSolid q.joins joins h r)))

-- Whatever query is compiled, under whatever limits, the SQL is one statement without a comment, in
-- which every quotation is closed, and its parameters are $1 to $n in this order, n the number of
-- arguments.
pub compile-scan :
    (l : Limits) (q : Query) (c : Compiled)
    → compile l q ≡ ok c
    → scan normal 0 c.sql ≡ some (length c.args)
unfolding compile
compile-scan l q c e = elim (Result-cases (validate q)) [
  | inl (done, v) ↦
      table-scan l q q.source.table c (joins_checked q v) (subst (λ r. after r ≡ ok c) v e)
  | inr (why, v) ↦ cc (subst (λ r. after r ≡ ok c) v e)
]
  where
    after : Result Validate.Error (Unit {0}) → Result Error Compiled
    after r = elim r [ err why ↦ err (refused why) | ok _ ↦ compile_table l q q.source.table ]

-- A query that is compiled was accepted by Validate and has a table.
pub compiled_cases :
    (l : Limits) (q : Query) (c : Compiled)
    → compile l q ≡ ok c
    → (validate q ≡ ok tt)
      × ((t : TableRef) × (joins : Text) × (q.source.table ≡ some t) × (c ≡ statement l q t joins))
unfolding compile compile_table
compiled_cases l q c e = elim (Result-cases (validate q)) [
  | inl (done, v) ↦ (v, table_cases q.source.table refl (subst (λ r. after r ≡ ok c) v e))
  | inr (why, v) ↦ cc (subst (λ r. after r ≡ ok c) v e)
]
  where
    after : Result Validate.Error (Unit {0}) → Result Error Compiled
    after r = elim r [ err why ↦ err (refused why) | ok _ ↦ compile_table l q q.source.table ]

    table_cases :
        (o : Option TableRef)
        → q.source.table ≡ o
        → compile_table l q o ≡ ok c
        → (t : TableRef) × (joins : Text) × (q.source.table ≡ some t) × (c ≡ statement l q t joins)
    table_cases none s h = cc
    table_cases (some t) s h =
        let (joins, r, same) = >>=-eq-ok (join_texts q.joins) _ h in
        (t, joins, s, sym (ok-injective same))
