-- ===== src/Compile/Clauses.antt =====
-- internal/adapters/postgres_compile.go: each clause of a statement, as the scanner of
-- Compile/Scan.antt reads it.
use topbase.Prelude.{
  ℕ, ◌≡◌, refl, true, false, List, [], ◌∷◌, ◌++◌, map, All, all, if_either, All-append,
}
use topbase.Text.{Text, codes, join}
use topbase.QueryIr.{TableRef, Order, Query}
use topbase.QueryIr.Identifier.{quote_path}
use topbase.Compile.Scan.{IsSolid, append-IsSolid, plain-IsSolid, before-IsSolid, is_plain}
use topbase.Compile.Solid.{
  table_name-IsSolid, named-IsSolid, breakout-IsSolid, expr-IsSolid, agg-IsSolid, show-IsSolid,
}
use topbase.Compile.Operators.{quote-IsSolid, quote_path-IsSolid}
use topbase.Compile.Fragments.{IsPiece, append-IsPiece, solid-IsPiece, join-IsSolid, begins_digit}
use topbase.Compile.Select.{postgres_breakout, postgres_expr, postgres_agg, table_name}
use topbase.Compile.Statement.{
  select_list, source_text, group_text, order_text, limit_text, clause, order_item,
}

words-IsSolid : (t : Text) → all is_plain t ≡ true → IsSolid t
words-IsSolid t h = plain-IsSolid (record { holds = h })

-- A list of columns.
map-IsSolid {ℓ} :
    {A : Type ℓ} (f : A → Text) → ((a : A) → IsSolid (f a)) → (xs : List A) → All IsSolid (map f xs)
map-IsSolid f h [] = tt
map-IsSolid f h (x ∷ xs) = (h x, map-IsSolid f h xs)

list-IsSolid : (ts : List Text) → All IsSolid ts → IsSolid (join (codes ", ") ts)
list-IsSolid ts h = join-IsSolid (codes ", ") ts (words-IsSolid (codes ", ") refl) h

pub select_list-IsSolid : (q : Query) → IsSolid (select_list q)
unfolding select_list
select_list-IsSolid q = if_either IsSolid _ _ _ (words-IsSolid (codes "*") refl) (
    list-IsSolid _ (
      All-append IsSolid _ _
        (map-IsSolid _ (λ b. named-IsSolid (postgres_breakout b) _ (breakout-IsSolid b)) q.group_by)
        (All-append IsSolid _ _ (map-IsSolid quote_path quote_path-IsSolid _) (
          All-append IsSolid _ _
            (map-IsSolid _ (λ e. named-IsSolid (postgres_expr e) _ (expr-IsSolid e)) q.expressions)
            (map-IsSolid postgres_agg agg-IsSolid q.aggregations)))))

pub source_text-IsSolid : (q : Query) (t : TableRef) → IsSolid (source_text q t)
unfolding source_text
source_text-IsSolid q t = append-IsSolid (table_name t) _ (table_name-IsSolid t) (
    if_either IsSolid _ _ _ (words-IsSolid [] refl)
      (before-IsSolid (codes " AS ") _ refl (quote-IsSolid _)))

grouped-IsSolid :
    (ts : List Text) → All IsSolid ts → IsSolid (codes " GROUP BY " ++ join (codes ", ") ts)
grouped-IsSolid ts h = before-IsSolid (codes " GROUP BY ") _ refl (list-IsSolid ts h)

order_item-IsSolid : (o : Order) → IsSolid (order_item o)
unfolding order_item
order_item-IsSolid o = append-IsSolid (quote_path o.field) _ (quote_path-IsSolid o.field) (
    if_either IsSolid _ _ _ (words-IsSolid (codes " DESC") refl)
      (words-IsSolid (codes " ASC") refl))

ordered-IsSolid :
    (os : List Order) → IsSolid (codes " ORDER BY " ++ join (codes ", ") (map order_item os))
ordered-IsSolid os =
    before-IsSolid (codes " ORDER BY ") _ refl
      (list-IsSolid _ (map-IsSolid order_item order_item-IsSolid os))

-- The clauses that bind no parameter, between those that do.
pub group_text-IsPiece : (q : Query) (n : ℕ) → IsPiece n (group_text q) n
unfolding group_text
group_text-IsPiece q n =
    if_either (λ t. IsPiece n t n) _ _ _
      (solid-IsPiece n _ refl (grouped-IsSolid _ (map-IsSolid _ breakout-IsSolid q.group_by)))
      (if_either (λ t. IsPiece n t n) _ _ _
        (solid-IsPiece n _ refl (grouped-IsSolid _ (map-IsSolid _ quote_path-IsSolid q.fields)))
        (solid-IsPiece n [] refl (words-IsSolid [] refl)))

pub order_text-IsPiece : (os : List Order) (n : ℕ) → IsPiece n (order_text os) n
unfolding order_text
order_text-IsPiece [] n = solid-IsPiece n [] refl (words-IsSolid [] refl)
order_text-IsPiece (o ∷ os) n = solid-IsPiece n _ refl (ordered-IsSolid (o ∷ os))

pub limit_text-IsPiece : (limit n : ℕ) → IsPiece n (limit_text limit) n
unfolding limit_text
limit_text-IsPiece limit n =
    if_either (λ t. IsPiece n t n) _ _ _
      (solid-IsPiece n _ refl (before-IsSolid (codes " LIMIT ") _ refl (show-IsSolid limit)))
      (solid-IsPiece n [] refl (words-IsSolid [] refl))

pub clause-IsPiece :
    (word t : Text) (a b : ℕ)
    → begins_digit word ≡ false
    → all is_plain word ≡ true
    → IsPiece a t b
    → IsPiece a (clause word t) b
unfolding clause
clause-IsPiece word [] a b e h k = k
clause-IsPiece word (c ∷ t) a b e h k =
    append-IsPiece a a b word (c ∷ t) (solid-IsPiece a word e (words-IsSolid word h)) k
