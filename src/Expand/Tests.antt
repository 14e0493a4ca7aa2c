-- ===== src/Expand/Tests.antt =====
-- internal/app/query/expand.go at a concrete schema: orders.buyer_id refers to users.id.
use topbase.Prelude.{
  ◌≡◌, refl, inl, inr, true, ◌++◌, List, [], ◌∷◌, some, Result, ok, err, if◌then◌else◌, All, length,
  Bool-cases, ok-transport,
}
use topbase.Text.{Text, codes, text_eq}
use topbase.QueryIr.{TableRef, Join, Filters, nil, cons, filter, leaf}
use topbase.QueryIr.Values.{str, null}
use topbase.Expand.Segments.{
  Error, no_query, foreign_key_required, replace_segments, AreFree, replace_segments-AreFree,
}
use topbase.Expand.Joins.{FieldMeta, FieldRef, join_needed, fill_joins, implicit_join}
use topbase.Expand.Coverage.{IsCovered, join_needed-Covers}
use topbase.Expand.Filling.{complete, fill_joins_complete}

abbrev orders : TableRef
orders = record { schema = codes "public"; name = codes "orders" }

abbrev fields : List FieldMeta
fields =
    record {
      schema = codes "public";
      table = codes "orders";
      name = codes "buyer_id";
      fk_target = some (record { schema = []; table = codes "users"; name = codes "id" });
    }
    ∷ []

abbrev to_users : Join
to_users = record {
  type = codes "left";
  alias = codes "users";
  table = some (record { schema = codes "public"; name = codes "users" });
  conditions =
      record { left = codes "orders.buyer_id"; right = codes "users.id"; op = codes "=" } ∷ [];
  implicit = true;
}

abbrev needed : List Text
needed = codes "users" ∷ codes "orders" ∷ []

joins_users : join_needed orders fields needed [] ≡ ok (to_users ∷ [])
unfolding join_needed text_eq topbase.Expand.Joins.has_join implicit_join
joins_users = refl

join_needed-Covers_example :
    All (IsCovered orders (to_users ∷ [])) needed
    × ((more : List Join) × (to_users ∷ [] ≡ [] ++ more))
join_needed-Covers_example = join_needed-Covers orders fields needed [] (to_users ∷ []) joins_users

refuses_stock :
    join_needed orders fields (codes "stock" ∷ []) [] ≡ err (foreign_key_required (codes "stock"))
unfolding join_needed text_eq topbase.Expand.Joins.has_join implicit_join
refuses_stock = refl

-- The join that a client sends: implicit, inner, and without conditions.
abbrev bare : Join
bare = record to_users { type = codes "inner"; conditions = [] }

fills_bare :
    fill_joins orders fields (bare ∷ []) ≡ ok (record to_users { type = codes "inner" } ∷ [])
unfolding fill_joins implicit_join text_eq
fills_bare = refl

fill_joins_complete_example :
    All (λ j. complete j ≡ true) (record to_users { type = codes "inner" } ∷ [])
    × (length (bare ∷ []) ≡ length (bare ∷ []))
fill_joins_complete_example =
    fill_joins_complete orders fields (bare ∷ []) (record to_users { type = codes "inner" } ∷ [])
      fills_bare

abbrev paid : Filters
paid = cons (leaf (codes "status") (codes "eq") (str (codes "paid"))) nil

abbrev stored : Text → Result Error Filters
stored id = if text_eq id (codes "paid") then ok paid else err no_query

abbrev by_segment : Filters
by_segment =
    cons (filter (record { field = []; op = []; value = null; segment_id = codes "paid" }) nil nil)
      nil

paid-AreFree : AreFree paid
unfolding AreFree
paid-AreFree = ((refl, (tt, tt)), tt)

stored-AreFree : (id : Text) (fs : Filters) → stored id ≡ ok fs → AreFree fs
stored-AreFree id fs e = elim (Bool-cases (text_eq id (codes "paid"))) [
  | inl known ↦ ok-transport AreFree (rw known at e) paid-AreFree
  | inr other ↦ cc (rw other at e)
]

replaces_segment : replace_segments stored by_segment ≡ ok paid
unfolding replace_segments text_eq
replaces_segment = refl

replace_segments-AreFree_example : AreFree paid
replace_segments-AreFree_example =
    replace_segments-AreFree stored stored-AreFree by_segment paid replaces_segment
