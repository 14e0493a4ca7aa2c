-- ===== src/Compile/Joins.antt =====
-- internal/adapters/postgres_compile.go: the JOIN parts of a query that Validate accepts.
use topbase.Prelude.{
  ◌≡◌, refl, true, not, List, [], ◌∷◌, Option, none, some, All, is_empty, if◌then◌else◌, ok, err,
  ◌>>=◌, ◌>>◌, >>=-eq-ok, >>-eq-ok, ok-transport, guard, guard-eq-ok, each,
}
use topbase.Text.{Text, codes, lower, one_of}
use topbase.QueryIr.{JoinCondition, TableRef, Join}
use topbase.QueryIr.Identifier.{quote, quote_path}
use topbase.QueryIr.Validate.{join_types, check_join}
use topbase.Compile.Scan.{IsSolid, IsPlain, append-IsSolid, plain-IsSolid, before-IsSolid}
use topbase.Compile.Plain.{join_kind-IsPlain, one_of-IsPlain}
use topbase.Compile.Solid.{table_name-IsSolid}
use topbase.Compile.Operators.{quote-IsSolid, quote_path-IsSolid}
use topbase.Compile.Fragments.{join-IsSolid}
use topbase.Compile.Select.{
  nil_table, conditions_required, condition_text, postgres_conditions, join_kind, table_name,
  join_text, postgres_join,
}
use topbase.Compile.Statement.{join_texts}

condition_text-IsSolid :
    (c : JoinCondition) (op : Text) → IsPlain op → IsSolid (condition_text c op)
condition_text-IsSolid c op h = append-IsSolid (quote_path c.left) _ (quote_path-IsSolid c.left) (
    before-IsSolid (codes " ") _ refl (
      before-IsSolid op _ h.holds (before-IsSolid (codes " ") _ refl (quote_path-IsSolid c.right))))

conditions-IsSolid :
    (cs : List JoinCondition) (on : List Text) → postgres_conditions cs ≡ ok on → All IsSolid on
unfolding postgres_conditions
conditions-IsSolid [] on e = ok-transport (All IsSolid) e tt
conditions-IsSolid (c ∷ cs) on e =
    let op = if is_empty c.op then codes "=" else c.op in
    let (known, then') = >>-eq-ok _ _ e in
    let (rest, r, same) = >>=-eq-ok (postgres_conditions cs) _ then' in
    ok-transport (All IsSolid) {a = condition_text c op ∷ rest} same (
      condition_text-IsSolid c op
          (one_of-IsPlain (codes "=" ∷ codes "<>" ∷ []) op refl (guard-eq-ok _ _ known)),
      conditions-IsSolid cs rest r,
    )

join_text-IsSolid :
    (j : Join) (t : TableRef) (on : List Text)
    → IsPlain (join_kind j.type)
    → All IsSolid on
    → IsSolid (join_text j t on)
unfolding join_text
join_text-IsSolid j t on h k = before-IsSolid (join_kind j.type) _ h.holds (
    before-IsSolid (codes " JOIN ") _ refl (
      append-IsSolid (table_name t) _ (table_name-IsSolid t) (
        before-IsSolid (codes " AS ") _ refl (
          append-IsSolid (quote _) _ (quote-IsSolid _) (
            before-IsSolid (codes " ON ") _ refl
              (join-IsSolid (codes " AND ") on (plain-IsSolid (record { holds = refl })) k))))))

-- The part of a join that Validate needs for its kind.
kind_checked : (j : Join) → check_join j ≡ ok tt → one_of join_types (lower j.type) ≡ true
unfolding check_join
kind_checked j e = guard-eq-ok _ _ (>>-eq-ok _ _ e).0

table_join-IsSolid :
    (j : Join) (o : Option TableRef) (t : Text)
    → IsPlain (join_kind j.type)
    → (elim o [
      | none ↦ err nil_table
      | some r ↦
          guard (not (is_empty j.conditions)) conditions_required
          >> (postgres_conditions j.conditions >>= λ on. ok (join_text j r on))
    ])
      ≡ ok t
    → IsSolid t
table_join-IsSolid j none t h e = cc
table_join-IsSolid j (some r) t h e =
    let (given, then') = >>-eq-ok _ _ e in
    let (on, r', same) = >>=-eq-ok (postgres_conditions j.conditions) _ then' in
    ok-transport IsSolid same (join_text-IsSolid j r on h (conditions-IsSolid j.conditions on r'))

join-IsSolid_of_checked :
    (j : Join) (t : Text) → check_join j ≡ ok tt → postgres_join j ≡ ok t → IsSolid t
unfolding postgres_join
join-IsSolid_of_checked j t h e =
    table_join-IsSolid j j.table t (join_kind-IsPlain j.type (kind_checked j h)) e

pub join_texts-IsSolid :
    (js : List Join) (t : Text) → each check_join js ≡ ok tt → join_texts js ≡ ok t → IsSolid t
unfolding join_texts
join_texts-IsSolid [] t h e = ok-transport IsSolid e (plain-IsSolid (record { holds = refl }))
join_texts-IsSolid (j ∷ js) t h e =
    let (first, others) = >>-eq-ok (check_join j) (each check_join js) h in
    let (text, p, more) = >>=-eq-ok (postgres_join j) _ e in
    let (rest, r, same) = >>=-eq-ok (join_texts js) _ more in
    ok-transport IsSolid same (
      before-IsSolid (codes " ") _ refl (
        append-IsSolid text rest (join-IsSolid_of_checked j text first p)
          (join_texts-IsSolid js rest others r)))
