-- ===== src/Expand/Filling.antt =====
-- internal/app/query/expand.go: the second loop of expandImplicitJoins, and the refusals of the first.
use topbase.Prelude.{
  suc, ◌≡◌, refl, ap, sym, subst, Bool, true, false, not, ◌||◌, List, [], ◌∷◌, ◌++◌, Option, none,
  some, arith, is_empty, ok, err, >>=-eq-ok, ok-transport, All, Bool-cases, Option-cases, inl, inr,
  length, Mem, mem-cons_self, mem-cons_of_mem,
}
use topbase.Text.{Text, text_eq}
use topbase.Text.Laws.{OnSome}
use topbase.QueryIr.{TableRef, Join}
use topbase.Expand.Segments.{Error, foreign_key_required}
use topbase.Expand.Joins.{
  FieldRef, FieldMeta, has_join, leads_to, key_join, joined, implicit_join, join_needed, filled,
  fill_join, fill_joins,
}

abbrev pub no_table : Option TableRef → Bool
no_table none = true
no_table (some t) = false

-- Nothing is left to fill in: the join is explicit, has conditions, or has no table.
abbrev pub complete : Join → Bool
complete j = (not j.implicit || not (is_empty j.conditions)) || no_table j.table

joined-IsComplete :
    (from : TableRef) (to : Text) (f : FieldMeta) (o : Option FieldRef) (j : Join)
    → joined from to f o ≡ some j
    → not (is_empty j.conditions) ≡ true
unfolding joined key_join
joined-IsComplete from to f none j e = cc
joined-IsComplete from to f (some r) j e =
    subst (OnSome (λ (k : Join). not (is_empty k.conditions) ≡ true)) e refl

implicit_join-conditions :
    (from : TableRef) (to : Text) (fields : List FieldMeta) (j : Join)
    → implicit_join from to fields ≡ some j
    → not (is_empty j.conditions) ≡ true
unfolding implicit_join
implicit_join-conditions from to [] j e = cc
implicit_join-conditions from to (f ∷ fs) j e = elim (Bool-cases (leads_to from to f)) [
  | inl leads ↦ joined-IsComplete from to f f.fk_target j (rw leads at e)
  | inr not ↦ implicit_join-conditions from to fs j (rw not at e)
]

-- A join whose table the fields lead to.
filled-complete :
    (j : Join) (t : TableRef) (o : Option Join) (out : Join)
    → ((k : Join) → o ≡ some k → not (is_empty k.conditions) ≡ true)
    → filled j t o ≡ ok out
    → complete out ≡ true
unfolding filled
filled-complete j t none out h e = cc
filled-complete j t (some k) out h e =
    ok-transport (λ (x : Join). complete x ≡ true) e (let has = h k refl in ground arith)

fill_join-complete :
    (from : TableRef) (fields : List FieldMeta) (j : Join) (o : Option TableRef) (out : Join)
    → o ≡ j.table
    → fill_join from fields j o ≡ ok out
    → complete out ≡ true
unfolding fill_join
fill_join-complete from fields j none out same e =
    ok-transport (λ (x : Join). complete x ≡ true) e (rw (sym same) (ground arith))
fill_join-complete from fields j (some t) out same e =
    elim (Bool-cases (not j.implicit || not (is_empty j.conditions))) [
      | inl kept ↦ ok-transport (λ (x : Join). complete x ≡ true) (rw kept at e) (ground arith)
      | inr implicit ↦
          filled-complete j t (implicit_join from t.name fields) out
            (implicit_join-conditions from t.name fields) (rw implicit at e)
    ]

abbrev IsFilling : List Join → List Join → Type 0
IsFilling js out = All (λ j. complete j ≡ true) out × (length out ≡ length js)

-- If expandImplicitJoins gets through its second loop, then there are as many joins as before, and no
-- implicit join that has a table is left without conditions.
pub fill_joins_complete :
    (from : TableRef) (fields : List FieldMeta) (js out : List Join)
    → fill_joins from fields js ≡ ok out
    → IsFilling js out
unfolding fill_joins
fill_joins_complete from fields [] out e = ok-transport (IsFilling []) e (tt, refl)
fill_joins_complete from fields (j ∷ js) out e =
    let (k, first, e1) = >>=-eq-ok (fill_join from fields j j.table) _ e in
    let (ks, rest, e2) = >>=-eq-ok (fill_joins from fields js) _ e1 in
    let (all, same) = fill_joins_complete from fields js ks rest in
    ok-transport (IsFilling (j ∷ js)) e2
      ((fill_join-complete from fields j j.table k refl first, all), ap suc same)

-- The first loop refuses a query only for a table it was to visit that no foreign key of the source
-- leads to.
join_needed-refusal :
    (from : TableRef) (fields : List FieldMeta) (tables : List Text) (joins : List Join)
    (why : Error)
    → join_needed from fields tables joins ≡ err why
    → (table : Text) × Mem table tables
      × (implicit_join from table fields ≡ none)
      × (why ≡ foreign_key_required table)
unfolding join_needed
join_needed-refusal from fields [] joins why e = cc
join_needed-refusal from fields (table ∷ tables) joins why e =
    elim (Bool-cases (text_eq table from.name || has_join joins table)) [
      | inl have ↦
          let (t, at, key, same) =
            join_needed-refusal from fields tables joins why (rw have at e) in
          (t, mem-cons_of_mem _ at, key, same)
      | inr miss ↦ elim (Option-cases (implicit_join from table fields)) [
        | inl no_key ↦ (table, mem-cons_self, no_key, cc (rw (miss, no_key) at e))
        | inr (j, key) ↦
            let (t, at, lacks, same) =
              join_needed-refusal from fields tables (joins ++ j ∷ []) why (rw (miss, key) at e) in
            (t, mem-cons_of_mem _ at, lacks, same)
      ]
    ]
