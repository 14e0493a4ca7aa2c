-- ===== src/Expand/Coverage.antt =====
-- internal/app/query/expand.go: the loop of expandImplicitJoins joins every table that is needed.
use topbase.Prelude.{
  ◌≡◌, sym, subst, ◌∙◌, true, ◌||◌, List, [], ◌∷◌, ◌++◌, Option, none, some, arith, ok,
  append_assoc, append-nil, All, Bool-cases, Option-cases, inl, inr, ok-injective,
}
use topbase.Text.{Text, text_eq}
use topbase.Text.Laws.{text_eq_refl, OnSome}
use topbase.QueryIr.{TableRef, Join}
use topbase.Expand.Joins.{
  FieldRef, FieldMeta, has_join, leads_to, joined, implicit_join, join_needed,
}

-- Covered: the source itself, or a table that a join brings in.
abbrev pub IsCovered : TableRef → List Join → Text → Type 0
IsCovered from joins table = (text_eq table from.name || has_join joins table) ≡ true

has_join-append :
    (joins more : List Join) (table : Text)
    → has_join joins table ≡ true
    → has_join (joins ++ more) table ≡ true
unfolding has_join
has_join-append [] more table h = cc
has_join-append (j ∷ joins) more table h = ground (arith, has_join-append joins more table)

has_join-last :
    (joins : List Join) (j : Join) (table : Text)
    → text_eq j.alias table ≡ true
    → has_join (joins ++ j ∷ []) table ≡ true
unfolding has_join
has_join-last [] j table h = ground arith
has_join-last (k ∷ joins) j table h = ground (arith, has_join-last joins j table h)

joined-alias :
    (from : TableRef) (to : Text) (f : FieldMeta) (o : Option FieldRef) (j : Join)
    → joined from to f o ≡ some j
    → text_eq j.alias to ≡ true
unfolding joined
joined-alias from to f none j e = cc
joined-alias from to f (some r) j e =
    subst (OnSome (λ (k : Join). text_eq k.alias to ≡ true)) e (text_eq_refl to)

implicit_join-alias :
    (from : TableRef) (to : Text) (fields : List FieldMeta) (j : Join)
    → implicit_join from to fields ≡ some j
    → text_eq j.alias to ≡ true
unfolding implicit_join
implicit_join-alias from to [] j e = cc
implicit_join-alias from to (f ∷ fs) j e = elim (Bool-cases (leads_to from to f)) [
  | inl leads ↦ joined-alias from to f f.fk_target j (rw leads at e)
  | inr not ↦ implicit_join-alias from to fs j (rw not at e)
]

-- What the loop has added, and that it has covered the tables.
abbrev Covers : TableRef → List Text → List Join → List Join → Type 0
Covers from tables joins out =
    All (IsCovered from out) tables × ((more : List Join) × (out ≡ joins ++ more))

IsCovered-append :
    (from : TableRef) (joins more : List Join) (table : Text)
    → IsCovered from joins table
    → IsCovered from (joins ++ more) table
IsCovered-append from joins more table h = ground (arith, has_join-append joins more table)

-- If expandImplicitJoins gets through its first loop, in whatever order it visits the tables, then
-- each is the source's or brought in by a join, and the joins of the query are kept as they were, in
-- front.
pub join_needed-Covers :
    (from : TableRef) (fields : List FieldMeta) (tables : List Text) (joins out : List Join)
    → join_needed from fields tables joins ≡ ok out
    → Covers from tables joins out
unfolding join_needed
join_needed-Covers from fields [] joins out e =
    (tt, ([], sym (ok-injective e) ∙ sym (append-nil joins)))
join_needed-Covers from fields (table ∷ tables) joins out e =
    elim (Bool-cases (text_eq table from.name || has_join joins table)) [
      | inl have ↦
          let (rest, (more, same)) =
            join_needed-Covers from fields tables joins out (rw have at e) in
          ((rw same (IsCovered-append from joins more table have), rest), (more, same))
      | inr miss ↦ elim (Option-cases (implicit_join from table fields)) [
        | inl no_key ↦ cc (rw (miss, no_key) at e)
        | inr (j, key) ↦
            let (rest, (more, same)) =
              join_needed-Covers from fields tables (joins ++ j ∷ []) out (rw (miss, key) at e) in
            let new = has_join-last joins j table (implicit_join-alias from table fields j key) in
            let now : IsCovered from (joins ++ j ∷ []) table = ground (arith, new) in
            (
              (rw same (IsCovered-append from (joins ++ j ∷ []) more table now), rest),
              (j ∷ more, same ∙ append_assoc joins (j ∷ []) more),
            )
      ]
    ]
