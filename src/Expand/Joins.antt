-- ===== src/Expand/Joins.antt =====
-- internal/app/query/expand.go: expandImplicitJoins.
use topbase.Prelude.{
  Bool, true, false, not, ◌&&◌, ◌||◌, List, [], ◌∷◌, ◌++◌, Option, none, some, if◌then◌else◌,
  is_empty, any, Result, ok, err, ◌>>=◌,
}
use topbase.Text.{Text, codes, text_eq, split}
use topbase.QueryIr.{Query, TableRef, Join, Filters, filter, nil, cons}
use topbase.Expand.Segments.{Error, foreign_key_required}

-- FieldRef and FieldMeta of internal/core/semantic.go, as far as joins go.
pub record FieldRef : Type 0 where
  pub schema : Text
  pub table : Text
  pub name : Text

pub record FieldMeta : Type 0 where
  pub schema : Text
  pub table : Text
  pub name : Text
  pub fk_target : Option FieldRef

-- The table of `table.column`; any other name has none.
unfoldable pub path_table : Text → Option Text
path_table name = elim (split b'.' name) [ table ∷ column ∷ [] ↦ some table | _ ↦ none ]

-- `if table, _, ok := splitPath(field); ok && table != source`.
unfoldable pub foreign_table : Text → Text → List Text
foreign_table source name = elim (path_table name) [
  | none ↦ []
  | some table ↦ if text_eq table source then [] else table ∷ []
]

unfoldable pub field_tables : Text → List Text → List Text
field_tables source [] = []
field_tables source (f ∷ fs) = foreign_table source f ++ field_tables source fs

unfoldable pub filter_tables : Text → Filters → List Text
filter_tables source nil = []
filter_tables source (cons (filter c ands ors) fs) =
    foreign_table source c.field ++ filter_tables source fs

abbrev implicit_table : Bool → Option TableRef → List Text
implicit_table true (some t) = t.name ∷ []
implicit_table _ _ = []

unfoldable pub join_tables : List Join → List Text
join_tables [] = []
join_tables (j ∷ js) = implicit_table j.implicit j.table ++ join_tables js

-- collectJoinTables, for a query whose source has a table.
unfoldable pub needed_tables : Query → TableRef → List Text
needed_tables q from =
    field_tables from.name q.fields ++ (filter_tables from.name q.filters ++ join_tables q.joins)

abbrev table_is : Option TableRef → Text → Bool
table_is none table = false
table_is (some t) table = text_eq t.name table

unfoldable pub has_join : List Join → Text → Bool
has_join joins table = any (λ j. table_is j.table table || text_eq j.alias table) joins

-- A field of the source's table with a foreign key to the table that is looked for.
targets : Text → Option FieldRef → Bool
targets to none = false
targets to (some r) = text_eq r.table to

unfoldable pub leads_to : TableRef → Text → FieldMeta → Bool
unfolding targets
leads_to from to f =
    text_eq f.schema from.schema && text_eq f.table from.name && targets to f.fk_target

abbrev dotted : Text → Text → Text
dotted table column = table ++ (codes "." ++ column)

unfoldable pub key_join : TableRef → Text → FieldMeta → FieldRef → Join
key_join from to f r = record {
  type = codes "left";
  alias = to;
  table = some (record { schema = if is_empty r.schema then from.schema else r.schema; name = to });
  conditions =
      record { left = dotted from.name f.name; right = dotted to r.name; op = codes "=" } ∷ [];
  implicit = true;
}

unfoldable pub joined : TableRef → Text → FieldMeta → Option FieldRef → Option Join
unfolding key_join
joined from to f none = none
joined from to f (some r) = some (key_join from to f r)

-- implicitJoin.
unfoldable pub implicit_join : TableRef → Text → List FieldMeta → Option Join
unfolding leads_to joined
implicit_join from to [] = none
implicit_join from to (f ∷ fs) =
    let rest = implicit_join from to fs in
    if leads_to from to f then joined from to f f.fk_target else rest

abbrev with_join : Text → (Join → Result Error (List Join)) → Option Join → Result Error (List Join)
with_join table k none = err (foreign_key_required table)
with_join table k (some j) = k j

-- The loop over `needed`, given its keys in the order in which they are visited.
unfoldable pub join_needed :
    TableRef → List FieldMeta → List Text → List Join → Result Error (List Join)
join_needed from fields [] joins = ok joins
join_needed from fields (table ∷ tables) joins =
    let skipped = join_needed from fields tables joins in
    let added =
      with_join table (λ j. join_needed from fields tables (joins ++ j ∷ []))
        (implicit_join from table fields) in
    if text_eq table from.name || has_join joins table then skipped else added

unfoldable pub filled : Join → TableRef → Option Join → Result Error Join
filled j t none = err (foreign_key_required t.name)
filled j t (some k) = ok (record k { type = if is_empty j.type then codes "left" else j.type })

unfoldable pub fill_join : TableRef → List FieldMeta → Join → Option TableRef → Result Error Join
unfolding filled
fill_join from fields j none = ok j
fill_join from fields j (some t) =
    if not j.implicit || not (is_empty j.conditions)
    then ok j
    else filled j t (implicit_join from t.name fields)

-- The loop over q.Joins behind it.
unfoldable pub fill_joins : TableRef → List FieldMeta → List Join → Result Error (List Join)
unfolding fill_join
fill_joins from fields [] = ok []
fill_joins from fields (j ∷ js) = do
  filled ← fill_join from fields j j.table
  rest ← fill_joins from fields js
  ok (filled ∷ rest)
