-- ===== src/Compile/Numbering.antt =====
-- internal/adapters/postgres_compile.go: the parameters that postgresFilters writes are numbered on
-- from the arguments bound before.
use topbase.Prelude.{
  ℕ, refl, List, [], ◌∷◌, ◌++◌, Option, none, some, is_empty, Bool-cases, inl, inr, length,
}
use topbase.Text.{Text, codes, join, lower, lookup}
use topbase.Text.Laws.{OnSome, lookup-OnSome}
use topbase.QueryIr.{Condition, Filter, Filters, filter, nil, cons}
use topbase.QueryIr.Values.{Value}
use topbase.QueryIr.Identifier.{quote_path}
use topbase.Compile.Scan.{scan, step}
use topbase.Compile.Operators.{IsNumbered, AreNumbered, IsOperator, operators-IsOperator}
use topbase.Compile.Fragments.{IsPiece, append-IsPiece, solid-IsPiece, join-IsPiece}
use topbase.Compile.Filters.{
  Bound, Operator, operators, postgres_condition, conjunction, disjunction, add_part, filter_parts,
  postgres_filter, postgres_filters,
}

applied-IsNumbered :
    (o : Option Operator) (name : Text) (v : Value) (args : List Value)
    → OnSome IsOperator o
    → IsNumbered args (elim o [ none ↦ none | some f ↦ f (quote_path name) v args ])
unfolding IsOperator
applied-IsNumbered none name v args h = tt
applied-IsNumbered (some f) name v args h = h name v args

condition-IsNumbered :
    (c : Condition) (args : List Value) → IsNumbered args (postgres_condition c args)
unfolding postgres_condition
condition-IsNumbered c args =
    applied-IsNumbered (lookup (lower c.op) operators) c.field c.value args
      (lookup-OnSome IsOperator (lower c.op) operators operators-IsOperator)

bracket-IsPiece : (a b : ℕ) (t : Text) → IsPiece a t b → IsPiece a (codes "(" ++ (t ++ codes ")")) b
unfolding scan step
bracket-IsPiece a b t h =
    append-IsPiece a a b (codes "(") _ (solid-IsPiece a _ refl (record { runs = λ n rest. refl }))
      (append-IsPiece a b b t _ h (solid-IsPiece b _ refl (record { runs = λ n rest. refl })))

conjunction-IsNumbered :
    (args : List Value) (r : List Text × List Value)
    → AreNumbered args r
    → IsNumbered args (conjunction r)
unfolding conjunction scan step
conjunction-IsNumbered args (parts, out) h =
    elim (Bool-cases (is_empty (join (codes " AND ") parts))) [
      | inl none' ↦ rw none' tt
      | inr some' ↦ rw some' (
          bracket-IsPiece _ _ _
            (join-IsPiece (codes " AND ") _ _ parts refl (record { runs = λ n rest. refl }) h))
    ]

disjunction-IsNumbered :
    (args : List Value) (r : List Text × List Value)
    → AreNumbered args r
    → IsNumbered args (disjunction r)
unfolding disjunction scan step
disjunction-IsNumbered args ([], out) h = tt
disjunction-IsNumbered args (part ∷ parts, out) h =
    bracket-IsPiece _ _ _
      (join-IsPiece (codes " OR ") _ _ (part ∷ parts) refl (record { runs = λ n rest. refl }) h)

add_part-AreNumbered :
    (r : Bound) (args : List Value) (rest : List Value → List Text × List Value)
    → IsNumbered args r
    → ((next : List Value) → AreNumbered next (rest next))
    → AreNumbered args (add_part r args rest)
unfolding add_part
add_part-AreNumbered none args rest h k = k args
add_part-AreNumbered (some (part, next)) args rest h k = (length next, h, k next)

mutual
  unfolding filter_parts postgres_filter

  filter_parts-AreNumbered :
      (fs : Filters) (args : List Value) → AreNumbered args (filter_parts fs args)
  filter_parts-AreNumbered nil args = refl
  filter_parts-AreNumbered (cons f fs) args =
      add_part-AreNumbered (postgres_filter f args) args (filter_parts fs)
        (filter-IsNumbered f args) (filter_parts-AreNumbered fs)

  filter-IsNumbered : (f : Filter) (args : List Value) → IsNumbered args (postgres_filter f args)
  filter-IsNumbered (filter c (cons f fs) ors) args =
      conjunction-IsNumbered args _ (filter_parts-AreNumbered (cons f fs) args)
  filter-IsNumbered (filter c nil (cons f fs)) args =
      disjunction-IsNumbered args _ (filter_parts-AreNumbered (cons f fs) args)
  filter-IsNumbered (filter c nil nil) args = condition-IsNumbered c args

-- postgresFilters numbers its parameters on from the arguments that it is given.
pub filters-IsPiece :
    (fs : Filters) (args : List Value)
    → IsPiece (length args) (postgres_filters fs args).0 (length (postgres_filters fs args).1)
unfolding postgres_filters scan step
filters-IsPiece fs args =
    join-IsPiece (codes " AND ") _ _ (filter_parts fs args).0 refl
      (record { runs = λ n rest. refl }) (filter_parts-AreNumbered fs args)
