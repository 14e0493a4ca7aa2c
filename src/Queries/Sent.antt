-- ===== src/Queries/Sent.antt =====
-- internal/app/query: what the services of this folder send to the executor.
use topbase.Prelude.{
  ◌≤◌, ◌≡◌, refl, ◌⊎◌, find, List, [], ◌∷◌, length, Option, some, Result-cases, inl, inr, Result,
  ok, err, All, arith,
}
use topbase.Text.{Text, text_eq}
use topbase.QueryIr.{Query}
use topbase.QueryIr.Values.{ℤ, Value}
use topbase.Compile.Statement.{Compiled}
use topbase.Charts.{ChartSpec}
use topbase.Dashboards.{Card, Dashboard}
use topbase.Params.Native.{Assignment, apply_native}
use topbase.Params.Mapped.{MappedValue, apply_mapped_filters}
use topbase.Collections.{Question, Shelf, question_by_id}
use topbase.Queries.{QueryResult, Call, Traced, check_statement, run_checked, run_args}
use topbase.Queries.Vetted.{IsVetted, check_statement-IsVetted}
use topbase.Queries.Dataset.{
  DatasetService, versioned, expanded, compiled_by, passed_on, then_call, run_compiled, run_query,
}

-- At most one call, and each has the property.
abbrev pub AtMostOne {ℓ} : (Call → Type ℓ) → List Call → Type ℓ
AtMostOne P calls = (length calls ≤ 1) × All P calls

AtMostOne-imply {ℓ κ} :
    {P : Call → Type ℓ} {Q : Call → Type κ} (calls : List Call)
    → ((c : Call) → P c → Q c)
    → AtMostOne P calls
    → AtMostOne Q calls
AtMostOne-imply [] f h = (omega arith, tt)
AtMostOne-imply (c ∷ calls) f (few, (p, h)) =
    (few, (f c p, (AtMostOne-imply calls f (omega (arith, few), h)).1))

module _ {ℓ κ μ ν ρ} {E : Type ℓ} {F : Type κ} {A : Type μ} {B : Type ν} (P : Call → Type ρ) where
  passed_on-calls :
      (f : E → F) (g : A → B) (t : Traced E A)
      → AtMostOne P (t.1)
      → AtMostOne P ((passed_on f g t).1)
  unfolding passed_on
  passed_on-calls f g (err why, calls) h = h
  passed_on-calls f g (ok value, calls) h = h

module _ {ℓ κ μ ρ} {E : Type ℓ} {A : Type κ} {B : Type μ} (P : Call → Type ρ) where
  then_call-calls :
      (r : Result E A) (next : A → Traced E B)
      → ((a : A) → r ≡ ok a → AtMostOne P ((next a).1))
      → AtMostOne P ((then_call r next).1)
  unfolding then_call
  then_call-calls (err why) next h = (omega arith, tt)
  then_call-calls (ok value) next h = h value refl

-- The call of RunArgs is the one it was asked for, with a statement that its checks let through.
run_args-calls :
    (execute : Call → Result Text QueryResult) (now database sql : Text) (args : List Value)
    → AtMostOne
        (λ c. (c ≡ record { database_id = database; sql = sql; args = args }) × IsVetted c.sql)
        ((run_args execute now database sql args).1)
unfolding run_args run_checked
run_args-calls execute now database sql args = elim (Result-cases (check_statement database sql)) [
  | inl (done, e) ↦ rw e (omega arith, ((refl, check_statement-IsVetted database sql e), tt))
  | inr (why, e) ↦ rw e (omega arith, tt)
]

-- A call that stands for the query: of what Expand and then the compiler make of it.
abbrev pub Sent : DatasetService → Query → Call → Type 0
Sent s q c =
    (full : Query) × (compiled : Compiled) × (expanded s.expand (versioned q) ≡ ok full)
    × (compiled_by s.compile full ≡ ok compiled)
    × (c ≡ record {
      database_id = full.source.database_id;
      sql = compiled.sql;
      args = compiled.args;
    })
    × IsVetted c.sql

-- For every query, expander, compiler and executor, DatasetService.Run makes at most one call of the
-- executor. It goes to the database of the expanded query, with the statement and the arguments that
-- the compiler made of that query. The statement starts with select, with or explain, has no semicolon,
-- and none of the twelve words of writing is a word of it; SELECT INTO and functions are not excluded.
pub run_query-Sent :
    (s : DatasetService) (now : Text) (q : Query) → AtMostOne (Sent s q) ((run_query s now q).1)
unfolding run_query run_compiled
run_query-Sent s now q = then_call-calls (Sent s q) (expanded s.expand (versioned q)) _ (λ full e.
    then_call-calls (Sent s q) (compiled_by s.compile full) _ (λ compiled f.
      passed_on-calls (Sent s q) _ _
        (run_args s.execute now full.source.database_id compiled.sql compiled.args)
        (AtMostOne-imply _ (λ c (same, reads). (full, compiled, e, f, same, reads))
          (run_args-calls s.execute now full.source.database_id compiled.sql compiled.args))))

-- A call for a question in native SQL: what ApplyNative makes of it, for some values.
abbrev pub IsNativeCall : (ℤ → Text) → Question → Call → Type 0
IsNativeCall days_before question c =
    (values : Assignment) × (apply_native days_before question.native_sql question.parameters values
      ≡ ok (c.sql, c.args))
    × (c.database_id ≡ question.database_id)
    × IsVetted c.sql

-- A call for a question with a query: it stands for that query with the filters of some values.
abbrev pub IsQueryCall : (ℤ → Text) → DatasetService → Question → Call → Type 0
IsQueryCall days_before s question c =
    (base : Query) × (mapped : List MappedValue) × (q : Query) × (question.query_ir ≡ some base)
    × (apply_mapped_filters days_before base mapped ≡ ok q)
    × Sent s q c

-- A call for a card of a dashboard.
abbrev pub IsCardCall : (ℤ → Text) → DatasetService → Dashboard → Text → Shelf → Call → Type 0
IsCardCall days_before s board id shelf c =
    (card : Card) × (question : Question) × (find (λ k. text_eq k.id id) board.cards ≡ some card)
    × (question_by_id card.question_id shelf ≡ ok question)
    × (IsNativeCall days_before question c ⊎ IsQueryCall days_before s question c)

module _ (chart_of : Text → ChartSpec) (chart_in : Value → Option ChartSpec)
    (days_before : ℤ → Text) (s : DatasetService) (now : Text) where
  module _ (question : Question) (card : Card) (mapped : List MappedValue) where
    abbrev IsEither : Call → Type 0
    IsEither c = IsNativeCall days_before question c ⊎ IsQueryCall days_before s question c
