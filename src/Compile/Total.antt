-- ===== src/Compile/Total.antt =====
-- internal/adapters/postgres_compile.go: which queries the compiler accepts.
use topbase.Prelude.{
  ◌≡◌, refl, Bool, true, false, not, ◌&&◌, List, [], ◌∷◌, ◌++◌, Option, none, some, if◌then◌else◌,
  is_empty, all, ok, ◌>>◌, guard, each, >>-eq-ok,
}
use topbase.Text.{Text, codes, one_of, lower}
use topbase.QueryIr.{Query, TableRef, Join, JoinCondition}
use topbase.QueryIr.Validate.{
  validate, validate_source, validate_body, check_join, check_join_table, join_types,
  unsupported_join,
}
use topbase.Compile.Select.{postgres_conditions, postgres_join, condition_text, join_text}
use topbase.Compile.Statement.{Limits, Compiled, join_texts, statement, compile_table, compile}

-- An operator that a join may have, "" standing for "=".
abbrev pub supported : JoinCondition → Bool
supported c = one_of (codes "=" ∷ codes "<>" ∷ []) (if is_empty c.op then codes "=" else c.op)

abbrev pub joinable : Join → Bool
joinable j = not (is_empty j.conditions) && all supported j.conditions

both_true : (a b : Bool) → (a && b) ≡ true → (a ≡ true) × (b ≡ true)
both_true true b h = (refl, h)
both_true false b h = cc

conditions_total :
    (cs : List JoinCondition)
    → all supported cs ≡ true
    → (on : List Text) × (postgres_conditions cs ≡ ok on)
unfolding postgres_conditions
conditions_total [] h = ([], refl)
conditions_total (c ∷ cs) h =
    let (first, others) = both_true (supported c) (all supported cs) h in
    let (on, done) = conditions_total cs others in
    (condition_text c (if is_empty c.op then codes "=" else c.op) ∷ on, rw (first, done))

given_table : (o : Option TableRef) → check_join_table o ≡ ok tt → (t : TableRef) × (o ≡ some t)
unfolding check_join_table
given_table none h = cc
given_table (some t) h = (t, refl)

table_checked : (j : Join) → check_join j ≡ ok tt → check_join_table j.table ≡ ok tt
unfolding check_join
table_checked j checked =
    let (_, behind) =
      >>-eq-ok (guard (one_of join_types (lower j.type)) (unsupported_join j.type)) _ checked in
    (>>-eq-ok (check_join_table j.table) _ behind).0

join_total :
    (j : Join)
    → check_join j ≡ ok tt
    → joinable j ≡ true
    → (text : Text) × (postgres_join j ≡ ok text)
unfolding postgres_join join_text
join_total j checked h =
    let (has, supports) = both_true (not (is_empty j.conditions)) (all supported j.conditions) h in
    let (t, table) = given_table j.table (table_checked j checked) in
    let (on, done) = conditions_total j.conditions supports in
    (join_text j t on, rw (postgres_join, table, has, done))

joins_total :
    (js : List Join)
    → each check_join js ≡ ok tt
    → all joinable js ≡ true
    → (text : Text) × (join_texts js ≡ ok text)
unfolding join_texts
joins_total [] checked h = ([], refl)
joins_total (j ∷ js) checked h =
    let (here, there) = both_true (joinable j) (all joinable js) h in
    let (first, others) = >>-eq-ok (check_join j) (each check_join js) checked in
    let (text, done) = join_total j first here in
    let (rest, more) = joins_total js others there in (codes " " ++ (text ++ rest), rw (done, more))

-- The compiler gives a statement for every query that Query.Validate accepts, that has a table, and
-- whose joins have conditions with the operators = and <>.
pub compile_total :
    (l : Limits) (q : Query) (t : TableRef)
    → validate q ≡ ok tt
    → q.source.table ≡ some t
    → all joinable q.joins ≡ true
    → (c : Compiled) × (compile l q ≡ ok c)
unfolding compile_table validate compile statement
compile_total l q t valid table h =
    let (_, rest) =
      >>-eq-ok (validate_source q) (each check_join q.joins >> validate_body q) valid in
    let (joins, done) =
      joins_total q.joins (>>-eq-ok (each check_join q.joins) (validate_body q) rest).0 h in
    (statement l q t joins, rw (compile, valid, table, done))
