-- ===== src/Queries.antt =====
-- internal/core/services.go and internal/app/query: from a query, a card of a dashboard or a native
-- statement to what the executor is asked, with the calls it gets.
--
-- The executor, core.QueryExecutor, is a parameter: what it answers to a call. The time of the call
-- is a text. A map is a list of its entries, the first under a key counting.
pub mod Vetted
pub mod Dataset
pub mod Cards
pub mod Sent
mod Tests
use topbase.Prelude.{
  ℕ, Bool, true, false, not, ◌&&◌, ◌||◌, List, [], ◌∷◌, ◌++◌, map, if◌then◌else◌, any, Option, none,
  some, leb, ◌==◌, Result, ok, err, ◌>>◌, guard,
}
use topbase.Text.{Text, codes, lower_rune, lower, has_prefix, has_rune, trim_space, is_blank}
use topbase.QueryIr.Values.{Value, str, bool}

pub record QueryResult : Type 0 where
  pub columns : List Text
  pub rows : List (List Value)
  pub meta : List (Text × Value)

-- The arguments of Execute.
pub record Call : Type 0 where
  pub database_id : Text
  pub sql : Text
  pub args : List Value

pub data QueryError : Type 0 where
  statement_required multiple_statements not_read_only write_operation : QueryError
  execution_failed : Text → QueryError

-- What a service returns, with the calls of the executor that it made.
abbrev pub Traced {ℓ κ} : Type ℓ → Type κ → Type (ℓ ⊔ κ)
Traced E A = Result E A × List Call

abbrev pub write_words : List Text
write_words =
    codes "insert"
    ∷ codes "update"
    ∷ codes "delete"
    ∷ codes "merge"
    ∷ codes "drop"
    ∷ codes "alter"
    ∷ codes "create"
    ∷ codes "grant"
    ∷ codes "revoke"
    ∷ codes "copy"
    ∷ codes "call"
    ∷ codes "vacuum"
    ∷ []

-- The runes of \b: ASCII letters, digits and _.
abbrev pub word_rune : ℕ → Bool
word_rune c =
    (leb b'a' c && leb c b'z')
    || (leb b'A' c && leb c b'Z')
    || (leb b'0' c && leb c b'9')
    || c == b'_'

abbrev pub begins_in_word : Text → Bool
begins_in_word [] = false
begins_in_word (c ∷ t) = word_rune c

-- The runes that (?i) makes one, as far as an ASCII letter is among them.
unfoldable pub fold_rune : ℕ → ℕ
fold_rune c = if c == 0x17F then b's' else lower_rune c

-- Does the text go on with the word, and not with more of a word?
unfoldable pub word_at : Text → Text → Bool
unfolding fold_rune
word_at [] t = not (begins_in_word t)
word_at (a ∷ w) [] = false
word_at (a ∷ w) (c ∷ t) = a == fold_rune c && word_at w t

-- The regular expression's search; the flag tells whether the rune before is one of a word.
unfoldable pub has_write : Bool → Text → Bool
unfolding word_at
has_write inside [] = false
has_write inside (c ∷ t) =
    (not inside && any (λ w. word_at w (c ∷ t)) write_words) || has_write (word_rune c) t

-- The checks of RunArgs.
unfoldable pub check_statement : Text → Text → Result QueryError (Unit {0})
unfolding has_write
check_statement database sql =
    let statement = lower (trim_space sql) in
    guard (not (is_blank database || is_blank sql)) statement_required
    >> (guard (not (has_rune b';' statement)) multiple_statements
        >> (guard
              (has_prefix (codes "select") statement
                || has_prefix (codes "with") statement
                || has_prefix (codes "explain") statement)
              not_read_only
            >> guard (not (has_write false statement)) write_operation))

module _ (execute : Call → Result Text QueryResult) (now : Text) where
  unfoldable pub answered : Result Text QueryResult → Result QueryError QueryResult
  answered (err why) = err (execution_failed why)
  answered (ok result) = ok (record result {
    meta =
        (codes "executed_at", str now)
        ∷ (codes "cache_hit", bool false)
        ∷ (codes "execution", str (codes "direct"))
        ∷ result.meta;
  })

  unfoldable pub run_checked : Call → Result QueryError (Unit {0}) → Traced QueryError QueryResult
  unfolding answered
  run_checked call (err why) = (err why, [])
  run_checked call (ok passed) = (answered (execute call), call ∷ [])

  unfoldable pub run_args : Text → Text → List Value → Traced QueryError QueryResult
  unfolding run_checked check_statement
  run_args database sql args =
      run_checked (record { database_id = database; sql = sql; args = args })
        (check_statement database sql)
