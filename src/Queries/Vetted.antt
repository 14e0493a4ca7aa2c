-- ===== src/Queries/Vetted.antt =====
-- internal/core/services.go: what RunArgs lets through to the executor.
use topbase.Prelude.{
  ◌≡◌, refl, sym, ◌∙◌, Bool, true, false, not, ◌&&◌, ◌||◌, List, [], ◌∷◌, ◌++◌, map, any,
  Bool-cases, inl, inr, ok, guard, guard-eq-ok, >>-eq-ok, ||-neither, subst, arith,
}
use topbase.Text.{Text, codes, text_eq, one_of, lower, has_prefix, has_rune, trim_space}
use topbase.Text.Laws.{text_eq_iff}
use topbase.Queries.{
  write_words, word_rune, begins_in_word, fold_rune, word_at, has_write, check_statement,
  statement_required, multiple_statements, not_read_only, write_operation,
}

-- Does a word end right before what follows the text?
unfoldable pub ends_in_word : Bool → Text → Bool
ends_in_word inside [] = inside
ends_in_word inside (c ∷ t) = ends_in_word (word_rune c) t

-- A statement that starts with one of three words, has no semicolon, and in which none of the twelve
-- words of writing stands as a whole word, in whatever case. It may still write, as SELECT INTO does and
-- a function may; that is left to the database's read-only transaction.
pub record IsVetted (sql : Text) : Type 0 where
  pub starts :
      (has_prefix (codes "select") (lower (trim_space sql))
        || has_prefix (codes "with") (lower (trim_space sql))
        || has_prefix (codes "explain") (lower (trim_space sql)))
      ≡ true
  pub single : has_rune b';' (lower (trim_space sql)) ≡ false
  pub harmless :
      (front word behind : Text)
      → lower (trim_space sql) ≡ front ++ (word ++ behind)
      → one_of write_words (map fold_rune word) ≡ true
      → (not (ends_in_word false front) && not (begins_in_word behind)) ≡ false

word_at-append :
    (word behind : Text)
    → begins_in_word behind ≡ false
    → word_at (map fold_rune word) (word ++ behind) ≡ true
unfolding word_at
word_at-append [] behind h = rw h refl
word_at-append (c ∷ word) behind h = ground (arith, word_at-append word behind h)

any-one_of :
    (words : List Text) (w t : Text)
    → one_of words w ≡ true
    → word_at w t ≡ true
    → any (λ v. word_at v t) words ≡ true
unfolding one_of
any-one_of [] w t h k = cc
any-one_of (v ∷ words) w t h k = elim (Bool-cases (text_eq w v)) [
  | inl same ↦ rw (sym ((text_eq_iff w v).0 same), k) refl
  | inr other ↦ ground (arith, any-one_of words w t (rw other at h) k)
]

no_empty_word : one_of write_words [] ≡ false
unfolding one_of text_eq
no_empty_word = refl

not-true : (b : Bool) → not b ≡ true → b ≡ false
not-true true h = cc
not-true false h = refl

-- At the start of the text, a word of the list is found.
found_first :
    (inside : Bool) (word behind : Text)
    → has_write inside (word ++ behind) ≡ false
    → one_of write_words (map fold_rune word) ≡ true
    → (not inside && not (begins_in_word behind)) ≡ false
unfolding has_write
found_first inside [] behind h k = cc (sym no_empty_word ∙ k)
found_first inside (c ∷ word) behind h k = elim (Bool-cases (begins_in_word behind)) [
  | inl more ↦ rw more (ground arith)
  | inr over ↦
      let hit =
        any-one_of write_words (map fold_rune (c ∷ word)) ((c ∷ word) ++ behind) k
          (word_at-append (c ∷ word) behind over) in
      ground (arith, h, hit)
]

has_write_sound :
    (inside : Bool) (front word behind : Text)
    → has_write inside (front ++ (word ++ behind)) ≡ false
    → one_of write_words (map fold_rune word) ≡ true
    → (not (ends_in_word inside front) && not (begins_in_word behind)) ≡ false
unfolding ends_in_word has_write
has_write_sound inside [] word behind h k = found_first inside word behind h k
has_write_sound inside (c ∷ front) word behind h k =
    let rest =
      ||-neither (not inside && any (λ w. word_at w (c ∷ front ++ (word ++ behind))) write_words)
        (has_write (word_rune c) (front ++ (word ++ behind))) h in
    has_write_sound (word_rune c) front word behind (rest.1) k

-- What passes the checks.
pub check_statement-IsVetted :
    (database sql : Text) → check_statement database sql ≡ ok tt → IsVetted sql
unfolding check_statement
check_statement-IsVetted database sql h =
    let statement = lower (trim_space sql) in
    let (given, behind) = >>-eq-ok (guard _ statement_required) _ h in
    let (single, later) = >>-eq-ok (guard _ multiple_statements) _ behind in
    let (starts, last) = >>-eq-ok (guard _ not_read_only) _ later in
    let quiet =
      not-true (has_write false statement)
        (guard-eq-ok (not (has_write false statement)) write_operation last) in
    record {
      starts = guard-eq-ok _ not_read_only starts;
      single =
          not-true (has_rune b';' statement)
            (guard-eq-ok (not (has_rune b';' statement)) multiple_statements single);
      harmless = λ front word behind e k.
          has_write_sound false front word behind (subst (λ t. has_write false t ≡ false) e quiet)
            k;
    }
