-- ===== src/Params/Native/Opaque.antt =====
-- internal/core/queryir/native.go: the SQL text does not depend on the values of the parameters.
use topbase.Prelude.{
  ℕ, ◌≡◌, refl, ap, sym, ◌∙◌, Bool, true, false, not, arith, ◌&&◌, ◌||◌, List, [], ◌∷◌, ◌++◌, all,
  if◌then◌else◌, Option, none, some, Result, ok, err, length, length-append, is_empty, Bool-cases,
  inl, inr,
}
use topbase.Text.{Text, codes, text_eq, lower, lookup, trim_space}
use topbase.QueryIr.{Parameter}
use topbase.QueryIr.Values.{ℤ, Value}
use topbase.QueryIr.Identifier.{is_path, quote_path}
use topbase.Params.Dates.{DateError, parse_date_value}
use topbase.Params.Tokens.{Piece, rune, block, pieces, Token, literal, hole, tokens, holes}
use topbase.Params.Native.{
  Error, Assignment, is_given, keep_block, without_blocks, by_name, Bound, bind, date_range, dated,
  is_nil, field_sql, native_field_sql, plain_sql, hole_sql, in_front, and_then, substitute, trimmed,
  apply_native,
}

-- The text of a result, and how many arguments it binds.
abbrev pub text_of : Result Error Bound → Result Error (Text × ℕ)
text_of (ok (sql, args)) = ok (sql, length args)
text_of (err why) = err why

abbrev ends_of : Result DateError (Text × Text) → Result DateError (Bool × Bool)
ends_of (ok (first, last)) = ok (is_empty first, is_empty last)
ends_of (err why) = err why

-- Is the parameter a field, whose value is compared, and is it a date?
abbrev is_field : Parameter → Bool
is_field p = text_eq p.type (codes "field") || not (is_empty p.field)

abbrev pub reads_date : Parameter → Bool
reads_date p = is_field p && text_eq (lower p.type) (codes "date")

module _ (days_before : ℤ → Text) where
  abbrev pub date_ends : Option Value → Result DateError (Bool × Bool)
  date_ends none = ok (true, true)
  date_ends (some v) = ends_of (parse_date_value days_before v)

  abbrev nil_or_none : Option Value → Bool
  nil_or_none none = true
  nil_or_none (some v) = is_nil v

  -- Two values of a parameter that may differ, but not in whether they are there or nil, nor, where
  -- the parameter is a field with a date, in whether there are a first and a last day.
  pub record AreAlike (p : Parameter) (o o' : Option Value) : Type 0 where
    pub given : is_given o ≡ is_given o'
    pub nils : nil_or_none o ≡ nil_or_none o'
    pub ends : reads_date p ≡ true → date_ends o ≡ date_ends o'

bind-text_of :
    (before : Text) (v v' : Value) (args args' : List Value)
    → length args ≡ length args'
    → text_of (ok (bind before v args)) ≡ text_of (ok (bind before v' args'))
unfolding bind
bind-text_of before v v' args args' h = simp (length-append, h)

date_range-text_of :
    (quoted : Text) (a b : Bool) (first first' last last' : Text) (args args' : List Value)
    → length args ≡ length args'
    → text_of (ok (date_range quoted a b first last args))
      ≡ text_of (ok (date_range quoted a b first' last' args'))
unfolding date_range bind
date_range-text_of quoted true true first first' last last' args args' h = simp h
date_range-text_of quoted true false first first' last last' args args' h = simp (length-append, h)
date_range-text_of quoted false true first first' last last' args args' h = simp (length-append, h)
date_range-text_of quoted false false first first' last last' args args' h = simp (length-append, h)

dated-text_of :
    (quoted : Text) (r r' : Result DateError (Text × Text)) (args args' : List Value)
    → ends_of r ≡ ends_of r'
    → length args ≡ length args'
    → text_of (dated quoted r args) ≡ text_of (dated quoted r' args')
unfolding dated
dated-text_of quoted (err why) (err why') args args' e h = cc
dated-text_of quoted (err why) (ok days) args args' e h = cc
dated-text_of quoted (ok days) (err why) args args' e h = cc
dated-text_of quoted (ok (first, last)) (ok (first', last')) args args' e h =
    let same : (is_empty first ≡ is_empty first') × (is_empty last ≡ is_empty last') =
      ends-injective e in
    rw (same.0, same.1)
      (date_range-text_of quoted (is_empty first') (is_empty last') first first' last last' args
        args' h)
  where
    ends : Result DateError (Bool × Bool) → Bool × Bool
    ends (ok p) = p
    ends (err why) = (true, true)

    ends-injective :
        {a a' b b' : Bool}
        → ◌≡◌ {A = Result DateError (Bool × Bool)} (ok (a, b)) (ok (a', b'))
        → (a ≡ a') × (b ≡ b')
    ends-injective e = (ap (λ r. (ends r).0) e, ap (λ r. (ends r).1) e)

module _ (days_before : ℤ → Text) where
  native_field_sql-text_of :
      (p : Parameter) (field : Text) (o o' : Option Value) (args args' : List Value)
      → is_field p ≡ true
      → AreAlike days_before p o o'
      → length args ≡ length args'
      → text_of (native_field_sql days_before field p.type o args)
        ≡ text_of (native_field_sql days_before field p.type o' args')
  unfolding native_field_sql field_sql
  native_field_sql-text_of p field none none args args' field_p like h = simp h
  native_field_sql-text_of p field none (some v) args args' field_p like h = cc like.given
  native_field_sql-text_of p field (some v) none args args' field_p like h = cc like.given
  native_field_sql-text_of p field (some v) (some v') args args' field_p like h =
      elim (Bool-cases (is_nil v')) [
        | inl nil ↦ rw (like.nils, nil) (simp h)
        | inr there ↦ elim (Bool-cases (text_eq (lower p.type) (codes "date"))) [
          | inl date ↦
              rw (like.nils, there, date)
                (dated-text_of (quote_path field) (parse_date_value days_before v)
                  (parse_date_value days_before v') args args'
                  (like.ends (ground (arith, field_p, date))) h)
          | inr other ↦
              rw (like.nils, there, other)
                (bind-text_of (quote_path field ++ codes " = ") v v' args args' h)
        ]
      ]

  hole_sql-text_of :
      (p : Parameter) (name : Text) (o o' : Option Value) (args args' : List Value)
      → AreAlike days_before p o o'
      → length args ≡ length args'
      → text_of (hole_sql days_before p name o args)
        ≡ text_of (hole_sql days_before p name o' args')
  unfolding hole_sql plain_sql
  hole_sql-text_of p name o o' args args' like h =
      elim (Bool-cases (text_eq p.type (codes "field") || not (is_empty p.field))) [
        | inl field_p ↦ elim (Bool-cases (is_path (if is_empty p.field then name else p.field))) [
          | inl valid ↦
              rw (field_p, valid)
                (native_field_sql-text_of p (if is_empty p.field then name else p.field) o o' args
                  args' field_p like h)
          | inr invalid ↦ rw (field_p, invalid)
        ]
        | inr plain ↦ rw plain (plain_sql-text_of o o' like.given)
      ]
    where
      plain_sql-text_of :
          (o o' : Option Value)
          → is_given o ≡ is_given o'
          → text_of (plain_sql name o args) ≡ text_of (plain_sql name o' args')
      plain_sql-text_of none none g = refl
      plain_sql-text_of none (some v) g = cc
      plain_sql-text_of (some v) none g = cc
      plain_sql-text_of (some v) (some v') g = bind-text_of [] v v' args args' h

-- A text and a count behind another text.
prefixed : Text → Result Error (Text × ℕ) → Result Error (Text × ℕ)
prefixed before (ok (sql, n)) = ok (before ++ sql, n)
prefixed before (err why) = err why

in_front-text_of :
    (before : Text) (r : Result Error Bound)
    → text_of (in_front before r) ≡ prefixed before (text_of r)
unfolding prefixed
in_front-text_of before (ok (sql, args)) = refl
in_front-text_of before (err why) = refl

the_text : Result Error (Text × ℕ) → Text × ℕ
the_text (ok p) = p
the_text (err why) = ([], 0)

and_then-text_of :
    (r r' : Result Error Bound) (k k' : List Value → Result Error Bound)
    → text_of r ≡ text_of r'
    → ((args args' : List Value)
        → length args ≡ length args'
        → text_of (k args) ≡ text_of (k' args'))
    → text_of (and_then r k) ≡ text_of (and_then r' k')
unfolding the_text
and_then-text_of (ok (sql, args)) (ok (sql', args')) k k' e h =
    let same = ap (λ t. (the_text t).0) e in
    in_front-text_of sql (k args)
    ∙ (rw (same, h args args' (ap (λ t. (the_text t).1) e))
        (sym (in_front-text_of sql' (k' args'))))
and_then-text_of (ok p) (err why') k k' e h = cc
and_then-text_of (err why) (ok p) k k' e h = cc
and_then-text_of (err why) (err why') k k' e h = e

module _ (days_before : ℤ → Text) (ps : List Parameter) (values values' : Assignment)
    (like : (name : Text)
      → AreAlike days_before (by_name name ps) (lookup name values) (lookup name values')) where
  substitute-text_of :
      (ts : List Token) (args args' : List Value)
      → length args ≡ length args'
      → text_of (substitute days_before ps values ts args)
        ≡ text_of (substitute days_before ps values' ts args')
  unfolding substitute
  substitute-text_of [] args args' h = simp h
  substitute-text_of (literal c ∷ ts) args args' h =
      in_front-text_of (c ∷ []) (substitute days_before ps values ts args)
      ∙ (rw (substitute-text_of ts args args' h)
          (sym (in_front-text_of (c ∷ []) (substitute days_before ps values' ts args'))))
  substitute-text_of (hole name ∷ ts) args args' h =
      and_then-text_of (hole_sql days_before (by_name name ps) name (lookup name values) args)
        (hole_sql days_before (by_name name ps) name (lookup name values') args')
        (substitute days_before ps values ts) (substitute days_before ps values' ts)
        (hole_sql-text_of days_before (by_name name ps) name (lookup name values)
          (lookup name values') args args' (like name) h)
        (substitute-text_of ts)

  given-alike :
      (names : List Text)
      → all (λ name. is_given (lookup name values)) names
        ≡ all (λ name. is_given (lookup name values')) names
  given-alike [] = refl
  given-alike (name ∷ names) = rw ((like name).given, given-alike names)

  without_blocks-alike :
      (parts : List Piece) → without_blocks values parts ≡ without_blocks values' parts
  unfolding without_blocks keep_block
  without_blocks-alike [] = refl
  without_blocks-alike (rune c ∷ parts) = ap (λ t. c ∷ t) (without_blocks-alike parts)
  without_blocks-alike (block inside ∷ parts) =
      rw (given-alike (holes (tokens inside)), without_blocks-alike parts)

trimmed-text_of :
    (r r' : Result Error Bound)
    → text_of r ≡ text_of r'
    → text_of (trimmed r) ≡ text_of (trimmed r')
unfolding the_text
trimmed-text_of (ok (sql, args)) (ok (sql', args')) e =
    ap (λ t. ok (trim_space (the_text t).0, (the_text t).1)) e
trimmed-text_of (ok p) (err why') e = cc
trimmed-text_of (err why) (ok p) e = cc
trimmed-text_of (err why) (err why') e = e

-- The values of the parameters do not get into the SQL: two assignments that differ in no more than the
-- values that stand under a name give the same text with as many arguments, or the same error. They
-- may not differ in which names have a value, in which of these are nil, and, where the parameter is a
-- field with a date, in whether there is a first day and a last.
pub apply_native_opaque :
    (days_before : ℤ → Text) (sql : Text) (ps : List Parameter) (values values' : Assignment)
    → ((name : Text)
        → AreAlike days_before (by_name name ps) (lookup name values) (lookup name values'))
    → text_of (apply_native days_before sql ps values)
      ≡ text_of (apply_native days_before sql ps values')
unfolding apply_native
apply_native_opaque days_before sql ps values values' like =
    elim (Bool-cases (is_empty (trim_space sql))) [
      | inl nothing ↦ rw nothing
      | inr given ↦
          rw
            (
              given,
              without_blocks-alike days_before ps values values' like (pieces (trim_space sql)),
            )
            (trimmed-text_of
              (substitute days_before ps values
                (tokens (without_blocks values' (pieces (trim_space sql)))) [])
              (substitute days_before ps values'
                (tokens (without_blocks values' (pieces (trim_space sql)))) [])
              (substitute-text_of days_before ps values values' like _ [] [] refl))
    ]
