-- ===== src/Compile/Operators.antt =====
-- internal/adapters/postgres_compile.go: each operator of postgresFilter numbers its parameters on
-- from the arguments bound before.
use topbase.Prelude.{
  ℕ, ◌+◌, ◌≡◌, refl, subst, false, List, [], ◌∷◌, ◌++◌, map, arith, none, some, All, length,
  length-append,
}
use topbase.Text.{Text, codes, split, join}
use topbase.Text.Laws.{split_cases}
use topbase.QueryIr.Values.{Value, str, sprint, filter_values}
use topbase.QueryIr.Identifier.{quote, quote_path}
use topbase.Compile.Scan.{IsSolid, append-IsSolid, ident-IsSolid, scan, step}
use topbase.Compile.Fragments.{
  IsPiece, ArePieces, append-IsPiece, solid-IsPiece, placeholder-IsPiece, join-IsPiece,
  join-IsSolid, begins_digit,
}
use topbase.Compile.Filters.{
  placeholder, Bound, bind_one, bind_each, bind_two, bind_list, Operator, compared, matched, tested,
  tested_twice, operators,
}

pub quote-IsSolid : (name : Text) → IsSolid (quote name)
unfolding quote
quote-IsSolid name = ident-IsSolid name

quotes-IsSolid : (parts : List Text) → All IsSolid (map quote parts)
quotes-IsSolid [] = tt
quotes-IsSolid (part ∷ parts) = (quote-IsSolid part, quotes-IsSolid parts)

pub quote_path-IsSolid : (name : Text) → IsSolid (quote_path name)
unfolding quote_path scan step
quote_path-IsSolid name =
    join-IsSolid (codes ".") _ (record { runs = λ n rest. refl }) (quotes-IsSolid (split b'.' name))

join_quotes_head :
    (part : Text) (parts : List Text)
    → (t : Text) × (join (codes ".") (map quote (part ∷ parts)) ≡ b'"' ∷ t)
unfolding quote join
join_quotes_head part [] = (_, refl)
join_quotes_head part (next ∷ parts) = (_, refl)

quote_path_head : (name : Text) → (t : Text) × (quote_path name ≡ b'"' ∷ t)
unfolding quote_path
quote_path_head name =
    let (part, parts, e) = split_cases b'.' name in rw e (join_quotes_head part parts)

-- What a filter adds: its parameters go on from those bound before, and all its arguments are kept.
abbrev pub IsNumbered : List Value → Bound → Type 0
IsNumbered args none = Unit
IsNumbered args (some (part, out)) = IsPiece (length args) part (length out)

abbrev pub AreNumbered : List Value → List Text × List Value → Type 0
AreNumbered args (parts, out) = ArePieces (length args) parts (length out)

bind_one-IsNumbered :
    (before after : Text) (v : Value) (args : List Value)
    → ((n : ℕ) → IsPiece n before n)
    → ((n : ℕ) → IsPiece n after n)
    → IsNumbered args (bind_one before after v args)
unfolding bind_one
bind_one-IsNumbered before after v args h k = rw (length-append args (v ∷ [])) (
    append-IsPiece (length args) (length args) (length args + 1) before _ (h (length args)) (
      append-IsPiece (length args) (length args + 1) (length args + 1) _ after
        (placeholder-IsPiece (length args)) (k (length args + 1))))

bind_each-AreNumbered : (vs args : List Value) → AreNumbered args (bind_each vs args)
unfolding bind_each
bind_each-AreNumbered [] args = refl
bind_each-AreNumbered (v ∷ vs) args = (
  length args + 1,
  placeholder-IsPiece (length args),
  rw (length-append args (v ∷ [])) at (bind_each-AreNumbered vs (args ++ v ∷ [])),
)

field-IsPiece :
    (name after : Text) → IsSolid after → (n : ℕ) → IsPiece n (quote_path name ++ after) n
field-IsPiece name after h n =
    let (t, e) = quote_path_head name in
    solid-IsPiece n (quote_path name ++ after) (rw e refl)
      (append-IsSolid (quote_path name) after (quote_path-IsSolid name) h)

name-IsPiece : (name : Text) (n : ℕ) → IsPiece n (quote_path name) n
name-IsPiece name n =
    let (t, e) = quote_path_head name in
    solid-IsPiece n (quote_path name) (rw e refl) (quote_path-IsSolid name)

unfoldable pub IsOperator : Operator → Type 0
IsOperator f =
    (name : Text) (v : Value) (args : List Value) → IsNumbered args (f (quote_path name) v args)

compared-IsOperator : (sign : Text) → IsSolid sign → IsOperator (compared sign)
unfolding IsOperator
compared-IsOperator sign h name v args =
    bind_one-IsNumbered (quote_path name ++ sign) [] v args (field-IsPiece name sign h)
      (λ n. solid-IsPiece n [] refl (record { runs = λ n rest. refl }))

matched-IsOperator :
    (before after : Text)
    → IsSolid before
    → IsSolid after
    → begins_digit after ≡ false
    → IsOperator (matched before after)
unfolding IsOperator
matched-IsOperator before after h k e name v args =
    bind_one-IsNumbered (quote_path name ++ before) after (str (sprint v)) args
      (field-IsPiece name before h) (λ n. solid-IsPiece n after e k)

tested-IsOperator : (test : Text) → IsSolid test → IsOperator (tested test)
unfolding IsOperator
tested-IsOperator test h name v args = field-IsPiece name test h (length args)

tested_twice-IsOperator :
    (middle last : Text) → IsSolid middle → IsSolid last → IsOperator (tested_twice middle last)
unfolding IsOperator scan step
tested_twice-IsOperator middle last h k name v args = solid-IsPiece (length args) _ refl (
    append-IsSolid (codes "(") _ (record { runs = λ n rest. refl })
      (append-IsSolid (quote_path name) _ (quote_path-IsSolid name) (
        append-IsSolid middle _ h
          (append-IsSolid (quote_path name) last (quote_path-IsSolid name) k))))

placeholder_after : (n : ℕ) → IsPiece (n + 1) (placeholder (n + 2)) (n + 2)
placeholder_after n =
    let e : n + 1 + 1 ≡ n + 2 = omega arith in
    subst (λ k. IsPiece (n + 1) (placeholder k) k) e (placeholder-IsPiece (n + 1))

bind_two-IsNumbered :
    (name : Text) (vs args : List Value) → IsNumbered args (bind_two (quote_path name) vs args)
unfolding bind_two scan step
bind_two-IsNumbered name [] args = tt
bind_two-IsNumbered name (v ∷ []) args = tt
bind_two-IsNumbered name (v ∷ w ∷ []) args =
    let n = length args in
    rw (length-append args (v ∷ w ∷ [])) (
      append-IsPiece n n (n + 2) (quote_path name) _ (name-IsPiece name n) (
        append-IsPiece n n (n + 2) (codes " BETWEEN ") _
          (solid-IsPiece n _ refl (record { runs = λ n rest. refl }))
          (append-IsPiece n (n + 1) (n + 2) (placeholder (n + 1)) _ (placeholder-IsPiece n) (
            append-IsPiece (n + 1) (n + 1) (n + 2) (codes " AND ") _
              (solid-IsPiece (n + 1) _ refl (record { runs = λ n rest. refl }))
              (placeholder_after n)))))
bind_two-IsNumbered name (v ∷ w ∷ x ∷ vs) args = tt

bind_list-IsNumbered :
    (name op : Text) (vs args : List Value)
    → IsSolid op
    → begins_digit op ≡ false
    → IsNumbered args (bind_list (quote_path name) op vs args)
unfolding bind_list scan step
bind_list-IsNumbered name op [] args h e = tt
bind_list-IsNumbered name op (v ∷ vs) args h e =
    let n = length args in
    let k = length (bind_each (v ∷ vs) args).1 in
    append-IsPiece n n k (quote_path name) _ (name-IsPiece name n) (
      append-IsPiece n n k (codes " ") _ (solid-IsPiece n _ refl (record { runs = λ n rest. refl }))
        (append-IsPiece n n k op _ (solid-IsPiece n op e h) (
          append-IsPiece n n k (codes " (") _
            (solid-IsPiece n _ refl (record { runs = λ n rest. refl }))
            (append-IsPiece n k k (join (codes ", ") (bind_each (v ∷ vs) args).0) _
              (join-IsPiece (codes ", ") n k (bind_each (v ∷ vs) args).0 refl
                (record { runs = λ n rest. refl }) (bind_each-AreNumbered (v ∷ vs) args))
              (solid-IsPiece k (codes ")") refl (record { runs = λ n rest. refl }))))))

pub operators-IsOperator : All (λ entry. IsOperator entry.1) operators
unfolding scan step IsOperator
operators-IsOperator = (
  compared-IsOperator _ (record { runs = λ n rest. refl }),
  (
    compared-IsOperator _ (record { runs = λ n rest. refl }),
    (
      compared-IsOperator _ (record { runs = λ n rest. refl }),
      (
        compared-IsOperator _ (record { runs = λ n rest. refl }),
        (
          compared-IsOperator _ (record { runs = λ n rest. refl }),
          (
            compared-IsOperator _ (record { runs = λ n rest. refl }),
            (
              matched-IsOperator _ _ (record { runs = λ n rest. refl })
                  (record { runs = λ n rest. refl }) refl,
              (
                matched-IsOperator _ _ (record { runs = λ n rest. refl })
                    (record { runs = λ n rest. refl }) refl,
                (
                  matched-IsOperator _ _ (record { runs = λ n rest. refl })
                      (record { runs = λ n rest. refl }) refl,
                  (
                    matched-IsOperator _ _ (record { runs = λ n rest. refl })
                        (record { runs = λ n rest. refl }) refl,
                    (
                      tested-IsOperator _ (record { runs = λ n rest. refl }),
                      (
                        tested-IsOperator _ (record { runs = λ n rest. refl }),
                        (
                          tested_twice-IsOperator (codes " IS NULL OR ") (codes " = '')")
                              (record { runs = λ n rest. refl }) (record { runs = λ n rest. refl }),
                          (
                            tested_twice-IsOperator (codes " IS NOT NULL AND ") (codes " <> '')")
                                (record { runs = λ n rest. refl })
                                (record { runs = λ n rest. refl }),
                            (
                              (λ name v args. bind_two-IsNumbered name (filter_values v) args),
                              (
                                (λ name v args.
                                    bind_list-IsNumbered name (codes "IN") (filter_values v) args
                                      (record { runs = λ n rest. refl }) refl),
                                (
                                  (λ name v args.
                                      bind_list-IsNumbered name (codes "NOT IN") (filter_values v)
                                        args (record { runs = λ n rest. refl }) refl),
                                  tt,
                                ),
                              ),
                            ),
                          ),
                        ),
                      ),
                    ),
                  ),
                ),
              ),
            ),
          ),
        ),
      ),
    ),
  ),
)
