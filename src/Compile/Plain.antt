-- ===== src/Compile/Plain.antt =====
-- internal/adapters/postgres_compile.go: texts with no mark of a quotation, of a parameter or of the
-- end of a statement: numbers, words of the source, and the kind of a join that was accepted.
use topbase.Prelude.{
  ℕ, ◌+◌, ◌/◌, ◌%◌, ◌==◌, ltb, length, false, not, ◌&&◌, if◌then◌else◌, append_assoc, Bool-cases,
  inl, inr, ◌≡◌, refl, true, List, [], ◌∷◌, ◌++◌, map, arith, All, all, is_empty, if_either,
  &&-split,
}
use topbase.Text.{Text, codes, lower, lower_rune, upper, upper_rune, one_of}
use topbase.Text.Laws.{one_of-elim}
use topbase.Text.Decimal.{show, show_from, show_from-IsDigit, show-IsDigit, IsDigit}
use topbase.QueryIr.Values.{
  Number, show_number, sprint_number, leading_zeros, without_zeros, without_last_zeros, exponent,
  fraction_digits, mantissa, sprint_size, number_zero,
}
use topbase.QueryIr.Validate.{join_types}
use topbase.Compile.Scan.{
  IsPlain, is_plain, IsSolid, begins, plain-IsSolid, append-IsSolid, before-IsSolid, minus-IsSolid,
}
use topbase.Compile.Select.{join_kind}

append-IsPlain : (s t : Text) → IsPlain s → IsPlain t → IsPlain (s ++ t)
append-IsPlain [] t h k = k
append-IsPlain (c ∷ s) t h k = ground (arith, append-IsPlain s t)

digits-IsPlain : (t : Text) → All IsDigit t → IsPlain t
digits-IsPlain [] h = record { holds = refl }
digits-IsPlain (c ∷ t) h = ground (arith, digits-IsPlain t h.1)

pub show-IsPlain : (n : ℕ) → IsPlain (show n)
show-IsPlain n = digits-IsPlain (show n) (show-IsDigit n)

fraction-IsPlain : (ds : List ℕ) → IsPlain (map (λ d. 48 + d % 10) ds)
fraction-IsPlain [] = record { holds = refl }
fraction-IsPlain (d ∷ ds) = ground (arith, fraction-IsPlain ds)

without_zeros-IsPlain : (t : Text) → IsPlain t → IsPlain (without_zeros t)
without_zeros-IsPlain [] h = h
without_zeros-IsPlain (c ∷ t) h =
    let (p, ps) = &&-split (is_plain c) (all is_plain t) h.holds in
    if_either IsPlain (c == b'0') _ _ (without_zeros-IsPlain t (record { holds = ps })) h

cons-IsPlain : (c : ℕ) (t : Text) → is_plain c ≡ true → IsPlain t → IsPlain (c ∷ t)
cons-IsPlain c t h k = record { holds = rw h k.holds }

without_last_zeros-IsPlain : (t : Text) → IsPlain t → IsPlain (without_last_zeros t)
without_last_zeros-IsPlain [] h = h
without_last_zeros-IsPlain (c ∷ t) h =
    let (p, ps) = &&-split (is_plain c) (all is_plain t) h.holds in
    if_either IsPlain (is_empty (without_last_zeros t) && c == b'0') _ _ (record { holds = refl })
      (cons-IsPlain c (without_last_zeros t) p
        (without_last_zeros-IsPlain t (record { holds = ps })))

mantissa-IsPlain : (t : Text) → IsPlain t → IsPlain (mantissa t)
mantissa-IsPlain [] h = h
mantissa-IsPlain (c ∷ t) h =
    let (p, ps) = &&-split (is_plain c) (all is_plain t) h.holds in
    cons-IsPlain c _ p
      (if_either IsPlain (is_empty t) _ _ (record { holds = refl }) (record { holds = ps }))

exponent-IsPlain : (e : ℕ) → IsPlain (exponent e)
exponent-IsPlain e =
    if_either IsPlain (ltb e 10) _ _ (cons-IsPlain b'0' (show e) refl (show-IsPlain e))
      (show-IsPlain e)

-- A plain text that begins with a digit, and one with a minus sign before it.
unsigned-IsSolid :
    (x : Number)
    → IsSolid (show x.whole ++ (if is_empty x.fraction then [] else codes "." ++ fraction_digits x))
unsigned-IsSolid x = plain-IsSolid (
    append-IsPlain (show x.whole) _ (show-IsPlain x.whole) (
      if_either IsPlain (is_empty x.fraction) _ _ (record { holds = refl })
        (append-IsPlain (codes ".") _ (record { holds = refl }) (fraction-IsPlain x.fraction))))

-- Numerals do not begin with a minus sign, and are not empty.
digits-begins :
    (ds t : Text) → All IsDigit ds → begins b'-' t ≡ false → begins b'-' (ds ++ t) ≡ false
digits-begins [] t h k = k
digits-begins (c ∷ ds) t h k = ground arith

show-begins : (n : ℕ) (rest : Text) → begins b'-' (show n ++ rest) ≡ false
unfolding show show_from
show-begins n rest = elim (Bool-cases (ltb n 10)) [
  | inl small ↦ rw small (ground arith)
  | inr big ↦
      rw (big, append_assoc (show_from n (n / 10)) ((48 + n % 10) ∷ []) rest)
        (digits-begins (show_from n (n / 10)) ((48 + n % 10) ∷ rest) (show_from-IsDigit n (n / 10))
          (ground arith))
]

size-begins : (n : ℕ) (t rest : Text) → begins b'-' ((show n ++ t) ++ rest) ≡ false
size-begins n t rest = rw (append_assoc (show n) t rest) (show-begins n (t ++ rest))

pub show_number-IsSolid : (x : Number) → IsSolid (show_number x)
unfolding show_number
show_number-IsSolid x = elim (Bool-cases x.negative) [
  | inl below ↦ rw below (minus-IsSolid _ (size-begins x.whole _) (unsigned-IsSolid x))
  | inr above ↦ rw above (unsigned-IsSolid x)
]

exponent-begins : (e : ℕ) (rest : Text) → begins b'-' (exponent e ++ rest) ≡ false
exponent-begins e rest =
    if_either (λ t. begins b'-' (t ++ rest) ≡ false) (ltb e 10) _ _ refl (show-begins e rest)

digits_of-IsPlain : (x : Number) → IsPlain (show x.whole ++ fraction_digits x)
digits_of-IsPlain x = append-IsPlain _ _ (show-IsPlain x.whole) (fraction-IsPlain x.fraction)

-- A number with a positive exponent, and one with a negative exponent.
large-IsSolid :
    (x : Number) (e : ℕ)
    → IsSolid (
        mantissa (without_last_zeros (show x.whole ++ fraction_digits x))
        ++ (codes "e+" ++ exponent e))
large-IsSolid x e = plain-IsSolid (
    append-IsPlain _ _ (mantissa-IsPlain _ (without_last_zeros-IsPlain _ (digits_of-IsPlain x)))
      (append-IsPlain (codes "e+") _ (record { holds = refl }) (exponent-IsPlain e)))

small-IsSolid :
    (x : Number) (e : ℕ)
    → IsSolid (
        mantissa (without_last_zeros (without_zeros (fraction_digits x)))
        ++ (codes "e" ++ (b'-' ∷ exponent e)))
small-IsSolid x e =
    append-IsSolid _ _
      (plain-IsSolid (
        mantissa-IsPlain _
          (without_last_zeros-IsPlain _ (without_zeros-IsPlain _ (fraction-IsPlain x.fraction)))))
      (before-IsSolid (codes "e") _ refl
        (minus-IsSolid _ (exponent-begins e) (plain-IsSolid (exponent-IsPlain e))))

sprint_size-IsSolid : (x : Number) → IsSolid (sprint_size x)
unfolding show_number
sprint_size-IsSolid x = if_either IsSolid (ltb 21 (length (show x.whole))) _ _ (large-IsSolid x _) (
    if_either IsSolid
      (x.whole == 0 && not (number_zero x) && ltb 3 (leading_zeros (fraction_digits x))) _ _
      (small-IsSolid x _) (unsigned-IsSolid x))

plain-begins : (t u : Text) → IsPlain t → begins b'-' u ≡ false → begins b'-' (t ++ u) ≡ false
plain-begins [] u h k = k
plain-begins (c ∷ t) u h k =
    let (p, ps) = &&-split (is_plain c) (all is_plain t) h.holds in ground arith

mantissa-begins :
    (t : Text) (c : ℕ) (u rest : Text)
    → IsPlain t
    → (c == b'-') ≡ false
    → begins b'-' ((mantissa t ++ (c ∷ u)) ++ rest) ≡ false
mantissa-begins t c u rest h k =
    rw (append_assoc (mantissa t) (c ∷ u) rest)
      (plain-begins (mantissa t) (c ∷ u ++ rest) (mantissa-IsPlain t h) k)

sprint_size-begins : (x : Number) (rest : Text) → begins b'-' (sprint_size x ++ rest) ≡ false
unfolding show_number
sprint_size-begins x rest =
    let P : Text → Type 0 = λ t. begins b'-' (t ++ rest) ≡ false in
    if_either P (ltb 21 (length (show x.whole))) _ _
      (mantissa-begins _ b'e' _ rest (without_last_zeros-IsPlain _ (digits_of-IsPlain x)) refl)
      (if_either P
        (x.whole == 0 && not (number_zero x) && ltb 3 (leading_zeros (fraction_digits x))) _ _
        (mantissa-begins _ b'e' _ rest
          (without_last_zeros-IsPlain _ (without_zeros-IsPlain _ (fraction-IsPlain x.fraction)))
          refl)
        (size-begins x.whole _ rest))

pub sprint_number-IsSolid : (x : Number) → IsSolid (sprint_number x)
unfolding sprint_number
sprint_number-IsSolid x = elim (Bool-cases x.negative) [
  | inl below ↦ rw below (minus-IsSolid _ (sprint_size-begins x) (sprint_size-IsSolid x))
  | inr above ↦ rw above (sprint_size-IsSolid x)
]

all-IsPlain : (ws : List Text) → all (all is_plain) ws ≡ true → All IsPlain ws
all-IsPlain [] h = tt
all-IsPlain (w ∷ ws) h =
    let (p, ps) = &&-split (all is_plain w) (all (all is_plain) ws) h in
    (record { holds = p }, all-IsPlain ws ps)

-- One of some plain words.
pub one_of-IsPlain :
    (words : List Text) (t : Text)
    → all (all is_plain) words ≡ true
    → one_of words t ≡ true
    → IsPlain t
one_of-IsPlain words t h e = one_of-elim IsPlain words t (all-IsPlain words h) e

-- Lower case turns no mark into a letter, and upper case no letter into a mark.
upper_rune_plain : (c : ℕ) → is_plain (lower_rune c) ≡ true → is_plain (upper_rune c) ≡ true
unfolding lower_rune upper_rune
upper_rune_plain c h = ground arith

upper-IsPlain : (t : Text) → IsPlain (lower t) → IsPlain (upper t)
unfolding lower upper
upper-IsPlain [] h = h
upper-IsPlain (c ∷ t) h =
    let (p, ps) = &&-split (is_plain (lower_rune c)) _ h.holds in
    let ih = upper-IsPlain t (record { holds = ps }) in
    record { holds = rw (upper_rune_plain c p) (ih.holds) }

pub join_kind-IsPlain :
    (type : Text) → one_of join_types (lower type) ≡ true → IsPlain (join_kind type)
unfolding join_kind
join_kind-IsPlain type h =
    if_either IsPlain (is_empty (upper type)) _ _ (record { holds = refl })
      (upper-IsPlain type (one_of-IsPlain join_types (lower type) refl h))
