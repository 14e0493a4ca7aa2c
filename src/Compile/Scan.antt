-- ===== src/Compile/Scan.antt =====
-- A scanner of SQL, written without regard to the compiler of
-- internal/adapters/postgres_compile.go: it keeps to the rules of PostgreSQL for quoted identifiers,
-- quoted literals and numbered parameters, and refuses a second statement and a comment.
use topbase.Prelude.{
  ℕ, ◌+◌, ◌*◌, ◌-◌, ◌≡◌, refl, Bool, true, false, not, ◌&&◌, ◌||◌, [], ◌∷◌, ◌++◌, Option, none,
  some, arith, ◌==◌, leb, if◌then◌else◌, Bool-cases, inl, inr, append_assoc, all, ap, ◌∙◌, &&-split,
}
use topbase.Text.{Text, replace_rune}

-- In plain SQL, in a quoted identifier, in a quoted literal, in the number of a parameter.
pub data Mode : Type 0 where
  normal ident literal : Mode
  number : ℕ → Mode

abbrev pub is_digit : ℕ → Bool
is_digit c = leb b'0' c && leb c b'9'

-- One rune of plain SQL; `n` parameters have been seen, numbered 1 to n in this order.
unfoldable pub step_normal : ℕ → ℕ → Option (Mode × ℕ)
step_normal n c =
    if c == b'"'
    then some (ident, n)
    else if c == 0x27
    then some (literal, n)
    else if c == b';'
    then none
    else if c == b'$'
    then some (number 0, n)
    else some (normal, n)

unfoldable pub step : Mode → ℕ → ℕ → Option (Mode × ℕ)
unfolding step_normal
step normal n c = step_normal n c
step ident n c = if c == b'"' then some (normal, n) else some (ident, n)
step literal n c = if c == 0x27 then some (normal, n) else some (literal, n)
step (number k) n c =
    if is_digit c
    then some (number (k * 10 + (c - 48)), n)
    else if k == n + 1
    then step_normal (n + 1) c
    else none

-- At the end no quotation may be open; a number may end here.
unfoldable pub finish : Mode → ℕ → Option ℕ
finish normal n = some n
finish ident n = none
finish literal n = none
finish (number k) n = if k == n + 1 then some (n + 1) else none

abbrev pub begins : ℕ → Text → Bool
begins d [] = false
begins d (c ∷ t) = c == d

-- Do a rune and what follows it open a comment, with -- or /*?
abbrev pub opens_comment : ℕ → Text → Bool
opens_comment c t = (c == b'-' && begins b'-' t) || (c == b'/' && begins b'*' t)

-- A comment may open wherever no quotation is.
abbrev pub comments : Mode → ℕ → Text → Bool
comments normal c t = opens_comment c t
comments ident c t = false
comments literal c t = false
comments (number k) c t = opens_comment c t

-- `some n`: one statement, no comment, every quotation closed, and the parameters are $1 to $n in this order.
unfoldable pub scan : Mode → ℕ → Text → Option ℕ
scan m n [] = finish m n
scan m n (c ∷ t) = elim (comments m c t) [
  | true ↦ none
  | false ↦ elim (step m n c) [ none ↦ none | some (m', n') ↦ scan m' n' t ]
]

-- A text that leaves the scanner in plain SQL whatever follows, and holds no parameter.
pub record IsSolid (t : Text) : Type 0 where
  pub runs : (n : ℕ) (rest : Text) → scan normal n (t ++ rest) ≡ scan normal n rest

pub append-IsSolid : (s t : Text) → IsSolid s → IsSolid t → IsSolid (s ++ t)
append-IsSolid s t h k = record {
  runs = λ n rest. rw (append_assoc s t rest, h.runs n (t ++ rest)) (k.runs n rest);
}

-- No mark of a quotation, of a parameter, of the end of a statement or of a comment.
abbrev pub is_plain : ℕ → Bool
is_plain c = not (c == b'"' || c == 0x27 || c == b';' || c == b'$' || c == b'-' || c == b'/')

step-plain : (n c : ℕ) → is_plain c ≡ true → step normal n c ≡ some (normal, n)
unfolding step
step-plain n c h = ground arith

comments-plain : (c : ℕ) (t : Text) → is_plain c ≡ true → comments normal c t ≡ false
comments-plain c t h = ground arith

-- A step that is known is a step of the scan.
pub scan-step :
    (m m' : Mode) (n n' c : ℕ) (t : Text)
    → comments m c t ≡ false
    → step m n c ≡ some (m', n')
    → scan m n (c ∷ t) ≡ scan m' n' t
unfolding scan
scan-step m m' n n' c t h e = rw (h, e, scan)

-- Two modes that treat a rune alike.
pub scan-alike :
    (m m' : Mode) (n n' c : ℕ) (t : Text)
    → comments m c t ≡ comments m' c t
    → step m n c ≡ step m' n' c
    → scan m n (c ∷ t) ≡ scan m' n' (c ∷ t)
unfolding scan
scan-alike m m' n n' c t h e = elim (Bool-cases (comments m' c t)) [
  | inl opening ↦ rw (h, opening, scan)
  | inr plain ↦ rw (h, plain, e, scan)
]

plain_runs :
    (t : Text) (n : ℕ) (rest : Text)
    → all is_plain t ≡ true
    → scan normal n (t ++ rest) ≡ scan normal n rest
plain_runs [] n rest h = refl
plain_runs (c ∷ t) n rest h =
    let (p, ps) = &&-split (is_plain c) (all is_plain t) h in
    scan-step normal normal n n c (t ++ rest) (comments-plain c (t ++ rest) p) (step-plain n c p)
    ∙ plain_runs t n rest ps

-- A text with no such mark.
pub record IsPlain (t : Text) : Type 0 where
  pub holds : all is_plain t ≡ true

pub plain-IsSolid : {t : Text} → IsPlain t → IsSolid t
plain-IsSolid {t} h = record { runs = λ n rest. plain_runs t n rest h.holds }

-- Such words before a piece, or behind it.
pub before-IsSolid : (s t : Text) → all is_plain s ≡ true → IsSolid t → IsSolid (s ++ t)
before-IsSolid s t h k = append-IsSolid s t (plain-IsSolid (record { holds = h })) k

pub behind-IsSolid : (s t : Text) → IsSolid s → all is_plain t ≡ true → IsSolid (s ++ t)
behind-IsSolid s t h k = append-IsSolid s t h (plain-IsSolid (record { holds = k }))

-- The modes that a mark opens and closes.
record Quotes (m : Mode) (q : ℕ) : Type 0 where
  opens : (n : ℕ) → step normal n q ≡ some (m, n)
  closes : (n : ℕ) → step m n q ≡ some (normal, n)
  opening : (t : Text) → comments normal q t ≡ false
  inside : (c : ℕ) (t : Text) → comments m c t ≡ false
  stays : (n c : ℕ) → (c == q) ≡ false → step m n c ≡ some (m, n)

ident-Quotes : Quotes ident b'"'
unfolding step
ident-Quotes = record {
  opens = λ n. refl;
  closes = λ n. refl;
  opening = λ t. refl;
  inside = λ c t. refl;
  stays = λ n c h. rw h;
}

literal-Quotes : Quotes literal 0x27
unfolding step
literal-Quotes = record {
  opens = λ n. refl;
  closes = λ n. refl;
  opening = λ t. refl;
  inside = λ c t. refl;
  stays = λ n c h. rw h;
}

module _ (m : Mode) (q : ℕ) (w : Quotes m q) where
  escaped_scan :
      (s rest : Text) (n : ℕ)
      → scan m n (replace_rune q (q ∷ q ∷ []) s ++ (q ∷ rest)) ≡ scan normal n rest
  unfolding replace_rune
  escaped_scan [] rest n = scan-step m normal n n q rest (w.inside q rest) (w.closes n)
  escaped_scan (c ∷ s) rest n = elim (Bool-cases (c == q)) [
    | inl hit ↦ rw hit (
        scan-step m normal n n q _ (w.inside q (q ∷ replace_rune q (q ∷ q ∷ []) s ++ (q ∷ rest)))
          (w.closes n)
        ∙ scan-step normal m n n q _ (w.opening (replace_rune q (q ∷ q ∷ []) s ++ (q ∷ rest)))
            (w.opens n)
        ∙ escaped_scan s rest n)
    | inr miss ↦ rw miss (
        scan-step m m n n c _ (w.inside c (replace_rune q (q ∷ q ∷ []) s ++ (q ∷ rest)))
          (w.stays n c miss)
        ∙ escaped_scan s rest n)
  ]

  quoted-IsSolid : (s : Text) → IsSolid (q ∷ (replace_rune q (q ∷ q ∷ []) s ++ (q ∷ [])))
  quoted-IsSolid s = record {
    runs = λ n rest.
        scan-step normal m n n q _ (w.opening ((replace_rune q (q ∷ q ∷ []) s ++ (q ∷ [])) ++ rest))
          (w.opens n)
        ∙ ap (scan m n) (append_assoc (replace_rune q (q ∷ q ∷ []) s) (q ∷ []) rest)
        ∙ escaped_scan s rest n;
  }

pub ident-IsSolid :
    (s : Text) → IsSolid (b'"' ∷ (replace_rune b'"' (b'"' ∷ b'"' ∷ []) s ++ (b'"' ∷ [])))
ident-IsSolid s = quoted-IsSolid ident b'"' ident-Quotes s

pub literal-IsSolid :
    (s : Text) → IsSolid (0x27 ∷ (replace_rune 0x27 (0x27 ∷ 0x27 ∷ []) s ++ (0x27 ∷ [])))
literal-IsSolid s = quoted-IsSolid literal 0x27 literal-Quotes s

-- A minus sign that another does not follow.
pub minus-IsSolid :
    (t : Text) → ((rest : Text) → begins b'-' (t ++ rest) ≡ false) → IsSolid t → IsSolid (b'-' ∷ t)
unfolding step
minus-IsSolid t h k = record {
  runs = λ n rest.
      scan-step normal normal n n b'-' (t ++ rest) (rw (h rest) refl) refl ∙ k.runs n rest;
}
