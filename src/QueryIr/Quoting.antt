-- ===== src/QueryIr/Quoting.antt =====
-- Quoted identifiers and an SQL reader of them: what Quote and QuotePath of
-- internal/core/queryir/validate.go write is read back as the name, whatever follows it.
use topbase.Prelude.{
  ℕ, zero, suc, ◌<◌, ◌≡◌, refl, Bool, true, false, List, [], ◌∷◌, ◌++◌, map, Option, none, some,
  arith, ◌==◌, if◌then◌else◌, Bool-cases, ==_iff, inl, inr, length, append_assoc,
}
use topbase.Text.{Text, codes, split, join, replace_rune}
use topbase.Text.Laws.{split_cases}
use topbase.QueryIr.Identifier.{quote, quote_path}

abbrev add_rune : ℕ → Option (Text × Text) → Option (Text × Text)
add_rune c none = none
add_rune c (some (s, rest)) = some (c ∷ s, rest)

-- Reads on behind an opening mark: a doubled mark stands for itself, a single one closes.
unfoldable pub read_body : ℕ → Text → Option (Text × Text)
read_body q [] = none
read_body q (c ∷ []) = if c == q then some ([], []) else none
read_body q (c ∷ d ∷ t) =
    let doubled = add_rune q (read_body q t) in
    let closed = if d == q then doubled else some ([], d ∷ t) in
    let longer = add_rune c (read_body q (d ∷ t)) in if c == q then closed else longer

unfoldable pub read_quoted : ℕ → Text → Option (Text × Text)
unfolding read_body
read_quoted q [] = none
read_quoted q (c ∷ t) = if c == q then read_body q t else none

-- Whether a text begins with a rune.
abbrev pub begins : ℕ → Text → Bool
begins q [] = false
begins q (c ∷ t) = c == q

read_body-other :
    (q c : ℕ) (t : Text) → (c == q) ≡ false → read_body q (c ∷ t) ≡ add_rune c (read_body q t)
unfolding read_body
read_body-other q c [] h = rw h
read_body-other q c (d ∷ t) h = rw h

read_body-close : (q : ℕ) (t : Text) → begins q t ≡ false → read_body q (q ∷ t) ≡ some ([], t)
unfolding read_body
read_body-close q [] h = ground arith
read_body-close q (d ∷ t) h = ground arith

eq_self : (q : ℕ) → (q == q) ≡ true
eq_self q = ground arith

read_body-doubled : (q : ℕ) (t : Text) → read_body q (q ∷ q ∷ t) ≡ add_rune q (read_body q t)
unfolding read_body
read_body-doubled q t = rw (eq_self q)

read_body-escaped :
    (q : ℕ) (s rest : Text)
    → begins q rest ≡ false
    → read_body q (replace_rune q (q ∷ q ∷ []) s ++ (q ∷ rest)) ≡ some (s, rest)
unfolding replace_rune
read_body-escaped q [] rest h = read_body-close q rest h
read_body-escaped q (c ∷ s) rest h =
    let ih = read_body-escaped q s rest h in
    elim (Bool-cases (c == q)) [
      | inl hit ↦ rw (hit, (==_iff c q).0 hit, read_body-doubled q _, ih)
      | inr miss ↦ rw (miss, read_body-other q c _ miss, ih)
    ]

-- A quoted text, at any mark, is read back.
pub read_quoted-escaped :
    (q : ℕ) (s rest : Text)
    → begins q rest ≡ false
    → read_quoted q ((q ∷ (replace_rune q (q ∷ q ∷ []) s ++ (q ∷ []))) ++ rest) ≡ some (s, rest)
unfolding read_quoted
read_quoted-escaped q s rest h =
    rw (eq_self q, append_assoc (replace_rune q (q ∷ q ∷ []) s) (q ∷ []) rest)
      (read_body-escaped q s rest h)

-- Whatever the name, a reader of SQL identifiers reads what Quote writes back as that name and
-- stops behind it, if what follows does not begin with a double quote.
read-quote :
    (name rest : Text)
    → begins b'"' rest ≡ false
    → read_quoted b'"' (quote name ++ rest) ≡ some (name, rest)
unfolding quote
read-quote name rest h = read_quoted-escaped b'"' name rest h

abbrev add_part : Text → Option (List Text × Text) → Option (List Text × Text)
add_part s none = none
add_part s (some (parts, rest)) = some (s ∷ parts, rest)

-- Reads a path of quoted names with dots between them; the fuel bounds the number of names.
unfoldable pub read_path : ℕ → Text → Option (List Text × Text)
read_path zero t = none
read_path (suc f) t = elim (read_quoted b'"' t) [
  | none ↦ none
  | some (s, []) ↦ some (s ∷ [], [])
  | some (s, c ∷ rest) ↦
      if c == b'.' then add_part s (read_path f rest) else some (s ∷ [], c ∷ rest)
]

read_path-last :
    (f : ℕ) (s rest : Text)
    → begins b'"' rest ≡ false
    → begins b'.' rest ≡ false
    → read_path (suc f) (quote s ++ rest) ≡ some (s ∷ [], rest)
unfolding read_path
read_path-last f s [] h k = rw (read-quote s [] refl, read_path)
read_path-last f s (c ∷ rest) h k = rw (read-quote s (c ∷ rest) h, read_path, k)

read_path-dot :
    (f : ℕ) (s rest : Text)
    → read_path (suc f) (quote s ++ (b'.' ∷ rest)) ≡ add_part s (read_path f rest)
unfolding read_path
read_path-dot f s rest = rw (read-quote s (b'.' ∷ rest) refl, read_path)

read_path-join :
    (f : ℕ) (part : Text) (parts : List Text) (rest : Text)
    → length parts < f
    → begins b'"' rest ≡ false
    → begins b'.' rest ≡ false
    → read_path f (join (codes ".") (map quote (part ∷ parts)) ++ rest) ≡ some (part ∷ parts, rest)
unfolding join
read_path-join zero part parts rest n h k = elim n [ ]
read_path-join (suc f) part [] rest n h k = read_path-last f part rest h k
read_path-join (suc f) part (next ∷ parts) rest n h k = rw (
  append_assoc (quote part) _ rest,
  read_path-dot f part _,
  read_path-join f next parts rest (omega arith) h k,
)

-- The reader reads what QuotePath writes back as the parts of the dotted name, so no name, however
-- it is spelled, adds SQL of its own, if neither a double quote nor a dot follows.
pub read-quote_path :
    (name rest : Text)
    → begins b'"' rest ≡ false
    → begins b'.' rest ≡ false
    → read_path (length (split b'.' name)) (quote_path name ++ rest) ≡ some (split b'.' name, rest)
unfolding quote_path
read-quote_path name rest h k =
    let (part, parts, e) = split_cases b'.' name in
    rw (e) (read_path-join _ part parts rest (omega arith) h k)
