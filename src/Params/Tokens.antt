-- ===== src/Params/Tokens.antt =====
-- internal/core/queryir/native.go: the matches of the regular expressions optionalBlock and placeholder.
--
-- Both find the leftmost match and go on behind it. `[[` with no `]]` behind it, and `{{` with no name
-- and `}}` behind it, match nothing, and the search goes on at the next rune.
use topbase.Prelude.{ℕ, Bool, true, false, ◌&&◌, ◌||◌, List, [], ◌∷◌, leb, ◌==◌, Option, none, some}
use topbase.Text.{Text}

-- A rune that stands for itself, or the inside of [[...]].
pub data Piece : Type 0 where
  rune : ℕ → Piece
  block : Text → Piece

abbrev or_rune : ℕ → List Piece → Option (Text × List Piece) → List Piece
or_rune c rest none = rune c ∷ rest
or_rune c rest (some (inside, pieces)) = block inside ∷ pieces

abbrev inside_rune : ℕ → Option (Text × List Piece) → Option (Text × List Piece)
inside_rune c none = none
inside_rune c (some (inside, pieces)) = some (c ∷ inside, pieces)

-- `closing` is the text up to the first ]], and what follows that.
unfoldable mutual
  pub pieces : Text → List Piece
  pieces [] = []
  pieces (c ∷ []) = rune c ∷ []
  pieces (c ∷ d ∷ t) = elim (c == b'[' && d == b'[') [
    | true ↦ or_rune c (pieces (d ∷ t)) (closing t)
    | false ↦ rune c ∷ pieces (d ∷ t)
  ]

  pub closing : Text → Option (Text × List Piece)
  closing [] = none
  closing (c ∷ []) = none
  closing (c ∷ d ∷ t) = elim (c == b']' && d == b']') [
    | true ↦ some ([], pieces t)
    | false ↦ inside_rune c (closing (d ∷ t))
  ]

-- A rune that stands for itself, or the name inside {{...}}.
pub data Token : Type 0 where
  literal : ℕ → Token
  hole : Text → Token

abbrev pub name_start : ℕ → Bool
name_start c = (leb b'A' c && leb c b'Z') || (leb b'a' c && leb c b'z') || c == b'_'

abbrev pub name_rune : ℕ → Bool
name_rune c = name_start c || (leb b'0' c && leb c b'9')

-- \s.
abbrev pub blank_rune : ℕ → Bool
blank_rune c = c == 9 || c == 10 || c == 12 || c == 13 || c == 32

abbrev or_literal : ℕ → List Token → Option (Text × List Token) → List Token
or_literal c rest none = literal c ∷ rest
or_literal c rest (some (name, tokens)) = hole name ∷ tokens

abbrev name_with : ℕ → Option (Text × List Token) → Option (Text × List Token)
name_with c none = none
name_with c (some (name, tokens)) = some (c ∷ name, tokens)

-- Behind {{: `before` is in front of the name, `within` in it, `after` behind it. Each gives the name
-- that is left to read, and the tokens behind the }}.
unfoldable mutual
  pub tokens : Text → List Token
  tokens [] = []
  tokens (c ∷ []) = literal c ∷ []
  tokens (c ∷ d ∷ t) = elim (c == b'{' && d == b'{') [
    | true ↦ or_literal c (tokens (d ∷ t)) (before t)
    | false ↦ literal c ∷ tokens (d ∷ t)
  ]

  pub before : Text → Option (Text × List Token)
  before [] = none
  before (c ∷ t) = elim (blank_rune c) [
    | true ↦ before t
    | false ↦ elim (name_start c) [ true ↦ name_with c (within t) | false ↦ none ]
  ]

  pub within : Text → Option (Text × List Token)
  within [] = none
  within (c ∷ []) = none
  within (c ∷ d ∷ t) = elim (name_rune c) [
    | true ↦ name_with c (within (d ∷ t))
    | false ↦ elim (blank_rune c) [
      | true ↦ after (d ∷ t)
      | false ↦ elim (c == b'}' && d == b'}') [ true ↦ some ([], tokens t) | false ↦ none ]
    ]
  ]

  pub after : Text → Option (Text × List Token)
  after [] = none
  after (c ∷ []) = none
  after (c ∷ d ∷ t) = elim (blank_rune c) [
    | true ↦ after (d ∷ t)
    | false ↦ elim (c == b'}' && d == b'}') [ true ↦ some ([], tokens t) | false ↦ none ]
  ]

-- The names in {{...}}.
unfoldable pub holes : List Token → List Text
holes [] = []
holes (literal c ∷ ts) = holes ts
holes (hole name ∷ ts) = name ∷ holes ts
