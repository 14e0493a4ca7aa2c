-- ===== src/QueryIr/Identifier.antt =====
-- internal/core/queryir/validate.go: what an identifier is, and how one is quoted for SQL.
use topbase.Prelude.{
  ℕ, Bool, true, false, ◌&&◌, ◌||◌, [], ◌∷◌, ◌++◌, map, leb, ◌==◌, if◌then◌else◌, all,
}
use topbase.Text.{Text, codes, split, join, replace_rune}

abbrev ident_start : ℕ → Bool
ident_start c = (leb b'A' c && leb c b'Z') || (leb b'a' c && leb c b'z') || c == b'_'

abbrev ident_rune : ℕ → Bool
ident_rune c = ident_start c || (leb b'0' c && leb c b'9') || c == b'$'

-- ident.MatchString.
unfoldable pub is_ident : Text → Bool
is_ident [] = false
is_ident (c ∷ t) = ident_start c && all ident_rune t

-- What identPath has behind its first rune.
unfoldable pub path_tail : Text → Bool
unfolding is_ident
path_tail [] = true
path_tail (c ∷ t) = if c == b'.' then is_ident t else ident_rune c && path_tail t

-- identPath.MatchString.
unfoldable pub is_path : Text → Bool
unfolding path_tail
is_path [] = false
is_path (c ∷ t) = ident_start c && path_tail t

-- Quote.
unfoldable pub quote : Text → Text
quote name = b'"' ∷ (replace_rune b'"' (codes "\"\"") name ++ codes "\"")

-- QuotePath.
unfoldable pub quote_path : Text → Text
quote_path name = join (codes ".") (map quote (split b'.' name))
