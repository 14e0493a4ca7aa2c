-- ===== src/Text/Parts.antt =====
-- Prefixes and suffixes, fields, and strconv.Atoi's numerals.
use mathlib.Core.List.{reverse}
use topbase.Prelude.{
  ℕ, Bool, false, not, ◌&&◌, List, [], ◌∷◌, leb, ◌==◌, if◌then◌else◌, all, is_empty, Option, none,
  some,
}
use topbase.Text.{Text, has_prefix, is_space}

-- strings.CutPrefix, with the prefix first.
unfoldable pub strip : Text → Text → Option Text
strip [] t = some t
strip (a ∷ p) [] = none
strip (a ∷ p) (b ∷ t) = let rest = strip p t in if a == b then rest else none

or_text : Text → Option Text → Text
or_text t none = t
or_text t (some rest) = rest

-- strings.TrimPrefix, strings.HasSuffix and strings.TrimSuffix.
unfoldable pub trim_prefix : Text → Text → Text
unfolding or_text strip
trim_prefix p t = or_text t (strip p t)

unfoldable pub has_suffix : Text → Text → Bool
unfolding has_prefix
has_suffix p t = has_prefix (reverse p) (reverse t)

unfoldable pub trim_suffix : Text → Text → Text
unfolding trim_prefix
trim_suffix p t = reverse (trim_prefix (reverse p) (reverse t))

-- What stands before and behind the last occurrence of a rune.
abbrev pub put_before : ℕ → Text × Text → Text × Text
put_before c (a, b) = (c ∷ a, b)

unfoldable pub split_last : ℕ → Text → Option (Text × Text)
split_last sep [] = none
split_last sep (c ∷ t) = elim (split_last sep t) [
  | some parts ↦ some (put_before c parts)
  | none ↦ if c == sep then some ([], t) else none
]

-- strings.Fields: the flag is whether a field is open, which is then the first of the list.
abbrev pub into_field : ℕ → List Text → List Text
into_field c [] = (c ∷ []) ∷ []
into_field c (f ∷ fs) = (c ∷ f) ∷ fs

abbrev pub begins_word : Text → Bool
begins_word [] = false
begins_word (c ∷ t) = not (is_space c)

unfoldable pub fields : Text → List Text
fields [] = []
fields (c ∷ t) =
    let rest = fields t in
    if is_space c then rest else if begins_word t then into_field c rest else (c ∷ []) ∷ rest

abbrev pub is_digit : ℕ → Bool
is_digit c = leb b'0' c && leb c b'9'

-- One or more ASCII digits.
unfoldable pub digits : Text → Bool
digits t = not (is_empty t) && all is_digit t
