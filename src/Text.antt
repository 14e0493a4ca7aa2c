-- ===== src/Text.antt =====
-- Go's strings, and what the source uses of the packages strings, strconv and fmt.
--
-- A text is the list of its code points. Case is mapped as unicode.ToLower and unicode.ToUpper map
-- it for ASCII letters and for the few runes outside ASCII that are mapped into ASCII (U+212A to k,
-- U+0130 to i, U+0131 to I, U+017F to S); any other rune is left as it is. So a text that is
-- lower-cased or upper-cased equals an ASCII word in the model exactly when it does in Go.
pub mod Laws
pub mod Decimal
pub mod Parts
use Prim.Native.Char.{code}
use Prim.Native.String.{String}
use mathlib.Core.List.{reverse}
use topbase.Prelude.{
  ℕ, ◌+◌, ◌-◌, Bool, true, false, ◌&&◌, ◌||◌, List, [], ◌∷◌, ◌++◌, map, leb, ◌==◌, if◌then◌else◌,
  any, is_empty, Option, none, some,
}

abbrev pub Text : Type 0
Text = List ℕ

-- The text of a literal.
abbrev pub codes : String → Text
codes String.[] = []
codes (String.◌∷◌ c s) = code c ∷ codes s

unfoldable pub text_eq : Text → Text → Bool
text_eq [] [] = true
text_eq (a ∷ s) (b ∷ t) = a == b && text_eq s t
text_eq _ _ = false

-- A key of a map[string]bool, or a case of a switch on texts.
unfoldable pub one_of : List Text → Text → Bool
unfolding text_eq
one_of words t = any (text_eq t) words

unfoldable pub lower_rune : ℕ → ℕ
lower_rune c =
    if leb b'A' c && leb c b'Z'
    then c + 32
    else if c == 0x212A
    then b'k'
    else if c == 0x130
    then b'i'
    else c

unfoldable pub upper_rune : ℕ → ℕ
upper_rune c =
    if leb b'a' c && leb c b'z'
    then c - 32
    else if c == 0x131
    then b'I'
    else if c == 0x17F
    then b'S'
    else c

-- strings.ToLower, strings.ToUpper.
unfoldable pub lower : Text → Text
unfolding lower_rune
lower t = map lower_rune t

unfoldable pub upper : Text → Text
unfolding upper_rune
upper t = map upper_rune t

-- strings.HasPrefix, with the prefix first.
unfoldable pub has_prefix : Text → Text → Bool
has_prefix [] t = true
has_prefix (a ∷ p) [] = false
has_prefix (a ∷ p) (b ∷ t) = a == b && has_prefix p t

-- strings.Contains and strings.ContainsRune, with what is looked for first.
unfoldable pub contains : Text → Text → Bool
unfolding has_prefix
contains p [] = has_prefix p []
contains p (b ∷ t) = has_prefix p (b ∷ t) || contains p t

unfoldable pub has_rune : ℕ → Text → Bool
has_rune c t = any (λ d. d == c) t

-- strings.Split at one rune.
abbrev pub onto_first : ℕ → List Text → List Text
onto_first c [] = (c ∷ []) ∷ []
onto_first c (part ∷ parts) = (c ∷ part) ∷ parts

unfoldable pub split : ℕ → Text → List Text
split sep [] = [] ∷ []
split sep (c ∷ t) = let rest = split sep t in if c == sep then [] ∷ rest else onto_first c rest

-- strings.Join.
unfoldable pub join : Text → List Text → Text
join sep [] = []
join sep (part ∷ []) = part
join sep (part ∷ next ∷ parts) = part ++ (sep ++ join sep (next ∷ parts))

-- strings.ReplaceAll of one rune by a text.
unfoldable pub replace_rune : ℕ → Text → Text → Text
replace_rune c by [] = []
replace_rune c by (d ∷ t) =
    let rest = replace_rune c by t in if d == c then by ++ rest else d ∷ rest

-- unicode.IsSpace, strings.TrimSpace.
unfoldable pub is_space : ℕ → Bool
is_space c =
    (leb 9 c && leb c 13)
    || c == 32
    || c == 0x85
    || c == 0xA0
    || c == 0x1680
    || (leb 0x2000 c && leb c 0x200A)
    || c == 0x2028
    || c == 0x2029
    || c == 0x202F
    || c == 0x205F
    || c == 0x3000

unfoldable pub trim_left : Text → Text
unfolding is_space
trim_left [] = []
trim_left (c ∷ t) = let rest = trim_left t in if is_space c then rest else c ∷ t

unfoldable pub trim_space : Text → Text
unfolding trim_left
trim_space t = reverse (trim_left (reverse (trim_left t)))

-- strings.TrimSpace(t) == "".
unfoldable pub is_blank : Text → Bool
unfolding trim_space
is_blank t = is_empty (trim_space t)

-- A switch on texts, or a map with text keys, as a table: the first entry under the key.
unfoldable pub lookup {ℓ} : {V : Type ℓ} → Text → List (Text × V) → Option V
lookup key [] = none
lookup key ((k, v) ∷ table) = let rest = lookup key table in if text_eq key k then some v else rest
