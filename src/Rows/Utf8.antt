-- ===== src/Rows/Utf8.antt =====
-- internal/adapters/query_limits.go: boundedUTF8. A Go string is its bytes here.
use topbase.Prelude.{
  ℕ, zero, suc, ◌+◌, ◌-◌, ◌/◌, ◌%◌, Bool, true, false, not, ◌&&◌, ◌||◌, List, [], ◌∷◌, ◌++◌, leb,
  ltb, if◌then◌else◌, length,
}
use topbase.Text.{Text}

abbrev pub Bytes : Type 0
Bytes = List ℕ

abbrev pub take : ℕ → Bytes → Bytes
take zero bs = []
take (suc n) [] = []
take (suc n) (b ∷ bs) = b ∷ take n bs

-- value[n], and 0 beyond the end, where it is never read.
abbrev pub get_or : Bytes → ℕ → ℕ
get_or [] n = 0
get_or (b ∷ bs) zero = b
get_or (b ∷ bs) (suc n) = get_or bs n

-- utf8.RuneStart: not 10xxxxxx.
unfoldable pub rune_start : ℕ → Bool
rune_start b = ltb b 128 || leb 192 b

-- "…".
abbrev pub ellipsis : Bytes
ellipsis = 0xE2 ∷ 0x80 ∷ 0xA6 ∷ []

-- The loop over `end`.
unfoldable pub cut_at : Bytes → ℕ → ℕ
cut_at value zero = zero
cut_at value (suc e) =
    let earlier = cut_at value e in
    if ltb (suc e) (length value) && not (rune_start (get_or value (suc e))) then earlier else suc e

-- The text that is kept, and whether it was cut; a maximum of 0 is none.
unfoldable pub bounded_utf8 : Bytes → ℕ → Bytes × Bool
bounded_utf8 value max =
    if leb max 0 || leb (length value) max
    then (value, false)
    else if leb max 3
    then ([], true)
    else (take (cut_at value (max - 3)) value ++ ellipsis, true)

-- The bytes of a rune, and of a text.
unfoldable pub encode_rune : ℕ → Bytes
encode_rune c =
    if ltb c 0x80
    then c ∷ []
    else if ltb c 0x800
    then (0xC0 + c / 64) ∷ (0x80 + c % 64) ∷ []
    else if ltb c 0x10000
    then (0xE0 + c / 4096) ∷ (0x80 + c / 64 % 64) ∷ (0x80 + c % 64) ∷ []
    else (0xF0 + c / 262144) ∷ (0x80 + c / 4096 % 64) ∷ (0x80 + c / 64 % 64) ∷ (0x80 + c % 64) ∷ []

unfoldable pub encode : Text → Bytes
encode [] = []
encode (c ∷ t) = encode_rune c ++ encode t
