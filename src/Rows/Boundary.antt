-- ===== src/Rows/Boundary.antt =====
-- internal/adapters/query_limits.go: what boundedUTF8 keeps is no longer than it may be, and whole runes.
use topbase.Prelude.{
  ℕ, zero, suc, ◌+◌, ◌-◌, ◌/◌, ◌%◌, ◌≤◌, ◌<◌, ◌≡◌, refl, sym, ap, ◌∙◌, ◌⊎◌, true, false, not, ◌&&◌,
  [], ◌∷◌, ◌++◌, ltb, length, length-append, arith, Bool-cases, inl, inr, All, if_either,
}
use topbase.Text.{Text}
use topbase.Rows.Utf8.{
  Bytes, take, get_or, rune_start, ellipsis, cut_at, bounded_utf8, encode_rune, encode,
}

length-take : (n : ℕ) (bs : Bytes) → length (take n bs) ≤ n
length-take zero bs = omega arith
length-take (suc n) [] = omega arith
length-take (suc n) (b ∷ bs) = omega (arith, length-take n bs)

cut_at_le : (value : Bytes) (e : ℕ) → cut_at value e ≤ e
unfolding cut_at
cut_at_le value zero = omega arith
cut_at_le value (suc e) = ground (arith, cut_at_le value e)

length-bounded_utf8 : (value : Bytes) (max : ℕ) → 0 < max → length (bounded_utf8 value max).0 ≤ max
unfolding bounded_utf8
length-bounded_utf8 value max h = ground (
  arith,
  length-append (take (cut_at value (max - 3)) value) ellipsis,
  length-take (cut_at value (max - 3)) value,
  cut_at_le value (max - 3),
)

-- Where a text may be cut: at its start, at its end or beyond, or where a rune starts.
abbrev MayCut : Bytes → ℕ → Type 0
MayCut value n = (n ≡ 0) ⊎ (length value ≤ n) ⊎ (rune_start (get_or value n) ≡ true)

cut_at-MayCut : (value : Bytes) (e : ℕ) → MayCut value (cut_at value e)
unfolding cut_at
cut_at-MayCut value zero = inl refl
cut_at-MayCut value (suc e) =
    elim (Bool-cases (ltb (suc e) (length value) && not (rune_start (get_or value (suc e))))) [
      | inl inside ↦ rw inside (cut_at-MayCut value e)
      | inr edge ↦ rw edge (ground arith)
    ]

-- The bytes of a rune: one that starts it, and others that do not.
abbrev IsRune : Bytes → Type 0
IsRune [] = ⊥
IsRune (first ∷ others) = All (λ b. rune_start b ≡ false) others

rune_start-below : (n : ℕ) → n < 64 → rune_start (0x80 + n) ≡ false
unfolding rune_start
rune_start-below n h = ground arith

encode_rune-IsRune : (c : ℕ) → IsRune (encode_rune c)
unfolding encode_rune
encode_rune-IsRune c = if_either IsRune (ltb c 0x80) _ _ tt (
    if_either IsRune (ltb c 0x800) _ _ (rune_start-below (c % 64) (omega arith), tt)
      (if_either IsRune (ltb c 0x10000) _ _
        (
          rune_start-below (c / 64 % 64) (omega arith),
          (rune_start-below (c % 64) (omega arith), tt),
        )
        (
          rune_start-below (c / 4096 % 64) (omega arith),
          (
            rune_start-below (c / 64 % 64) (omega arith),
            (rune_start-below (c % 64) (omega arith), tt),
          ),
        )))

-- At the end or beyond, or where a rune starts.
abbrev AtRune : Bytes → ℕ → Type 0
AtRune value n = (length value ≤ n) ⊎ (rune_start (get_or value n) ≡ true)

-- A cut is not inside a rune.
cut_behind :
    (others rest : Bytes) (n : ℕ)
    → All (λ b. rune_start b ≡ false) others
    → AtRune (others ++ rest) n
    → (m : ℕ) × (take n (others ++ rest) ≡ others ++ take m rest) × AtRune rest m
cut_behind [] rest n h at = (n, refl, at)
cut_behind (b ∷ others) rest zero (p, h) (inl short) = absurd (omega arith)
cut_behind (b ∷ others) rest zero (p, h) (inr start) = cc (sym p ∙ start)
cut_behind (b ∷ others) rest (suc n) (p, h) at =
    let (m, same, next) = cut_behind others rest n h (tail_at at) in (m, ap (λ t. b ∷ t) same, next)
  where
    tail_at : AtRune (b ∷ (others ++ rest)) (suc n) → AtRune (others ++ rest) n
    tail_at (inl short) = inl (omega arith)
    tail_at (inr start) = inr start

-- A text is cut between two of its runes.
abbrev pub IsPrefix : Text → Bytes → Type 0
IsPrefix t kept = (front : Text) × (back : Text) × (t ≡ front ++ back) × (kept ≡ encode front)

rune_behind :
    (c : ℕ) (t : Text) (bs : Bytes) (n : ℕ)
    → IsRune bs
    → encode_rune c ≡ bs
    → AtRune (bs ++ encode t) (suc n)
    → ((m : ℕ) → AtRune (encode t) m → IsPrefix t (take m (encode t)))
    → IsPrefix (c ∷ t) (take (suc n) (bs ++ encode t))
unfolding encode
rune_behind c t [] n rune e at ih = elim rune [ ]
rune_behind c t (first ∷ others) n rune e at ih =
    let (m, same, next) = cut_behind others (encode t) n rune (tail_at at) in
    let (front, back, split, kept) = ih m next in
    (c ∷ front, back, ap (λ u. c ∷ u) split, ap (λ u. first ∷ u) same ∙ (rw (kept, e) refl))
  where
    tail_at : AtRune (first ∷ (others ++ encode t)) (suc n) → AtRune (others ++ encode t) n
    tail_at (inl short) = inl (omega arith)
    tail_at (inr start) = inr start

take-IsPrefix : (t : Text) (n : ℕ) → AtRune (encode t) n → IsPrefix t (take n (encode t))
unfolding encode
take-IsPrefix t zero at = ([], t, refl, refl)
take-IsPrefix [] (suc n) at = ([], [], refl, refl)
take-IsPrefix (c ∷ t) (suc n) at =
    rune_behind c t (encode_rune c) n (encode_rune-IsRune c) refl at (take-IsPrefix t)

from_MayCut : (t : Text) (n : ℕ) → MayCut (encode t) n → IsPrefix t (take n (encode t))
unfolding encode
from_MayCut t n (inl none_left) = rw none_left ([], t, refl, refl)
from_MayCut t n (inr at) = take-IsPrefix t n at

bounded_utf8_cut :
    (value : Bytes) (max : ℕ)
    → 3 < max
    → max < length value
    → (bounded_utf8 value max).0 ≡ take (cut_at value (max - 3)) value ++ ellipsis
unfolding bounded_utf8
bounded_utf8_cut value max h k = ground arith

-- When a text in UTF-8 is cut to a bound of more than 3 bytes, what is kept is some of its runes, from
-- the first on, and an ellipsis, and is no longer than the bound.
pub bounded_utf8-IsPrefix :
    (t : Text) (max : ℕ)
    → 3 < max
    → max < length (encode t)
    → (kept : Bytes) × ((bounded_utf8 (encode t) max).0 ≡ kept ++ ellipsis)
      × IsPrefix t kept
      × (length (bounded_utf8 (encode t) max).0 ≤ max)
bounded_utf8-IsPrefix t max h k = (
  take (cut_at (encode t) (max - 3)) (encode t),
  bounded_utf8_cut (encode t) max h k,
  from_MayCut t (cut_at (encode t) (max - 3)) (cut_at-MayCut (encode t) (max - 3)),
  length-bounded_utf8 (encode t) max (omega arith),
)
