-- ===== src/Leases/Order.antt =====
-- internal/adapters/appdb/leases.go: what the order of the texts says of the moments.
use topbase.Prelude.{ℕ, ◌/◌, ◌<◌, ◌≡◌, refl, true, false, [], ◌∷◌, ◌++◌, arith, length}
use topbase.Text.{Text}
use topbase.Leases.{precedes, second, format}

-- Between texts of one length, the order is decided before anything that follows them.
pub precedes-append :
    (s t x y : Text) → length s ≡ length t → precedes s t ≡ true → precedes (s ++ x) (t ++ y) ≡ true
unfolding precedes
precedes-append s [] x y e h = cc
precedes-append [] (b ∷ t) x y e h = ground arith
precedes-append (a ∷ s) (b ∷ t) x y e h = ground (arith, precedes-append s t x y (ground arith))

pub precedes_asym : (s t : Text) → precedes s t ≡ true → precedes t s ≡ false
unfolding precedes
precedes_asym s [] h = cc
precedes_asym [] (b ∷ t) h = refl
precedes_asym (a ∷ s) (b ∷ t) h = ground (arith, precedes_asym s t)

-- The year 10000, in seconds since 1970: from there the texts have other lengths.
abbrev pub last_second : ℕ
last_second = 253402300800

-- What package time promises of the text up to the seconds: texts of one length, in the order of
-- the seconds they stand for.
abbrev pub Chronological : (ℕ → Text) → Type 0
Chronological stamp =
    (a b : ℕ)
    → a < b
    → b < last_second
    → (length (stamp a) ≡ length (stamp b)) × (precedes (stamp a) (stamp b) ≡ true)

module _ (stamp : ℕ → Text) (ordered : Chronological stamp) where
  -- A moment of an earlier second has the smaller text.
  pub format-precedes :
      (a b : ℕ)
      → a / second < b / second
      → b / second < last_second
      → precedes (format stamp a) (format stamp b) ≡ true
  unfolding format
  format-precedes a b h k =
      let (same, before) = ordered (a / second) (b / second) h k in
      precedes-append (stamp (a / second)) (stamp (b / second)) _ _ same before
