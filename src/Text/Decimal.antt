-- ===== src/Text/Decimal.antt =====
-- Decimal numerals: fmt's %d, and strconv.Itoa, on natural numbers.
use topbase.Prelude.{
  ℕ, zero, suc, ◌+◌, ◌-◌, ◌*◌, ◌/◌, ◌%◌, ◌≤◌, ◌<◌, ◌≡◌, refl, [], ◌∷◌, ◌++◌, arith, ltb,
  if◌then◌else◌, All, All-append, inl, inr, Bool-cases,
}
use topbase.Text.{Text}

-- The digits of a number; each call takes one off, so `suc n` is fuel enough.
unfoldable pub show_from : ℕ → ℕ → Text
show_from zero n = []
show_from (suc f) n =
    let rest = show_from f (n / 10) in
    if ltb n 10 then (48 + n) ∷ [] else rest ++ ((48 + n % 10) ∷ [])

unfoldable pub show : ℕ → Text
unfolding show_from
show n = show_from (suc n) n

-- The number that digits stand for, the reference for `show`.
unfoldable pub read_from : ℕ → Text → ℕ
read_from acc [] = acc
read_from acc (c ∷ t) = read_from (acc * 10 + (c - 48)) t

abbrev pub IsDigit : ℕ → Type 0
IsDigit c = (48 ≤ c) × (c ≤ 57)

pub show_from-IsDigit : (f n : ℕ) → All IsDigit (show_from f n)
unfolding show_from
show_from-IsDigit zero n = tt
show_from-IsDigit (suc f) n = elim (Bool-cases (ltb n 10)) [
  | inl small ↦ rw small ((omega arith, ground arith), tt)
  | inr big ↦ rw big (
      All-append IsDigit (show_from f (n / 10)) _ (show_from-IsDigit f (n / 10))
        ((omega arith, omega arith), tt))
]

pub show-IsDigit : (n : ℕ) → All IsDigit (show n)
unfolding show
show-IsDigit n = show_from-IsDigit (suc n) n

read_from-append :
    (acc : ℕ) (s : Text) (c : ℕ) → read_from acc (s ++ c ∷ []) ≡ read_from acc s * 10 + (c - 48)
unfolding read_from
read_from-append acc [] c = refl
read_from-append acc (d ∷ s) c = read_from-append (acc * 10 + (d - 48)) s c

read_from-show_from : (f n : ℕ) → n < f → read_from 0 (show_from f n) ≡ n
unfolding show_from
read_from-show_from zero n h = elim h [ ]
read_from-show_from (suc f) n h = elim (Bool-cases (ltb n 10)) [
  | inl small ↦ rw small (unfold read_from in omega arith)
  | inr big ↦
      rw
        (
          big,
          read_from-append 0 (show_from f (n / 10)) (48 + n % 10),
          read_from-show_from f (n / 10) (ground arith),
        )
        (omega arith)
]

-- What `show` prints is read back as the number.
pub read-show : (n : ℕ) → read_from 0 (show n) ≡ n
unfolding show
read-show n = read_from-show_from (suc n) n (omega arith)

show_tests : (show 0 ≡ b'0' ∷ []) × (show 1050 ≡ b'1' ∷ b'0' ∷ b'5' ∷ b'0' ∷ [])
unfolding show
show_tests = (refl, refl)
