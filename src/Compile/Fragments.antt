-- ===== src/Compile/Fragments.antt =====
-- Pieces of SQL with parameters, as the scanner of Compile/Scan.antt reads them: a piece that it
-- enters having seen `a` parameters and leaves having seen `b`.
use topbase.Prelude.{
  ℕ, ◌+◌, ◌*◌, ◌-◌, some, ◌≡◌, refl, ap, ◌∙◌, Bool, false, List, [], ◌∷◌, ◌++◌, arith, append_assoc,
  All,
}
use topbase.Text.{Text, join}
use topbase.Text.Decimal.{show, show-IsDigit, read-show, read_from, IsDigit}
use topbase.Compile.Scan.{
  normal, number, step, comments, scan, scan-step, scan-alike, finish, is_digit, IsSolid,
  append-IsSolid,
}
use topbase.Compile.Filters.{placeholder}

abbrev pub begins_digit : Text → Bool
begins_digit [] = false
begins_digit (c ∷ t) = is_digit c

begins_digit-append :
    (s t : Text) → begins_digit s ≡ false → begins_digit t ≡ false → begins_digit (s ++ t) ≡ false
begins_digit-append [] t h k = k
begins_digit-append (c ∷ s) t h k = h

pub record IsPiece (a : ℕ) (t : Text) (b : ℕ) : Type 0 where
  pub starts : begins_digit t ≡ false
  pub runs :
      (rest : Text) → begins_digit rest ≡ false → scan normal a (t ++ rest) ≡ scan normal b rest

pub append-IsPiece : (a b c : ℕ) (s t : Text) → IsPiece a s b → IsPiece b t c → IsPiece a (s ++ t) c
append-IsPiece a b c s t h k = record {
  starts = begins_digit-append s t h.starts k.starts;
  runs = λ rest e.
      rw (append_assoc s t rest)
        (h.runs (t ++ rest) (begins_digit-append t rest k.starts e) ∙ k.runs rest e);
}

pub solid-IsPiece : (n : ℕ) (t : Text) → begins_digit t ≡ false → IsSolid t → IsPiece n t n
solid-IsPiece n t h k = record { starts = h; runs = λ rest e. k.runs n rest }

step-digit : (k n c : ℕ) → IsDigit c → step (number k) n c ≡ some (number (k * 10 + (c - 48)), n)
unfolding step
step-digit k n c h = ground arith

comments-digit : (k c : ℕ) (t : Text) → IsDigit c → comments (number k) c t ≡ false
comments-digit k c t h = ground arith

-- The scanner reads a numeral as Text/Decimal.antt does.
scan-digits :
    (k n : ℕ) (ds rest : Text)
    → All IsDigit ds
    → scan (number k) n (ds ++ rest) ≡ scan (number (read_from k ds)) n rest
unfolding read_from
scan-digits k n [] rest h = refl
scan-digits k n (c ∷ ds) rest h =
    scan-step (number k) (number (k * 10 + (c - 48))) n n c (ds ++ rest)
      (comments-digit k c (ds ++ rest) h.0) (step-digit k n c h.0)
    ∙ scan-digits (k * 10 + (c - 48)) n ds rest h.1

step-after_number :
    (n c : ℕ) → is_digit c ≡ false → step (number (n + 1)) n c ≡ step normal (n + 1) c
unfolding step
step-after_number n c h = ground arith

-- A numeral ends before what is no digit.
scan-number :
    (n : ℕ) (rest : Text)
    → begins_digit rest ≡ false
    → scan (number (n + 1)) n rest ≡ scan normal (n + 1) rest
unfolding scan finish
scan-number n [] h = ground arith
scan-number n (c ∷ rest) h =
    scan-alike (number (n + 1)) normal n (n + 1) c rest refl (step-after_number n c h)

pub placeholder-IsPiece : (n : ℕ) → IsPiece n (placeholder (n + 1)) (n + 1)
unfolding placeholder step
placeholder-IsPiece n = record {
  starts = refl;
  runs = λ rest e.
      scan-step normal (number 0) n n b'$' (show (n + 1) ++ rest) refl refl
      ∙ scan-digits 0 n (show (n + 1)) rest (show-IsDigit (n + 1))
      ∙ ap (λ k. scan (number k) n rest) (read-show (n + 1))
      ∙ scan-number n rest e;
}

-- Pieces one after another.
abbrev pub ArePieces : ℕ → List Text → ℕ → Type 0
ArePieces a [] b = a ≡ b
ArePieces a (t ∷ ts) b = (m : ℕ) × IsPiece a t m × ArePieces m ts b

pub join-IsPiece :
    (sep : Text) (a b : ℕ) (ts : List Text)
    → begins_digit sep ≡ false
    → IsSolid sep
    → ArePieces a ts b
    → IsPiece a (join sep ts) b
unfolding join
join-IsPiece sep a b [] h k e = rw e (solid-IsPiece b [] refl (record { runs = λ n rest. refl }))
join-IsPiece sep a b (t ∷ []) h k (m, p, e) = rw (← e) p
join-IsPiece sep a b (t ∷ u ∷ ts) h k (m, p, ps) =
    append-IsPiece a m b t (sep ++ join sep (u ∷ ts)) p (
      append-IsPiece m m b sep (join sep (u ∷ ts)) (solid-IsPiece m sep h k)
        (join-IsPiece sep m b (u ∷ ts) h k ps))

pub join-IsSolid :
    (sep : Text) (ts : List Text) → IsSolid sep → All IsSolid ts → IsSolid (join sep ts)
unfolding join
join-IsSolid sep [] k h = record { runs = λ n rest. refl }
join-IsSolid sep (t ∷ []) k h = h.0
join-IsSolid sep (t ∷ u ∷ ts) k h =
    append-IsSolid t (sep ++ join sep (u ∷ ts)) h.0
      (append-IsSolid sep (join sep (u ∷ ts)) k (join-IsSolid sep (u ∷ ts) k h.1))
