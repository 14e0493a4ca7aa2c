-- ===== src/Leases/Tests.antt =====
-- Leases at work: a stamp of twelve digits in place of the date, and the theorems at one table.
use topbase.Prelude.{
  ℕ, zero, suc, ◌+◌, ◌*◌, ◌/◌, ◌%◌, ◌<◌, ◌≡◌, refl, ap, ◌∙◌, ◌⊎◌, true, false, List, [], ◌∷◌, ◌++◌,
  arith, ltb, length, length-append, lt→ltb, ltb→lt, Bool-cases, inl, inr, ok,
}
use topbase.Text.{Text, codes, text_eq}
use topbase.Leases.{
  Lease, LeaseError, precedes, format, acquire_lease, Statement, insert, update, delete, run,
}
use topbase.Leases.Order.{Chronological, precedes-append}
use topbase.Leases.Held.{held, Earlier, foreign, unique}
use topbase.Leases.Exclusive.{acquire_lease_exclusive}
use topbase.Leases.Free.{Within, acquire_lease_live}

-- The last digits of a number, as many as asked for.
unfoldable digits : ℕ → ℕ → Text
digits zero n = []
digits (suc k) n = digits k (n / 10) ++ (48 + n % 10) ∷ []

abbrev power : ℕ → ℕ
power zero = 1
power (suc k) = 10 * power k

length-digits : (k n : ℕ) → length (digits k n) ≡ k
unfolding digits
length-digits zero n = refl
length-digits (suc k) n =
    length-append (digits k (n / 10)) ((48 + n % 10) ∷ []) ∙ omega (arith, length-digits k (n / 10))

precedes-same : (s x y : Text) → precedes (s ++ x) (s ++ y) ≡ precedes x y
unfolding precedes
precedes-same [] x y = refl
precedes-same (a ∷ s) x y = ground (arith, precedes-same s x y)

digits-precedes : (k a b : ℕ) → a < b → b < power k → precedes (digits k a) (digits k b) ≡ true
unfolding digits
digits-precedes zero a b h bound = ground (arith, h, bound)
digits-precedes (suc k) a b h bound = elim (tens a b h) [
  | inl less ↦
      precedes-append (digits k (a / 10)) (digits k (b / 10)) _ _
        (length-digits k (a / 10) ∙ ap (λ n. n) (omega (arith, length-digits k (b / 10))))
        (digits-precedes k (a / 10) (b / 10) less (omega arith))
  | inr (same, less) ↦
      rw (same, precedes-same (digits k (b / 10)) ((48 + a % 10) ∷ []) ((48 + b % 10) ∷ []))
        (unfold precedes in rw (lt→ltb (48 + a % 10) (48 + b % 10) (omega arith)) refl)
]
  where
    tens : (a b : ℕ) → a < b → (a / 10 < b / 10) ⊎ ((a / 10 ≡ b / 10) × (a % 10 < b % 10))
    tens a b h = elim (Bool-cases (ltb (a / 10) (b / 10))) [
      | inl less ↦ inl (ltb→lt (a / 10) (b / 10) less)
      | inr close ↦ inr (ground arith, ground arith)
    ]

digits-Chronological : Chronological (digits 12)
digits-Chronological a b h k =
    (length-digits 12 a ∙ omega (arith, length-digits 12 b), digits-precedes 12 a b h (omega arith))

abbrev scheduler : Text
scheduler = codes "warehouse:scheduler"

abbrev one : Text
one = codes "one"

abbrev two : Text
two = codes "two"

-- 75 seconds.
abbrev term : ℕ
term = 75000000000

abbrev taken : List Lease
taken =
    record {
      name = scheduler;
      owner = one;
      expires_at = codes "000000000076.5Z";
      updated_at = codes "000000000001.5Z";
    }
    ∷ []

taken_test : acquire_lease (digits 12) 1500000000 scheduler one term [] ≡ ok (true, taken)
unfolding acquire_lease format digits
taken_test = refl

-- Within one second the texts do not follow the moments: half a second before its end, the lease is
-- given away.
early_test :
    held scheduler two
      (codes "000000000151Z")
      (run (digits 12) (update 76000000000 scheduler two term ∷ []) taken)
    ≡ true
unfolding held run text_eq precedes format digits topbase.Leases.Held.row_held
early_test = refl

abbrev traffic : List Statement
traffic =
    insert 31000000000 scheduler two term
    ∷ update 31000000000 scheduler two term
    ∷ delete scheduler two
    ∷ insert 40000000000 (codes "warehouse:schedule:1") one term
    ∷ []

acquire_lease_exclusive_example :
    acquire_lease (digits 12) 75900000000 scheduler two term (run (digits 12) traffic taken)
    ≡ ok (false, run (digits 12) traffic taken)
unfolding unique acquire_lease format digits foreign Earlier text_eq
acquire_lease_exclusive_example =
    acquire_lease_exclusive (digits 12) digits-Chronological 1500000000 term scheduler one [] taken
      traffic refl refl (omega arith)
      ((refl, omega arith), ((refl, omega arith), ((refl, tt), ((refl, omega arith), tt))))
      75900000000 term two refl refl (omega arith)

acquire_lease_live_example :
    (after : List Lease) × (acquire_lease
        (digits 12)
        200000000000
        scheduler
        two
        term
        (run (digits 12) traffic [])
      ≡ ok (true, after))
    × (held scheduler two (format (digits 12) (200000000000 + term)) after ≡ true)
unfolding Within
acquire_lease_live_example =
    acquire_lease_live (digits 12) digits-Chronological traffic 115000000000 200000000000 term
      scheduler two (omega arith, (omega arith, (tt, (omega arith, tt)))) (omega arith)
      (omega arith) refl
