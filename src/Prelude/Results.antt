-- ===== src/Prelude/Results.antt =====
-- Fallible code: a value or an error, and the chain of such steps.
use mathlib.Core.Path.{◌≡◌, refl, ap, subst}
use mathlib.Core.Bool.{Bool, true, false}
use mathlib.Core.Logic.{◌⊎◌, inl, inr}
use mathlib.Core.List.{List, [], ◌∷◌}

-- Go's pair of a value and an error of which one counts.
pub data Result {ℓ κ} (E : Type ℓ) (A : Type κ) : Type (ℓ ⊔ κ) where
  err : E → Result E A
  ok : A → Result E A

module _ {ℓ κ μ} {E : Type ℓ} {A : Type κ} {B : Type μ} where
  infixl 5 ◌>>=◌
  abbrev pub ◌>>=◌ : Result E A → (A → Result E B) → Result E B
  err why >>= next = err why
  ok value >>= next = next value

-- A caller's error for a step's.
module _ {ℓ κ μ} {E : Type ℓ} {F : Type κ} {A : Type μ} where
  abbrev pub map_err : (E → F) → Result E A → Result F A
  map_err f (err why) = err (f why)
  map_err f (ok value) = ok value

-- A check, then what follows it.
module _ {ℓ κ} {E : Type ℓ} {A : Type κ} where
  infixl 5 ◌>>◌
  abbrev pub ◌>>◌ : Result E (Unit {0}) → Result E A → Result E A
  check >> rest = check >>= λ passed. rest

-- `if !test { return why }`.
abbrev pub guard {ℓ} : {E : Type ℓ} → Bool → E → Result E (Unit {0})
guard false why = err why
guard true why = ok tt

-- A loop that stops at the first element whose check fails.
abbrev pub each {ℓ κ} :
    {E : Type ℓ} {A : Type κ} → (A → Result E (Unit {0})) → List A → Result E (Unit {0})
each f [] = ok tt
each f (x ∷ xs) = f x >> each f xs

pub Result-cases {ℓ κ} :
    {E : Type ℓ} {A : Type κ} (r : Result E A) → ((a : A) × (r ≡ ok a)) ⊎ ((e : E) × (r ≡ err e))
Result-cases (ok a) = inl (a, refl)
Result-cases (err e) = inr (e, refl)

module _ {ℓ κ μ} {E : Type ℓ} {A : Type κ} {B : Type μ} where
  -- The step that a result came from, and what followed it.
  pub >>=-eq-ok :
      (step : Result E A) (next : A → Result E B) {out : B}
      → (step >>= next) ≡ ok out
      → (value : A) × (step ≡ ok value) × (next value ≡ ok out)
  >>=-eq-ok (err why) next e = cc
  >>=-eq-ok (ok value) next e = (value, refl, e)

module _ {ℓ μ} {E : Type ℓ} {B : Type μ} where
  -- A check that was passed, and what follows it.
  pub >>-eq-ok :
      (m : Result E (Unit {0})) (k : Result E B) {b : B}
      → (m >> k) ≡ ok b
      → (m ≡ ok tt) × (k ≡ ok b)
  >>-eq-ok (ok tt) k h = (refl, h)
  >>-eq-ok (err e) k h = cc

pub guard-eq-ok {ℓ} : {E : Type ℓ} (b : Bool) (e : E) → guard b e ≡ ok tt → b ≡ true
guard-eq-ok true e h = refl
guard-eq-ok false e h = cc

-- The value of a result that succeeds, and what two equal results have in common.
abbrev pub value_of {ℓ κ} : {E : Type ℓ} {A : Type κ} → A → Result E A → A
value_of d (ok a) = a
value_of d (err e) = d

pub ok-injective {ℓ κ} :
    {E : Type ℓ} {A : Type κ} {a b : A} → ◌≡◌ {A = Result E A} (ok a) (ok b) → a ≡ b
ok-injective {a = a} p = ap (value_of a) p

pub ok-transport {ℓ κ μ} :
    {E : Type ℓ} {A : Type κ} (P : A → Type μ) {a b : A}
    → ◌≡◌ {A = Result E A} (ok a) (ok b)
    → P a
    → P b
ok-transport P p h = subst P (ok-injective p) h
