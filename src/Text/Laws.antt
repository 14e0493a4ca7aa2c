-- ===== src/Text/Laws.antt =====
-- Laws of comparison, splitting and joining.
use topbase.Prelude.{
  ℕ, ◌≡◌, refl, sym, ◌∙◌, ◌↔◌, true, false, ◌≢◌, List, [], ◌∷◌, arith, ◌==◌, Bool-cases, inl, inr,
  Option, none, some, All,
}
use topbase.Text.{Text, text_eq, one_of, split, lookup}

text_eq_of : (s t : Text) → text_eq s t ≡ true → s ≡ t
unfolding text_eq
text_eq_of [] [] h = refl
text_eq_of [] (b ∷ t) h = cc
text_eq_of (a ∷ s) [] h = cc
text_eq_of (a ∷ s) (b ∷ t) h = ground (arith, text_eq_of s t)

pub text_eq_refl : (s : Text) → text_eq s s ≡ true
unfolding text_eq
text_eq_refl [] = refl
text_eq_refl (a ∷ s) = ground (arith, text_eq_refl s)

pub text_eq_iff : (s t : Text) → (text_eq s t ≡ true) ↔ (s ≡ t)
text_eq_iff s t = (text_eq_of s t, λ e. rw e (text_eq_refl t))

-- Splitting always gives a part.
pub split_cases :
    (sep : ℕ) (t : Text) → (part : Text) × (parts : List Text) × (split sep t ≡ part ∷ parts)
unfolding split
split_cases sep [] = ([], [], refl)
split_cases sep (c ∷ t) =
    let (part, parts, e) = split_cases sep t in
    elim (Bool-cases (c == sep)) [
      | inl hit ↦ ([], split sep t, rw hit)
      | inr miss ↦ (c ∷ part, parts, rw (miss, e))
    ]

-- What holds of every entry of a table holds of the one that is found.
abbrev pub OnSome {ℓ κ} : {A : Type ℓ} → (A → Type κ) → Option A → Type κ
OnSome P none = Unit
OnSome P (some a) = P a

pub lookup-OnSome {ℓ κ} :
    {V : Type ℓ} (P : V → Type κ) (key : Text) (table : List (Text × V))
    → All (λ entry. P entry.1) table
    → OnSome P (lookup key table)
unfolding lookup
lookup-OnSome P key [] h = tt
lookup-OnSome P key ((k, v) ∷ table) (p, h) = elim (Bool-cases (text_eq key k)) [
  | inl hit ↦ rw hit p
  | inr miss ↦ rw miss (lookup-OnSome P key table h)
]

-- What holds of every word of a list holds of a text that is one of them.
pub one_of-elim {κ} :
    (P : Text → Type κ) (words : List Text) (t : Text) → All P words → one_of words t ≡ true → P t
unfolding one_of
one_of-elim P [] t h e = cc
one_of-elim P (w ∷ words) t (p, h) e = elim (Bool-cases (text_eq t w)) [
  | inl hit ↦ rw ((text_eq_iff t w).0 hit) p
  | inr miss ↦ one_of-elim P words t h (rw miss at e)
]

pub text_eq-false : (s t : Text) → text_eq s t ≡ false → s ≢ t
text_eq-false s t h e = ground (arith, text_eq_iff s t)

pub text_eq_sym : (s t : Text) → text_eq s t ≡ text_eq t s
text_eq_sym s t = elim (Bool-cases (text_eq s t)) [
  | inl same ↦ rw ((text_eq_iff s t).0 same)
  | inr other ↦ elim (Bool-cases (text_eq t s)) [
    | inl same ↦ rw ((text_eq_iff t s).0 same)
    | inr else_ ↦ other ∙ sym else_
  ]
]
