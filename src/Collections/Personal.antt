-- ===== src/Collections/Personal.antt =====
-- internal/app/content/service.go: a user's personal collection is made once.
use topbase.Prelude.{
  ℕ, ◌≡◌, refl, subst, Bool, true, List, [], ◌∷◌, ◌++◌, find, Option, none, some, inl, inr,
  Bool-cases, Option-cases,
}
use topbase.Text.{Text, text_eq}
use topbase.Text.Laws.{text_eq_refl}
use topbase.Collections.{Collection, Shelf, personal_of, add_collection, ensure_personal_collection}

find-append_none {ℓ} :
    {A : Type ℓ} (p : A → Bool) (xs : List A) (x : A)
    → find p xs ≡ none
    → p x ≡ true
    → find p (xs ++ x ∷ []) ≡ some x
find-append_none p [] x e h = rw h refl
find-append_none p (y ∷ ys) x e h = elim (Bool-cases (p y)) [
  | inl hit ↦ cc (rw hit at e)
  | inr miss ↦ rw miss (find-append_none p ys x (rw miss at e) h)
]

abbrev Passes {ℓ} : {A : Type ℓ} → (A → Bool) → Option A → Type 0
Passes p none = Unit
Passes p (some a) = p a ≡ true

find-some {ℓ} : {A : Type ℓ} (p : A → Bool) (xs : List A) (x : A) → find p xs ≡ some x → p x ≡ true
find-some p [] x e = cc
find-some p (y ∷ ys) x e = elim (Bool-cases (p y)) [
  | inl hit ↦ subst (Passes p) (rw hit at e) hit
  | inr miss ↦ find-some p ys x (rw miss at e)
]

module _ (new_id : Text → ℕ → Text) (now : ℕ) (user : Text) (s : Shelf) where
  ensure_missing :
      find (λ c. text_eq c.personal_owner_user_id user) s.collections ≡ none
      → ensure_personal_collection new_id now user s
        ≡ (personal_of new_id now user s, add_collection (personal_of new_id now user s) s)
  unfolding ensure_personal_collection
  ensure_missing missing = rw (ensure_personal_collection, missing) refl

  ensure_there :
      (c : Collection)
      → find (λ c. text_eq c.personal_owner_user_id user) s.collections ≡ some c
      → ensure_personal_collection new_id now user s ≡ (c, s)
  unfolding ensure_personal_collection
  ensure_there c there = rw (ensure_personal_collection, there) refl

-- EnsurePersonalCollection gives a collection that the user owns; when it is called again, at whatever
-- time, it gives the same collection and changes nothing.
pub ensure_personal_collection_again :
    (new_id : Text → ℕ → Text) (now later : ℕ) (user : Text) (s : Shelf)
    → (text_eq (ensure_personal_collection new_id now user s).0.personal_owner_user_id user ≡ true)
      × (ensure_personal_collection new_id later user
            (ensure_personal_collection new_id now user s).1
          ≡ ensure_personal_collection new_id now user s)
ensure_personal_collection_again new_id now later user s =
    elim (Option-cases (find (λ c. text_eq c.personal_owner_user_id user) s.collections)) [
      | inl missing ↦ rw (ensure_missing new_id now user s missing) (
        text_eq_refl user,
        ensure_there new_id later user (add_collection (personal_of new_id now user s) s)
            (personal_of new_id now user s)
            (find-append_none (λ c. text_eq c.personal_owner_user_id user) s.collections
              (personal_of new_id now user s) missing (text_eq_refl user)),
      )
      | inr (c, there) ↦ rw (ensure_there new_id now user s c there) (
        find-some (λ c. text_eq c.personal_owner_user_id user) s.collections c there,
        ensure_there new_id later user s c there,
      )
    ]
