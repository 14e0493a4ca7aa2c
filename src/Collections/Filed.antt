-- ===== src/Collections/Filed.antt =====
-- internal/app/content/service.go: no question and no collection is left behind by a deletion.
use topbase.Prelude.{
  ◌≡◌, refl, sym, ◌∙◌, Bool, true, false, not, ◌||◌, List, [], ◌∷◌, keep, any, All, any-keep-not,
  ok, guard, is_empty, inl, inr, Bool-cases, ||-neither, if_either, >>=-eq-ok, >>-eq-ok,
  guard-eq-ok, ok-transport, arith,
}
use topbase.Text.{Text, text_eq}
use topbase.Text.Laws.{text_eq_iff}
use topbase.Collections.{
  personal_stays, has_questions, has_children, Collection, Shelf, collection_by_id,
  delete_collection,
}

-- An id that is "" or that of a collection.
abbrev pub IsHome : List Collection → Text → Type 0
IsHome cs id = (is_empty id || any (λ c. text_eq c.id id) cs) ≡ true

-- Every question is in a collection that there is, or in none, and every collection's parent is there.
abbrev pub IsFiled : Shelf → Type 0
IsFiled s =
    All (λ q. IsHome s.collections q.collection_id) s.questions
    × All (λ c. IsHome s.collections c.parent_id) s.collections

others_differ : (a id x : Text) → text_eq a id ≡ true → text_eq x id ≡ false → text_eq a x ≡ false
others_differ a id x same other = elim (Bool-cases (text_eq a x)) [
  | inl equal ↦ cc (
      sym ((text_eq_iff x id).1 (sym ((text_eq_iff a x).0 equal) ∙ (text_eq_iff a id).0 same))
      ∙ other)
  | inr differs ↦ differs
]

any-keep :
    (id x : Text) (cs : List Collection)
    → text_eq x id ≡ false
    → any (λ c. text_eq c.id x) (keep (λ c. not (text_eq c.id id)) cs)
      ≡ any (λ c. text_eq c.id x) cs
any-keep id x [] h = refl
any-keep id x (c ∷ cs) h = elim (Bool-cases (text_eq c.id id)) [
  | inl gone ↦ rw (gone, others_differ c.id id x gone h) (any-keep id x cs h)
  | inr other ↦ rw (other, any-keep id x cs h) refl
]

IsHome-keep :
    (id x : Text) (cs : List Collection)
    → text_eq x id ≡ false
    → IsHome cs x
    → IsHome (keep (λ c. not (text_eq c.id id)) cs) x
IsHome-keep id x cs h home = rw (any-keep id x cs h) home

module _ {A : Type 0} (home : A → Text) (id : Text) (cs : List Collection) where
  All-keep :
      (xs : List A)
      → any (λ x. text_eq (home x) id) xs ≡ false
      → All (λ x. IsHome cs (home x)) xs
      → All (λ x. IsHome (keep (λ c. not (text_eq c.id id)) cs) (home x)) xs
  All-keep [] none_there h = tt
  All-keep (x ∷ xs) none_there (p, h) =
      let (here, rest) =
        ||-neither (text_eq (home x) id) (any (λ x. text_eq (home x) id) xs) none_there in
      (IsHome-keep id (home x) cs here p, All-keep xs rest h)

kept-All {κ} :
    (P : Collection → Type κ) (test : Collection → Bool) (cs : List Collection)
    → All P cs
    → All P (keep test cs)
kept-All P test [] h = tt
kept-All P test (c ∷ cs) (p, h) =
    if_either (All P) (test c) _ _ (p, kept-All P test cs h) (kept-All P test cs h)

not-true : (b : Bool) → not b ≡ true → b ≡ false
not-true b h = ground arith

-- What DeleteCollection leaves is filed as before: it refuses to take a collection away that has a
-- question, archived or not, or a collection in it; and the collection that it takes is gone.
pub delete_collection-IsFiled :
    (id : Text) (s t : Shelf)
    → delete_collection id s ≡ ok t
    → IsFiled s
    → IsFiled t × (any (λ c. text_eq c.id id) t.collections ≡ false)
unfolding delete_collection
delete_collection-IsFiled id s t e (questions, parents) =
    let (existing, there, e1) = >>=-eq-ok (collection_by_id id s) _ e in
    let (ours, e2) =
      >>-eq-ok (guard (is_empty existing.personal_owner_user_id) personal_stays) _ e1 in
    let (empty, e3) =
      >>-eq-ok (guard (not (any (λ q. text_eq q.collection_id id) s.questions)) has_questions) _
        e2 in
    let (childless, e4) =
      >>-eq-ok (guard (not (any (λ c. text_eq c.parent_id id) s.collections)) has_children) _ e3 in
    ok-transport (λ t. IsFiled t × (any (λ c. text_eq c.id id) t.collections ≡ false)) e4
      (
        (
          All-keep (λ q. q.collection_id) id s.collections s.questions
              (not-true _ (guard-eq-ok _ _ empty)) questions,
          kept-All _ (λ c. not (text_eq c.id id)) s.collections
              (All-keep (λ c. c.parent_id) id s.collections s.collections
                (not-true _ (guard-eq-ok _ _ childless)) parents),
        ),
        any-keep-not (λ c. text_eq c.id id) s.collections,
      )
