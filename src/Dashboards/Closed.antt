-- ===== src/Dashboards/Closed.antt =====
-- internal/app/content/dashboard.go: what DuplicateDashboard makes of the references inside a dashboard.
use topbase.Prelude.{
  ℕ, suc, ◌≡◌, refl, sym, ap, subst, ◌⊎◌, inl, inr, true, List, [], ◌∷◌, map, All, some, Bool-cases,
  arith,
}
use topbase.Text.{Text, codes, text_eq, one_of, lookup}
use topbase.Text.Laws.{text_eq_refl}
use topbase.Dashboards.{Card, Tab, FilterMapping, DashboardFilter, Dashboard}
use topbase.Dashboards.Duplicate.{
  Renaming, renamed, remapped, copy_tabs, copy_cards, copy_filters, copy_of,
}

abbrev pub tab_ids : List Tab → List Text
tab_ids ts = map (λ t. t.id) ts

abbrev pub card_ids : List Card → List Text
card_ids cs = map (λ c. c.id) cs

-- Each card is in a tab of the dashboard, and each filter acts on cards of the dashboard.
abbrev pub IsClosed : Dashboard → Type 0
IsClosed d =
    All (λ c. one_of (tab_ids d.tabs) c.tab_id ≡ true) d.cards
    × All (λ f. All (λ m. one_of (card_ids d.cards) m.card_id ≡ true) f.mappings) d.filters

-- A renaming takes the id to one of the texts.
abbrev Lands : Renaming → List Text → Text → Type 0
Lands r known id = one_of known (renamed r id) ≡ true

Named : Renaming → List Text → Text → Type 0
Named r known id = (new : Text) × (lookup id r ≡ some new) × (one_of known new ≡ true)

Named-Lands : (r : Renaming) (known : List Text) (id : Text) → Named r known id → Lands r known id
unfolding renamed Named
Named-Lands r known id (new, e, h) = rw e h

Named-cons :
    (r : Renaming) (known : List Text) (old new id : Text)
    → one_of known new ≡ true
    → (text_eq id old ≡ true) ⊎ Named r known id
    → Named ((old, new) ∷ r) known id
unfolding Named lookup
Named-cons r known old new id h (inl same) = (new, rw (lookup, same) refl, h)
Named-cons r known old new id h (inr (other, e, k)) = elim (Bool-cases (text_eq id old)) [
  | inl same ↦ (new, rw (lookup, same) refl, h)
  | inr differs ↦ (other, rw (lookup, differs) e, k)
]

one_of_cases :
    (x : Text) (xs : List Text) (id : Text)
    → one_of (x ∷ xs) id ≡ true
    → (text_eq id x ≡ true) ⊎ (one_of xs id ≡ true)
unfolding one_of
one_of_cases x xs id h = ground arith

no_one : (id : Text) → one_of [] id ≡ true → ⊥
unfolding one_of
no_one id h = cc

one_of-there :
    (x : Text) (xs : List Text) (id : Text) → one_of xs id ≡ true → one_of (x ∷ xs) id ≡ true
unfolding one_of
one_of-there x xs id h = ground arith

one_of-here : (x : Text) (xs : List Text) → one_of (x ∷ xs) x ≡ true
unfolding one_of
one_of-here x xs = rw (text_eq_refl x) refl

-- Every text of a list is one of a longer one.
All-there :
    (x : Text) (xs ys : List Text)
    → All (λ y. one_of xs y ≡ true) ys
    → All (λ y. one_of (x ∷ xs) y ≡ true) ys
All-there x xs [] h = tt
All-there x xs (y ∷ ys) (p, h) = (one_of-there x xs y p, All-there x xs ys h)

All-one_of : (xs : List Text) → All (λ x. one_of xs x ≡ true) xs
All-one_of [] = tt
All-one_of (x ∷ xs) = (one_of-here x xs, All-there x xs xs (All-one_of xs))

module _ (new_id : Text → ℕ → Text) where
  -- The ids that a loop draws for a list, and the renaming that it builds.
  drawn : Text → ℕ → List Text → List Text
  drawn prefix n [] = []
  drawn prefix n (x ∷ xs) = new_id prefix n ∷ drawn prefix (suc n) xs

  assigned : Text → ℕ → Renaming → List Text → Renaming
  assigned prefix n r [] = r
  assigned prefix n r (x ∷ xs) = assigned prefix (suc n) ((x, new_id prefix n) ∷ r) xs

  assigned-Named :
      (prefix : Text) (n : ℕ) (r : Renaming) (xs known : List Text) (id : Text)
      → All (λ y. one_of known y ≡ true) (drawn prefix n xs)
      → Named r known id ⊎ (one_of xs id ≡ true)
      → Named (assigned prefix n r xs) known id
  unfolding drawn assigned
  assigned-Named prefix n r [] known id h (inl named) = named
  assigned-Named prefix n r [] known id h (inr there) = absurd (no_one id there)
  assigned-Named prefix n r (x ∷ xs) known id (p, h) (inl named) =
      assigned-Named prefix (suc n) _ xs known id h
        (inl (Named-cons r known x (new_id prefix n) id p (inr named)))
  assigned-Named prefix n r (x ∷ xs) known id (p, h) (inr there) =
      elim (one_of_cases x xs id there) [
        | inl same ↦
            assigned-Named prefix (suc n) _ xs known id h
              (inl (Named-cons r known x (new_id prefix n) id p (inl same)))
        | inr later ↦ assigned-Named prefix (suc n) _ xs known id h (inr later)
      ]

  copy_tabs-drawn :
      (board : Text) (n : ℕ) (r : Renaming) (ts : List Tab)
      → (tab_ids (copy_tabs new_id board n r ts).0 ≡ drawn (codes "tab") n (tab_ids ts))
        × ((copy_tabs new_id board n r ts).1 ≡ assigned (codes "tab") n r (tab_ids ts))
  unfolding copy_tabs drawn assigned
  copy_tabs-drawn board n r [] = (refl, refl)
  copy_tabs-drawn board n r (t ∷ ts) =
      let (ids, renaming) = copy_tabs-drawn board (suc n) ((t.id, new_id (codes "tab") n) ∷ r) ts in
      (ap (λ xs. new_id (codes "tab") n ∷ xs) ids, renaming)

  copy_cards-drawn :
      (board : Text) (tabs : Renaming) (n : ℕ) (r : Renaming) (cs : List Card)
      → (card_ids (copy_cards new_id board tabs n r cs).0 ≡ drawn (codes "crd") n (card_ids cs))
        × ((copy_cards new_id board tabs n r cs).1 ≡ assigned (codes "crd") n r (card_ids cs))
  unfolding copy_cards drawn assigned
  copy_cards-drawn board tabs n r [] = (refl, refl)
  copy_cards-drawn board tabs n r (c ∷ cs) =
      let (ids, renaming) =
        copy_cards-drawn board tabs (suc n) ((c.id, new_id (codes "crd") n) ∷ r) cs in
      (ap (λ xs. new_id (codes "crd") n ∷ xs) ids, renaming)

  -- What a loop that starts with no renaming assigns to the ids that it meets.
  assigned-Lands :
      (prefix : Text) (n : ℕ) (xs known : List Text) (r : Renaming) (id : Text)
      → known ≡ drawn prefix n xs
      → r ≡ assigned prefix n [] xs
      → one_of xs id ≡ true
      → Lands r known id
  assigned-Lands prefix n xs known r id e k h = Named-Lands r known id (
      rw k (
        assigned-Named prefix n [] xs known id
          (subst (λ ys. All (λ y. one_of ys y ≡ true) (drawn prefix n xs)) (sym e)
            (All-one_of (drawn prefix n xs)))
          (inr h)))

  copy_cards-closed :
      (board : Text) (tabs : Renaming) (n : ℕ) (r : Renaming) (cs : List Card)
      (olds news : List Text)
      → ((id : Text) → one_of olds id ≡ true → Lands tabs news id)
      → All (λ c. one_of olds c.tab_id ≡ true) cs
      → All (λ c. one_of news c.tab_id ≡ true) (copy_cards new_id board tabs n r cs).0
  unfolding copy_cards
  copy_cards-closed board tabs n r [] olds news k h = tt
  copy_cards-closed board tabs n r (c ∷ cs) olds news k (p, h) = (
    k c.tab_id p,
    copy_cards-closed board tabs (suc n) ((c.id, new_id (codes "crd") n) ∷ r) cs olds news k h,
  )

  remapped-closed :
      (cards : Renaming) (ms : List FilterMapping) (olds news : List Text)
      → ((id : Text) → one_of olds id ≡ true → Lands cards news id)
      → All (λ m. one_of olds m.card_id ≡ true) ms
      → All (λ m. one_of news m.card_id ≡ true) (map (remapped cards) ms)
  remapped-closed cards [] olds news k h = tt
  remapped-closed cards (m ∷ ms) olds news k (p, h) =
      (k m.card_id p, remapped-closed cards ms olds news k h)

  copy_filters-closed :
      (board : Text) (cards : Renaming) (n : ℕ) (fs : List DashboardFilter) (olds news : List Text)
      → ((id : Text) → one_of olds id ≡ true → Lands cards news id)
      → All (λ f. All (λ m. one_of olds m.card_id ≡ true) f.mappings) fs
      → All
          (λ f. All (λ m. one_of news m.card_id ≡ true) f.mappings)
          (copy_filters new_id board cards n fs).0
  unfolding copy_filters
  copy_filters-closed board cards n [] olds news k h = tt
  copy_filters-closed board cards n (f ∷ fs) olds news k (p, h) = (
    remapped-closed cards f.mappings olds news k p,
    copy_filters-closed board cards (suc n) fs olds news k h,
  )

  -- Where each card of a dashboard is in one of its tabs and each filter acts on its cards, the copy's
  -- cards are in the copy's tabs and its filters act on the copy's cards.
  pub copy_of-IsClosed :
      (user : Text) (now n : ℕ) (src : Dashboard)
      → IsClosed src
      → IsClosed (copy_of new_id user now n src).0
  unfolding copy_of
  copy_of-IsClosed user now n src (cards, filters) =
      let board = new_id (codes "dsh") n in
      let (tab_ids_eq, tab_map_eq) = copy_tabs-drawn board (suc n) [] src.tabs in
      let tab_map = (copy_tabs new_id board (suc n) [] src.tabs).1 in
      let n1 = (copy_tabs new_id board (suc n) [] src.tabs).2 in
      let (card_ids_eq, card_map_eq) = copy_cards-drawn board tab_map n1 [] src.cards in
      (
        copy_cards-closed board tab_map n1 [] src.cards (tab_ids src.tabs) _
            (λ id h.
              assigned-Lands (codes "tab") (suc n) (tab_ids src.tabs) _ tab_map id tab_ids_eq
                tab_map_eq h)
            cards,
        copy_filters-closed board _ _ src.filters (card_ids src.cards) _
            (λ id h.
              assigned-Lands (codes "crd") n1 (card_ids src.cards) _ _ id card_ids_eq card_map_eq h)
            filters,
      )
