-- ===== src/Leases/Held.antt =====
-- internal/adapters/appdb/leases.go: a lease that is held is not given to another owner.
use topbase.Prelude.{
  ℕ, ◌/◌, ◌<◌, ◌≡◌, refl, sym, ap, ◌∙◌, Bool, true, false, not, ◌&&◌, ◌||◌, List, [], ◌∷◌,
  if◌then◌else◌, any, any-append, all, all-append, All, &&-split, Bool-cases, inl, inr, arith,
}
use topbase.Text.{Text, text_eq}
use topbase.Text.Laws.{text_eq_iff}
use topbase.Leases.{
  Lease, precedes, second, format, may_take, new_lease, insert_lease, update_lease, release_lease,
  Statement, insert, update, delete, perform, run,
}

-- No two rows have one name: the table's primary key.
unfoldable pub unique : List Lease → Bool
unique [] = true
unique (l ∷ ls) = not (any (λ k. text_eq k.name l.name) ls) && unique ls

-- A row of this name belongs to the owner and expires at the text.
unfoldable pub row_held : Text → Text → Text → Lease → Bool
row_held name owner expiry l =
    not (text_eq l.name name) || (text_eq l.owner owner && text_eq l.expires_at expiry)

unfoldable pub held : Text → Text → Text → List Lease → Bool
held name owner expiry leases =
    any (λ l. text_eq l.name name) leases && all (row_held name owner expiry) leases

-- A statement of another owner, or about another lease.
unfoldable pub foreign : Text → Text → Statement → Bool
foreign name owner (insert now n o ttl) = not (text_eq n name && text_eq o owner)
foreign name owner (update now n o ttl) = not (text_eq n name && text_eq o owner)
foreign name owner (delete n o) = not (text_eq n name && text_eq o owner)

-- A statement sent in an earlier second than the moment.
unfoldable pub Earlier : ℕ → Statement → Type 0
Earlier end (insert now n o ttl) = now / second < end / second
Earlier end (update now n o ttl) = now / second < end / second
Earlier end (delete n o) = Unit

module _ (name owner expiry : Text) where
  -- A row under the name stands for every row that has it.
  any_name :
      (n : Text) (ls : List Lease)
      → any (λ l. text_eq l.name name) ls ≡ true
      → any (λ l. text_eq l.name n) ls ≡ false
      → text_eq n name ≡ false
  any_name n ls h k = elim (Bool-cases (text_eq n name)) [
    | inl same ↦
        let absent : any (λ l. text_eq l.name name) ls ≡ false =
          ap (λ m. any (λ l. text_eq l.name m) ls) (sym ((text_eq_iff n name).0 same)) ∙ k in
        ground (arith, h, absent)
    | inr other ↦ other
  ]

  pub held_parts :
      (ls : List Lease)
      → held name owner expiry ls ≡ true
      → (any (λ l. text_eq l.name name) ls ≡ true) × (all (row_held name owner expiry) ls ≡ true)
  unfolding held
  held_parts ls h =
      &&-split (any (λ l. text_eq l.name name) ls) (all (row_held name owner expiry) ls) h

  module _ (stamp : ℕ → Text) where
    insert-held :
        (now : ℕ) (n o : Text) (ttl : ℕ) (ls : List Lease)
        → held name owner expiry ls ≡ true
        → held name owner expiry ((insert_lease stamp now n o ttl ls).1) ≡ true
    unfolding held insert_lease row_held
    insert-held now n o ttl ls h = elim (Bool-cases (any (λ l. text_eq l.name n) ls)) [
      | inl there ↦ rw there h
      | inr fresh ↦
          let (some_row, rows) = held_parts ls h in
          let apart = any_name n ls some_row fresh in
          rw
            (
              fresh,
              any-append (λ l. text_eq l.name name) ls (new_lease stamp now ttl n o ∷ []),
              all-append (row_held name owner expiry) ls (new_lease stamp now ttl n o ∷ []),
              some_row,
              rows,
              apart,
            )
            refl
    ]

    -- An UPDATE that takes a row while the lease is held is about another lease.
    may_take-apart :
        (now : ℕ) (n o : Text) (l : Lease)
        → (text_eq n name && text_eq o owner) ≡ false
        → precedes expiry (format stamp now) ≡ false
        → row_held name owner expiry l ≡ true
        → may_take stamp now n o l ≡ true
        → (l.name ≡ n) × (text_eq n name ≡ false)
    unfolding may_take row_held
    may_take-apart now n o l other late h taken =
        let (named, free) = &&-split _ _ taken in
        let same = (text_eq_iff l.name n).0 named in
        (
          same,
          elim (Bool-cases (text_eq n name)) [
            | inr apart ↦ apart
            | inl hit ↦ grind (
              arith,
              text_eq_iff l.name name,
              text_eq_iff n name,
              text_eq_iff o owner,
              text_eq_iff l.owner owner,
              text_eq_iff l.owner o,
              text_eq_iff l.expires_at expiry,
            )
          ],
        )

    take-row_held :
        (now : ℕ) (n o : Text) (ttl : ℕ) (l : Lease)
        → (text_eq n name && text_eq o owner) ≡ false
        → precedes expiry (format stamp now) ≡ false
        → row_held name owner expiry l ≡ true
        → (row_held name owner expiry
              (if may_take stamp now n o l then new_lease stamp now ttl n o else l)
            ≡ true)
          × (text_eq
                ((if may_take stamp now n o l then new_lease stamp now ttl n o else l).name)
                name
              ≡ text_eq l.name name)
    unfolding row_held
    take-row_held now n o ttl l other late h = elim (Bool-cases (may_take stamp now n o l)) [
      | inr spared ↦ rw spared (h, refl)
      | inl taken ↦
          let (same, apart) = may_take-apart now n o l other late h taken in
          rw (taken, row_held, same, apart) (refl, refl)
    ]

    update-rows :
        (now : ℕ) (n o : Text) (ttl : ℕ) (ls : List Lease)
        → (text_eq n name && text_eq o owner) ≡ false
        → precedes expiry (format stamp now) ≡ false
        → all (row_held name owner expiry) ls ≡ true
        → (all (row_held name owner expiry) ((update_lease stamp now n o ttl ls).1) ≡ true)
          × (any (λ l. text_eq l.name name) ((update_lease stamp now n o ttl ls).1)
              ≡ any (λ l. text_eq l.name name) ls)
    unfolding update_lease
    update-rows now n o ttl [] other late h = (refl, refl)
    update-rows now n o ttl (l ∷ ls) other late h =
        let (first, behind) =
          &&-split (row_held name owner expiry l) (all (row_held name owner expiry) ls) h in
        let (kept, named) = take-row_held now n o ttl l other late first in
        let (rows, names) = update-rows now n o ttl ls other late behind in
        rw (kept, rows, named, names) (refl, refl)

    delete-rows :
        (n o : Text) (ls : List Lease)
        → (text_eq n name && text_eq o owner) ≡ false
        → all (row_held name owner expiry) ls ≡ true
        → (all (row_held name owner expiry) (release_lease n o ls) ≡ true)
          × (any (λ l. text_eq l.name name) (release_lease n o ls)
              ≡ any (λ l. text_eq l.name name) ls)
    unfolding release_lease row_held
    delete-rows n o [] other h = (refl, refl)
    delete-rows n o (l ∷ ls) other h =
        let (first, behind) =
          &&-split (row_held name owner expiry l) (all (row_held name owner expiry) ls) h in
        let (rows, names) = delete-rows n o ls other behind in
        elim (Bool-cases (text_eq l.name n && text_eq l.owner o)) [
          | inr stays ↦ rw (stays, rows, names) (ground arith, refl)
          | inl goes ↦
              let (named, owned) = &&-split (text_eq l.name n) (text_eq l.owner o) goes in
              let apart : text_eq l.name name ≡ false = elim (Bool-cases (text_eq l.name name)) [
                | inr apart ↦ apart
                | inl hit ↦ grind (
                  arith,
                  text_eq_iff l.name name,
                  text_eq_iff l.name n,
                  text_eq_iff n name,
                  text_eq_iff l.owner owner,
                  text_eq_iff l.owner o,
                  text_eq_iff o owner,
                )
              ] in
              rw (goes, rows, names, apart) (refl, refl)
        ]

    perform-held :
        (end : ℕ) (statement : Statement) (ls : List Lease)
        → foreign name owner statement ≡ true
        → ((now : ℕ) → now / second < end / second → precedes expiry (format stamp now) ≡ false)
        → Earlier end statement
        → held name owner expiry ls ≡ true
        → held name owner expiry (perform stamp statement ls) ≡ true
    unfolding perform foreign Earlier held
    perform-held end (insert now n o ttl) ls other late soon h = insert-held now n o ttl ls h
    perform-held end (update now n o ttl) ls other late soon h =
        let (some_row, rows) = held_parts ls h in
        let (kept, names) = update-rows now n o ttl ls (ground arith) (late now soon) rows in
        rw (kept, names, some_row) refl
    perform-held end (delete n o) ls other late soon h =
        let (some_row, rows) = held_parts ls h in
        let (kept, names) = delete-rows n o ls (ground arith) rows in
        rw (kept, names, some_row) refl

    pub run-held :
        (end : ℕ) (statements : List Statement) (ls : List Lease)
        → ((now : ℕ) → now / second < end / second → precedes expiry (format stamp now) ≡ false)
        → All (λ s. (foreign name owner s ≡ true) × Earlier end s) statements
        → held name owner expiry ls ≡ true
        → held name owner expiry (run stamp statements ls) ≡ true
    unfolding run
    run-held end [] ls late all_foreign h = h
    run-held end (s ∷ statements) ls late ((other, soon), behind) h =
        run-held end statements (perform stamp s ls) late behind
          (perform-held end s ls other late soon h)
