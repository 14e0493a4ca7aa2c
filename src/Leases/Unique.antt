-- ===== src/Leases/Unique.antt =====
-- internal/adapters/appdb/leases.go: the statements keep the names of the table distinct.
use topbase.Prelude.{
  ℕ, ◌≡◌, refl, sym, Bool, true, false, not, List, [], ◌∷◌, ◌++◌, any, any-append, keep, ||-neither,
  &&-split, Bool-cases, inl, inr, arith,
}
use topbase.Text.{Text, text_eq}
use topbase.Text.Laws.{text_eq_iff, text_eq_sym}
use topbase.Leases.{
  Lease, may_take, new_lease, insert_lease, update_lease, release_lease, Statement, insert, update,
  delete, perform, run,
}
use topbase.Leases.Held.{unique}

unique-append :
    (new : Lease) (ls : List Lease)
    → unique ls ≡ true
    → any (λ l. text_eq l.name new.name) ls ≡ false
    → unique (ls ++ new ∷ []) ≡ true
unfolding unique
unique-append new [] u h = refl
unique-append new (l ∷ ls) u h =
    let (alone, behind) = &&-split (not (any (λ k. text_eq k.name l.name) ls)) (unique ls) u in
    let (apart, absent) =
      ||-neither (text_eq l.name new.name) (any (λ k. text_eq k.name new.name) ls) h in
    rw
      (
        any-append (λ k. text_eq k.name l.name) ls (new ∷ []),
        text_eq_sym new.name l.name,
        apart,
        unique-append new ls behind absent,
      )
      (ground arith)

keep-absent : (p q : Lease → Bool) (ls : List Lease) → any p ls ≡ false → any p (keep q ls) ≡ false
keep-absent p q [] h = refl
keep-absent p q (l ∷ ls) h = ground (arith, keep-absent p q ls)

unique-keep : (q : Lease → Bool) (ls : List Lease) → unique ls ≡ true → unique (keep q ls) ≡ true
unfolding unique
unique-keep q [] u = refl
unique-keep q (l ∷ ls) u =
    let (alone, behind) = &&-split (not (any (λ k. text_eq k.name l.name) ls)) (unique ls) u in
    let absent = keep-absent (λ k. text_eq k.name l.name) q ls (ground (arith, alone)) in
    elim (Bool-cases (q l)) [
      | inl stays ↦ rw (stays, absent, unique-keep q ls behind) refl
      | inr goes ↦ rw (goes, unique-keep q ls behind) refl
    ]

module _ (stamp : ℕ → Text) (now : ℕ) (name owner : Text) (ttl : ℕ) where
  update-names :
      (x : Text) (ls : List Lease)
      → any (λ l. text_eq l.name x) ((update_lease stamp now name owner ttl ls).1)
        ≡ any (λ l. text_eq l.name x) ls
  unfolding update_lease may_take
  update-names x [] = refl
  update-names x (l ∷ ls) = elim (Bool-cases (may_take stamp now name owner l)) [
    | inr spared ↦ rw (spared, update-names x ls) refl
    | inl taken ↦
        let (same, free) = &&-split (text_eq l.name name) _ taken in
        rw (taken, update-names x ls, (text_eq_iff l.name name).0 same) refl
  ]

  unique-update :
      (ls : List Lease)
      → unique ls ≡ true
      → unique ((update_lease stamp now name owner ttl ls).1) ≡ true
  unfolding update_lease may_take unique
  unique-update [] u = refl
  unique-update (l ∷ ls) u =
      let (alone, behind) = &&-split (not (any (λ k. text_eq k.name l.name) ls)) (unique ls) u in
      elim (Bool-cases (may_take stamp now name owner l)) [
        | inr spared ↦ rw (spared, update-names l.name ls, unique-update ls behind) (ground arith)
        | inl taken ↦
            let (same, free) = &&-split (text_eq l.name name) _ taken in
            rw
              (
                taken,
                sym ((text_eq_iff l.name name).0 same),
                update-names l.name ls,
                unique-update ls behind,
              )
              (ground arith)
      ]

perform-unique :
    (stamp : ℕ → Text) (s : Statement) (ls : List Lease)
    → unique ls ≡ true
    → unique (perform stamp s ls) ≡ true
unfolding perform insert_lease release_lease
perform-unique stamp (insert now n o ttl) ls u =
    elim (Bool-cases (any (λ l. text_eq l.name n) ls)) [
      | inl there ↦ rw (perform, there) u
      | inr fresh ↦ rw (perform, fresh) (unique-append (new_lease stamp now ttl n o) ls u fresh)
    ]
perform-unique stamp (update now n o ttl) ls u = unique-update stamp now n o ttl ls u
perform-unique stamp (delete n o) ls u = unique-keep _ ls u

pub run-unique :
    (stamp : ℕ → Text) (statements : List Statement) (ls : List Lease)
    → unique ls ≡ true
    → unique (run stamp statements ls) ≡ true
unfolding run
run-unique stamp [] ls u = u
run-unique stamp (s ∷ statements) ls u =
    run-unique stamp statements (perform stamp s ls) (perform-unique stamp s ls u)
