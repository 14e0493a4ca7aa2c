-- ===== src/Leases/Free.antt =====
-- internal/adapters/appdb/leases.go: a lease whose time is over can be acquired.
use topbase.Prelude.{
  ℕ, ◌+◌, ◌/◌, ◌≤◌, ◌<◌, ◌≡◌, refl, Bool, true, false, ◌||◌, List, [], ◌∷◌, ◌++◌, map,
  if◌then◌else◌, any, keep, is_empty, All, All-append, Bool-cases, inl, inr, ok, arith, ◌==◌,
}
use topbase.Text.{Text, text_eq}
use topbase.Leases.{
  Lease, precedes, second, format, may_take, new_lease, insert_lease, update_lease, update_unless,
  acquire_lease, release_lease, Statement, insert, update, delete, perform, run,
}
use topbase.Leases.Order.{Chronological, last_second, format-precedes}
use topbase.Leases.Held.{held, unique}
use topbase.Leases.Exclusive.{acquire_lease-held}
use topbase.Leases.Unique.{run-unique}

-- A statement that asks for no lease beyond the moment.
unfoldable pub Within : ℕ → Statement → Type 0
Within end (insert now n o ttl) = now + ttl ≤ end
Within end (update now n o ttl) = now + ttl ≤ end
Within end (delete n o) = Unit

module _ (stamp : ℕ → Text) (end : ℕ) where
  -- A row that expires by the moment.
  unfoldable Expiring : Lease → Type 0
  Expiring l = (m : ℕ) × (l.expires_at ≡ format stamp m) × (m ≤ end)

  map-Expiring :
      (f : Lease → Lease) (ls : List Lease)
      → ((l : Lease) → Expiring l → Expiring (f l))
      → All Expiring ls
      → All Expiring (map f ls)
  map-Expiring f [] step h = tt
  map-Expiring f (l ∷ ls) step (p, h) = (step l p, map-Expiring f ls step h)

  keep-Expiring : (q : Lease → Bool) (ls : List Lease) → All Expiring ls → All Expiring (keep q ls)
  keep-Expiring q [] h = tt
  keep-Expiring q (l ∷ ls) (p, h) = elim (Bool-cases (q l)) [
    | inl stays ↦ rw stays (p, keep-Expiring q ls h)
    | inr goes ↦ rw goes (keep-Expiring q ls h)
  ]

  perform-Expiring :
      (s : Statement) (ls : List Lease)
      → Within end s
      → All Expiring ls
      → All Expiring (perform stamp s ls)
  unfolding perform insert_lease update_lease release_lease Within Expiring
  perform-Expiring (insert now n o ttl) ls w h =
      elim (Bool-cases (any (λ l. text_eq l.name n) ls)) [
        | inl there ↦ rw (perform, there) h
        | inr fresh ↦ rw (perform, fresh) (All-append Expiring ls _ h ((now + ttl, refl, w), tt))
      ]
  perform-Expiring (update now n o ttl) ls w h = map-Expiring _ ls change h
    where
      change :
          (l : Lease)
          → Expiring l
          → Expiring (if may_take stamp now n o l then new_lease stamp now ttl n o else l)
      change l p = elim (Bool-cases (may_take stamp now n o l)) [
        | inl taken ↦ rw taken (now + ttl, refl, w)
        | inr spared ↦ rw spared p
      ]
  perform-Expiring (delete n o) ls w h = keep-Expiring _ ls h

  run-Expiring :
      (statements : List Statement) (ls : List Lease)
      → All (Within end) statements
      → All Expiring ls
      → All Expiring (run stamp statements ls)
  unfolding run
  run-Expiring [] ls w h = h
  run-Expiring (s ∷ statements) ls (w, ws) h =
      run-Expiring statements (perform stamp s ls) ws (perform-Expiring s ls w h)

  update-some :
      (now : ℕ) (name owner : Text) (ttl : ℕ) (ls : List Lease)
      → ((l : Lease) → Expiring l → precedes l.expires_at (format stamp now) ≡ true)
      → All Expiring ls
      → any (λ l. text_eq l.name name) ls ≡ true
      → (update_lease stamp now name owner ttl ls).0 ≡ true
  unfolding update_lease may_take
  update-some now name owner ttl [] over h e = cc
  update-some now name owner ttl (l ∷ ls) over (p, h) e = elim (Bool-cases (text_eq l.name name)) [
    | inl named ↦ rw (named, over l p) refl
    | inr apart ↦ rw apart (update-some now name owner ttl ls over h (rw apart at e))
  ]

module _ (stamp : ℕ → Text) (ordered : Chronological stamp) where
  Expiring-precedes :
      (end now : ℕ) (l : Lease)
      → end / second < now / second
      → now / second < last_second
      → Expiring stamp end l
      → precedes l.expires_at (format stamp now) ≡ true
  unfolding Expiring
  Expiring-precedes end now l over known (m, e, bound) =
      rw e (format-precedes stamp ordered m now (div_trans m end now bound over) known)
    where
      div_trans :
          (m end now : ℕ) → m ≤ end → end / second < now / second → m / second < now / second
      div_trans m end now b o = omega arith

  -- No lease outlives its time. Whatever statements the instances sent to the empty table, once the
  -- clock is in a second behind the last moment that any of them asked for, AcquireLease gives every
  -- lease to any owner that asks for it, and that owner then holds it for the time it asked for.
  pub acquire_lease_live :
      (statements : List Statement) (end now ttl : ℕ) (name owner : Text)
      → All (Within end) statements
      → end / second < now / second
      → now / second < last_second
      → (is_empty name || is_empty owner || ttl == 0) ≡ false
      → (after : List Lease) × (acquire_lease stamp now name owner ttl (run stamp statements [])
          ≡ ok (true, after))
        × (held name owner (format stamp (now + ttl)) after ≡ true)
  unfolding acquire_lease insert_lease update_unless update_lease unique
  acquire_lease_live statements end now ttl name owner within over known complete =
      let (after, done) = taken in
      (
        after,
        done,
        acquire_lease-held name owner (format stamp (now + ttl)) stamp now ttl table after refl
            (run-unique stamp statements [] refl) done,
      )
    where
      table : List Lease
      table = run stamp statements []

      taken :
          (after : List Lease) × (acquire_lease stamp now name owner ttl table ≡ ok (true, after))
      taken = elim (Bool-cases (any (λ l. text_eq l.name name) table)) [
        | inr fresh ↦ (table ++ new_lease stamp now ttl name owner ∷ [], rw (complete, fresh) refl)
        | inl there ↦ (
          (update_lease stamp now name owner ttl table).1,
          rw
              (
                complete,
                there,
                update-some stamp end now name owner ttl table
                    (λ l. Expiring-precedes end now l over known)
                    (run-Expiring stamp end statements [] within tt) there,
              )
              refl,
        )
      ]
