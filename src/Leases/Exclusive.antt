-- ===== src/Leases/Exclusive.antt =====
-- internal/adapters/appdb/leases.go: AcquireLease gives a lease to one owner at a time.
use topbase.Prelude.{
  ℕ, ◌+◌, ◌/◌, ◌<◌, ◌≡◌, refl, sym, ap, ◌∙◌, Bool, true, false, not, ◌||◌, List, [], ◌∷◌, ◌++◌, any,
  any-append, all, all-append, is_empty, All, &&-split, ||-neither, Bool-cases, inl, inr, ok,
  ok-injective, subst, arith, ◌==◌,
}
use topbase.Text.{Text, text_eq}
use topbase.Text.Laws.{text_eq_refl, text_eq_iff, text_eq_sym}
use topbase.Leases.{
  Lease, precedes, second, format, may_take, new_lease, insert_lease, update_lease, update_unless,
  acquire_lease, Statement, run,
}
use topbase.Leases.Order.{Chronological, last_second, precedes_asym, format-precedes}
use topbase.Leases.Held.{unique, row_held, held, foreign, Earlier, run-held, held_parts}

module _ (name owner expiry : Text) where
  unnamed-rows :
      (ls : List Lease)
      → any (λ l. text_eq l.name name) ls ≡ false
      → all (row_held name owner expiry) ls ≡ true
  unfolding row_held
  unnamed-rows [] h = refl
  unnamed-rows (l ∷ ls) h = ground (arith, unnamed-rows ls)

  module _ (stamp : ℕ → Text) where
    unnamed-update :
        (now : ℕ) (o : Text) (ttl : ℕ) (ls : List Lease)
        → any (λ l. text_eq l.name name) ls ≡ false
        → update_lease stamp now name o ttl ls ≡ (false, ls)
    unfolding update_lease may_take
    unnamed-update now o ttl [] h = refl
    unnamed-update now o ttl (l ∷ ls) h =
        let (apart, behind) =
          ||-neither (text_eq l.name name) (any (λ k. text_eq k.name name) ls) h in
        let rest = unnamed-update now o ttl ls behind in
        rw
          (
            apart,
            ap (λ (p : Bool × List Lease). p.0) rest,
            ap (λ (p : Bool × List Lease). p.1) rest,
          )
          refl

    -- The lease behind an UPDATE that changed a row.
    update-held :
        (now : ℕ) (ttl : ℕ) (ls : List Lease)
        → expiry ≡ format stamp (now + ttl)
        → unique ls ≡ true
        → (update_lease stamp now name owner ttl ls).0 ≡ true
        → held name owner expiry ((update_lease stamp now name owner ttl ls).1) ≡ true
    unfolding update_lease held unique row_held
    update-held now ttl [] e u h = cc
    update-held now ttl (l ∷ ls) e u h =
        let (alone, behind) = &&-split (not (any (λ k. text_eq k.name l.name) ls)) (unique ls) u in
        elim (Bool-cases (text_eq l.name name)) [
          | inl named ↦
              let unnamed : any (λ k. text_eq k.name name) ls ≡ false =
                ap (λ m. any (λ k. text_eq k.name m) ls) (sym ((text_eq_iff l.name name).0 named))
                ∙ ground (arith, alone) in
              let rest = unnamed-update now owner ttl ls unnamed in
              let taken : may_take stamp now name owner l ≡ true =
                ground (arith, h, ap (λ (p : Bool × List Lease). p.0) rest) in
              rw
                (
                  taken,
                  ap (λ (p : Bool × List Lease). p.1) rest,
                  text_eq_refl name,
                  text_eq_refl owner,
                  e,
                  text_eq_refl (format stamp (now + ttl)),
                )
                (unnamed-rows ls unnamed)
          | inr apart ↦
              let spared : may_take stamp now name owner l ≡ false =
                unfold may_take in rw apart refl in
              let (some_row, rows) =
                held_parts name owner expiry _ (update-held now ttl ls e behind (rw spared at h)) in
              rw (spared, apart, some_row, rows) refl
        ]

    insert-new :
        (now : ℕ) (ttl : ℕ) (ls : List Lease)
        → expiry ≡ format stamp (now + ttl)
        → any (λ l. text_eq l.name name) ls ≡ false
        → held name owner expiry (ls ++ new_lease stamp now ttl name owner ∷ []) ≡ true
    unfolding held row_held
    insert-new now ttl ls e fresh =
        rw
          (
            any-append (λ l. text_eq l.name name) ls (new_lease stamp now ttl name owner ∷ []),
            all-append (row_held name owner expiry) ls (new_lease stamp now ttl name owner ∷ []),
            fresh,
            unnamed-rows ls fresh,
            text_eq_refl name,
            text_eq_refl owner,
            e,
            text_eq_refl (format stamp (now + ttl)),
          )
          refl

    pub acquire_lease-held :
        (now : ℕ) (ttl : ℕ) (ls after : List Lease)
        → expiry ≡ format stamp (now + ttl)
        → unique ls ≡ true
        → acquire_lease stamp now name owner ttl ls ≡ ok (true, after)
        → held name owner expiry after ≡ true
    unfolding acquire_lease insert_lease update_unless held
    acquire_lease-held now ttl ls after e u h =
        elim (Bool-cases (is_empty name || is_empty owner || ttl == 0)) [
          | inl refused ↦ cc (rw refused at h)
          | inr complete ↦ elim (Bool-cases (any (λ l. text_eq l.name name) ls)) [
            | inl there ↦
                let done : update_lease stamp now name owner ttl ls ≡ (true, after) =
                  ok-injective (rw (complete, there) at h) in
                subst (λ x. held name owner expiry x ≡ true)
                  (ap (λ (p : Bool × List Lease). p.1) done)
                  (update-held now ttl ls e u (ap (λ (p : Bool × List Lease). p.0) done))
            | inr fresh ↦
                let done : ◌≡◌ {A = Bool × List Lease}
                    (true, ls ++ new_lease stamp now ttl name owner ∷ []) (true, after) =
                  ok-injective (rw (complete, fresh) at h) in
                subst (λ x. held name owner expiry x ≡ true)
                  (ap (λ (p : Bool × List Lease). p.1) done) (insert-new now ttl ls e fresh)
          ]
        ]

    not-taken :
        (now : ℕ) (other : Text) (l : Lease)
        → text_eq other owner ≡ false
        → precedes expiry (format stamp now) ≡ false
        → row_held name owner expiry l ≡ true
        → may_take stamp now name other l ≡ false
    unfolding may_take row_held
    not-taken now other l apart late h = elim (Bool-cases (text_eq l.name name)) [
      | inr unnamed ↦ rw unnamed refl
      | inl named ↦
          let (owned, expires) =
            &&-split (text_eq l.owner owner) (text_eq l.expires_at expiry) (rw named at h) in
          rw
            (
              named,
              (text_eq_iff l.owner owner).0 owned,
              (text_eq_iff l.expires_at expiry).0 expires,
              late,
              text_eq_sym owner other,
              apart,
            )
            refl
    ]

    held-update :
        (now : ℕ) (other : Text) (ttl : ℕ) (ls : List Lease)
        → text_eq other owner ≡ false
        → precedes expiry (format stamp now) ≡ false
        → all (row_held name owner expiry) ls ≡ true
        → update_lease stamp now name other ttl ls ≡ (false, ls)
    unfolding update_lease
    held-update now other ttl [] apart late h = refl
    held-update now other ttl (l ∷ ls) apart late h =
        let (first, behind) =
          &&-split (row_held name owner expiry l) (all (row_held name owner expiry) ls) h in
        let rest = held-update now other ttl ls apart late behind in
        rw
          (
            not-taken now other l apart late first,
            ap (λ (p : Bool × List Lease). p.0) rest,
            ap (λ (p : Bool × List Lease). p.1) rest,
          )
          refl

    -- While the lease is held, another owner's statements change no row.
    acquire_lease-refused :
        (now : ℕ) (other : Text) (ttl : ℕ) (ls : List Lease)
        → (is_empty name || is_empty other || ttl == 0) ≡ false
        → text_eq other owner ≡ false
        → precedes expiry (format stamp now) ≡ false
        → held name owner expiry ls ≡ true
        → acquire_lease stamp now name other ttl ls ≡ ok (false, ls)
    unfolding acquire_lease insert_lease update_unless held
    acquire_lease-refused now other ttl ls complete apart late h =
        let (some_row, rows) = held_parts name owner expiry ls h in
        rw (complete, some_row, held-update now other ttl ls apart late rows) refl

module _ (stamp : ℕ → Text) (ordered : Chronological stamp) where
  not-expired :
      (end now : ℕ)
      → end / second < last_second
      → now / second < end / second
      → precedes (format stamp end) (format stamp now) ≡ false
  not-expired end now known soon =
      precedes_asym (format stamp now) (format stamp end)
        (format-precedes stamp ordered now end soon known)

  -- A lease that AcquireLease gave to an owner stays with that owner until the second in which it
  -- expires. Whatever statements the other owners, and this one for other leases, send in the
  -- seconds before, in any order, AcquireLease refuses the lease to every other owner then and
  -- leaves the table as it is. The names in the table are distinct at first.
  pub acquire_lease_exclusive :
      (start ttl : ℕ) (name owner : Text) (leases taken : List Lease) (statements : List Statement)
      → unique leases ≡ true
      → acquire_lease stamp start name owner ttl leases ≡ ok (true, taken)
      → (start + ttl) / second < last_second
      → All (λ s. (foreign name owner s ≡ true) × Earlier (start + ttl) s) statements
      → (now again : ℕ) (other : Text) → (is_empty name || is_empty other || again == 0) ≡ false
      → text_eq other owner ≡ false
      → now / second < (start + ttl) / second
      → acquire_lease stamp now name other again (run stamp statements taken)
        ≡ ok (false, run stamp statements taken)
  acquire_lease_exclusive start ttl name owner leases taken statements u h known all_foreign now
        again other complete apart soon =
      let end = start + ttl in
      let expiry = format stamp end in
      acquire_lease-refused name owner expiry stamp now other again (run stamp statements taken)
        complete apart (not-expired end now known soon)
        (run-held name owner expiry stamp end statements taken
          (λ moment. not-expired end moment known) all_foreign
          (acquire_lease-held name owner expiry stamp start ttl leases taken refl u h))
