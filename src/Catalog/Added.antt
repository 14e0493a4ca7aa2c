-- ===== src/Catalog/Added.antt =====
-- internal/core/catalog.go: an Add that fails leaves nothing behind, one that succeeds can be connected
-- again.
use topbase.Prelude.{
  ℕ, ◌≡◌, refl, sym, ap, ◌∙◌, Bool, true, false, not, ◌&&◌, List, [], ◌∷◌, ◌++◌, Option, none, some,
  if◌then◌else◌, any, keep, Bool-cases, Option-cases, &&-split, ||-neither, inl, inr, Result, ok,
  err, ◌==◌, arith,
}
use topbase.Text.{Text, text_eq, lookup}
use topbase.Text.Laws.{text_eq_refl}
use topbase.Catalog.{
  Database, ConnectionRequest, SchemaSnapshot, Catalog, CatalogError, Outcome, Ports, is_open,
  opened, closed, with_entry, without_entry, with_secret, connect_failed,
}
use topbase.Catalog.Service.{
  secret_of, connect_with, ensure_connected, stored_snapshot, sync_tables, sync_behind, sync, shown,
  add_behind, add_connected, add,
}

keep-unmarked {ℓ} :
    {A : Type ℓ} (p : A → Bool) (xs : List A) → any p xs ≡ false → keep (λ x. not (p x)) xs ≡ xs
keep-unmarked p [] h = refl
keep-unmarked p (x ∷ xs) h =
    let (first, behind) = ||-neither (p x) (any p xs) h in
    rw (first, keep-unmarked p xs behind) refl

keep-last {ℓ} :
    {A : Type ℓ} (p : A → Bool) (xs : List A) (y : A)
    → any p xs ≡ false
    → p y ≡ true
    → keep (λ x. not (p x)) (xs ++ y ∷ []) ≡ xs
keep-last p [] y h k = rw k refl
keep-last p (x ∷ xs) y h k =
    let (first, behind) = ||-neither (p x) (any p xs) h in
    rw (first, keep-last p xs y behind k) refl

-- Is there neither a connection nor an entry of this id?
unfoldable pub unknown : Text → Catalog → Bool
unknown id c = not (is_open id c) && not (any (λ e. text_eq e.id id) c.entries)

closed-opened : (id : Text) (c : Catalog) → is_open id c ≡ false → closed id (opened id c) ≡ c
unfolding closed opened is_open
closed-opened id c h =
    rw
      (
        text_eq_refl id,
        keep-unmarked (λ o. text_eq o id) c.open_ids h,
        keep-unmarked (λ o. text_eq o id) c.open_ids h,
      )
      refl

without_entry-with_entry :
    (d : Database) (c : Catalog)
    → any (λ e. text_eq e.id d.id) c.entries ≡ false
    → without_entry d.id (with_entry d c) ≡ c
unfolding without_entry with_entry
without_entry-with_entry d c h =
    rw
      (
        keep-unmarked (λ e. text_eq e.id d.id) c.entries h,
        keep-last (λ e. text_eq e.id d.id) c.entries d h (text_eq_refl d.id),
      )
      refl

abbrev failed : {A : Type 0} → Outcome A → Bool
failed (ok a, c) = false
failed (err why, c) = true

abbrev id_of : Outcome Database → Text
id_of (ok d, c) = d.id
id_of (err why, c) = []

-- What EnsureConnected comes to for what the connector answers.
abbrev pub connected_if : Option Database → Result CatalogError (Unit {0})
connected_if none = err connect_failed
connected_if (some d) = ok tt

module _ (p : Ports) where
  shown-failed : (d : Database) (o : Outcome SchemaSnapshot) → failed (shown p d o) ≡ false
  unfolding shown
  shown-failed d (ok snap, c) = refl
  shown-failed d (err why, c) = refl

  add_connected-failed :
      (now : ℕ) (input : ConnectionRequest) (d : Database) (c : Catalog)
      → any (λ e. text_eq e.id d.id) c.entries ≡ false
      → p.closes d.id ≡ true
      → p.deletes_entry d.id ≡ true
      → failed (add_connected p now input d c) ≡ true
      → (add_connected p now input d c).1 ≡ closed d.id c
  unfolding add_connected
  add_connected-failed now input d c h closes deletes e =
      let e_d = record d { created_at = if d.created_at == 0 then now else d.created_at } in
      elim (Bool-cases (p.saves_entry e_d)) [
        | inr refused ↦ rw (refused, closes) refl
        | inl saved ↦ elim (Bool-cases p.has_secrets) [
          | inr without_store ↦ cc (sym (shown-failed e_d _) ∙ (rw (saved, without_store) at e))
          | inl with_store ↦ elim (Bool-cases (p.saves_secret d.id)) [
            | inl kept ↦ cc (sym (shown-failed e_d _) ∙ (rw (saved, with_store, kept) at e))
            | inr lost ↦
                rw (saved, with_store, lost, deletes, closes)
                  (ap (closed d.id) (without_entry-with_entry e_d c h))
          ]
        ]
      ]

  -- An Add that fails leaves the catalogue as it was, if the connection that it opened has an id that
  -- no connection and no entry has, and closing connections and deleting entries succeed.
  pub add_undone :
      (now : ℕ) (input : ConnectionRequest) (c after : Catalog) (why : CatalogError)
      → ((id : Text) → p.closes id ≡ true)
      → ((id : Text) → p.deletes_entry id ≡ true)
      → ((d : Database) → p.connect (record input { id = [] }) ≡ some d → unknown d.id c ≡ true)
      → add p now input c ≡ (err why, after)
      → after ≡ c
  unfolding add add_behind connect_with unknown
  add_undone now input c after why closes deletes fresh h =
      elim (Option-cases (p.connect (record input { id = [] }))) [
        | inl none_ ↦ sym (ap (λ (o : Outcome Database). o.1) (rw none_ at h))
        | inr (d, e) ↦
            let (shut, missing) =
              &&-split (not (is_open d.id c)) (not (any (λ k. text_eq k.id d.id) c.entries))
                (fresh d e) in
            let h' : add_connected p now (record input { id = [] }) d (opened d.id c)
                ≡ (err why, after) =
              rw e at h in
            let undone =
              add_connected-failed now (record input { id = [] }) d (opened d.id c)
                (unfold opened in ground (arith, missing)) (closes d.id) (deletes d.id)
                (ap failed h') in
            sym (ap (λ (o : Outcome Database). o.1) h')
            ∙ undone
            ∙ closed-opened d.id c (ground (arith, shut))
      ]

  ensure_connected-secrets :
      (id : Text) (c : Catalog) → ((ensure_connected p id c).1).secrets ≡ c.secrets
  unfolding ensure_connected connect_with opened
  ensure_connected-secrets id c = elim (Bool-cases (is_open id c)) [
    | inl there ↦ rw there refl
    | inr shut ↦ elim (Bool-cases p.has_secrets) [
      | inr without_store ↦ rw (shut, without_store) refl
      | inl with_store ↦ elim (Option-cases (secret_of p id c)) [
        | inl none_ ↦ rw (shut, none_, with_store) refl
        | inr (input, kept) ↦ elim (Option-cases (p.connect (record input { id = id }))) [
          | inl none_ ↦ rw (shut, kept, with_store, none_) refl
          | inr (d, e) ↦ rw (shut, kept, with_store, e) refl
        ]
      ]
    ]
  ]

  stored_snapshot-secrets :
      (snap : SchemaSnapshot) (c : Catalog) → ((stored_snapshot p snap c).1).secrets ≡ c.secrets
  unfolding stored_snapshot
  stored_snapshot-secrets snap c = elim (Bool-cases p.has_snapshots) [
    | inr without_store ↦ rw without_store refl
    | inl with_store ↦ elim (Bool-cases (p.saves_snapshot snap.database_id)) [
      | inl kept ↦ rw (with_store, kept) refl
      | inr lost ↦ rw (with_store, lost) refl
    ]
  ]

  sync_behind-secrets :
      (now : ℕ) (id : Text) (o : Outcome (Unit {0}))
      → ((sync_behind p now id o).1).secrets ≡ (o.1).secrets
  unfolding sync_behind sync_tables
  sync_behind-secrets now id (err why, c) = refl
  sync_behind-secrets now id (ok done, c) = elim (Option-cases (p.tables id)) [
    | inl none_ ↦ rw none_ refl
    | inr (tables, e) ↦ rw e (stored_snapshot-secrets _ c)
  ]

  shown-ok :
      (d out : Database) (o : Outcome SchemaSnapshot) (after : Catalog)
      → shown p d o ≡ (ok out, after)
      → (out.id ≡ d.id) × (after ≡ o.1)
  unfolding shown
  shown-ok d out (ok snap, c) after h =
      (sym (ap id_of h), sym (ap (λ (o : Outcome Database). o.1) h))
  shown-ok d out (err why, c) after h =
      (sym (ap id_of h), sym (ap (λ (o : Outcome Database). o.1) h))

  -- Behind an Add, the store has the request under the id of the new entry.
  add_connected-secret :
      (now : ℕ) (input : ConnectionRequest) (d out : Database) (c after : Catalog)
      → p.has_secrets ≡ true
      → add_connected p now input d c ≡ (ok out, after)
      → (out.id ≡ d.id) × (lookup d.id after.secrets ≡ some (record input { id = d.id }))
  unfolding add_connected sync with_secret lookup
  add_connected-secret now input d out c after with_store h =
      let e_d = record d { created_at = if d.created_at == 0 then now else d.created_at } in
      let saved = with_secret d.id (record input { id = d.id }) (with_entry e_d c) in
      elim (Bool-cases (p.saves_entry e_d)) [
        | inr refused ↦ cc (ap failed (rw refused at h))
        | inl entered ↦ elim (Bool-cases (p.saves_secret d.id)) [
          | inr lost ↦ cc (ap failed (rw (entered, with_store, lost) at h))
          | inl kept ↦
              let o = sync_behind p now d.id (ensure_connected p d.id saved) in
              let shown_ : shown p e_d o ≡ (ok out, after) =
                simp (entered, with_store, kept) at h in
              let (same, state) = shown-ok e_d out o after shown_ in
              let secrets : after.secrets ≡ saved.secrets =
                ap (λ (x : Catalog). x.secrets) state
                ∙ sync_behind-secrets now d.id (ensure_connected p d.id saved)
                ∙ ensure_connected-secrets d.id saved in
              (same, ap (lookup d.id) secrets ∙ rw (text_eq_refl d.id) refl)
        ]
      ]

  -- Where secrets are stored, what a successful Add stored is enough to connect again. When the
  -- connections are gone, as after a restart, EnsureConnected asks the connector with the request that was given to Add, under the
  -- new entry's id, and succeeds when the connector does.
  pub add-ensure_connected :
      (now : ℕ) (input : ConnectionRequest) (d : Database) (c after : Catalog)
      → p.has_secrets ≡ true
      → add p now input c ≡ (ok d, after)
      → (ensure_connected p d.id (record after { open_ids = [] })).0
        ≡ connected_if (p.connect (record input { id = d.id }))
  unfolding add add_behind connect_with opened ensure_connected secret_of is_open
  add-ensure_connected now input d c after with_store h =
      elim (Option-cases (p.connect (record input { id = [] }))) [
        | inl none_ ↦ cc (ap failed (rw none_ at h))
        | inr (d0, e) ↦
            let (same, kept) =
              add_connected-secret now (record input { id = [] }) d0 d (opened d0.id c) after
                with_store (rw e at h) in
            let stored : lookup d.id after.secrets ≡ some (record input { id = d0.id }) =
              ap (λ i. lookup i after.secrets) same ∙ kept in
            elim (Option-cases (p.connect (record input { id = d.id }))) [
              | inl none_ ↦ simp (stored, with_store, none_) refl
              | inr (d1, again) ↦ simp (stored, with_store, again) refl
            ]
      ]
