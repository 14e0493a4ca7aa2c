-- ===== src/Dashboards/Publishing.antt =====
-- internal/app/content/dashboard.go: a dashboard that may be embedded is published.
use topbase.Prelude.{
  ℕ, ◌≡◌, refl, subst, sym, Bool, true, false, not, ◌&&◌, ◌||◌, List, [], ◌∷◌, map, find, All,
  All-append, if◌then◌else◌, Option, Result, ok, err, guard, is_empty, Bool-cases, inl, inr,
  >>=-eq-ok, >>-eq-ok, guard-eq-ok, ok-transport, if_either, arith,
}
use topbase.Text.{Text, codes, text_eq}
use topbase.Dashboards.{Dashboard}
use topbase.Dashboards.Normal.{normalize}
use topbase.Dashboards.Service.{
  Error, Boards, archived, not_published, or_not_found, by_id, is_live, rewrite, store_new,
  store_old, create_dashboard, updated_uuid, updated, update_over, update_dashboard, put_dashboard,
  published, enable_public_link, disable_public_link, set_embedding, set_archived,
}
use topbase.Dashboards.Duplicate.{copy_of, duplicate_dashboard}

-- A public link, where there is one, is not "-", and embedding is on only where there is one.
abbrev pub IsGuarded : Dashboard → Type 0
IsGuarded d =
    (text_eq d.public_uuid (codes "-") ≡ false)
    × ((d.public_embed_enabled && is_empty d.public_uuid) ≡ false)

-- An update with embedding on has a public link of its own.
abbrev MayUpdate : Text → Bool → Type 0
MayUpdate uuid embed = (embed && (is_empty uuid || text_eq uuid (codes "-"))) ≡ false

no_dash : (u : Text) → text_eq (if text_eq u (codes "-") then [] else u) (codes "-") ≡ false
unfolding text_eq
no_dash u = elim (Bool-cases (text_eq u (codes "-"))) [
  | inl dash ↦ rw dash refl
  | inr other ↦ rw other other
]

and_or-false : (a b c : Bool) → (a && (b || c)) ≡ false → ((a && b) ≡ false) × ((a && c) ≡ false)
and_or-false a b c h = ground arith

off : (a : Bool) → (a && true) ≡ false → a ≡ false
off a h = ground arith

off-and : (a b : Bool) → a ≡ false → (a && b) ≡ false
off-and a b h = ground arith

given_uuid :
    (u : Text) (embed : Bool)
    → MayUpdate u embed
    → (embed && is_empty (if text_eq u (codes "-") then [] else u)) ≡ false
given_uuid u embed h =
    let (empty, dashed) = and_or-false embed (is_empty u) (text_eq u (codes "-")) h in
    elim (Bool-cases (text_eq u (codes "-"))) [
      | inl dash ↦ off-and embed _ (off embed (rw dash at dashed))
      | inr other ↦ rw other empty
    ]

updated_uuid_guarded :
    (uuid existing : Text) (embed : Bool)
    → MayUpdate uuid embed
    → (text_eq (updated_uuid uuid existing) (codes "-") ≡ false)
      × ((embed && is_empty (updated_uuid uuid existing)) ≡ false)
unfolding updated_uuid
updated_uuid_guarded [] existing embed h = (no_dash existing, off-and embed _ (off embed h))
updated_uuid_guarded (c ∷ t) existing embed h = (no_dash (c ∷ t), given_uuid (c ∷ t) embed h)

-- What a search finds has what all of the elements have.
abbrev OnFound : Result Error Dashboard → Type 0
OnFound (err why) = Unit
OnFound (ok d) = IsGuarded d

find-OnFound :
    (p : Dashboard → Bool) (xs : List Dashboard)
    → All IsGuarded xs
    → OnFound (or_not_found (find p xs))
find-OnFound p [] h = tt
find-OnFound p (x ∷ xs) (q, h) = elim (Bool-cases (p x)) [
  | inl hit ↦ rw hit q
  | inr miss ↦ rw miss (find-OnFound p xs h)
]

by_id-IsGuarded :
    (s : Boards) (id : Text) {d : Dashboard}
    → All IsGuarded s.boards
    → by_id s id ≡ ok d
    → IsGuarded d
unfolding by_id
by_id-IsGuarded s id h e = subst OnFound e (find-OnFound _ s.boards h)

rewrite-IsGuarded :
    (d : Dashboard) (items : List Dashboard)
    → IsGuarded d
    → All IsGuarded items
    → All IsGuarded (map (rewrite d) items)
rewrite-IsGuarded d [] g h = tt
rewrite-IsGuarded d (old ∷ items) g (p, h) =
    (if_either IsGuarded (text_eq old.id d.id) _ old g p, rewrite-IsGuarded d items g h)

-- A stored dashboard may be updated as it is, with embedding turned off, and turned on if it has a link.
may_keep : (d : Dashboard) → IsGuarded d → MayUpdate d.public_uuid d.public_embed_enabled
may_keep d (dash, guarded) = ground arith

may_turn_off : (uuid : Text) → MayUpdate uuid false
may_turn_off uuid = refl

may_turn :
    (uuid : Text) (enabled : Bool)
    → text_eq uuid (codes "-") ≡ false
    → not (enabled && is_empty uuid) ≡ true
    → MayUpdate uuid enabled
may_turn uuid enabled dash h = ground arith

module _ (new_id : Text → ℕ → Text) where
  normalize-IsGuarded : (n : ℕ) (d : Dashboard) → IsGuarded d → IsGuarded (normalize new_id n d).0
  unfolding normalize
  normalize-IsGuarded n d h = h

  store_new-IsGuarded :
      (user : Text) (s : Boards) (n : ℕ) (d : Dashboard) {out : Dashboard × Boards}
      → IsGuarded d
      → All IsGuarded s.boards
      → store_new new_id user s n d ≡ ok out
      → All IsGuarded out.1.boards
  unfolding store_new
  store_new-IsGuarded user s n d g h e =
      ok-transport (λ out. All IsGuarded out.1.boards) e
        (All-append IsGuarded s.boards _ h (normalize-IsGuarded n d g, tt))

  update_over-IsGuarded :
      (user : Text) (s : Boards) (d existing : Dashboard) {out : Dashboard × Boards}
      → MayUpdate d.public_uuid d.public_embed_enabled
      → All IsGuarded s.boards
      → update_over new_id user s d existing ≡ ok out
      → All IsGuarded out.1.boards
  unfolding update_over store_old normalize
  update_over-IsGuarded user s d existing m h e =
      let (live, stored) = >>-eq-ok (guard (is_live existing) archived) _ e in
      ok-transport (λ out. All IsGuarded out.1.boards) stored
        (rewrite-IsGuarded (normalize new_id s.drawn (updated d existing)).0 s.boards
          (updated_uuid_guarded d.public_uuid existing.public_uuid d.public_embed_enabled m) h)

  update_dashboard-IsGuarded :
      (user : Text) (s : Boards) (d : Dashboard) {out : Dashboard × Boards}
      → MayUpdate d.public_uuid d.public_embed_enabled
      → All IsGuarded s.boards
      → update_dashboard new_id user d s ≡ ok out
      → All IsGuarded out.1.boards
  unfolding update_dashboard
  update_dashboard-IsGuarded user s d m h e =
      let (existing, there, rest) = >>=-eq-ok (by_id s d.id) (update_over new_id user s d) e in
      update_over-IsGuarded user s d existing m h rest

  pub create_dashboard-IsGuarded :
      (label : Text) (now : ℕ) (user : Text) (d : Dashboard) (s : Boards) {out : Dashboard × Boards}
      → All IsGuarded s.boards
      → create_dashboard new_id label now user d s ≡ ok out
      → All IsGuarded out.1.boards
  unfolding create_dashboard text_eq
  create_dashboard-IsGuarded label now user d s h e =
      store_new-IsGuarded user s _ _ (refl, refl) h e

  pub put_dashboard-IsGuarded :
      (user id : Text) (d : Dashboard) (s : Boards) {out : Dashboard × Boards}
      → All IsGuarded s.boards
      → put_dashboard new_id user id d s ≡ ok out
      → All IsGuarded out.1.boards
  unfolding put_dashboard
  put_dashboard-IsGuarded user id d s h e =
      let (existing, there, rest) = >>=-eq-ok (by_id s id) _ e in
      update_dashboard-IsGuarded user s _ (may_keep existing (by_id-IsGuarded s id h there)) h rest

  published-MayUpdate :
      (d : Dashboard) (s : Boards)
      → IsGuarded d
      → MayUpdate (published new_id d s).0.public_uuid (published new_id d s).0.public_embed_enabled
        × ((published new_id d s).1.boards ≡ s.boards)
  unfolding published
  published-MayUpdate d s (dash, guarded) = elim (Bool-cases (is_empty d.public_uuid)) [
    | inl empty ↦
        rw (published, empty)
          (
            off-and d.public_embed_enabled _ (off d.public_embed_enabled (rw empty at guarded)),
            refl,
          )
    | inr linked ↦ rw (published, linked) (ground arith, refl)
  ]

  pub enable_public_link-IsGuarded :
      (id user : Text) (s : Boards) {out : Dashboard × Boards}
      → All IsGuarded s.boards
      → enable_public_link new_id id user s ≡ ok out
      → All IsGuarded out.1.boards
  unfolding enable_public_link
  enable_public_link-IsGuarded id user s h e =
      let (d, there, rest) = >>=-eq-ok (by_id s id) _ e in
      linked d (by_id-IsGuarded s id h there) rest
    where
      linked :
          (d : Dashboard) {out : Dashboard × Boards}
          → IsGuarded d
          → update_dashboard new_id user (published new_id d s).0 (published new_id d s).1 ≡ ok out
          → All IsGuarded out.1.boards
      linked d g e =
          let (may, same) = published-MayUpdate d s g in
          update_dashboard-IsGuarded user (published new_id d s).1 (published new_id d s).0 may
            (subst (All IsGuarded) (sym same) h) e

  pub disable_public_link-IsGuarded :
      (id user : Text) (s : Boards) {out : Dashboard × Boards}
      → All IsGuarded s.boards
      → disable_public_link new_id id user s ≡ ok out
      → All IsGuarded out.1.boards
  unfolding disable_public_link
  disable_public_link-IsGuarded id user s h e =
      let (d, there, rest) = >>=-eq-ok (by_id s id) _ e in
      update_dashboard-IsGuarded user s _ (may_turn_off (codes "-")) h rest

  pub set_embedding-IsGuarded :
      (id : Text) (enabled : Bool) (user : Text) (s : Boards) {out : Dashboard × Boards}
      → All IsGuarded s.boards
      → set_embedding new_id id enabled user s ≡ ok out
      → All IsGuarded out.1.boards
  unfolding set_embedding
  set_embedding-IsGuarded id enabled user s h e =
      let (d, there, rest) = >>=-eq-ok (by_id s id) _ e in
      let (allowed, last) =
        >>-eq-ok (guard (not (enabled && is_empty d.public_uuid)) not_published) _ rest in
      update_dashboard-IsGuarded user s _
        (may_turn d.public_uuid enabled (by_id-IsGuarded s id h there).0
          (guard-eq-ok (not (enabled && is_empty d.public_uuid)) not_published allowed))
        h last

  pub duplicate_dashboard-IsGuarded :
      (id user : Text) (now : ℕ) (s : Boards) {out : Dashboard × Boards}
      → All IsGuarded s.boards
      → duplicate_dashboard new_id id user now s ≡ ok out
      → All IsGuarded out.1.boards
  unfolding duplicate_dashboard copy_of text_eq
  duplicate_dashboard-IsGuarded id user now s h e =
      let (d, there, rest) = >>=-eq-ok (by_id s id) _ e in
      store_new-IsGuarded user s _ _ (refl, refl) h rest

archived-IsGuarded :
    (id : Text) (at : Option ℕ) (items : List Dashboard)
    → All IsGuarded items
    → All IsGuarded (map (λ d. if text_eq d.id id then record d { archived_at = at } else d) items)
archived-IsGuarded id at [] h = tt
archived-IsGuarded id at (d ∷ items) (g, h) =
    (if_either IsGuarded (text_eq d.id id) _ d g g, archived-IsGuarded id at items h)

pub set_archived-IsGuarded :
    (id : Text) (at : Option ℕ) (s : Boards)
    → All IsGuarded s.boards
    → All IsGuarded (set_archived id at s).boards
unfolding set_archived
set_archived-IsGuarded id at s h = archived-IsGuarded id at s.boards h
