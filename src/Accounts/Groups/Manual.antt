-- ===== src/Accounts/Groups/Manual.antt =====
-- internal/app/identity/service.go: what ReplaceUserManualGroups makes of the memberships.
use topbase.Prelude.{
  ◌≡◌, refl, ap, ◌∙◌, Bool, true, not, ◌&&◌, ◌||◌, List, [], ◌∷◌, map, some, if◌then◌else◌, any,
  any-append, all, keep, All, Bool-cases, inl, inr, ok, arith,
}
use topbase.Text.{Text, text_eq, one_of}
use topbase.Text.Laws.{text_eq_refl, text_eq_iff, text_eq_sym}
use topbase.Accounts.{Account, Group, Directory, same_pair, has_member, user_by_id}
use topbase.Accounts.Groups.{
  Roster, lifted, is_manual, regrouped, regroup, manual_ids, members_listed, list_groups,
  replace_user_manual_groups,
}
use topbase.Accounts.Groups.Membership.{joined, left, replace_members-rows, replaced-has}

-- The rows behind the loop.
unfoldable settled : Text → List Text → List Roster → List (Text × Text) → List (Text × Text)
settled user desired [] rows = rows
settled user desired (r ∷ rs) rows = settled user desired rs (
    if is_manual r.group
    then joined r.group.id (regrouped user desired r) (left r.group.id rows)
    else rows)

regroup-settled :
    (user : Text) (desired : List Text) (rs : List Roster) (d : Directory)
    → regroup user desired rs d ≡ ok (record d { members = settled user desired rs d.members })
unfolding regroup settled
regroup-settled user desired [] d = refl
regroup-settled user desired (r ∷ rs) d = elim (Bool-cases (is_manual r.group)) [
  | inl manual ↦
      rw (manual, replace_members-rows r.group.id (regrouped user desired r) d)
        (regroup-settled user desired rs _)
  | inr other ↦ rw other (regroup-settled user desired rs d)
]

abbrev manual_in : List Roster → Text → Bool
manual_in rs g = any (λ r. is_manual r.group && text_eq r.group.id g) rs

-- With every roster giving the members that `target` names, so do the rows of the manual groups.
settled-has :
    (user : Text) (desired : List Text) (target : Text → Text → Bool) (g v : Text)
    (rs : List Roster) (rows : List (Text × Text))
    → All (λ (r : Roster). one_of (regrouped user desired r) v ≡ target r.group.id v) rs
    → any (same_pair g v) (settled user desired rs rows)
      ≡ (if manual_in rs g then target g v else any (same_pair g v) rows)
unfolding settled
settled-has user desired target g v [] rows h = refl
settled-has user desired target g v (r ∷ rs) rows (p, h) = elim (Bool-cases (is_manual r.group)) [
  | inl manual ↦
      rw
        (
          manual,
          settled-has user desired target g v rs
              (joined r.group.id (regrouped user desired r) (left r.group.id rows)) h,
          replaced-has r.group.id g v (regrouped user desired r) rows,
          p,
        )
        (elim (Bool-cases (text_eq r.group.id g)) [
          | inl same ↦ rw (same, (text_eq_iff r.group.id g).0 same) (ground arith)
          | inr apart ↦ rw apart refl
        ])
  | inr other ↦ rw other (settled-has user desired target g v rs rows h)
]

keep-others :
    (user v : Text) (ids : List Text)
    → one_of (keep (λ id. not (text_eq id user)) ids) v ≡ (not (text_eq v user) && one_of ids v)
unfolding one_of
keep-others user v [] = ground arith
keep-others user v (x ∷ ids) = elim (Bool-cases (text_eq v x)) [
  | inl same ↦ rw ((text_eq_iff v x).0 same) (elim (Bool-cases (text_eq x user)) [
    | inl hit ↦ ground (arith, keep-others user x ids)
    | inr miss ↦ rw (miss, text_eq_refl x) (ground arith)
  ])
  | inr other ↦ elim (Bool-cases (text_eq x user)) [
    | inl hit ↦ rw (hit, other, keep-others user v ids) refl
    | inr miss ↦ rw (miss, other, keep-others user v ids) refl
  ]
]

regrouped-has :
    (user v : Text) (desired : List Text) (r : Roster)
    → one_of (regrouped user desired r) v
      ≡ (if text_eq v user then one_of desired r.group.id else one_of r.member_ids v)
unfolding regrouped one_of text_eq
regrouped-has user v desired r = elim (Bool-cases (one_of desired r.group.id)) [
  | inl wanted ↦
      rw
        (
          wanted,
          any-append (text_eq v) (keep (λ id. not (text_eq id user)) r.member_ids) (user ∷ []),
        )
        (ground (arith, keep-others user v r.member_ids))
  | inr unwanted ↦ rw (unwanted, keep-others user v r.member_ids) (ground arith)
]

members-has :
    (g v : Text) (d : Directory) (us : List Account)
    → one_of (map (λ u. u.id) (keep (λ u. has_member g u.id d) us)) v
      ≡ (has_member g v d && any (λ u. text_eq u.id v) us)
unfolding one_of
members-has g v d [] = ground arith
members-has g v d (u ∷ us) = elim (Bool-cases (text_eq v u.id)) [
  | inl same ↦ elim (Bool-cases (has_member g u.id d)) [
    | inl there ↦ rw (there, same, (text_eq_iff v u.id).0 same, there, text_eq_refl u.id) refl
    | inr absent ↦ rw (absent, members-has g v d us, (text_eq_iff v u.id).0 same, absent) refl
  ]
  | inr other ↦ elim (Bool-cases (has_member g u.id d)) [
    | inl there ↦ rw (there, other, members-has g v d us, text_eq_sym u.id v, other) refl
    | inr absent ↦ rw (absent, members-has g v d us, text_eq_sym u.id v, other) refl
  ]
]

any-map {ℓ κ} :
    {A : Type ℓ} {B : Type κ} (p : B → Bool) (f : A → B) (xs : List A)
    → any p (map f xs) ≡ any (λ x. p (f x)) xs
any-map p f [] = refl
any-map p f (x ∷ xs) = ap (λ b. p (f x) || b) (any-map p f xs)

All-map {ℓ κ μ} :
    {A : Type ℓ} {B : Type κ} (P : B → Type μ) (f : A → B) (xs : List A)
    → ((x : A) → P (f x))
    → All P (map f xs)
All-map P f [] h = tt
All-map P f (x ∷ xs) h = (h x, All-map P f xs h)

manual_ids-in : (rs : List Roster) (g : Text) → one_of (manual_ids rs) g ≡ manual_in rs g
unfolding one_of manual_ids
manual_ids-in [] g = refl
manual_ids-in (r ∷ rs) g = elim (Bool-cases (is_manual r.group)) [
  | inl manual ↦ rw (manual, manual_ids-in rs g, text_eq_sym g r.group.id) refl
  | inr other ↦ rw (other, manual_ids-in rs g) refl
]

all-cong {ℓ} :
    {A : Type ℓ} (p q : A → Bool) (xs : List A) → ((x : A) → p x ≡ q x) → all p xs ≡ all q xs
all-cong p q [] h = refl
all-cong p q (x ∷ xs) h = rw (h x, all-cong p q xs h) refl

-- Is there a manual group, or a user, with this identifier?
unfoldable pub manual_group : Text → Directory → Bool
manual_group g d = any (λ group. is_manual group && text_eq group.id g) d.groups

unfoldable pub is_user : Text → Directory → Bool
is_user id d = any (λ u. text_eq u.id id) d.users

-- The abstract view: which memberships there are once a user was given these manual groups.
unfoldable pub assigned : Text → List Text → Directory → Text → Text → Bool
assigned user ids d g v =
    if manual_group g d
    then (if text_eq v user then one_of ids g else has_member g v d && is_user v d)
    else has_member g v d

module _ (by_name : List Group → List Group) (by_age : List Account → List Account)
    (groups_listed : (p : Group → Bool) (gs : List Group) → any p (by_name gs) ≡ any p gs)
    (users_listed : (p : Account → Bool) (us : List Account) → any p (by_age us) ≡ any p us) where
  list_groups-manual :
      (g : Text) (d : Directory) → manual_in (list_groups by_name by_age d) g ≡ manual_group g d
  unfolding list_groups manual_group
  list_groups-manual g d = any-map _ _ (by_name d.groups) ∙ groups_listed _ d.groups

  list_groups-target :
      (user v : Text) (ids : List Text) (d : Directory)
      → All
          (λ (r : Roster). one_of (regrouped user ids r) v ≡ (
            if text_eq v user
            then one_of ids r.group.id
            else has_member r.group.id v d && is_user v d))
          (list_groups by_name by_age d)
  unfolding list_groups is_user members_listed text_eq
  list_groups-target user v ids d = All-map _ _ (by_name d.groups) (λ group.
      rw
        (
          regrouped-has user v ids _,
          members-has group.id v d (by_age d.users),
          users_listed (λ u. text_eq u.id v) d.users,
        )
        refl)

  -- ReplaceUserManualGroups refines the assignment of a set of groups: for a user that exists and
  -- identifiers of manual groups it succeeds and changes the memberships only. In a manual group the
  -- user is then a member exactly when the group was asked for, and every other user is a member
  -- exactly when it was one; the members of all other groups stay as they were.
  pub replace_user_manual_groups_refined :
      (user : Text) (ids : List Text) (d : Directory) (account : Account)
      → user_by_id user d ≡ some account
      → all (λ g. manual_group g d) ids ≡ true
      → (rows : List (Text × Text)) × (replace_user_manual_groups by_name by_age user ids d
          ≡ ok (record d { members = rows }))
        × ((g v : Text) → has_member g v (record d { members = rows }) ≡ assigned user ids d g v)
  unfolding replace_user_manual_groups lifted has_member assigned
  replace_user_manual_groups_refined user ids d account there manual =
      let rosters = list_groups by_name by_age d in
      let rows = settled user ids rosters d.members in
      let allowed : all (one_of (manual_ids rosters)) ids ≡ true =
        all-cong _ _ ids (λ g. manual_ids-in rosters g ∙ list_groups-manual g d) ∙ manual in
      (
        rows,
        rw (replace_user_manual_groups, there, allowed, regroup-settled user ids rosters d) refl,
        λ g v.
            settled-has user ids
              (λ h w. if text_eq w user then one_of ids h else has_member h w d && is_user w d) g v
              rosters d.members (list_groups-target user v ids d)
            ∙ ap
                (λ (b : Bool).
                  if b
                  then (if text_eq v user then one_of ids g else has_member g v d && is_user v d)
                  else has_member g v d)
                (list_groups-manual g d),
      )
