-- ===== src/Accounts/Groups/Sync.antt =====
-- internal/app/identity/org.go: what SyncDirectory makes of the memberships.
use topbase.Prelude.{
  ◌≡◌, refl, ◌∙◌, Bool, false, List, [], ◌∷◌, ◌++◌, Option, if◌then◌else◌, any, ||-neither,
  Bool-cases, inl, inr, ok,
}
use topbase.Text.{Text, text_eq, one_of}
use topbase.Text.Laws.{text_eq_refl}
use topbase.Accounts.{Account, Directory, has_member}
use topbase.Accounts.Groups.{
  OrgUnit, upsert_group, feishu_group_id, known_members, sync_unit, sync_directory,
}
use topbase.Accounts.Groups.Membership.{joined, left, replace_members-rows, replaced-has}

abbrev unit_id : OrgUnit → Text
unit_id unit = feishu_group_id unit.external_id

module _ (by_open_id : Text → List Account → Option Account) where
  -- What a group's membership is behind the units: the last unit of the group says it.
  unfoldable pub last_word : List OrgUnit → List Account → Text → Text → Bool → Bool
  last_word [] users g v before = before
  last_word (unit ∷ units) users g v before = last_word units users g v (
      if text_eq (unit_id unit) g
      then one_of (known_members by_open_id unit.member_ids users) v
      else before)

  sync_unit-rows :
      (unit : OrgUnit) (d : Directory)
      → (after : Directory) × (sync_unit by_open_id unit d ≡ ok after)
        × (after.users ≡ d.users)
        × (after.members
            ≡ joined
                (unit_id unit)
                (known_members by_open_id unit.member_ids d.users)
                (left (unit_id unit) d.members))
  unfolding sync_unit upsert_group
  sync_unit-rows unit d = elim (Bool-cases (any (λ g. text_eq g.id (unit_id unit)) d.groups)) [
    | inl there ↦ rw there (_, replace_members-rows _ _ _, refl, refl)
    | inr fresh ↦ rw fresh (_, replace_members-rows _ _ _, refl, refl)
  ]

  sync_directory-last :
      (units : List OrgUnit) (d : Directory)
      → (after : Directory) × (sync_directory by_open_id units d ≡ ok after)
        × ((g v : Text) → has_member g v after ≡ last_word units d.users g v (has_member g v d))
  unfolding sync_directory last_word has_member
  sync_directory-last [] d = (d, refl, λ g v. refl)
  sync_directory-last (unit ∷ units) d =
      let (next, first, users, rows) = sync_unit-rows unit d in
      let (after, rest, members) = sync_directory-last units next in
      (
        after,
        rw first rest,
        λ g v.
            members g v
            ∙ rw
                (
                  users,
                  rows,
                  replaced-has (unit_id unit) g v (known_members by_open_id unit.member_ids d.users)
                      d.members,
                )
                refl,
      )

  last_word-silent :
      (units : List OrgUnit) (users : List Account) (g v : Text) (before : Bool)
      → any (λ unit. text_eq (unit_id unit) g) units ≡ false
      → last_word units users g v before ≡ before
  unfolding last_word
  last_word-silent [] users g v before h = refl
  last_word-silent (unit ∷ units) users g v before h =
      let (apart, behind) =
        ||-neither (text_eq (unit_id unit) g) (any (λ u. text_eq (unit_id u) g) units) h in
      rw apart (last_word-silent units users g v before behind)

  last_word-append :
      (front : List OrgUnit) (unit : OrgUnit) (units : List OrgUnit) (users : List Account)
      (v : Text) (before : Bool)
      → any (λ u. text_eq (unit_id u) (unit_id unit)) units ≡ false
      → last_word (front ++ unit ∷ units) users (unit_id unit) v before
        ≡ one_of (known_members by_open_id unit.member_ids users) v
  unfolding last_word
  last_word-append [] unit units users v before h =
      last_word-silent units users (unit_id unit) v
        (if text_eq (unit_id unit) (unit_id unit)
          then one_of (known_members by_open_id unit.member_ids users) v
          else before)
        h
      ∙ rw (text_eq_refl (unit_id unit)) refl
  last_word-append (u ∷ front) unit units users v before h =
      last_word-append front unit units users v _ h

  -- SyncDirectory always succeeds over these tables, and the group of a unit that no later unit
  -- shares then has exactly the members of the unit that are known by their open identifiers.
  pub sync_directory-members :
      (front : List OrgUnit) (unit : OrgUnit) (units : List OrgUnit) (d : Directory)
      → any (λ u. text_eq (unit_id u) (unit_id unit)) units ≡ false
      → (after : Directory) × (sync_directory by_open_id (front ++ unit ∷ units) d ≡ ok after)
        × ((v : Text)
            → has_member (unit_id unit) v after
              ≡ one_of (known_members by_open_id unit.member_ids d.users) v)
  sync_directory-members front unit units d h =
      let (after, done, members) = sync_directory-last (front ++ unit ∷ units) d in
      (after, done, λ v. members (unit_id unit) v ∙ last_word-append front unit units d.users v _ h)
