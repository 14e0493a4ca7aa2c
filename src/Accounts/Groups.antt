-- ===== src/Accounts/Groups.antt =====
-- internal/app/identity/service.go: CreateGroup, ReplaceGroupMembers and ReplaceUserManualGroups,
-- and internal/app/identity/org.go, over the group tables of internal/adapters/appdb/w4b.go.
--
-- The order in which the database lists groups and users is a parameter. So is what the tables say
-- of a user's feishu_open_id, a column that no query writes.
pub mod Membership
pub mod Manual
pub mod Sync
mod Tests
use topbase.Prelude.{
  ℕ, Bool, true, false, not, ◌&&◌, ◌||◌, List, [], ◌∷◌, ◌++◌, map, Option, none, some, leb, ◌==◌,
  if◌then◌else◌, any, all, keep, find, is_empty, Result, ok, err, ◌>>=◌,
}
use topbase.Text.{Text, codes, text_eq, one_of, trim_space}
use topbase.Accounts.{
  Account, Group, Directory, Error, Write, not_found, user_by_id, create_group, has_member,
  add_member,
}

-- core.Group with the MemberIDs that ListGroups fills in.
pub record Roster : Type 0 where
  pub group : Group
  pub member_ids : List Text

pub data GroupError : Type 0 where
  stored : Error → GroupError
  name_required not_manual member_unknown group_unknown : GroupError

-- A write of the tables, with the errors of this part.
unfoldable pub lifted : Result Error Directory → Result GroupError Directory
lifted (ok d) = ok d
lifted (err why) = err (stored why)

-- INSERT ... ON CONFLICT(id) DO UPDATE SET name, kind.
unfoldable pub upsert_group : Group → Directory → Directory
upsert_group group d =
    if any (λ g. text_eq g.id group.id) d.groups
    then record d { groups = map (λ g. if text_eq g.id group.id then group else g) d.groups }
    else record d { groups = d.groups ++ group ∷ [] }

unfoldable pub delete_members : Text → Directory → Directory
delete_members group d = record d { members = keep (λ p. not (text_eq (p.0) group)) d.members }

unfoldable pub add_members : Text → List Text → Write
add_members group [] d = ok d
add_members group (user ∷ users) d = add_member group user d >>= add_members group users

unfoldable pub replace_members : Text → List Text → Write
replace_members group users d = add_members group users (delete_members group d)

unfoldable pub new_group : Text → Text → Directory → Result GroupError (Group × Directory)
unfolding lifted
new_group id name d =
    let group : Group = record { id = id; name = name; kind = codes "manual" } in
    lifted (create_group group d) >>= λ after. ok (group, after)

unfoldable pub make_group : Text → Text → Directory → Result GroupError (Group × Directory)
make_group id name d =
    if is_empty (trim_space name) then err name_required else new_group id (trim_space name) d

unfoldable pub is_manual : Group → Bool
is_manual group = text_eq group.kind (codes "manual")

-- The loop of ReplaceGroupMembers, with the identifiers it has seen.
unfoldable pub valid_members : List Text → List Text → Directory → Result GroupError (List Text)
valid_members seen [] d = ok []
valid_members seen (id ∷ ids) d =
    let skipped = valid_members seen ids d in
    let taken = valid_members (id ∷ seen) ids d in
    if is_empty id || one_of seen id then skipped else elim (user_by_id id d) [
      | none ↦ err member_unknown
      | some user ↦ taken >>= λ rest. ok (id ∷ rest)
    ]

-- The members a manual group gets.
unfoldable pub regrouped : Text → List Text → Roster → List Text
regrouped user desired roster =
    let others = keep (λ id. not (text_eq id user)) roster.member_ids in
    if one_of desired roster.group.id then others ++ user ∷ [] else others

-- The last loop of ReplaceUserManualGroups.
unfoldable pub regroup : Text → List Text → List Roster → Write
regroup user desired [] d = ok d
regroup user desired (roster ∷ rosters) d =
    if is_manual roster.group
    then replace_members roster.group.id (regrouped user desired roster) d
      >>= regroup user desired rosters
    else regroup user desired rosters d

unfoldable pub manual_ids : List Roster → List Text
manual_ids rosters = map (λ r. r.group.id) (keep (λ r. is_manual r.group) rosters)

unfoldable pub replace_checked :
    List Text → Directory → Option Group → Result GroupError (Roster × Directory)
replace_checked ids d none = err (stored not_found)
replace_checked ids d (some group) =
    if not (is_manual group)
    then err not_manual
    else valid_members [] ids d >>= λ members.
        lifted (replace_members group.id members d) >>= λ after.
        ok (record { group = group; member_ids = members }, after)

module _ (by_name : List Group → List Group) where
  unfoldable pub replace_group_members :
      Text → List Text → Directory → Result GroupError (Roster × Directory)
  unfolding replace_checked
  replace_group_members id ids d =
      replace_checked ids d (find (λ g. text_eq g.id id) (by_name d.groups))

module _ (by_age : List Account → List Account) where
  unfoldable pub members_listed : Text → Directory → List Text
  members_listed group d = map (λ u. u.id) (keep (λ u. has_member group u.id d) (by_age d.users))

module _ (by_name : List Group → List Group) (by_age : List Account → List Account) where
  unfoldable pub list_groups : Directory → List Roster
  list_groups d =
      map (λ g. record { group = g; member_ids = members_listed by_age g.id d }) (by_name d.groups)

  unfoldable pub replace_user_manual_groups :
      Text → List Text → Directory → Result GroupError Directory
  unfolding lifted
  replace_user_manual_groups user ids d = elim (user_by_id user d) [
    | none ↦ err (stored not_found)
    | some account ↦
        if all (one_of (manual_ids (list_groups d))) ids
        then lifted (regroup user ids (list_groups d) d)
        else err group_unknown
  ]

-- core.OrgUnit.
pub record OrgUnit : Type 0 where
  pub external_id : Text
  pub name : Text
  pub member_ids : List Text

unfoldable pub group_rune : ℕ → ℕ
group_rune r =
    if (leb b'a' r && leb r b'z')
      || (leb b'A' r && leb r b'Z')
      || (leb b'0' r && leb r b'9')
      || r == b'_'
    then r
    else b'_'

unfoldable pub feishu_group_id : Text → Text
unfolding group_rune
feishu_group_id external =
    codes "grp_fs_" ++ (if is_empty external then codes "dept" else map group_rune external)

module _ (by_open_id : Text → List Account → Option Account) where
  unfoldable pub known_members : List Text → List Account → List Text
  known_members [] users = []
  known_members (open_id ∷ rest) users =
      let others = known_members rest users in
      elim (by_open_id open_id users) [ none ↦ others | some user ↦ user.id ∷ others ]

  abbrev pub unit_group : OrgUnit → Group
  unit_group unit = record {
    id = feishu_group_id unit.external_id;
    name = unit.name;
    kind = codes "feishu_dept";
  }

  unfoldable pub sync_unit : OrgUnit → Write
  unfolding known_members
  sync_unit unit d =
      let after = upsert_group (unit_group unit) d in
      replace_members (feishu_group_id unit.external_id) (known_members unit.member_ids after.users)
        after

  -- The units that the organisation directory lists.
  unfoldable pub sync_directory : List OrgUnit → Write
  sync_directory [] d = ok d
  sync_directory (unit ∷ units) d = sync_unit unit d >>= sync_directory units
