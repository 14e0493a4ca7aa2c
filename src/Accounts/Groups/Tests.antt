-- ===== src/Accounts/Groups/Tests.antt =====
-- Groups at work: two users and three groups, and the theorems at these tables.
use topbase.Prelude.{◌≡◌, refl, true, List, [], ◌∷◌, none, find, ok, err, value_of}
use topbase.Text.{Text, codes, text_eq}
use topbase.Accounts.{Account, Group, Directory, Error, has_member}
use topbase.Accounts.Groups.{
  GroupError, group_unknown, make_group, name_required, replace_user_manual_groups,
  replace_group_members, not_manual, member_unknown, OrgUnit, feishu_group_id, sync_directory,
}
use topbase.Accounts.Groups.Manual.{replace_user_manual_groups_refined, assigned, manual_group}

abbrev user : Text → Account
user id = record {
  id = id;
  email = id;
  name = id;
  locale = [];
  theme = [];
  is_active = true;
  password_hash = [];
}

abbrev group : Text → Text → Group
group id kind = record { id = id; name = id; kind = kind }

abbrev ann : Text
ann = codes "ann"

abbrev bob : Text
bob = codes "bob"

abbrev sales : Text
sales = codes "sales"

abbrev ops : Text
ops = codes "ops"

abbrev admins : Text
admins = codes "grp_admins"

abbrev tables : Directory
tables = record {
  users = user ann ∷ user bob ∷ [];
  groups =
      group admins (codes "system")
      ∷ group sales (codes "manual")
      ∷ group ops (codes "manual")
      ∷ [];
  members = (admins, ann) ∷ (sales, ann) ∷ (sales, bob) ∷ [];
  sessions = [];
  links = [];
  settings = [];
  auth_settings = none;
}

abbrev moved : Directory
moved = record tables { members = (admins, ann) ∷ (sales, bob) ∷ (ops, ann) ∷ [] }

moved_test : replace_user_manual_groups (λ gs. gs) (λ us. us) ann (ops ∷ []) tables ≡ ok moved
unfolding replace_user_manual_groups topbase.Accounts.user_by_id text_eq topbase.Text.one_of
    topbase.Accounts.Groups.manual_ids topbase.Accounts.Groups.list_groups
    topbase.Accounts.Groups.is_manual topbase.Accounts.Groups.regroup
    topbase.Accounts.Groups.replace_members topbase.Accounts.Groups.add_members
    topbase.Accounts.Groups.regrouped topbase.Accounts.Groups.members_listed has_member
    topbase.Accounts.add_member topbase.Accounts.Groups.delete_members
moved_test = refl

system_test :
    replace_user_manual_groups (λ gs. gs) (λ us. us) ann (admins ∷ []) tables ≡ err group_unknown
unfolding replace_user_manual_groups topbase.Accounts.user_by_id text_eq topbase.Text.one_of
    topbase.Accounts.Groups.manual_ids topbase.Accounts.Groups.list_groups
    topbase.Accounts.Groups.is_manual
system_test = refl

members_tests :
    (replace_group_members (λ gs. gs) admins (bob ∷ []) tables ≡ err not_manual)
    × (replace_group_members (λ gs. gs) sales (bob ∷ codes "eve" ∷ []) tables ≡ err member_unknown)
unfolding replace_group_members text_eq topbase.Accounts.Groups.is_manual
    topbase.Accounts.Groups.valid_members topbase.Text.one_of topbase.Accounts.user_by_id
members_tests = (refl, refl)

unnamed_test : make_group sales (codes "  ") tables ≡ err name_required
unfolding make_group topbase.Text.trim_space
unnamed_test = refl

-- Two departments of the organisation are one group.
shared_id_test : feishu_group_id (codes "od-1") ≡ feishu_group_id (codes "od_1")
unfolding feishu_group_id
shared_id_test = refl

replace_user_manual_groups_refined_example :
    (rows : List (Text × Text)) × (replace_user_manual_groups
        (λ gs. gs)
        (λ us. us)
        ann
        (ops ∷ [])
        tables
      ≡ ok (record tables { members = rows }))
    × ((g v : Text)
        → has_member g v (record tables { members = rows }) ≡ assigned ann (ops ∷ []) tables g v)
unfolding topbase.Accounts.user_by_id text_eq manual_group topbase.Accounts.Groups.is_manual
replace_user_manual_groups_refined_example =
    replace_user_manual_groups_refined (λ gs. gs) (λ us. us) (λ p gs. refl) (λ p us. refl) ann
      (ops ∷ []) tables (user ann) refl refl

-- A unit whose one known member is ann.
synced_test :
    has_member (codes "grp_fs_od_1") ann (
      value_of tables (
        sync_directory
          (λ open_id us. find (λ u. text_eq u.id open_id) us)
          (record {
            external_id = codes "od-1";
            name = codes "Sales";
            member_ids = codes "eve" ∷ ann ∷ [];
          }
            ∷ [])
          tables))
    ≡ true
unfolding has_member sync_directory topbase.Accounts.Groups.sync_unit
    topbase.Accounts.Groups.replace_members topbase.Accounts.Groups.add_members
    topbase.Accounts.Groups.upsert_group text_eq feishu_group_id topbase.Accounts.add_member
    topbase.Accounts.Groups.delete_members
synced_test = refl
