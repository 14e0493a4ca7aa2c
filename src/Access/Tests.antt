-- ===== src/Access/Tests.antt =====
-- internal/app/identity/service.go and internal/platform/httpapi/content_access.go at concrete stores:
-- Ann is in the group of analysts, which a rule lets edit the sales project; one personal project is
-- Bob's.
use topbase.Prelude.{◌≡◌, refl, ◌⊎◌, true, false, ◌&&◌, [], ◌∷◌, some, arith, ok, if◌then◌else◌}
use topbase.Text.{codes, text_eq, lookup}
use topbase.Text.Laws.{text_eq-false}
use topbase.QueryIr.Values.{obj, str, end, entry}
use topbase.Access.{
  Service, User, Collection, is_admin, has_capability, can_access_project, granted_any,
  permission_graph, project_access_rules, rules_grant, rule_grants, rank_in, level_granted, granted,
}
use topbase.Access.Roles.{can_access_project_mono}
use topbase.Access.Content.{Item, Shelf, can_access_collection, can_access_found, personal-owner}

abbrev org : Service
org = record {
  has_member = λ group user. ok (text_eq group (codes "analysts") && text_eq user (codes "ann"));
  groups_for_user =
      λ user. if text_eq user (codes "ann") then ok (codes "analysts" ∷ []) else ok [];
  get = λ key. ok (some (codes "saved"));
  decode_graph =
      λ raw. ok ((codes "analysts", obj (entry (codes "data") (str (codes "curate")) end)) ∷ []);
  decode_rules = λ raw. ok (
      record { project_id = codes "sales"; group_id = codes "analysts"; role = codes "edit" } ∷ []);
}

abbrev ann : User
ann = record { id = codes "ann"; is_active = true }

abbrev bob : User
bob = record { id = codes "bob"; is_active = true }

abbrev visitor : User
visitor = record { id = []; is_active = false }

abbrev sales : Collection
sales = record {
  id = codes "sales";
  kind = codes "project";
  personal_owner_user_id = [];
  owner_group_id = [];
}

abbrev bobs : Collection
bobs = record {
  id = codes "bobs";
  kind = codes "personal_project";
  personal_owner_user_id = codes "bob";
  owner_group_id = [];
}

abbrev shelf : Shelf
shelf = record { by_id = λ id. ok bobs; is_shared_with = λ id user. ok true }

abbrev draft : Item
draft = record { collection_id = codes "bobs"; created_by = codes "bob" }

ann_edits : can_access_project org ann sales (codes "edit") ≡ true
unfolding can_access_project is_admin text_eq granted_any permission_graph granted lookup
    rules_grant project_access_rules rule_grants rank_in
ann_edits = refl

can_access_project_mono_example : can_access_project org ann sales (codes "view") ≡ true
unfolding rank_in lookup text_eq
can_access_project_mono_example =
    can_access_project_mono org ann sales (codes "edit") (codes "view") (omega arith) ann_edits

ann_curates : has_capability org (codes "ann") (codes "data") (codes "curate") ≡ true
unfolding has_capability is_admin text_eq granted_any permission_graph granted lookup level_granted
    rank_in
ann_curates = refl

bob_edits : can_access_collection org shelf bob (codes "bobs") (codes "edit") ≡ true
unfolding can_access_collection can_access_found can_access_project is_admin text_eq granted_any
    permission_graph
bob_edits = refl

personal-owner_example : (is_admin org (codes "bob") ≡ true) ⊎ (codes "bob" ≡ codes "bob")
unfolding text_eq
personal-owner_example =
    personal-owner org shelf bob (codes "bobs") (codes "edit") bobs refl refl
      (text_eq-false (codes "edit") (codes "view") refl) bob_edits
