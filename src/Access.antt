-- ===== src/Access.antt =====
-- internal/app/identity/service.go and internal/platform/httpapi/content_access.go: who may do what.
--
-- The stores and the JSON decoder are the fields of `Service`: IsAdmin and the others only read them.
-- A service has its stores configured, as cmd/topbase/main.go makes it.
pub mod Roles
pub mod Content
mod Tests
use topbase.Prelude.{
  ℕ, Bool, true, false, not, ◌&&◌, ◌||◌, List, [], ◌∷◌, Option, none, some, ltb, leb, ◌==◌,
  if◌then◌else◌, any, is_empty, Result, ok, err,
}
use topbase.Text.{Text, codes, text_eq, lookup}
use topbase.QueryIr.Values.{Value, str, obj, null, Entries, end, entry}

-- An error of a store or of the decoder; the code only asks whether there is one.
pub data Failure : Type 0 where
  failed : Failure

-- PermissionGraph.DataGraph, and ProjectAccessRule of internal/core/content.go.
abbrev pub DataGraph : Type 0
DataGraph = List (Text × Value)

pub record ProjectAccessRule : Type 0 where
  pub project_id : Text
  pub group_id : Text
  pub role : Text

pub record User : Type 0 where
  pub id : Text
  pub is_active : Bool

pub record Collection : Type 0 where
  pub id : Text
  pub kind : Text
  pub personal_owner_user_id : Text
  pub owner_group_id : Text

-- HasMember and GroupsForUser of the group store, Get of the settings (none: no such key), and
-- json.Unmarshal into a graph and into a list of rules.
pub record Service : Type 0 where
  pub has_member : Text → Text → Result Failure Bool
  pub groups_for_user : Text → Result Failure (List Text)
  pub get : Text → Result Failure (Option Text)
  pub decode_graph : Text → Result Failure DataGraph
  pub decode_rules : Text → Result Failure (List ProjectAccessRule)

-- A setting that holds JSON: `empty` where it is missing or "".
setting {ℓ} :
    {A : Type ℓ} → (Text → Result Failure A) → A → Result Failure (Option Text) → Result Failure A
setting decode empty (err e) = err e
setting decode empty (ok none) = ok empty
setting decode empty (ok (some raw)) = if is_empty raw then ok empty else decode raw

unfoldable pub permission_graph : Service → Result Failure DataGraph
unfolding setting
permission_graph s = setting s.decode_graph [] (s.get (codes "permission_graph"))

unfoldable pub project_access_rules : Service → Result Failure (List ProjectAccessRule)
unfolding setting
project_access_rules s = setting s.decode_rules [] (s.get (codes "project_access_rules"))

-- `values[key].(string)`, with "" where that is no string or missing.
text_of : Value → Text
text_of (str t) = t
text_of v = []

unfoldable pub string_at : Text → Entries → Text
unfolding text_of
string_at key end = []
string_at key (entry k v es) =
    let rest = string_at key es in if text_eq key k then text_of v else rest

-- What the graph grants a group: graph.DataGraph[group].(map[string]any), then its string.
unfoldable pub granted : DataGraph → Text → Text → Text
unfolding string_at
granted graph capability group = elim (lookup group graph) [
  | some (obj values) ↦ string_at capability values
  | _ ↦ []
]

-- `if err != nil { return false }` before a test.
abbrev pub ok_and {ℓ} : {A : Type ℓ} → Result Failure A → (A → Bool) → Bool
ok_and (ok a) test = test a
ok_and (err e) test = false

-- Whether one of the user's groups is granted a level that passes the test.
unfoldable pub granted_any : Service → Text → Text → (Text → Bool) → Bool
granted_any s user capability passes =
    ok_and (permission_graph s) λ graph.
      ok_and (s.groups_for_user user) (any λ group. passes (granted graph capability group))

unfoldable pub is_admin : Service → Text → Bool
is_admin s user =
    not (is_empty user)
    && (ok_and (s.has_member (codes "grp_admins") user) (λ found. found)
        || granted_any s user (codes "admin") (λ role. text_eq role (codes "admin")))

-- The levels of the capabilities; a level that a table lacks counts 0.
abbrev pub levels : Text → Option (List (Text × ℕ))
levels capability = lookup capability (
    (codes "data", (codes "none", 0) ∷ (codes "view", 1) ∷ (codes "curate", 2) ∷ [])
    ∷ (codes "sql", (codes "none", 0) ∷ (codes "query", 1) ∷ (codes "native", 2) ∷ [])
    ∷ [])

unfoldable pub rank_in : List (Text × ℕ) → Text → ℕ
rank_in table name = elim (lookup name table) [ none ↦ 0 | some n ↦ n ]

unfoldable pub level_granted : Service → Text → Text → Text → Option (List (Text × ℕ)) → Bool
level_granted s user capability required none = false
level_granted s user capability required (some table) =
    not (rank_in table required == 0)
    && granted_any s user capability (λ level. leb (rank_in table required) (rank_in table level))

unfoldable pub has_capability : Service → Text → Text → Text → Bool
has_capability s user capability required =
    is_admin s user || level_granted s user capability required (levels capability)

abbrev pub roles : List (Text × ℕ)
roles = (codes "view", 1) ∷ (codes "edit", 2) ∷ (codes "manage", 3) ∷ []

-- A rule that grants the project at the role's rank or above to a group of the user.
unfoldable pub rule_grants : Service → Text → Text → ℕ → ProjectAccessRule → Bool
rule_grants s user project need rule =
    text_eq rule.project_id project
    && leb need (rank_in roles rule.role)
    && ok_and (s.has_member rule.group_id user) (λ found. found)

unfoldable pub rules_grant : Service → Text → Text → ℕ → Bool
rules_grant s user project need =
    ok_and (project_access_rules s) (any (rule_grants s user project need))

unfoldable pub can_access_project : Service → User → Collection → Text → Bool
can_access_project s user project required =
    if is_empty user.id
    then false
    else if is_admin s user.id
    then true
    else if text_eq project.kind (codes "personal_project")
    then text_eq project.personal_owner_user_id user.id
    else if not (is_empty project.owner_group_id)
        && ok_and (s.has_member project.owner_group_id user.id) (λ found. found)
    then true
    else rules_grant s user.id project.id (rank_in roles required)
