-- ===== src/Access/Content.antt =====
-- internal/platform/httpapi/content_access.go: access to collections, analyses and dashboards.
use topbase.Prelude.{
  ◌≡◌, ◌≢◌, ◌⊎◌, Bool, true, false, not, ◌&&◌, ◌||◌, [], arith, if◌then◌else◌, is_empty, Result, ok,
}
use topbase.Text.{Text, codes, text_eq}
use topbase.Text.Laws.{text_eq_iff}
use topbase.Access.{Service, User, Collection, Failure, ok_and, is_admin, can_access_project}

-- A question or a dashboard, as far as access goes.
pub record Item : Type 0 where
  pub collection_id : Text
  pub created_by : Text

-- Collections.ByID and IsCollectionSharedWith of the store.
pub record Shelf : Type 0 where
  pub by_id : Text → Result Failure Collection
  pub is_shared_with : Text → Text → Result Failure Bool

unfoldable pub can_access_found : Service → Shelf → User → Text → Text → Collection → Bool
can_access_found s shelf user id required collection =
    can_access_project s user collection required
    || (text_eq required (codes "view")
        && text_eq collection.kind (codes "personal_project")
        && ok_and (shelf.is_shared_with id user.id) (λ shared. shared))

unfoldable pub can_access_collection : Service → Shelf → User → Text → Text → Bool
can_access_collection s shelf user id required =
    not (is_empty user.id)
    && not (is_empty id)
    && ok_and (shelf.by_id id) (can_access_found s shelf user id required)

-- canAccessQuestion, and canAccessDashboard, which has the same body.
unfoldable pub can_access_item : Service → Shelf → User → Item → Text → Bool
can_access_item s shelf user item required =
    if is_admin s user.id
    then true
    else if not (is_empty item.collection_id)
    then can_access_collection s shelf user item.collection_id required
    else not (is_empty item.created_by) && text_eq item.created_by user.id

-- In a personal project nobody but its owner and the administrators may do more than view, whatever
-- the rules, the groups and the shares.
pub personal-owner :
    (s : Service) (shelf : Shelf) (user : User) (id required : Text) (c : Collection)
    → shelf.by_id id ≡ ok c
    → c.kind ≡ codes "personal_project"
    → required ≢ codes "view"
    → can_access_collection s shelf user id required ≡ true
    → (is_admin s user.id ≡ true) ⊎ (c.personal_owner_user_id ≡ user.id)
unfolding can_access_collection can_access_found can_access_project
personal-owner s shelf user id required c found personal more e = ground (
  arith,
  text_eq_iff required (codes "view"),
  text_eq_iff c.kind (codes "personal_project"),
  text_eq_iff c.personal_owner_user_id user.id,
)

-- A visitor who is not signed in may do nothing with any analysis or dashboard.
anonymous_denied :
    (s : Service) (shelf : Shelf) (user : User) (item : Item) (required : Text)
    → user.id ≡ []
    → can_access_item s shelf user item required ≡ false
unfolding can_access_item can_access_collection is_admin
anonymous_denied s shelf user item required h = ground (arith, text_eq_iff item.created_by user.id)
